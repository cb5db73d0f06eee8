-- ===== src/Extract.antt =====
-- sdbfs/userspace/sdb-extract.c: the files of an image are written to a directory, with the lines of a
-- configuration file.
pub mod RoundTrip
pub mod Whole
pub mod Written
pub mod Tests
use fpga_config_space.Base.{
  ℕ, zero, suc, Option, none, some, false, ◌+◌, ◌-◌, ◌%◌, ◌^◌, List, [], ◌∷◌, Bool, not,
  if◌then◌else◌, ◌==◌, take, drop, length, bytes_eq, bit_and, c_string,
}
use fpga_config_space.Endian.{Host, htonl, ntohll, load32, load64}
use fpga_config_space.Sdbfs.{Fs}
use fpga_config_space.Sdbfs.Scan.{Scan, crash, finished, found, scan}
use fpga_config_space.Sdb.{Sdb, vendor_id, device_id, name_of, addr_first_of, addr_last_of}

abbrev pub cut_behind : ℕ → List ℕ → List ℕ
cut_behind c [] = if c == 0x20 then [] else c ∷ []
cut_behind c (d ∷ s) = c ∷ (d ∷ s)

-- The loop that removes blanks, as long as there is a last byte.
abbrev pub cut_blanks : List ℕ → List ℕ
cut_blanks [] = []
cut_blanks (c ∷ s) = cut_behind c (cut_blanks s)

-- The name of a record: 19 bytes and a terminator, without the blanks at the end.
abbrev pub file_name : Sdb → List ℕ
file_name r = cut_blanks (c_string (name_of r))

-- What is printed for a file into the configuration.
pub record Printed : Type 0 where
  pub name : List ℕ
  pub vendor : ℕ
  pub device : ℕ
  pub position : ℕ
  pub write : Bool

-- ntohl(d->bus_specific) & flag
abbrev pub has_flag : Host → (flag : ℕ) → Sdb → Bool
has_flag h flag r = not (bit_and (htonl h (load32 h r 4)) flag == 0)

-- SDB_DATA_WRITE and SDB_DATA_EXEC
abbrev pub flag_write : ℕ
flag_write = 2

abbrev pub flag_exec : ℕ
flag_exec = 1

-- `mode`: 0444, with 0222 and 0111 ORed in. They share no bit.
abbrev pub mode_of : (write exec : Bool) → ℕ
mode_of write exec =
    0b100100100 + (if write then 0b010010010 else 0) + (if exec then 0b001001001 else 0)

abbrev pub printed_of : Host → Sdb → Printed
printed_of h r = record {
  name = file_name r;
  vendor = ntohll h (vendor_id h r);
  device = htonl h (device_id h r);
  position = addr_first_of h r;
  write = has_flag h flag_write r;
}

-- The bytes that fwrite takes from the image, as many as there are of it.
abbrev pub bytes_of : Host → (image : List ℕ) → Sdb → List ℕ
bytes_of h image r =
    take ((addr_last_of h r + 1 + 2 ^ 64 - addr_first_of h r) % 2 ^ 64)
      (drop (addr_first_of h r) image)

-- How create_file ends: a name without an end is read in front of the buffer; the root directory has no
-- file; the file cannot be opened; or it is written, with its bytes and its mode.
pub data Created : Type 0 where
  out_of_bounds : Created
  root : Printed → Created
  unopened : Printed → Created
  created : Printed → (bytes : List ℕ) (mode : ℕ) → Created

-- create_file. `opened` is whether fopen gives a file for a name.
unfoldable pub create_file : Host → (opened : List ℕ → Bool) (image : List ℕ) → Sdb → Created
create_file h opened image r =
    if length (file_name r) == 0
    then out_of_bounds
    else if bytes_eq (file_name r) (0x2e ∷ [])
    then root (printed_of h r)
    else if not (opened (file_name r))
    then unopened (printed_of h r)
    else created (printed_of h r) (bytes_of h image r)
        (mode_of (has_flag h flag_write r) (has_flag h flag_exec r))

abbrev pub and_then : Created → Option (List Created) → Option (List Created)
and_then c none = none
and_then c (some cs) = some (c ∷ cs)

-- The loop of main, on fuel, from the answer of a call of sdbfs_scan on: main does not set `new` before
-- its first call, and the caller of this says what that call gave. None is a null pointer that was followed, or a
-- loop that has not ended.
unfoldable pub extract_all :
    Host → (opened : List ℕ → Bool) (image : List ℕ) (fuel : ℕ) → Scan → Option (List Created)
extract_all h opened image fuel crash = none
extract_all h opened image fuel (finished fs) = some []
extract_all h opened image zero (found d fs) = none
extract_all h opened image (suc fuel) (found d fs) =
    and_then (create_file h opened image d) (extract_all h opened image fuel (scan h fs false))
