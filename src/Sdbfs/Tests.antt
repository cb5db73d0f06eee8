-- ===== src/Sdbfs/Tests.antt =====
-- Runs of libsdbfs on a small image, and its theorems at that image: a root table with a bridge and a
-- device, and behind the bridge a table with one device.
use fpga_config_space.Base.{
  ℕ, zero, suc, ◌*◌, ◌^◌, Option, none, some, List, [], ◌∷◌, ◌++◌, true, false, ◌≡◌, refl, arith,
  get_or,
}
use fpga_config_space.Endian.{little, htonl, htons, htonll, ntohll, load16, load32, load64}
use fpga_config_space.Sdb.{
  magic_of, records_of, child_of, addr_first_of, vendor_id, device_id, name_of,
}
use fpga_config_space.Sdbfs.{Fs}
use fpga_config_space.Sdbfs.Scan.{
  scan, enter, scan_newdir, climb, next_entry, read_level, out, resume, readentry, is_bridge,
  is_interconnect,
}
use fpga_config_space.Sdbfs.Scan.Listing.{Entry, entry_at, table, contents, IsMapped}
use fpga_config_space.Sdbfs.Scan.Pending.{IsScanning}
use fpga_config_space.Sdbfs.Scan.Whole.{scan_all, scan_all-table}
use fpga_config_space.Sdbfs.Open.{open_name, open_id, has_id, has_name}
use fpga_config_space.Sdbfs.Open.First.{first, Opens, open_id-first, open_name-first}
use fpga_config_space.Sdbfs.Access.Reading.{IsReadable, cat, cat-file}

-- A word of zeros, and a 64-bit number below 256 in the order of the format.
abbrev zeros : ℕ → List ℕ
zeros zero = []
zeros (suc n) = 0 ∷ zeros n

abbrev long : ℕ → List ℕ
long n = zeros 7 ++ n ∷ []

-- A record: eight bytes of its own, the addresses, vendor, device, and the name of one letter.
abbrev make : List ℕ → (first last vendor device letter type : ℕ) → List ℕ
make head first last vendor device letter type =
    head
    ++ (long first
        ++ (long last
            ++ (long vendor
                ++ (zeros 3 ++ (device ∷ (zeros 8 ++ (letter ∷ (blanks 18 ++ type ∷ []))))))))
  where
    blanks : ℕ → List ℕ
    blanks zero = []
    blanks (suc n) = 32 ∷ blanks n

abbrev intercon : ℕ → List ℕ
intercon n = make (0x53 ∷ 0x44 ∷ 0x42 ∷ 0x2d ∷ 0 ∷ n ∷ 1 ∷ 0 ∷ []) 0 0xff 7 1 b'.' 0

-- The root table at 0, the inner one at 192, whose addresses are relative to 16.
abbrev pub image : List ℕ
image =
    intercon 3
    ++ (make (long 192) 16 40 7 2 b'b' 2
        ++ (make (zeros 8) 100 120 7 3 b'd' 1 ++ (intercon 2 ++ make (zeros 8) 4 12 7 4 b'e' 1)))

abbrev pub memory : ℕ → ℕ
memory i = get_or image i 0

abbrev pub device : Fs
device = record {
  name = some (b'x' ∷ []);
  entrypoint = 0;
  convert32 = false;
  zerobased = false;
  mapped = true;
  memory = memory;
  read = none;
  write = none;
  currentp = none;
  current_record = [];
  f_len = 0;
  f_offset = 0;
  read_offset = 0;
  base = λ i. 0;
  this = λ i. 0;
  nleft = λ i. 0;
  depth = 0;
}

pub device_mapped : IsMapped memory false device
device_mapped = record { direct = refl; same_memory = refl; same_order = refl }

-- Opening a definition of the scan opens all that a run calls.
run_offsets : Option (List Entry) → List ℕ
run_offsets none = []
run_offsets (some []) = []
run_offsets (some ((d, at) ∷ rest)) = at ∷ run_offsets (some rest)

scan_offsets :
    run_offsets (scan_all little 10 (scan little device true)) ≡ 0 ∷ 16 ∷ 16 ∷ 20 ∷ 100 ∷ []
unfolding run_offsets scan_all scan enter scan_newdir climb next_entry read_level out resume
    readentry is_bridge is_interconnect magic_of records_of child_of addr_first_of htonl htons
    htonll ntohll load16 load32 load64
scan_offsets = refl

scan_all-table_example :
    scan_all little 10 (scan little device true)
    ≡ some (table little (entry_at little false memory) 3 0 0)
unfolding table contents entry_at is_bridge is_interconnect magic_of records_of child_of
    addr_first_of htonl htons htonll ntohll load16 load32 load64
scan_all-table_example =
    scan_all-table little memory false device 10 device_mapped (λ i. omega arith) (omega arith)

-- In the middle of the scan, behind the root interconnect.
abbrev begun : Fs
begun = record device {
  currentp = some (entry_at little false memory 0);
  this = λ i. 64;
  nleft = λ i. 2;
}

begun-IsScanning : IsScanning little memory false begun
begun-IsScanning = record {
  device = record { direct = refl; same_memory = refl; same_order = refl };
  deep = omega arith;
  small = λ d. omega arith;
}

-- The entries behind the root interconnect.
abbrev files : List Entry
files =
    (entry_at little false memory 64, 16)
    ∷ (entry_at little false memory 192, 16)
    ∷ (entry_at little false memory 256, 20)
    ∷ (entry_at little false memory 128, 100)
    ∷ []

files-table :
    table little (entry_at little false memory) 3 0 0 ≡ (entry_at little false memory 0, 0) ∷ files
unfolding table contents entry_at is_bridge is_interconnect magic_of records_of child_of
    addr_first_of htonl htons htonll ntohll load16 load32 load64
files-table = refl

-- The identifiers of the inner device, as they lie in a little-endian memory.
abbrev inner_vendor : ℕ
inner_vendor = 7 * 2 ^ 56

abbrev inner_device : ℕ
inner_device = 4 * 2 ^ 24

open_id-first_example :
    Opens little
      (some (entry_at little false memory 256, 20))
      (open_id little 10 device inner_vendor inner_device)
unfolding entry_at has_id vendor_id device_id load64
open_id-first_example =
    open_id-first little device 10 (entry_at little false memory 0, 0) files device_mapped
      (λ i. omega arith) files-table (omega arith) inner_vendor inner_device

open_name-first_example :
    Opens little
      (some (entry_at little false memory 128, 100))
      (open_name little 10 device (b'd' ∷ []))
unfolding entry_at has_name name_of
open_name-first_example =
    open_name-first little device 10 (entry_at little false memory 0, 0) files device_mapped
      (λ i. omega arith) files-table (omega arith) (b'd' ∷ []) (omega arith)

-- An open file of three bytes at 44, "SDB" shifted by one.
abbrev open_device : Fs
open_device = record device {
  currentp = some (entry_at little false memory 0);
  f_offset = 1;
  f_len = 3;
}

open_device-IsReadable : IsReadable open_device
open_device-IsReadable = record {
  direct = refl;
  current = entry_at little false memory 0;
  open_file = refl;
  len_int = omega arith;
  inside = omega arith;
  no_wrap = omega arith;
}

cat-file_example : cat 4 open_device 2 (0 ∷ 0 ∷ []) ≡ some (0x44 ∷ 0x42 ∷ 0x2d ∷ [])
cat-file_example =
    cat-file 4 open_device 2 (0 ∷ 0 ∷ []) open_device-IsReadable refl (omega arith) (omega arith)
      (omega arith)
