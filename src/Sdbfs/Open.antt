-- ===== src/Sdbfs/Open.antt =====
-- Opening by name and by identifier in sdbfs/lib/glue.c: `__open`, `sdbfs_open_name`,
-- `sdbfs_open_id`, `sdbfs_close`, `sdbfs_find_name` and `sdbfs_find_id`.
pub mod First
use fpga_config_space.Base.{
  ℕ, zero, suc, ◌+◌, ◌-◌, ◌%◌, ◌^◌, Option, none, some, List, Bool, true, false, not, ◌&&◌, ◌||◌,
  ◌==◌, ltb, if◌then◌else◌, bytes_eq, length, get_or, take,
}
use fpga_config_space.Endian.{Host}
use fpga_config_space.Sdb.{Sdb, addr_first_of, addr_last_of, vendor_id, device_id, name_of}
use fpga_config_space.Sdbfs.{Fs}
use fpga_config_space.Sdbfs.Scan.{Scan, crash, finished, found, add64, scan}

abbrev pub enoent : ℕ
enoent = 2

-- `unsigned long` a + 1 - b.
abbrev pub span64 : ℕ → ℕ → ℕ
span64 last first = (last + 1 + 2 ^ 64 - first) % 2 ^ 64

-- __open
unfoldable pub open_current : Host → Sdb → Fs → Fs
open_current h d fs = record fs {
  f_offset = add64 (fs.base fs.depth) (addr_first_of h d);
  f_len = span64 (addr_last_of h d) (addr_first_of h d);
  read_offset = 0;
}

-- 0 with the opened device, -ENOENT with the device as the search left it, or no return: a null
-- pointer was followed, or the fuel of the loop ran out.
pub data Opening : Type 0 where
  opened : Fs → Opening
  missing : Fs → Opening
  crashed : Opening
  out_of_fuel : Opening

-- The loop of both functions: `wanted` is the negation of the tests that `continue`.
unfoldable pub search_loop : Host → (Sdb → Bool) → ℕ → Scan → Opening
search_loop h wanted fuel crash = crashed
search_loop h wanted fuel (finished fs) = missing fs
search_loop h wanted zero (found d fs) = out_of_fuel
search_loop h wanted (suc fuel) (found d fs) =
    let rest = search_loop h wanted fuel (scan h fs false) in
    if wanted d then opened (open_current h d (record fs { currentp = some d })) else rest

-- The first call, `sdbfs_scan(fs, 1)`, is made for its effect alone.
unfoldable pub search_from : Host → (Sdb → Bool) → ℕ → Scan → Opening
search_from h wanted fuel crash = crashed
search_from h wanted fuel (finished fs) = search_loop h wanted fuel (scan h fs false)
search_from h wanted fuel (found d fs) = search_loop h wanted fuel (scan h fs false)

-- The name in a record is padded with blanks to 19 bytes.
unfoldable pub has_name : List ℕ → Sdb → Bool
has_name name d =
    bytes_eq name (take (length name) (name_of d))
    && (not (ltb (length name) 19) || (get_or (name_of d) (length name) 0 == b' '))

unfoldable pub has_id : Host → (vid did : ℕ) → Sdb → Bool
has_id h vid did d = (vid == vendor_id h d) && (did == device_id h d)

unfoldable pub open_name : Host → ℕ → Fs → List ℕ → Opening
open_name h fuel fs name =
    if ltb 19 (length name) then missing fs else search_from h (has_name name) fuel (scan h fs true)

unfoldable pub open_id : Host → ℕ → Fs → (vid did : ℕ) → Opening
open_id h fuel fs vid did = search_from h (has_id h vid did) fuel (scan h fs true)

unfoldable pub close : Fs → Fs
close fs = record fs { currentp = none }

-- The offset of the opened device, which is then closed; or the error, as an `unsigned long`.
unfoldable pub find_result : Opening → Option (ℕ × Fs)
find_result (opened fs) = some (fs.f_offset, close fs)
find_result (missing fs) = some (2 ^ 64 - enoent, fs)
find_result crashed = none
find_result out_of_fuel = none

unfoldable pub find_name : Host → ℕ → Fs → List ℕ → Option (ℕ × Fs)
find_name h fuel fs name = find_result (open_name h fuel fs name)

unfoldable pub find_id : Host → ℕ → Fs → (vid did : ℕ) → Option (ℕ × Fs)
find_id h fuel fs vid did = find_result (open_id h fuel fs vid did)
