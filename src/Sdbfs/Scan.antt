-- ===== src/Sdbfs/Scan.antt =====
-- The scan of sdbfs/lib/glue.c: `sdbfs_readentry`, `scan_newdir` and `sdbfs_scan`.
pub mod Listing
pub mod Steps
pub mod Whole
pub mod Order
pub mod Pending
use fpga_config_space.Base.{
  ℕ, zero, suc, ◌+◌, ◌-◌, ◌%◌, ◌^◌, Option, none, some, List, [], ◌∷◌, ◌++◌, Bool, true, false, not,
  ◌&&◌, ◌||◌, ◌==◌, ltb, if◌then◌else◌, length, drop, update, window,
}
use fpga_config_space.Endian.{Host}
use fpga_config_space.Sdb.{
  Sdb, sizeof_device, sdb_magic, sdb_type_interconnect, sdb_type_bridge, record_type, magic_of,
  records_of, child_of, addr_first_of, convert_words,
}
use fpga_config_space.Sdbfs.{Fs, Method, max_depth}

-- The conversion at the end of `sdbfs_readentry`.
unfoldable pub readentry_local : Host → Fs → Sdb × Fs
readentry_local h fs =
    if fs.convert32
    then (
      convert_words h fs.current_record,
      record fs { current_record = convert_words h fs.current_record },
    )
    else (fs.current_record, fs)

-- `none` is a null pointer.
unfoldable pub readentry : Host → Fs → ℕ → Option (Sdb × Fs)
unfolding readentry_local
readentry h fs offset =
    if fs.mapped || fs.zerobased
    then if not fs.convert32
      then some (window fs.memory offset sizeof_device, fs)
      else some
          (readentry_local h (record fs { current_record = window fs.memory offset sizeof_device }))
    else elim fs.read [
      | none ↦ none
      | some read ↦ some (
          readentry_local h (record fs {
            current_record = (read (offset % 2 ^ 32) sizeof_device fs.current_record).1;
          }))
    ]

-- How a scan ends: a null pointer is followed, `NULL` is returned, or a record is.
pub data Scan : Type 0 where
  crash : Scan
  finished : Fs → Scan
  found : Sdb → Fs → Scan

-- `int` arithmetic: the pattern of n - 1.
abbrev pub dec32 : ℕ → ℕ
dec32 n = (n + (2 ^ 32 - 1)) % 2 ^ 32

abbrev pub add64 : ℕ → ℕ → ℕ
add64 a b = (a + b) % 2 ^ 64

-- The two tests of `scan_newdir` on the record that it reads.
unfoldable pub is_interconnect : Host → Sdb → Bool
is_interconnect h dev = (record_type dev == sdb_type_interconnect) && (magic_of h dev == sdb_magic)

unfoldable pub scan_newdir : Host → Fs → ℕ → Scan
scan_newdir h fs depth = elim (readentry h fs (fs.this depth)) [
  | none ↦ crash
  | some (dev, fs') ↦
      if is_interconnect h dev
      then found dev (record fs' {
        currentp = some dev;
        nleft = update fs'.nleft depth (dec32 (records_of h dev));
        this = update fs'.this depth (add64 (fs'.this depth) sizeof_device);
        depth = depth;
      })
      else finished (record fs' { currentp = some dev })
]

-- while (fs->nleft[depth] == 0): the level that has a record left, if any.
unfoldable pub climb : Fs → ℕ → Option ℕ × Fs
climb fs zero = if fs.nleft 0 == 0 then (none, fs) else (some 0, fs)
climb fs (suc d) =
    if fs.nleft (suc d) == 0 then climb (record fs { depth = d }) d else (some (suc d), fs)

-- The assignment at the label `out`.
unfoldable pub out : Host → Sdb → Fs → Scan
out h dev fs = found dev (record fs { f_offset = add64 (fs.base fs.depth) (addr_first_of h dev) })

-- Behind the `while` loop: the next record of the level that it stopped at.
unfoldable pub read_level : Host → Option ℕ × Fs → Scan
read_level h (none, fs) = finished fs
read_level h (some d, fs) = elim (readentry h fs (fs.this d)) [
  | none ↦ crash
  | some (dev, fs') ↦ out h dev (record fs' {
    currentp = some dev;
    this = update fs'.this d (add64 (fs'.this d) sizeof_device);
    nleft = update fs'.nleft d (dec32 (fs'.nleft d));
  })
]

-- From the `while` loop on.
unfoldable pub next_entry : Host → Fs → ℕ → Scan
next_entry h fs depth = read_level h (climb fs depth)

-- From the label `scan` on, with `newdir` set.
unfoldable pub enter : Host → Fs → ℕ → Scan
enter h fs depth = elim (scan_newdir h fs depth) [
  | crash ↦ crash
  | found dev fs' ↦ out h dev fs'
  | finished fs' ↦ elim depth [ zero ↦ finished fs' | suc d ↦ next_entry h fs' d ]
]

-- fs->currentp is a bridge, and there is room for one more level.
unfoldable pub is_bridge : Sdb → Bool
is_bridge dev = record_type dev == sdb_type_bridge

-- A call with `newscan` zero, after the record that `currentp` leads to.
unfoldable pub resume : Host → Fs → Option Sdb → Scan
resume h fs none = crash
resume h fs (some cur) =
    if is_bridge cur && ltb (fs.depth + 1) max_depth
    then enter h
        (record fs {
          this = update fs.this (fs.depth + 1) (add64 (fs.base fs.depth) (child_of h cur));
          base = update fs.base (fs.depth + 1) (add64 (fs.base fs.depth) (addr_first_of h cur));
        })
        (fs.depth + 1)
    else next_entry h fs fs.depth

unfoldable pub scan : Host → Fs → Bool → Scan
scan h fs true =
    enter h
      (record fs { base = update fs.base 0 0; this = update fs.this 0 fs.entrypoint; depth = 0 }) 0
scan h fs false = resume h fs fs.currentp
