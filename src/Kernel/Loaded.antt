-- ===== src/Kernel/Loaded.antt =====
-- How sdbfs_read_whole_dir of sdbfs/kernel/sdbfs-inode.c ends.
use fpga_config_space.Base.{
  ℕ, zero, suc, ◌+◌, List, [], ◌∷◌, Option, none, some, Bool, true, false, ◌==◌, ◌≡◌, ◌≢◌, refl,
  sym, ap, ◌*◌, ◌<◌, ◌≤◌, not, if◌then◌else◌, length, arith,
}
use fpga_config_space.Endian.{Host, htonl, load32}
use fpga_config_space.Sdb.{Sdb, sdb_magic, records_of}
use fpga_config_space.Kernel.{
  SdbfsDev, Info, Inode, enomem, eio, einval, info_of, read_record, read_files, with_record,
  store_files, with_interconnect, read_whole_dir,
}

-- The files are the records of a table, 64 bytes each, from number `i` on, in their order.
abbrev pub AreRead : Host → SdbfsDev → (base i : ℕ) → List Info → Type 0
AreRead h sd base i [] = Unit {0}
AreRead h sd base i (f ∷ files) =
    ((r : Sdb) × (read_record h sd (base + 64 * i) ≡ some r) × (f ≡ info_of r))
    × AreRead h sd base (suc i) files

-- What makes the reading of a directory fail, with the error.
pub data IsFailure (h : Host) (sd : SdbfsDev) (base : ℕ) (memory memory_files : Bool)
    : ℕ → Type 0 where
  no_memory : memory ≡ false → IsFailure h sd base memory memory_files enomem
  unread : read_record h sd base ≡ none → IsFailure h sd base memory memory_files eio
  wrong_magic :
      (r : Sdb)
      → read_record h sd base ≡ some r
      → load32 h r 0 ≢ htonl h sdb_magic
      → IsFailure h sd base memory memory_files einval
  no_files : memory_files ≡ false → IsFailure h sd base memory memory_files enomem
  unread_record :
      (r : Sdb) (i : ℕ)
      → read_record h sd base ≡ some r
      → i < records_of h r
      → read_record h sd (base + 64 * i) ≡ none
      → IsFailure h sd base memory memory_files eio

-- The table is there, and its records are the files; or there is an error, and no file.
pub data IsLoaded (h : Host) (sd : SdbfsDev) (base : ℕ) (memory memory_files : Bool)
    : ℕ × Inode → Type 0 where
  loaded :
      (r : Sdb) (files : List Info)
      → read_record h sd base ≡ some r
      → load32 h r 0 ≡ htonl h sdb_magic
      → length files ≡ records_of h r
      → AreRead h sd base 0 files
      → IsLoaded h sd base memory memory_files (0, record { files = files; base_sdb = base })
  failed :
      (err : ℕ)
      → IsFailure h sd base memory memory_files err
      → IsLoaded h sd base memory memory_files (err, record { files = []; base_sdb = base })

-- A result of read_files: as many files as were asked for, those of the table from `i` on; or one of
-- these records cannot be read.
abbrev IsFiled : Host → SdbfsDev → (base n i : ℕ) → Option (List Info) → Type 0
IsFiled h sd base n i none =
    (k : ℕ) × (i ≤ k) × (k < i + n) × (read_record h sd (base + 64 * k) ≡ none)
IsFiled h sd base n i (some files) = (length files ≡ n) × AreRead h sd base i files

with_record-IsFiled :
    (h : Host) (sd : SdbfsDev) (base n i : ℕ) (r : Option Sdb) (rest : Option (List Info))
    → read_record h sd (base + 64 * i) ≡ r
    → IsFiled h sd base n (suc i) rest
    → IsFiled h sd base (suc n) i (with_record r rest)
with_record-IsFiled h sd base n i none rest e l = (i, omega arith, omega arith, e)
with_record-IsFiled h sd base n i (some r) none e (k, le, lt, u) =
    (k, omega (arith, le), omega (arith, lt), u)
with_record-IsFiled h sd base n i (some r) (some files) e (l, others) =
    (ap suc l, ((r, e, refl), others))

read_files-IsFiled :
    (h : Host) (sd : SdbfsDev) (base n i offset : ℕ)
    → offset ≡ base + 64 * i
    → IsFiled h sd base n i (read_files h sd n offset)
unfolding read_files
read_files-IsFiled h sd base zero i offset e = (refl, tt)
read_files-IsFiled h sd base (suc n) i offset e =
    with_record-IsFiled h sd base n i (read_record h sd offset) (read_files h sd n (offset + 64))
      (ap (read_record h sd) (sym e))
      (read_files-IsFiled h sd base n (suc i) (offset + 64) (omega (arith, e)))

module _ (h : Host) (sd : SdbfsDev) (base : ℕ) where
  abbrev empty : Inode
  empty = record { files = []; base_sdb = base }

  store_files-IsLoaded :
      (memory memory_files : Bool) (r : Sdb) (read : Option (List Info))
      → read_record h sd base ≡ some r
      → load32 h r 0 ≡ htonl h sdb_magic
      → IsFiled h sd base (records_of h r) 0 read
      → IsLoaded h sd base memory memory_files (store_files empty read)
  store_files-IsLoaded memory memory_files r none there magic (k, _, lt, u) =
      failed eio (unread_record r k there (omega (arith, lt)) u)
  store_files-IsLoaded memory memory_files r (some files) there magic (l, records) =
      loaded r files there magic l records

  magic-IsLoaded :
      (memory memory_files : Bool) (r : Sdb)
      → read_record h sd base ≡ some r
      → (b : Bool) → (load32 h r 0 == htonl h sdb_magic) ≡ b
      → IsLoaded h sd base memory memory_files (
          if not b
          then (einval, empty)
          else if not memory_files
          then (enomem, empty)
          else store_files empty (read_files h sd (records_of h r) base))
  magic-IsLoaded memory memory_files r there false e =
      failed einval (wrong_magic r there (ground (arith, e)))
  magic-IsLoaded memory false r there true e = failed enomem (no_files refl)
  magic-IsLoaded memory true r there true e =
      store_files-IsLoaded memory true r (read_files h sd (records_of h r) base) there
        (ground (arith, e)) (read_files-IsFiled h sd base (records_of h r) 0 base (omega arith))

  interconnect-IsLoaded :
      (memory memory_files : Bool) (o : Option Sdb)
      → read_record h sd base ≡ o
      → IsLoaded h sd base memory memory_files (with_interconnect h sd memory_files empty o)
  interconnect-IsLoaded memory memory_files none there = failed eio (unread there)
  interconnect-IsLoaded memory memory_files (some r) there =
      magic-IsLoaded memory memory_files r there (load32 h r 0 == htonl h sdb_magic) refl

  -- sdbfs_read_whole_dir of a directory that is not read yet. It returns 0, the table at the base of the
  -- directory has the magic number, and the files are the records that its interconnect counts, one
  -- every 64 bytes from the base on, in their order. Or the directory has no file, and it returns
  -- -ENOMEM where there is no memory, -EIO where the interconnect or one of the records that it counts
  -- cannot be read, or -EINVAL where the magic number is another.
  pub read_whole_dir-IsLoaded :
      (memory memory_files : Bool)
      → IsLoaded h sd base memory memory_files (read_whole_dir h sd memory memory_files empty)
  unfolding read_whole_dir
  read_whole_dir-IsLoaded false memory_files = failed enomem (no_memory refl)
  read_whole_dir-IsLoaded true memory_files =
      interconnect-IsLoaded true memory_files (read_record h sd base) refl
