-- ===== src/Kernel.antt =====
-- The file system of sdbfs/kernel: directories are the tables of a device, as
-- sdbfs/kernel/sdbfs-inode.c reads, lists and searches them.
pub mod Listing
pub mod Lookup
pub mod Loaded
pub mod Devices
pub mod File
pub mod Mount
pub mod Loading
pub mod Tests
use fpga_config_space.Base.{
  strncpy, ℕ, zero, suc, ◌+◌, ◌-◌, ◌*◌, ◌/◌, ◌%◌, ◌^◌, List, [], ◌∷◌, Option, none, some, Bool,
  true, false, not, ◌&&◌, ◌==◌, if◌then◌else◌, get_or, take, drop, length,
}
use mathlib.Core.Option.{map}
use fpga_config_space.Endian.{Host, htonl, load32}
use fpga_config_space.Sdb.{
  Sdb, sdb_magic, sdb_type_bridge, record_type, records_of, name_of, convert_words,
}

-- SDBFS_INO and SDBFS_OFFSET. The offset is kept in 32 bits.
abbrev pub sdbfs_ino : ℕ → ℕ
sdbfs_ino offset = offset + 2

abbrev pub sdbfs_offset : ℕ → ℕ
sdbfs_offset ino = ino / 16 * 16 % 2 ^ 32

-- The device: `read` at a 32-bit offset gives the 64 bytes of a record, or none if it does not give
-- all of them.
pub record SdbfsDev : Type 0 where
  pub fixendian : Bool
  pub read : ℕ → Option Sdb

-- struct sdbfs_info
pub record Info : Type 0 where
  pub s_d : Sdb
  pub name : List ℕ
  pub namelen : ℕ

-- The fields of a directory in `struct sdbfs_inode`: `nfiles` is the length of `files`.
pub record Inode : Type 0 where
  pub files : List Info
  pub base_sdb : ℕ

abbrev pub fix_endian : Host → SdbfsDev → Sdb → Sdb
fix_endian h sd r = if not sd.fixendian then r else convert_words h r

abbrev pub read_record : Host → SdbfsDev → (offset : ℕ) → Option Sdb
read_record h sd offset = map (fix_endian h sd) (sd.read (offset % 2 ^ 32))

-- The loop that takes the blanks off the end of a name: `j` when it ends.
abbrev pub trimmed : (j : ℕ) → List ℕ → ℕ
trimmed zero name = zero
trimmed (suc j) name =
    let rest = trimmed j name in if not (get_or name j 0 == 0x20) then suc j else rest

-- What the loop of sdbfs_read_whole_dir stores for a record.
abbrev pub info_of : Sdb → Info
info_of r =
    let name = strncpy 19 (name_of r) in
    record { s_d = r; name = take (trimmed 19 name) name; namelen = trimmed 19 name }

abbrev pub with_record : Option Sdb → Option (List Info) → Option (List Info)
with_record none rest = none
with_record (some r) rest = map (λ l. info_of r ∷ l) rest

unfoldable pub read_files : Host → SdbfsDev → (n offset : ℕ) → Option (List Info)
read_files h sd zero offset = some []
read_files h sd (suc n) offset =
    with_record (read_record h sd offset) (read_files h sd n (offset + 64))

abbrev pub enomem : ℕ
enomem = 12

abbrev pub eio : ℕ
eio = 5

abbrev pub einval : ℕ
einval = 22

abbrev pub store_files : Inode → Option (List Info) → ℕ × Inode
store_files inode none = (eio, record inode { files = [] })
store_files inode (some files) = (0, record inode { files = files })

-- From the interconnect on, with what kmalloc answers for the files.
abbrev pub with_interconnect : Host → SdbfsDev → (memory : Bool) → Inode → Option Sdb → ℕ × Inode
with_interconnect h sd memory inode none = (eio, inode)
with_interconnect h sd memory inode (some r) =
    if not (load32 h r 0 == htonl h sdb_magic)
    then (einval, inode)
    else if not memory
    then (enomem, record inode { files = [] })
    else store_files inode (read_files h sd (records_of h r) inode.base_sdb)

-- sdbfs_read_whole_dir, with what kmalloc answers. An error is its positive number.
unfoldable pub read_whole_dir : Host → SdbfsDev → (memory memory_files : Bool) → Inode → ℕ × Inode
read_whole_dir h sd memory memory_files inode =
    if not (length inode.files == 0)
    then (0, inode)
    else if not memory
    then (enomem, inode)
    else with_interconnect h sd memory_files inode (read_record h sd inode.base_sdb)

-- What `filldir` is given.
pub record Dirent : Type 0 where
  pub name : List ℕ
  pub ino : ℕ
  pub is_dir : Bool

abbrev pub dot : (self : ℕ) → Dirent
dot self = record { name = 0x2e ∷ []; ino = self; is_dir = true }

abbrev pub dotdot : (parent : ℕ) → Dirent
dotdot parent = record { name = 0x2e ∷ 0x2e ∷ []; ino = parent; is_dir = true }

-- The offset is the one of the table for every file.
abbrev pub dirent : (base_sdb : ℕ) → Info → Dirent
dirent base_sdb info = record {
  name = info.name;
  ino = sdbfs_ino base_sdb;
  is_dir = record_type info.s_d == sdb_type_bridge;
}

-- The loop of sdbfs_readdir: `filldir` has room for `room` entries more.
unfoldable pub fill_files : (room base_sdb : ℕ) → List Info → List Dirent
fill_files zero base_sdb files = []
fill_files (suc room) base_sdb [] = []
fill_files (suc room) base_sdb (f ∷ files) = dirent base_sdb f ∷ fill_files room base_sdb files

-- The entries, and `f_pos`.
abbrev pub files_stage : (room pos : ℕ) → Inode → List Dirent × ℕ
files_stage room pos inode =
    let es = fill_files room inode.base_sdb (drop (pos - 2) inode.files) in (es, pos + length es)

abbrev pub after : Dirent → List Dirent × ℕ → List Dirent × ℕ
after e (es, pos) = (e ∷ es, pos)

-- From `f_pos == 1` on, at the positions 1 and more.
unfoldable pub dotdot_stage : (parent room pos : ℕ) → Inode → List Dirent × ℕ
dotdot_stage parent room (suc (suc pos)) inode = files_stage room (suc (suc pos)) inode
dotdot_stage parent zero pos inode = ([], pos)
dotdot_stage parent (suc room) pos inode = after (dotdot parent) (files_stage room 2 inode)

-- sdbfs_readdir, of a directory that is read.
unfoldable pub readdir : (self parent room pos : ℕ) → Inode → List Dirent × ℕ
readdir self parent room (suc pos) inode = dotdot_stage parent room (suc pos) inode
readdir self parent zero zero inode = ([], zero)
readdir self parent (suc room) zero inode = after (dot self) (dotdot_stage parent room 1 inode)

-- strncmp says that the names are the same.
unfoldable pub strncmp_same : (n : ℕ) → List ℕ → List ℕ → Bool
strncmp_same zero a b = true
strncmp_same (suc n) a b =
    let rest = strncmp_same n (drop 1 a) (drop 1 b) in
    if not (get_or a 0 0 == get_or b 0 0) then false else if get_or a 0 0 == 0 then true else rest

-- The loop of sdbfs_lookup: the index at which it breaks off.
unfoldable pub search : List ℕ → (i : ℕ) → List Info → Option ℕ
search name i [] = none
search name i (f ∷ files) =
    let rest = search name (suc i) files in
    if not (f.namelen == length name)
    then rest
    else if strncmp_same (length name) f.name name
    then some i
    else rest

-- sdbfs_lookup, of a directory that is read: the inode that it gets, if any.
unfoldable pub lookup : List ℕ → Inode → Option ℕ
lookup name inode = map (λ i. sdbfs_ino (inode.base_sdb + 64 * i)) (search name 0 inode.files)

-- The record that sdbfs_iget reads for an inode.
abbrev pub iget_record : Host → SdbfsDev → (ino : ℕ) → Option Sdb
iget_record h sd ino = read_record h sd (sdbfs_offset ino)
