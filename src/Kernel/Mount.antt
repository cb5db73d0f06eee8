-- ===== src/Kernel/Mount.antt =====
-- sdbfs/kernel/sdbfs-core.c and `sdbfs_iget` of sdbfs/kernel/sdbfs-inode.c: a device is mounted, and its
-- records become inodes.
pub mod Balance
pub mod Tests
use fpga_config_space.Base.{
  ℕ, ◌+◌, ◌-◌, ◌%◌, ◌^◌, List, [], ◌∷◌, ◌++◌, Option, none, some, Bool, true, false, not, ◌||◌,
  if◌then◌else◌, ◌==◌, copies,
}
use fpga_config_space.Endian.{Host, htonl, htonll, ntohll, load64, store64}
use fpga_config_space.Sdb.{
  Sdb, sdb_magic, sdb_type_interconnect, sdb_type_device, sdb_type_bridge, record_type,
}
use fpga_config_space.Kernel.{SdbfsDev, eio, enomem, einval, iget_record}
use fpga_config_space.Kernel.Devices.{Dev, Devices, enoent, sdbfs_get_by_name, sdbfs_put}

-- i_mode and the operations of an inode; an unknown record leaves them as they were.
pub data Kind : Type 0 where
  regular directory unset : Kind

-- The parts of `struct sdbfs_inode` and of its `struct inode` that sdbfs_iget fills.
pub record Vnode : Type 0 where
  pub s_d : Sdb
  pub kind : Kind
  pub i_size : ℕ
  pub base_data : ℕ
  pub base_sdb : ℕ

-- The fake bridge of the root directory.
abbrev pub root_bridge : Host → (entrypoint size : ℕ) → Sdb
root_bridge h entrypoint size =
    store64 h (htonll h entrypoint)
    ++ (copies 8 0 ++ (store64 h (htonll h size) ++ (copies 39 0 ++ (sdb_type_bridge ∷ []))))

unfoldable pub sdbfs_iget_root : Host → (entrypoint size : ℕ) → Vnode
sdbfs_iget_root h entrypoint size = record {
  s_d = root_bridge h entrypoint size;
  kind = directory;
  i_size = size;
  base_data = 0;
  base_sdb = entrypoint;
}

-- What iget_locked gives: nothing, an inode that is there, or a new one with what its memory holds.
pub data Locked : Type 0 where
  no_memory : Locked
  cached : Vnode → Locked
  fresh : Vnode → Locked

pub data Iget : Type 0 where
  failed : (err : ℕ) → Iget
  inode : Vnode → Iget

abbrev pub first_data : Host → Sdb → ℕ
first_data h r = ntohll h (load64 h r 0x08)

abbrev pub data_size : Host → Sdb → ℕ
data_size h r = (ntohll h (load64 h r 0x10) + 2 ^ 64 - first_data h r + 1) % 2 ^ 64

-- The switch on the type of a record.
abbrev pub filled : Host → (parent : Vnode) → Sdb → Vnode → Vnode
filled h parent r v =
    if (record_type r == sdb_type_interconnect) || (record_type r == sdb_type_device)
    then record v {
      s_d = r;
      kind = regular;
      i_size = data_size h r;
      base_data = (parent.base_data + first_data h r) % 2 ^ 64;
    }
    else if record_type r == sdb_type_bridge
    then record v {
      s_d = r;
      kind = directory;
      base_data = (parent.base_data + first_data h r) % 2 ^ 64;
      base_sdb = (parent.base_data + ntohll h (load64 h r 0x00)) % 2 ^ 64;
    }
    else record v { s_d = r }

abbrev pub iget_new : Host → (parent : Vnode) → Vnode → Option Sdb → Iget
iget_new h parent v none = failed eio
iget_new h parent v (some r) = inode (filled h parent r v)

-- sdbfs_iget, with or without a parent.
unfoldable pub sdbfs_iget :
    Host → SdbfsDev → (entrypoint size : ℕ) → Option Vnode → (inum : ℕ) → Locked → Iget
sdbfs_iget h sd entrypoint size parent inum no_memory = failed enomem
sdbfs_iget h sd entrypoint size parent inum (cached v) = inode v
sdbfs_iget h sd entrypoint size none inum (fresh v) = inode (sdbfs_iget_root h entrypoint size)
sdbfs_iget h sd entrypoint size (some parent) inum (fresh v) =
    iget_new h parent v (iget_record h sd inum)

-- A super block: its device, and whether it has a root and whether the device wants its words turned.
pub record Super : Type 0 where
  pub s_fs_info : Option Dev
  pub s_root : Bool
  pub fixendian : Bool

-- What the kernel and the device answer to a mount: try_module_get; the word that is read at the entry
-- point; iget_locked for the root; and d_make_root.
pub record Answers : Type 0 where
  pub live : Dev → Bool
  pub magic : Dev → ℕ
  pub iget_locked : Locked
  pub d_make_root : Bool

-- An error, or 0, with the super block and the devices.
abbrev pub rooted : Answers → Super → Devices → Iget → ℕ × Super × Devices
rooted a sb s (failed err) = (err, sb, sdbfs_put s)
rooted a sb s (inode root) =
    if not a.d_make_root then (enomem, sb, sdbfs_put s) else (0, record sb { s_root = true }, s)

-- From the magic number on. The root is the inode 1, without a parent.
abbrev pub with_device :
    Host → Answers → SdbfsDev → Super → Option Dev × Devices → ℕ × Super × Devices
with_device h a sd sb (none, s) = (enoent, sb, s)
with_device h a sd sb (some d, s) =
    let found = record sb { s_fs_info = some d } in
    let turned = record sb { s_fs_info = some d; fixendian = true } in
    let root = sdbfs_iget h sd d.entrypoint d.size none 1 a.iget_locked in
    if a.magic d == htonl h sdb_magic
    then rooted a found s root
    else if a.magic d == sdb_magic
    then rooted a turned s root
    else (einval, found, s)

-- sdbfs_fill_super.
unfoldable pub sdbfs_fill_super :
    Host → Answers → SdbfsDev → (name : List ℕ) → Super → Devices → ℕ × Super × Devices
sdbfs_fill_super h a sd name sb s = with_device h a sd sb (sdbfs_get_by_name a.live name s)

abbrev pub put_device : Option Dev → Devices → Devices
put_device none s = s
put_device (some d) s = sdbfs_put s

-- sdbfs_kill_sb.
unfoldable pub sdbfs_kill_sb : Super → Devices → Devices
sdbfs_kill_sb sb s = put_device sb.s_fs_info s
