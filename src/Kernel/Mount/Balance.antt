-- ===== src/Kernel/Mount/Balance.antt =====
-- How often a mount takes the module of its device, and gives it back.
use fpga_config_space.Base.{
  ℕ, ◌+◌, List, Option, none, some, Bool, true, false, if◌then◌else◌, ◌==◌, ◌≡◌, ◌≢◌, ◌⊎◌, inl, inr,
  refl, arith,
}
use fpga_config_space.Endian.{Host, htonl}
use fpga_config_space.Sdb.{sdb_magic}
use fpga_config_space.Kernel.{SdbfsDev, enomem}
use fpga_config_space.Kernel.Devices.{Dev, Devices, taken, named, sdbfs_get_by_name, sdbfs_put}
use fpga_config_space.Kernel.Mount.{
  Locked, no_memory, cached, fresh, Iget, failed, inode, Super, Answers, rooted, with_device,
  sdbfs_iget, sdbfs_fill_super, sdbfs_kill_sb,
}

-- Between two states, modules are given back as often as they are taken; or once too often.
abbrev pub IsBalanced : Devices → Devices → Type 0
IsBalanced s s' = s'.gets + s.puts ≡ s'.puts + s.gets

abbrev pub IsOverput : Devices → Devices → Type 0
IsOverput s s' = s'.gets + s.puts + 1 ≡ s'.puts + s.gets

-- A mount with the end of its super block.
abbrev pub IsMounted : Devices → ℕ × Super × Devices → Type 0
IsMounted s (err, sb, s') =
    ((err ≢ enomem) × IsBalanced s (sdbfs_kill_sb sb s'))
    ⊎ ((err ≡ enomem) × IsOverput s (sdbfs_kill_sb sb s'))

-- The root inode is there, or there is no memory for it.
abbrev IsRoot : Iget → Type 0
IsRoot (failed err) = err ≡ enomem
IsRoot (inode v) = Unit {0}

iget-IsRoot :
    (h : Host) (sd : SdbfsDev) (entrypoint size : ℕ) (l : Locked)
    → IsRoot (sdbfs_iget h sd entrypoint size none 1 l)
unfolding sdbfs_iget
iget-IsRoot h sd entrypoint size no_memory = refl
iget-IsRoot h sd entrypoint size (cached v) = tt
iget-IsRoot h sd entrypoint size (fresh v) = tt

-- The super block of a device, and the devices once its module is taken.
abbrev found_super : Dev → (root turned : Bool) → Super
found_super d root turned = record { s_fs_info = some d; s_root = root; fixendian = turned }

abbrev held : Devices → Devices
held s = record s { gets = s.gets + 1 }

module _ (a : Answers) (d : Dev) (s : Devices) where
  rooted-IsMounted :
      (root turned made : Bool) (i : Iget)
      → a.d_make_root ≡ made
      → IsRoot i
      → IsMounted s (rooted a (found_super d root turned) (held s) i)
  unfolding sdbfs_kill_sb sdbfs_put
  rooted-IsMounted root turned made (failed err) m e = inr (e, omega arith)
  rooted-IsMounted root turned true (inode v) m r = rw (m) (inl (omega arith, omega arith))
  rooted-IsMounted root turned false (inode v) m r = rw (m) (inr (refl, omega arith))

  if-IsMounted :
      (b : Bool) (x y : ℕ × Super × Devices)
      → IsMounted s x
      → IsMounted s y
      → IsMounted s (if b then x else y)
  if-IsMounted true x y p q = p
  if-IsMounted false x y p q = q

module _ (h : Host) (a : Answers) (sd : SdbfsDev) (root turned : Bool) (s : Devices) where
  abbrev bare : Super
  bare = record { s_fs_info = none; s_root = root; fixendian = turned }

  -- With or without the module of a device.
  taken-IsMounted :
      (d : Dev) (live : Bool)
      → IsMounted s (with_device h a sd bare (if live then (some d, held s) else (none, s)))
  unfolding sdbfs_kill_sb sdbfs_put
  taken-IsMounted d false = inl (omega arith, omega arith)
  taken-IsMounted d true =
      let root_is = iget-IsRoot h sd d.entrypoint d.size a.iget_locked in
      let i = sdbfs_iget h sd d.entrypoint d.size none 1 a.iget_locked in
      if-IsMounted a d s (a.magic d == htonl h sdb_magic) _ _
        (rooted-IsMounted a d s root turned a.d_make_root i refl root_is)
        (if-IsMounted a d s (a.magic d == sdb_magic) _ _
          (rooted-IsMounted a d s root true a.d_make_root i refl root_is)
          (inl (omega arith, omega arith)))

  named-IsMounted : (o : Option Dev) → IsMounted s (with_device h a sd bare (taken a.live o s))
  unfolding sdbfs_kill_sb
  named-IsMounted none = inl (omega arith, omega arith)
  named-IsMounted (some d) = taken-IsMounted d (a.live d)

-- The super block that sdbfs_fill_super is given has no device yet. Once sdbfs_kill_sb has ended it, of
-- a mount that went well or of one that has failed, the module of the device has been given back as
-- often as it has been taken; but once too often where there is no memory for the root, which is the
-- only error that makes sdbfs_fill_super give it back too.
pub sdbfs_fill_super-IsMounted :
    (h : Host) (a : Answers) (sd : SdbfsDev) (root turned : Bool) (name : List ℕ) (s : Devices)
    → let sb : Super = record { s_fs_info = none; s_root = root; fixendian = turned } in
      IsMounted s (sdbfs_fill_super h a sd name sb s)
unfolding sdbfs_fill_super sdbfs_get_by_name
sdbfs_fill_super-IsMounted h a sd root turned name s =
    named-IsMounted h a sd root turned s (named name s.devlist)
