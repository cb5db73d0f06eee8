-- ===== src/Kernel/Devices.antt =====
-- sdbfs/kernel/sdbfs-client.c: the list of the devices that may be mounted.
pub mod Named
use fpga_config_space.Base.{
  ℕ, ◌+◌, List, [], ◌∷◌, Option, none, some, Bool, if◌then◌else◌, ◌==◌, bytes_eq,
}

-- A `struct sdbfs_dev`: which one it is, its name, and what a mount looks at.
pub record Dev : Type 0 where
  pub id : ℕ
  pub name : List ℕ
  pub entrypoint : ℕ
  pub size : ℕ

-- sdbfs_devlist, and how often the modules of the devices have been taken and given back.
pub record Devices : Type 0 where
  pub devlist : List Dev
  pub gets : ℕ
  pub puts : ℕ

abbrev pub enoent : ℕ
enoent = 2

abbrev pub ebusy : ℕ
ebusy = 16

-- The first device of a name.
abbrev pub named : List ℕ → List Dev → Option Dev
named name [] = none
named name (d ∷ ds) = let rest = named name ds in if bytes_eq d.name name then some d else rest

-- What try_module_get answers for the device that is found.
abbrev pub taken : (live : Dev → Bool) → Option Dev → Devices → Option Dev × Devices
taken live none s = (none, s)
taken live (some d) s = if live d then (some d, record s { gets = s.gets + 1 }) else (none, s)

-- sdbfs_get_by_name: none is -ENOENT.
unfoldable pub sdbfs_get_by_name : (live : Dev → Bool) → List ℕ → Devices → Option Dev × Devices
sdbfs_get_by_name live name s = taken live (named name s.devlist) s

unfoldable pub sdbfs_put : Devices → Devices
sdbfs_put s = record s { puts = s.puts + 1 }

abbrev pub registered : Option Dev → Dev → Devices → ℕ × Devices
registered none sd s = (0, record s { devlist = sd ∷ s.devlist })
registered (some osd) sd s = (ebusy, s)

unfoldable pub sdbfs_register_device : Dev → Devices → ℕ × Devices
sdbfs_register_device sd s = registered (named sd.name s.devlist) sd s

-- list_del, if the device is in the list.
abbrev pub deleted : Dev → List Dev → List Dev
deleted sd [] = []
deleted sd (d ∷ ds) = let rest = deleted sd ds in if d.id == sd.id then ds else d ∷ rest

unfoldable pub sdbfs_unregister_device : Dev → Devices → Devices
sdbfs_unregister_device sd s = record s { devlist = deleted sd s.devlist }
