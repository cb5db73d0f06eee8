-- ===== src/Kernel/Loading/Tests.antt =====
-- The modules of the devices loaded and unloaded at concrete parameters.
use fpga_config_space.Base.{◌+◌, ◌⊎◌, ℕ, List, [], ◌∷◌, some, ◌≡◌, ◌≢◌, refl}
use fpga_config_space.Endian.{little}
use fpga_config_space.Sdb.{sdb_magic}
use fpga_config_space.Kernel.Devices.{sdbfs_register_device, sdbfs_unregister_device}
use fpga_config_space.Kernel.Loading.{
  World, Io, Firmware, Scanned, sdbmem_parse, sdbmem_init, sdbmem_exit, fakedev_init, fakedev_exit,
}
use fpga_config_space.Kernel.Loading.Undone.{
  fakedev_exit-fakedev_init, IsUndone, sdbmem_exit-sdbmem_init,
}

abbrev world : World
world = record {
  devices = record { devlist = []; gets = 0; puts = 0 };
  acquired = 0;
  released = 0;
  refused = 0;
  added = 0;
}

-- An area of 4 KiB at 0x1000, whose memory starts with the magic number.
abbrev area : Scanned
area = record { items = 2; addr = 0x1000; size = 0x1000; entrypoint = 0 }

abbrev io : Io
io = record {
  plus = λ text. area;
  minus = λ text. area;
  ioremap = λ addr size. some addr;
  readl = λ addr. sdb_magic;
  slot = λ i. i;
}

-- `a@`, twice, and `b`, which has no @.
abbrev areas : List (List ℕ)
areas = (97 ∷ 64 ∷ []) ∷ (97 ∷ 64 ∷ []) ∷ (98 ∷ []) ∷ []

-- The second area is refused, and its mapping is never given back.
mapping_kept :
    let r = sdbmem_init little io areas world in
    sdbmem_exit r.1 r.2 ≡ record world { acquired = 2; released = 1; refused = 1 }
unfolding sdbmem_init sdbmem_exit sdbmem_parse sdbfs_register_device sdbfs_unregister_device
mapping_kept = refl

abbrev fw : Firmware
fw = record { request_firmware = λ name. some 4096; slot = λ i. i }

all_released :
    let r = fakedev_init fw 0 areas world in
    fakedev_exit r.1 r.2 ≡ record world { acquired = 3; released = 3 }
unfolding fakedev_init fakedev_exit sdbfs_register_device sdbfs_unregister_device
all_released = refl

sdbmem_exit-sdbmem_init_example :
    let r = sdbmem_init little io areas world in
    IsUndone world (sdbmem_exit r.1 r.2) × (r.0 ≢ 0 → r.2.devices ≡ world.devices)
sdbmem_exit-sdbmem_init_example = sdbmem_exit-sdbmem_init little io areas world

fakedev_exit-fakedev_init_example :
    let r = fakedev_init fw 0 areas world in
    let w' = fakedev_exit r.1 r.2 in
    ((r.0 ≡ 0)
      × (w'.devices ≡ world.devices)
      × (w'.acquired + world.released ≡ w'.released + world.acquired)
      × (w'.added ≡ world.added))
    ⊎ ((r.0 ≡ 0) × (r.0 ≢ 0) × (r.2 ≡ world))
fakedev_exit-fakedev_init_example = fakedev_exit-fakedev_init fw 0 areas world
