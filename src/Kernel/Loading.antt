-- ===== src/Kernel/Loading.antt =====
-- The loading and unloading of the modules that give the kernel file system its devices,
-- sdbfs/kernel/sdb-iomem.c and sdbfs/kernel/sdb-fakedev.c.
pub mod Undone
pub mod Tests
use fpga_config_space.Base.{
  ℕ, zero, suc, ◌+◌, ◌-◌, ◌%◌, ◌^◌, List, [], ◌∷◌, Option, none, some, Bool, true, false, not, ◌&&◌,
  ◌||◌, if◌then◌else◌, ◌==◌, ltb,
}
use mathlib.Core.Option.{map}
use fpga_config_space.Endian.{Host, htonl}
use fpga_config_space.Sdb.{sdb_magic}
use fpga_config_space.Kernel.{enomem, einval}
use fpga_config_space.Kernel.Devices.{Dev, Devices, sdbfs_register_device, sdbfs_unregister_device}

-- The devices of the file system; how many mappings or firmware images have been taken from the
-- kernel and given back; how many devices were refused; and the devices of the driver core.
pub record World : Type 0 where
  pub devices : Devices
  pub acquired : ℕ
  pub released : ℕ
  pub refused : ℕ
  pub added : ℕ

-- An entry of `sdbmem_devs` or `fakedev_devs`: with `ready` or `fw` set, or not.
pub data Slot : Type 0 where
  idle : Slot
  ready : Dev → Slot

-- What the entry of a loop over the parameters of a module is, and the loop.
abbrev pub rounds :
    (round : ℕ → List ℕ → World → Slot × World)
    → (i : ℕ) → List (List ℕ)
    → World
    → List Slot × World
rounds round i [] w = ([], w)
rounds round i (x ∷ xs) w =
    let (slot, w1) = round i x w in
    let (slots, w2) = rounds round (suc i) xs w1 in (slot ∷ slots, w2)

-- A round of the loops of sdbmem_exit and fakedev_exit.
abbrev pub drop_slot : Slot → World → World
drop_slot idle w = w
drop_slot (ready d) w = record w {
  devices = sdbfs_unregister_device d w.devices;
  released = w.released + 1;
}

abbrev pub drop_slots : List Slot → World → World
drop_slots [] w = w
drop_slots (s ∷ ss) w = drop_slots ss (drop_slot s w)

-- What sscanf finds in the text from the @ on: how many items, and their values.
pub record Scanned : Type 0 where
  pub items : ℕ
  pub addr : ℕ
  pub size : ℕ
  pub entrypoint : ℕ

-- The two calls of sscanf, ioremap, readl, and the addresses of the entries.
pub record Io : Type 0 where
  pub plus : List ℕ → Scanned
  pub minus : List ℕ → Scanned
  pub ioremap : (addr size : ℕ) → Option ℕ
  pub readl : ℕ → ℕ
  pub slot : ℕ → ℕ

-- strchr: the name in front of the @, and the text from there on.
abbrev pub at_sign : List ℕ → Option (List ℕ × List ℕ)
at_sign [] = none
at_sign (c ∷ cs) =
    let rest = map (λ r. (c ∷ r.0, r.1)) (at_sign cs) in if c == 64 then some ([], c ∷ cs) else rest

abbrev pub scanned : Io → List ℕ → Scanned
scanned io text =
    let p = io.plus text in
    let q = io.minus text in
    if p.items == 1 then record q { size = (q.size + 2 ^ 64 - q.addr) % 2 ^ 64 } else p

pub data Parsed : Type 0 where
  failed : (err : ℕ) → Parsed
  mapped : Dev → (address : ℕ) → Parsed

-- The memset before leaves the entry point 0 where the text gives none.
abbrev pub remapped : (slot : ℕ) → (name : List ℕ) → Scanned → Option ℕ → Parsed
remapped slot name s none = failed enomem
remapped slot name s (some address) =
    mapped
      (record {
        id = slot;
        name = name;
        entrypoint = if s.items == 3 then s.entrypoint else 0;
        size = s.size;
      })
      address

abbrev pub parse_at : Io → (slot : ℕ) → Option (List ℕ × List ℕ) → Parsed
parse_at io slot none = failed einval
parse_at io slot (some (name, text)) =
    let s = scanned io text in
    if ltb s.items 2 || ltb 3 s.items
    then failed einval
    else remapped slot name s (io.ioremap s.addr s.size)

-- sdbmem_parse.
unfoldable pub sdbmem_parse : Io → (slot : ℕ) → (desc : List ℕ) → Parsed
sdbmem_parse io slot desc = parse_at io slot (at_sign desc)

abbrev pub area_registered : Dev → ℕ × Devices → World → Slot × World
area_registered d (zero, ds) w = (ready d, record w { devices = ds })
area_registered d (suc err, ds) w = (idle, record w { devices = ds; refused = w.refused + 1 })

abbrev pub area_stage : Host → Io → Parsed → World → Slot × World
area_stage h io (failed err) w = (idle, w)
area_stage h io (mapped d address) w =
    let magic = io.readl ((address + d.entrypoint) % 2 ^ 64) in
    let w1 = record w { acquired = w.acquired + 1 } in
    if not (magic == sdb_magic) && not (magic == htonl h sdb_magic)
    then (idle, record w1 { released = w.released + 1 })
    else area_registered d (sdbfs_register_device d w.devices) w1

abbrev pub any_ready : List Slot → Bool
any_ready [] = false
any_ready (idle ∷ ss) = any_ready ss
any_ready (ready d ∷ ss) = true

abbrev pub enodev : ℕ
enodev = 19

-- sdbmem_init.
unfoldable pub sdbmem_init :
    Host → Io → (sdbmem_area : List (List ℕ)) → World → ℕ × List Slot × World
sdbmem_init h io sdbmem_area w =
    let (slots, w') =
      rounds (λ i desc u. area_stage h io (sdbmem_parse io (io.slot i) desc) u) 0 sdbmem_area w in
    (if any_ready slots then 0 else enodev, slots, w')

unfoldable pub sdbmem_exit : List Slot → World → World
sdbmem_exit slots w = drop_slots slots w

-- request_firmware, whose size is given, and the addresses of the entries.
pub record Firmware : Type 0 where
  pub request_firmware : List ℕ → Option ℕ
  pub slot : ℕ → ℕ

abbrev pub image_registered : Dev → ℕ × Devices → World → Slot × World
image_registered d (zero, ds) w = (ready d, record w { devices = ds })
image_registered d (suc err, ds) w = (idle, record w { devices = ds; released = w.released + 1 })

abbrev pub image_stage : (slot : ℕ) → (name : List ℕ) → Option ℕ → World → Slot × World
image_stage slot name none w = (idle, w)
image_stage slot name (some size) w =
    let d : Dev = record { id = slot; name = name; entrypoint = 0; size = size } in
    image_registered d (sdbfs_register_device d w.devices) (record w { acquired = w.acquired + 1 })

-- fakedev_init, with what device_add returns: 0, or an error.
unfoldable pub fakedev_init :
    Firmware → (device_add : ℕ) → (fakedev_fsimg : List (List ℕ)) → World → ℕ × List Slot × World
fakedev_init fw zero fakedev_fsimg w =
    let (slots, w') =
      rounds (λ i name u. image_stage (fw.slot i) name (fw.request_firmware name) u) 0 fakedev_fsimg
        (record w { added = w.added + 1 }) in
    (0, slots, w')
fakedev_init fw (suc err) fakedev_fsimg w = (suc err, [], w)

unfoldable pub fakedev_exit : List Slot → World → World
fakedev_exit slots w = let w' = drop_slots slots w in record w' { added = w'.added - 1 }
