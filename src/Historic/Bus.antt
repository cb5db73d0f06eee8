-- ===== src/Historic/Bus.antt =====
-- historic/driver/wishbone.c: the scan of a bus, its registration, and the match of a device with the
-- table of a driver.
pub mod Scan
pub mod Match
use fpga_config_space.Base.{
  ℕ, zero, suc, ◌+◌, ◌-◌, ◌%◌, ◌^◌, List, [], ◌∷◌, Option, none, some, Bool, true, false, not, ◌&&◌,
  ◌||◌, ◌==◌, if◌then◌else◌, get_or, take, drop, length,
}
use fpga_config_space.Endian.{Host, htons, ntohll, load64}
use fpga_config_space.Historic.Sdwb.{Wbd, sdwb_head_magic, sdwb_wbd_magic, wbd_magic_of, wbd_of}

-- struct wb_device: its number in the names of the kernel, and what it is.
pub record WbDevice : Type 0 where
  pub num : ℕ
  pub wbd : Wbd

-- `devices` and `ndev` of `struct wb_bus`, the counter `global_wb_devno`, and the numbers of the
-- devices that the kernel holds.
pub record WbBus : Type 0 where
  pub devices : List WbDevice
  pub ndev : ℕ
  pub devno : ℕ
  pub registered : List ℕ

-- What the rest of the kernel answers: `read_cfg` of the bus, with what is in the buffer if it fails;
-- kzalloc for the descriptor at an address; and device_register for a number.
pub record Answers : Type 0 where
  pub read_cfg : (addr len : ℕ) → List ℕ
  pub kzalloc : (addr : ℕ) → Bool
  pub device_register : (num : ℕ) → Bool

abbrev pub enodev : ℕ
enodev = 19

abbrev pub efault : ℕ
efault = 14

-- One object of the kernel goes.
abbrev pub unregistered : ℕ → List ℕ → List ℕ
unregistered n [] = []
unregistered n (x ∷ xs) = if x == n then xs else x ∷ unregistered n xs

unfoldable pub wb_get_next_device : Host → Answers → (wb_ptr : ℕ) → Option Wbd
wb_get_next_device h a wb_ptr =
    let wbd = a.read_cfg wb_ptr 80 in
    if not (wbd_magic_of h wbd == htons h sdwb_wbd_magic)
    then none
    else if not (a.kzalloc wb_ptr)
    then none
    else some (wbd_of h wbd)

-- The number that the next device gets.
abbrev pub next_devno : WbBus → ℕ
next_devno bus = (bus.devno + 1) % 2 ^ 32

-- wb_register_device: 0, or an error.
unfoldable pub wb_register_device : Answers → WbBus → Bool × WbBus
wb_register_device a bus =
    let devno = next_devno bus in
    if a.device_register devno
    then (true, record bus { devno = devno; registered = devno ∷ bus.registered })
    else (false, record bus { devno = devno })

-- list_add and `ndev++`, for a device that has just been registered.
abbrev pub add_device : Wbd → WbBus → WbBus
add_device wbd bus = record bus {
  devices = record { num = bus.devno; wbd = wbd } ∷ bus.devices;
  ndev = (bus.ndev + 1) % 2 ^ 32;
}

-- The loop at `err_wbdev_register`, and the one of `wb_unregister_bus`.
abbrev pub unregister_all : List WbDevice → List ℕ → List ℕ
unregister_all [] registered = registered
unregister_all (d ∷ ds) registered = unregister_all ds (unregistered d.num registered)

abbrev pub err_wbdev_register : WbBus → ℕ × WbBus
err_wbdev_register bus = (
  enodev,
  record bus { devices = []; ndev = 0; registered = unregister_all bus.devices bus.registered },
)

-- The loop of `wb_scan_bus`, on fuel. None is a loop that has not ended.
unfoldable pub scan_devices : Host → Answers → (fuel wbd_ptr : ℕ) → WbBus → Option (ℕ × WbBus)
scan_devices h a zero wbd_ptr bus = none
scan_devices h a (suc fuel) wbd_ptr bus = elim (wb_get_next_device h a wbd_ptr) [
  | none ↦ some (0, bus)
  | some wbd ↦
      let (registered, bus') = wb_register_device a bus in
      let rest = scan_devices h a fuel ((wbd_ptr + 80) % 2 ^ 64) (add_device wbd bus') in
      if not registered then some (err_wbdev_register bus') else rest
]

-- struct sdwb_head, as wb_read_sdwb_header leaves it. `wbid_address` only leads to what is printed.
abbrev pub head_of : Answers → (sdwb_header_base : ℕ) → List ℕ
head_of a sdwb_header_base = a.read_cfg sdwb_header_base 32

unfoldable pub wb_scan_bus :
    Host → Answers → (fuel sdwb_header_base : ℕ) → WbBus → Option (ℕ × WbBus)
wb_scan_bus h a fuel sdwb_header_base bus =
    let head = head_of a sdwb_header_base in
    let scanned = scan_devices h a fuel (ntohll h (load64 h head 16)) bus in
    if not (load64 h head 0 == ntohll h sdwb_head_magic) then some (enodev, bus) else scanned

-- How `wb_register_bus` ends, after the scan. The device of the bus goes again if that has failed.
abbrev pub after_scan : ℕ × WbBus → ℕ × Bool × WbBus
after_scan (err, bus) = if not (err == 0) then (efault, false, bus) else (0, true, bus)

-- wb_register_bus: the error, whether the device of the bus is registered, and the devices. `accepted`
-- is what device_register answers for the bus.
unfoldable pub wb_register_bus :
    Host
    → Answers
    → (accepted : Bool) (fuel sdwb_header_base : ℕ) → WbBus
    → Option (ℕ × Bool × WbBus)
wb_register_bus h a accepted fuel sdwb_header_base bus =
    let scanned = wb_scan_bus h a fuel sdwb_header_base (record bus { devices = [] }) in
    if not accepted
    then some (enodev, false, record bus { devices = [] })
    else elim scanned [ none ↦ none | some r ↦ some (after_scan r) ]

-- device_unregister of the device of the bus: whether it is registered then.
abbrev pub bus_unregistered : (up : Bool) → Bool
bus_unregistered up = false

-- wb_unregister_bus: whether the device of the bus is still registered, and the devices.
unfoldable pub wb_unregister_bus : (up : Bool) → WbBus → Bool × WbBus
wb_unregister_bus up bus = (
  bus_unregistered up,
  record bus { devices = []; registered = unregister_all bus.devices bus.registered },
)

-- struct wb_device_id
pub record WbDeviceId : Type 0 where
  pub vendor : ℕ
  pub device : ℕ
  pub dev_class : ℕ

abbrev pub wb_any_vendor : ℕ
wb_any_vendor = 2 ^ 64 - 1

abbrev pub wb_any_device : ℕ
wb_any_device = 2 ^ 32 - 1

abbrev pub wb_no_class : ℕ
wb_no_class = 2 ^ 32 - 1

-- The test in the loop of `wb_match_device`, with the local variable `device`.
abbrev pub fits : (device : ℕ) → WbDeviceId → Wbd → Bool
fits device id wbd =
    (not (id.dev_class == wb_no_class) && (id.dev_class == wbd.hdl_class))
    || (((id.vendor == wb_any_vendor) || (id.vendor == wbd.vendor))
        && ((device == wb_any_device) || (device == wbd.device)))

-- The loop of `wb_match_device`: `device` is only assigned where the vendor is 0. A table that ends
-- without its zeros is read on, which is not modelled: the list ends with the entry of zeros.
unfoldable pub match_loop : (device : ℕ) → List WbDeviceId → Wbd → Option WbDeviceId
match_loop device [] wbd = none
match_loop device (id ∷ ids) wbd =
    let now = if id.vendor == 0 then id.device else device in
    let rest = match_loop now ids wbd in
    if (id.vendor == 0) && (now == 0) then none else if fits now id wbd then some id else rest

-- wb_match_device, of a driver with or without a table.
unfoldable pub wb_match_device : Option (List WbDeviceId) → Wbd → Option WbDeviceId
wb_match_device none wbd = none
wb_match_device (some id_table) wbd = match_loop 0 id_table wbd
