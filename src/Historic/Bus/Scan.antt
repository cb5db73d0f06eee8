-- ===== src/Historic/Bus/Scan.antt =====
-- What the scan of a bus leaves: all devices of its table, or none.
use fpga_config_space.Base.{
  ℕ, zero, suc, ◌+◌, ◌%◌, ◌^◌, ◌<◌, List, [], ◌∷◌, ◌++◌, ◌≡◌, ◌≢◌, Bool-cases, refl, ap, ◌∙◌, ◌⊎◌,
  inl, inr, Option, none, some, Bool, true, false, if◌then◌else◌, ◌==◌, not, map, length, ==_iff,
  arith,
}
use fpga_config_space.Endian.{Host, htons, ntohll, load64}
use fpga_config_space.Historic.Sdwb.{Wbd, sdwb_head_magic, sdwb_wbd_magic, wbd_magic_of, wbd_of}
use fpga_config_space.Historic.Bus.{
  WbDevice, WbBus, Answers, enodev, efault, unregistered, wb_get_next_device, next_devno,
  wb_register_device, add_device, unregister_all, err_wbdev_register, scan_devices, head_of,
  wb_scan_bus, after_scan, wb_register_bus, wb_unregister_bus,
}

-- The table at an address: descriptors with the magic number, one behind the other, for each of which
-- there is memory, up to 80 bytes that have another number.
pub data IsTable (h : Host) (a : Answers) : ℕ → List Wbd → Type 0 where
  ends : (p : ℕ) → wbd_magic_of h (a.read_cfg p 80) ≢ htons h sdwb_wbd_magic → IsTable h a p []
  next :
      (p : ℕ) (wbds : List Wbd)
      → wbd_magic_of h (a.read_cfg p 80) ≡ htons h sdwb_wbd_magic
      → a.kzalloc p ≡ true
      → IsTable h a ((p + 80) % 2 ^ 64) wbds
      → IsTable h a p (wbd_of h (a.read_cfg p 80) ∷ wbds)

unused-next :
    (h : Host) (a : Answers) (p : ℕ)
    → wbd_magic_of h (a.read_cfg p 80) ≢ htons h sdwb_wbd_magic
    → wb_get_next_device h a p ≡ none
unfolding wb_get_next_device
unused-next h a p m =
    elim (Bool-cases (wbd_magic_of h (a.read_cfg p 80) == htons h sdwb_wbd_magic)) [
      | inl e ↦ absurd (m ((==_iff _ _).0 e))
      | inr e ↦ rw (e) refl
    ]

used-next :
    (h : Host) (a : Answers) (p : ℕ)
    → wbd_magic_of h (a.read_cfg p 80) ≡ htons h sdwb_wbd_magic
    → a.kzalloc p ≡ true
    → wb_get_next_device h a p ≡ some (wbd_of h (a.read_cfg p 80))
unfolding wb_get_next_device
used-next h a p m k = rw ((==_iff _ _).1 m, k) refl

-- Whose objects the kernel holds: those of the devices in the list, and the others, `rest`.
abbrev pub IsHeld : (rest : List ℕ) → WbBus → Type 0
IsHeld rest bus = bus.registered ≡ map (λ d. d.num) bus.devices ++ rest

-- The devices of `wbds` stand before those that were there, the last first.
abbrev pub prepended : List Wbd → List Wbd → List Wbd
prepended [] found = found
prepended (w ∷ ws) found = prepended ws (w ∷ found)

-- What a bus has after a scan that went well.
pub record IsScanned (rest : List ℕ) (bus : WbBus) (wbds : List Wbd) (bus' : WbBus) : Type 0 where
  pub found : map (λ d. d.wbd) bus'.devices ≡ prepended wbds (map (λ d. d.wbd) bus.devices)
  pub counted : bus'.ndev % 2 ^ 32 ≡ (bus.ndev + length wbds) % 2 ^ 32
  pub held : IsHeld rest bus'

-- And after one that has failed: a device was refused.
pub record IsCleared (a : Answers) (rest : List ℕ) (bus' : WbBus) : Type 0 where
  pub gone : bus'.devices ≡ []
  pub reset : bus'.ndev ≡ 0
  pub held : bus'.registered ≡ rest
  pub refused : (num : ℕ) × (a.device_register num ≡ false)

-- How a scan ends, error and bus.
abbrev pub Outcome :
    (a : Answers) (rest : List ℕ) (bus : WbBus) (wbds : List Wbd) → ℕ × WbBus → Type 0
Outcome a rest bus wbds (err, bus') =
    ((err ≡ 0) × IsScanned rest bus wbds bus') ⊎ ((err ≡ enodev) × IsCleared a rest bus')

==_self : (n : ℕ) → (n == n) ≡ true
==_self n = (==_iff n n).1 refl

unregistered_first : (n : ℕ) (xs : List ℕ) → unregistered n (n ∷ xs) ≡ xs
unregistered_first n xs = ap (λ b. if b then xs else n ∷ unregistered n xs) (==_self n)

pub unregister_all_lem :
    (ds : List WbDevice) (rest : List ℕ) → unregister_all ds (map (λ d. d.num) ds ++ rest) ≡ rest
unregister_all_lem [] rest = refl
unregister_all_lem (d ∷ ds) rest =
    ap (unregister_all ds) (unregistered_first d.num (map (λ d. d.num) ds ++ rest))
    ∙ unregister_all_lem ds rest

cleared :
    (a : Answers) (rest : List ℕ) (bus : WbBus) (num : ℕ)
    → a.device_register num ≡ false
    → IsHeld rest bus
    → IsCleared a rest (err_wbdev_register bus).1
cleared a rest bus num e held = record {
  refused = (num, e);
  gone = refl;
  reset = refl;
  held = ap (unregister_all bus.devices) held ∙ unregister_all_lem bus.devices rest;
}

-- The next device has been registered, and is in the list.
abbrev taken : WbBus → Wbd → WbBus
taken bus wbd =
    add_device wbd
      (record bus { devno = next_devno bus; registered = next_devno bus ∷ bus.registered })

counted_more :
    (n m k : ℕ) → k % 2 ^ 32 ≡ ((n + 1) % 2 ^ 32 + m) % 2 ^ 32 → k % 2 ^ 32 ≡ (n + suc m) % 2 ^ 32
counted_more n m k e = omega arith

one_more :
    (a : Answers) (rest : List ℕ) (bus : WbBus) (wbd : Wbd) (wbds : List Wbd) (r : ℕ × WbBus)
    → Outcome a rest (taken bus wbd) wbds r
    → Outcome a rest bus (wbd ∷ wbds) r
one_more a rest bus wbd wbds r (inl (e, s)) = inl (
  e,
  record {
    found = s.found;
    counted = counted_more bus.ndev (length wbds) _ s.counted;
    held = s.held;
  },
)
one_more a rest bus wbd wbds r (inr s) = inr s

-- A scan that ends, in one of the two ways.
abbrev pub Ends :
    (a : Answers) (rest : List ℕ) (bus : WbBus) (wbds : List Wbd) → Option (ℕ × WbBus) → Type 0
Ends a rest bus wbds o = (r : ℕ × WbBus) × (o ≡ some r) × Outcome a rest bus wbds r

-- The loop from the answer of `wb_register_device` on.
abbrev registered_then : Host → Answers → (fuel p : ℕ) → Wbd → Bool × WbBus → Option (ℕ × WbBus)
registered_then h a fuel p wbd (registered, bus') =
    if not registered
    then some (err_wbdev_register bus')
    else scan_devices h a fuel ((p + 80) % 2 ^ 64) (add_device wbd bus')

next-Ends :
    (h : Host) (a : Answers) (fuel p : ℕ) (wbd : Wbd) (bus : WbBus) (rest : List ℕ)
    (wbds : List Wbd) (accepted : Bool)
    → a.device_register (next_devno bus) ≡ accepted
    → IsHeld rest bus
    → Ends a rest (taken bus wbd) wbds (scan_devices h a fuel ((p + 80) % 2 ^ 64) (taken bus wbd))
    → Ends a rest bus (wbd ∷ wbds) (
        registered_then h a fuel p wbd (
          if accepted
          then (
            true,
            record bus { devno = next_devno bus; registered = next_devno bus ∷ bus.registered },
          )
          else (false, record bus { devno = next_devno bus })))
next-Ends h a fuel p wbd bus rest wbds true _ held (r, e, o) =
    (r, e, one_more a rest bus wbd wbds r o)
next-Ends h a fuel p wbd bus rest wbds false e held scanned = (
  _,
  refl,
  inr (refl, cleared a rest (record bus { devno = next_devno bus }) (next_devno bus) e held),
)

scan_devices-Ends :
    (h : Host) (a : Answers) (fuel p : ℕ) (bus : WbBus) (rest : List ℕ) (wbds : List Wbd)
    → IsTable h a p wbds
    → length wbds < fuel
    → IsHeld rest bus
    → Ends a rest bus wbds (scan_devices h a fuel p bus)
unfolding scan_devices wb_register_device
scan_devices-Ends h a zero p bus rest wbds t enough held = absurd (omega (arith, enough))
scan_devices-Ends h a (suc fuel) p bus rest [] (IsTable.ends _ m) enough held =
    rw (scan_devices, unused-next h a p m)
      (_, refl, inl (refl, record { found = refl; counted = omega arith; held = held }))
scan_devices-Ends h a (suc fuel) p bus rest (wbd ∷ wbds) (IsTable.next _ _ m k t) enough held =
    rw (scan_devices, used-next h a p m k)
      (next-Ends h a fuel p wbd bus rest wbds (a.device_register (next_devno bus)) refl held (
        scan_devices-Ends h a fuel ((p + 80) % 2 ^ 64) (taken bus wbd) rest wbds t
          (omega (arith, enough)) (ap (λ l. next_devno bus ∷ l) held)))

-- The header of a bus that has a table of devices.
pub record IsTabled (h : Host) (a : Answers) (base : ℕ) (wbds : List Wbd) : Type 0 where
  pub magic : load64 h (head_of a base) 0 ≡ ntohll h sdwb_head_magic
  pub table : IsTable h a (ntohll h (load64 h (head_of a base) 16)) wbds

wb_scan_bus-Ends :
    (h : Host) (a : Answers) (fuel base : ℕ) (bus : WbBus) (rest : List ℕ) (wbds : List Wbd)
    → IsTabled h a base wbds
    → length wbds < fuel
    → IsHeld rest bus
    → Ends a rest bus wbds (wb_scan_bus h a fuel base bus)
unfolding wb_scan_bus
wb_scan_bus-Ends h a fuel base bus rest wbds t enough held =
    rw ((==_iff _ _).1 t.magic) (scan_devices-Ends h a fuel _ bus rest wbds t.table enough held)

-- A bus that is registered holds all devices of its table, and one that is not holds none.
abbrev pub IsWhole :
    (a : Answers) (rest : List ℕ) (bus : WbBus) (wbds : List Wbd) → ℕ × Bool × WbBus → Type 0
IsWhole a rest bus wbds (err, up, bus') =
    ((err ≡ 0) × (up ≡ true) × IsScanned rest bus wbds bus')
    ⊎ ((err ≡ efault) × (up ≡ false) × IsCleared a rest bus')

after_scan-IsWhole :
    (a : Answers) (rest : List ℕ) (bus : WbBus) (wbds : List Wbd) (r : ℕ × WbBus)
    → Outcome a rest bus wbds r
    → IsWhole a rest bus wbds (after_scan r)
after_scan-IsWhole a rest bus wbds (err, bus') (inl (e, s)) = rw (e) (inl (refl, refl, s))
after_scan-IsWhole a rest bus wbds (err, bus') (inr (e, s)) = rw (e) (inr (refl, refl, s))

-- Where the kernel takes the bus and has memory for each descriptor of the table, the registration of
-- the bus ends, with fuel for each descriptor and one more. Whatever device_register answers for the
-- devices, the kernel then has the bus and all devices of the table, the last first, with as many
-- objects and a count that agrees; or one device was refused, and neither the bus nor any device is
-- left.
pub wb_register_bus-IsWhole :
    (h : Host) (a : Answers) (fuel base : ℕ) (bus : WbBus) (wbds : List Wbd)
    → IsTabled h a base wbds
    → length wbds < fuel
    → (r : ℕ × Bool × WbBus) × (wb_register_bus h a true fuel base bus ≡ some r)
      × IsWhole a bus.registered (record bus { devices = [] }) wbds r
unfolding wb_register_bus
wb_register_bus-IsWhole h a fuel base bus wbds t enough =
    let start : WbBus = record bus { devices = [] } in
    let (r, e, o) = wb_scan_bus-Ends h a fuel base start bus.registered wbds t enough refl in
    (after_scan r, rw (e) refl, after_scan-IsWhole a bus.registered start wbds r o)

-- What the kernel has once a bus that could be registered is unregistered.
abbrev pub IsReturned : (rest : List ℕ) → ℕ × Bool × WbBus → Type 0
IsReturned rest (err, up, bus') =
    ((err ≡ 0)
      × (up ≡ true)
      × ((wb_unregister_bus up bus').0 ≡ false)
      × ((wb_unregister_bus up bus').1.registered ≡ rest))
    ⊎ ((err ≢ 0) × (up ≡ false) × (bus'.registered ≡ rest))
