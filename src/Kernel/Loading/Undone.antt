-- ===== src/Kernel/Loading/Undone.antt =====
-- Unloading a module undoes its loading.
use fpga_config_space.Base.{
  ℕ, zero, suc, ◌+◌, ◌%◌, ◌^◌, List, [], ◌∷◌, Option, none, some, Bool, true, false, not, ◌&&◌,
  if◌then◌else◌, ◌==◌, ◌≡◌, ◌≢◌, ◌⊎◌, inl, inr, refl, sym, ap, subst, ◌∙◌, arith, ==_iff,
  Bool-cases,
}
use fpga_config_space.Endian.{Host, htonl}
use fpga_config_space.Sdb.{sdb_magic}
use fpga_config_space.Kernel.Devices.{
  Dev, deleted, named, registered, sdbfs_register_device, sdbfs_unregister_device,
}
use fpga_config_space.Kernel.Loading.{
  World, Slot, idle, ready, rounds, drop_slot, drop_slots, Io, Parsed, failed, mapped,
  area_registered, area_stage, any_ready, sdbmem_parse, sdbmem_init, sdbmem_exit, Firmware,
  image_registered, image_stage, fakedev_init, fakedev_exit,
}

-- The devices are those of before, and all that was taken has been given back, but for what belongs to
-- the refused devices.
abbrev pub IsUndone : World → World → Type 0
IsUndone w w' =
    (w'.devices ≡ w.devices)
    × (w'.acquired + w.released + w.refused ≡ w'.released + w.acquired + w'.refused)
    × (w'.added ≡ w.added)

IsUndone-trans : (u v w : World) → IsUndone u v → IsUndone v w → IsUndone u w
IsUndone-trans u v w (same, all, core) (same', all', core') =
    (same' ∙ same, omega (arith, all, all'), core' ∙ core)

deleted-head : (d : Dev) (ds : List Dev) → deleted d (d ∷ ds) ≡ ds
deleted-head d ds = ap (λ b. if b then ds else d ∷ deleted d ds) ((==_iff d.id d.id).1 refl)

deleted-id : (a b : Dev) (ds : List Dev) → a.id ≡ b.id → deleted a ds ≡ deleted b ds
deleted-id a b [] e = refl
deleted-id a b (d ∷ ds) e =
    ap (λ i. if d.id == i then ds else d ∷ deleted a ds) e
    ∙ ap (λ l. if d.id == b.id then ds else d ∷ l) (deleted-id a b ds e)

deleted-swap : (a b : Dev) (ds : List Dev) → deleted a (deleted b ds) ≡ deleted b (deleted a ds)
deleted-swap a b [] = refl
deleted-swap a b (d ∷ ds) = elim (Bool-cases (d.id == a.id)) [
  | inl t ↦ elim (Bool-cases (d.id == b.id)) [
    | inl u ↦ rw (t, u) (deleted-id a b ds (sym ((==_iff d.id a.id).0 t) ∙ (==_iff d.id b.id).0 u))
    | inr u ↦ rw (t, u, t) refl
  ]
  | inr t ↦ elim (Bool-cases (d.id == b.id)) [
    | inl u ↦ rw (t, u) refl
    | inr u ↦ rw (t, u, t) (ap (λ l. d ∷ l) (deleted-swap a b ds))
  ]
]

drop_slot-swap :
    (s t : Slot) (w : World) → drop_slot s (drop_slot t w) ≡ drop_slot t (drop_slot s w)
unfolding sdbfs_unregister_device
drop_slot-swap idle t w = refl
drop_slot-swap (ready a) idle w = refl
drop_slot-swap (ready a) (ready b) w =
    ap (λ l. record w { devices = record w.devices { devlist = l }; released = w.released + 1 + 1 })
      (deleted-swap a b w.devices.devlist)

drop_slots-swap :
    (ss : List Slot) (s : Slot) (w : World)
    → drop_slots ss (drop_slot s w) ≡ drop_slot s (drop_slots ss w)
drop_slots-swap [] s w = refl
drop_slots-swap (t ∷ ss) s w =
    ap (drop_slots ss) (drop_slot-swap t s w) ∙ drop_slots-swap ss s (drop_slot t w)

drop_slot-IsUndone :
    (s : Slot) (u v : World) → IsUndone u v → IsUndone (drop_slot s u) (drop_slot s v)
drop_slot-IsUndone idle u v un = un
drop_slot-IsUndone (ready d) u v (same, all, core) =
    (ap (sdbfs_unregister_device d) same, omega (arith, all), core)

module _ (round : ℕ → List ℕ → World → Slot × World)
    (undone : (i : ℕ) (x : List ℕ) (w : World)
      → IsUndone w (drop_slot (round i x w).0 (round i x w).1)) where
  -- If each round is undone by dropping its entry, so is the loop.
  rounds-IsUndone :
      (i : ℕ) (xs : List (List ℕ)) (w : World)
      → IsUndone w (drop_slots (rounds round i xs w).0 (rounds round i xs w).1)
  rounds-IsUndone i [] w = (refl, omega arith, refl)
  rounds-IsUndone i (x ∷ xs) w =
      let slot = (round i x w).0 in
      let w1 = (round i x w).1 in
      let slots = (rounds round (suc i) xs w1).0 in
      let w2 = (rounds round (suc i) xs w1).1 in
      subst (IsUndone w) (sym (drop_slots-swap slots slot w2)) (
        IsUndone-trans w (drop_slot slot w1) (drop_slot slot (drop_slots slots w2)) (undone i x w)
          (drop_slot-IsUndone slot w1 (drop_slots slots w2) (rounds-IsUndone (suc i) xs w1)))

registered-IsUndone :
    (h : Host) (io : Io) (d : Dev) (o : Option Dev) (w : World)
    → let r =
        area_registered d (registered o d w.devices) (record w { acquired = w.acquired + 1 }) in
      IsUndone w (drop_slot r.0 r.1)
unfolding sdbfs_unregister_device
registered-IsUndone h io d none w = (
  ap (λ l. record w.devices { devlist = l }) (deleted-head d w.devices.devlist),
  omega arith,
  refl,
)
registered-IsUndone h io d (some osd) w = (refl, omega arith, refl)

area_stage-IsUndone :
    (h : Host) (io : Io) (p : Parsed) (w : World)
    → IsUndone w (drop_slot (area_stage h io p w).0 (area_stage h io p w).1)
unfolding sdbfs_register_device
area_stage-IsUndone h io (failed err) w = (refl, omega arith, refl)
area_stage-IsUndone h io (mapped d address) w = guarded (
    not (io.readl ((address + d.entrypoint) % 2 ^ 64) == sdb_magic)
    && not (io.readl ((address + d.entrypoint) % 2 ^ 64) == htonl h sdb_magic))
  where
    w1 : World
    w1 = record w { acquired = w.acquired + 1 }

    next : Slot × World
    next = area_registered d (sdbfs_register_device d w.devices) w1

    guarded :
        (b : Bool)
        → let r = if b then (idle, record w1 { released = w.released + 1 }) else next in
          IsUndone w (drop_slot r.0 r.1)
    guarded true = (refl, omega arith, refl)
    guarded false = registered-IsUndone h io d (named d.name w.devices.devlist) w

image_registered-IsUndone :
    (d : Dev) (o : Option Dev) (w : World)
    → let r =
        image_registered d (registered o d w.devices) (record w { acquired = w.acquired + 1 }) in
      IsUndone w (drop_slot r.0 r.1)
unfolding sdbfs_unregister_device
image_registered-IsUndone d none w = (
  ap (λ l. record w.devices { devlist = l }) (deleted-head d w.devices.devlist),
  omega arith,
  refl,
)
image_registered-IsUndone d (some osd) w = (refl, omega arith, refl)

image_stage-IsUndone :
    (slot : ℕ) (name : List ℕ) (o : Option ℕ) (w : World)
    → IsUndone w (drop_slot (image_stage slot name o w).0 (image_stage slot name o w).1)
unfolding sdbfs_register_device
image_stage-IsUndone slot name none w = (refl, omega arith, refl)
image_stage-IsUndone slot name (some size) w =
    image_registered-IsUndone (record { id = slot; name = name; entrypoint = 0; size = size })
      (named name w.devices.devlist) w

-- Entries of which none is ready are dropped without effect.
idle-drop : (ss : List Slot) (w : World) → any_ready ss ≡ false → drop_slots ss w ≡ w
idle-drop [] w e = refl
idle-drop (idle ∷ ss) w e = idle-drop ss w e
idle-drop (ready d ∷ ss) w e = absurd (ground (arith, e))

-- After sdbmem_init and sdbmem_exit the list of devices is the one of before, and all mappings have
-- been given back, but for one of each device that was refused. If sdbmem_init returns an error, the
-- list of devices is already that.
pub sdbmem_exit-sdbmem_init :
    (h : Host) (io : Io) (sdbmem_area : List (List ℕ)) (w : World)
    → let r = sdbmem_init h io sdbmem_area w in
      IsUndone w (sdbmem_exit r.1 r.2) × (r.0 ≢ 0 → r.2.devices ≡ w.devices)
unfolding sdbmem_init sdbmem_exit
sdbmem_exit-sdbmem_init h io sdbmem_area w =
    let round : ℕ → List ℕ → World → Slot × World =
      λ i desc u. area_stage h io (sdbmem_parse io (io.slot i) desc) u in
    let slots = (rounds round 0 sdbmem_area w).0 in
    let w' = (rounds round 0 sdbmem_area w).1 in
    let un =
      rounds-IsUndone round
        (λ i desc u. area_stage-IsUndone h io (sdbmem_parse io (io.slot i) desc) u) 0 sdbmem_area
        w in
    (
      un,
      λ err. elim (Bool-cases (any_ready slots)) [
        | inl t ↦ absurd (err (ap (λ b. if b then 0 else 19) t))
        | inr t ↦ sym (ap (λ v. v.devices) (idle-drop slots w' t)) ∙ un.0
      ],
    )

drop_slots-refused : (ss : List Slot) (w : World) → (drop_slots ss w).refused ≡ w.refused
drop_slots-refused [] w = refl
drop_slots-refused (idle ∷ ss) w = drop_slots-refused ss w
drop_slots-refused (ready d ∷ ss) w = drop_slots-refused ss (drop_slot (ready d) w)

image_stage-refused :
    (slot : ℕ) (name : List ℕ) (o : Option ℕ) (w : World)
    → (image_stage slot name o w).1.refused ≡ w.refused
unfolding sdbfs_register_device
image_stage-refused slot name none w = refl
image_stage-refused slot name (some size) w = registered_as (named name w.devices.devlist)
  where
    d : Dev
    d = record { id = slot; name = name; entrypoint = 0; size = size }

    registered_as :
        (o : Option Dev)
        → (image_registered d
            (registered o d w.devices)
            (record w { acquired = w.acquired + 1 })).1.refused
          ≡ w.refused
    registered_as none = refl
    registered_as (some osd) = refl

rounds-refused :
    (fw : Firmware) (i : ℕ) (xs : List (List ℕ)) (w : World)
    → (rounds
        (λ i name u. image_stage (fw.slot i) name (fw.request_firmware name) u)
        i
        xs
        w).1.refused
      ≡ w.refused
rounds-refused fw i [] w = refl
rounds-refused fw i (x ∷ xs) w =
    rounds-refused fw (suc i) xs (image_stage (fw.slot i) x (fw.request_firmware x) w).1
    ∙ image_stage-refused (fw.slot i) x (fw.request_firmware x) w

-- fakedev_init either returns 0, and then, after fakedev_exit, the list of devices and the device of the
-- driver core are those of before, and all images have been given back; or it returns the error of
-- device_add and leaves all as it was.
pub fakedev_exit-fakedev_init :
    (fw : Firmware) (device_add : ℕ) (fakedev_fsimg : List (List ℕ)) (w : World)
    → let r = fakedev_init fw device_add fakedev_fsimg w in
      let w' = fakedev_exit r.1 r.2 in
      ((r.0 ≡ 0)
        × (w'.devices ≡ w.devices)
        × (w'.acquired + w.released ≡ w'.released + w.acquired)
        × (w'.added ≡ w.added))
      ⊎ ((r.0 ≡ device_add) × (r.0 ≢ 0) × (r.2 ≡ w))
unfolding fakedev_init fakedev_exit
fakedev_exit-fakedev_init fw (suc err) fakedev_fsimg w = inr (refl, omega arith, refl)
fakedev_exit-fakedev_init fw zero fakedev_fsimg w =
    let w1 = record w { added = w.added + 1 } in
    let round : ℕ → List ℕ → World → Slot × World =
      λ i name u. image_stage (fw.slot i) name (fw.request_firmware name) u in
    let loaded = rounds round 0 fakedev_fsimg w1 in
    let (same, all, core) =
      rounds-IsUndone round
        (λ i name u. image_stage-IsUndone (fw.slot i) name (fw.request_firmware name) u) 0
        fakedev_fsimg w1 in
    let kept = drop_slots-refused loaded.0 loaded.1 ∙ rounds-refused fw 0 fakedev_fsimg w1 in
    inl (refl, same, omega (arith, all, kept), omega (arith, core))
