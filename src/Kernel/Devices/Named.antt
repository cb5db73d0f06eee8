-- ===== src/Kernel/Devices/Named.antt =====
-- Whichever devices come and go, a name is that of one device.
use fpga_config_space.Base.{
  ℕ, ◌+◌, List, [], ◌∷◌, Option, none, some, Bool, true, false, if◌then◌else◌, ◌==◌, bytes_eq,
  bytes_eq_self, bytes_eq→eq, Bool-cases, arith, ◌≡◌, refl, sym, ap, ◌∙◌, ◌⊎◌, inl, inr,
}
use fpga_config_space.Kernel.Devices.{
  Dev, Devices, named, registered, taken, deleted, sdbfs_get_by_name, sdbfs_register_device,
  sdbfs_unregister_device,
}

pub data Call : Type 0 where
  register unregister : Dev → Call

abbrev pub perform : Call → Devices → Devices
perform (register sd) s = (sdbfs_register_device sd s).1
perform (unregister sd) s = sdbfs_unregister_device sd s

abbrev pub perform_all : List Call → Devices → Devices
perform_all [] s = s
perform_all (c ∷ cs) s = perform_all cs (perform c s)

abbrev pub Has : Dev → List Dev → Type 0
Has sd [] = ⊥
Has sd (d ∷ ds) = (d ≡ sd) ⊎ Has sd ds

-- No other device of the list has the name of one.
abbrev pub AreApart : List Dev → Type 0
AreApart [] = Unit {0}
AreApart (d ∷ ds) = (named d.name ds ≡ none) × AreApart ds

-- A device that is not found stays so when another goes.
named-deleted :
    (name : List ℕ) (sd : Dev) (ds : List Dev)
    → named name ds ≡ none
    → named name (deleted sd ds) ≡ none
named-deleted name sd [] e = refl
named-deleted name sd (d ∷ ds) e = ground (arith, e, named-deleted name sd ds)

AreApart-deleted : (sd : Dev) (ds : List Dev) → AreApart ds → AreApart (deleted sd ds)
AreApart-deleted sd [] a = tt
AreApart-deleted sd (d ∷ ds) (e, a) = if_AreApart (d.id == sd.id) (AreApart-deleted sd ds a)
  where
    if_AreApart :
        (t : Bool) → AreApart (deleted sd ds) → AreApart (if t then ds else d ∷ deleted sd ds)
    if_AreApart true b = a
    if_AreApart false b = (named-deleted d.name sd ds e, b)

registered-AreApart :
    (o : Option Dev) (sd : Dev) (s : Devices)
    → named sd.name s.devlist ≡ o
    → AreApart s.devlist
    → AreApart (registered o sd s).1.devlist
registered-AreApart none sd s e a = (e, a)
registered-AreApart (some osd) sd s e a = a

perform-AreApart : (c : Call) (s : Devices) → AreApart s.devlist → AreApart (perform c s).devlist
unfolding sdbfs_register_device sdbfs_unregister_device
perform-AreApart (register sd) s a = registered-AreApart (named sd.name s.devlist) sd s refl a
perform-AreApart (unregister sd) s a = AreApart-deleted sd s.devlist a

perform_all-AreApart :
    (cs : List Call) (s : Devices) → AreApart s.devlist → AreApart (perform_all cs s).devlist
perform_all-AreApart [] s a = a
perform_all-AreApart (c ∷ cs) s a = perform_all-AreApart cs (perform c s) (perform-AreApart c s a)

Has-named : (sd : Dev) (ds : List Dev) → Has sd ds → (d : Dev) × (named sd.name ds ≡ some d)
Has-named sd [] h = absurd h
Has-named sd (d ∷ ds) (inl e) = (
  d,
  ap (λ t. if t then some d else named sd.name ds)
      (ap (λ x. bytes_eq x.name sd.name) e ∙ bytes_eq_self sd.name),
)
Has-named sd (d ∷ ds) (inr h) = either (bytes_eq d.name sd.name) (Has-named sd ds h)
  where
    either :
        (t : Bool)
        → (x : Dev) × (named sd.name ds ≡ some x)
        → (x : Dev) × ((if t then some d else named sd.name ds) ≡ some x)
    either true found = (d, refl)
    either false found = found

named-Has : (sd : Dev) (ds : List Dev) → AreApart ds → Has sd ds → named sd.name ds ≡ some sd
named-Has sd [] a h = absurd h
named-Has sd (d ∷ ds) (e, a) (inl same) =
    ap (λ t. if t then some d else named sd.name ds)
      (ap (λ x. bytes_eq x.name sd.name) same ∙ bytes_eq_self sd.name)
    ∙ ap some same
named-Has sd (d ∷ ds) (e, a) (inr h) = elim (Bool-cases (bytes_eq d.name sd.name)) [
  | inl t ↦
      let (x, f) = Has-named sd ds h in
      let none_is : none ≡ some x =
        sym (ap (λ n. named n ds) (sym (bytes_eq→eq d.name sd.name t)) ∙ e) ∙ f in
      absurd (ground (arith, none_is))
  | inr t ↦ ap (λ b. if b then some d else named sd.name ds) t ∙ named-Has sd ds a h
]

-- After any calls that register and unregister devices, from an empty list on: a device that is in the
-- list and whose module can be taken is the one that sdbfs_get_by_name finds under its name.
pub sdbfs_get_by_name-perform_all :
    (live : Dev → Bool) (cs : List Call) (sd : Dev)
    → let s = perform_all cs (record { devlist = []; gets = 0; puts = 0 }) in
      Has sd s.devlist
      → live sd ≡ true
      → sdbfs_get_by_name live sd.name s ≡ (some sd, record s { gets = s.gets + 1 })
unfolding sdbfs_get_by_name
sdbfs_get_by_name-perform_all live cs sd h l =
    let s : Devices = perform_all cs (record { devlist = []; gets = 0; puts = 0 }) in
    let apart = perform_all-AreApart cs (record { devlist = []; gets = 0; puts = 0 }) tt in
    ap (λ o. taken live o s) (named-Has sd s.devlist apart h)
    ∙ ap (λ b. if b then (some sd, record s { gets = s.gets + 1 }) else (none, s)) l
