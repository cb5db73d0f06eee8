-- ===== src/Backends/Spec/Probe/Concluded.antt =====
-- How `probe` of pcie-wb/spec_wb.c ends, and what is then held.
use fpga_config_space.Base.{
  ℕ, List, [], ◌∷◌, ◌++◌, some, Bool, true, false, not, ◌==◌, if◌then◌else◌, ◌≡◌, ◌≢◌, refl, ap,
  ◌∙◌, arith, Bool-cases, inl, inr,
}
use mathlib.Core.Option.{map}
use fpga_config_space.Backends.Resources.{
  Resource, enabled, memory, master, msi, intx_off, region, mapping, eio, enomem, Registration,
  Machine, hold,
}
use fpga_config_space.Backends.Spec.{SpecWbDev}
use fpga_config_space.Backends.Spec.Probe.{
  Answers, wrong_revision, initialized, setup_bar, enable_msi, tear_down, register_stage, bar_stage,
  probe, remove,
}

-- What is held from the first `setup_bar` on, and from `wishbone_register` on.
abbrev with_msi : Bool → List Resource → List Resource
with_msi on held =
    if on
    then intx_off ∷ msi ∷ master ∷ enabled ∷ memory ∷ held
    else master ∷ enabled ∷ memory ∷ held

abbrev equipped : Bool → List Resource → List Resource
equipped on held =
    mapping 4 ∷ region 4 ∷ mapping 2 ∷ region 2 ∷ mapping 0 ∷ region 0 ∷ with_msi on held

-- The card is enabled.
abbrev pub IsEnabled : Answers → Type 0
IsEnabled a = (wrong_revision a ≡ false) × (a.kmalloc ≡ true) × (a.enable ≡ 0)

module _ {H B V : Type 0} (core : Registration B V) where
  -- More is held than before, and the Wishbone core has the same in the kernel.
  pub record Keeps (extra : List Resource) (before after : Machine (SpecWbDev H) B) : Type 0 where
    pub held : after.held ≡ extra ++ before.held
    pub bus : core.view after.bus ≡ core.view before.bus

  -- Success, an error before the card is enabled, or one after that.
  pub data IsConcluded (a : Answers) (before : Machine (SpecWbDev H) B)
      : ℕ × Machine (SpecWbDev H) B → Type 0 where
    started :
        IsEnabled a
        → (after removed : Machine (SpecWbDev H) B) → remove core after ≡ some removed
        → Keeps (master ∷ enabled ∷ []) before removed
        → IsConcluded a before (0, after)
    wrong_card :
        wrong_revision a ≡ true
        → (after : Machine (SpecWbDev H) B) → Keeps [] before after
        → IsConcluded a before (eio, after)
    no_memory :
        (wrong_revision a ≡ false) × (a.kmalloc ≡ false)
        → (after : Machine (SpecWbDev H) B) → Keeps [] before after
        → IsConcluded a before (enomem, after)
    not_enabled :
        (wrong_revision a ≡ false) × (a.kmalloc ≡ true) × (a.enable ≢ 0)
        → (after : Machine (SpecWbDev H) B) → Keeps [] before after
        → IsConcluded a before (a.enable, after)
    failed :
        IsEnabled a
        → (after : Machine (SpecWbDev H) B) → Keeps (master ∷ enabled ∷ []) before after
        → IsConcluded a before (enomem, after)

  if-IsConcluded :
      (a : Answers) (before : Machine (SpecWbDev H) B) (p : Bool)
      (x y : ℕ × Machine (SpecWbDev H) B)
      → (p ≡ true → IsConcluded a before x)
      → (p ≡ false → IsConcluded a before y)
      → IsConcluded a before (if p then x else y)
  if-IsConcluded a before true x y f g = f refl
  if-IsConcluded a before false x y f g = g refl

  tear_down-held :
      (on : Bool) (held : List Resource) (m : Machine (SpecWbDev H) B)
      → m.held ≡ equipped on held
      → m.dev.msi ≡ on
      → (tear_down m).held ≡ master ∷ enabled ∷ held
  tear_down-held true held m e d = rw d (rw e refl)
  tear_down-held false held m e d = rw d (rw e refl)

  tear_down-bus : (m : Machine (SpecWbDev H) B) → (tear_down m).bus ≡ m.bus
  tear_down-bus m = elim (Bool-cases m.dev.msi) [ inl e ↦ rw e refl | inr e ↦ rw e refl ]

  torn_down-Keeps :
      (before m : Machine (SpecWbDev H) B)
      → m.held ≡ equipped m.dev.msi before.held
      → core.view m.bus ≡ core.view before.bus
      → Keeps (master ∷ enabled ∷ []) before (tear_down m)
  torn_down-Keeps before m e v = record {
    held = tear_down-held m.dev.msi before.held m e refl;
    bus = ap core.view (tear_down-bus m) ∙ v;
  }

  register_stage-IsConcluded :
      (a : Answers) (on : IsEnabled a) (before m : Machine (SpecWbDev H) B)
      → core.IsFit m.bus
      → m.bus ≡ before.bus
      → m.held ≡ equipped m.dev.msi before.held
      → IsConcluded a before (register_stage core m)
  unfolding register_stage remove
  register_stage-IsConcluded a on before m fit same e =
      let registered : Machine (SpecWbDev H) B = record m { bus = (core.register m.bus).1 } in
      elim (Bool-cases ((core.register m.bus).0 == 0)) [
        | inl zero_is ↦
            let (bus, gone, v) = core.undone m.bus fit (ground (arith, zero_is)) in
            rw zero_is (
              started on registered (tear_down (record m { bus = bus }))
                (ap (λ r. map tear_down (map (λ x. record m { bus = x }) r)) gone)
                (torn_down-Keeps before (record m { bus = bus }) e (v ∙ ap core.view same)))
        | inr nonzero ↦ rw nonzero (
            failed on (tear_down registered) (
              torn_down-Keeps before registered e
                (core.refused m.bus fit (ground (arith, nonzero)) ∙ ap core.view same)))
      ]

  -- What `bar_stage` is given.
  abbrev started_up : (granted : Bool) → Machine (SpecWbDev H) B → Machine (SpecWbDev H) B
  started_up granted m =
      enable_msi granted
        (record (hold master (hold enabled (hold memory m))) { dev = initialized m.dev })

  abbrev windows : Machine (SpecWbDev H) B → Machine (SpecWbDev H) B
  windows m =
      hold (mapping 4) (
        hold (region 4) (hold (mapping 2) (hold (region 2) (hold (mapping 0) (hold (region 0) m)))))

  bar_stage-IsConcluded :
      (a : Answers) (on : IsEnabled a) (granted v0 v2 v4 : Bool) (before : Machine (SpecWbDev H) B)
      → core.IsFit before.bus
      → IsConcluded a before (bar_stage core v0 v2 v4 (started_up granted before))
  unfolding bar_stage setup_bar
  bar_stage-IsConcluded a on true false v2 v4 before fit =
      failed on _ (record { held = refl; bus = refl })
  bar_stage-IsConcluded a on false false v2 v4 before fit =
      failed on _ (record { held = refl; bus = refl })
  bar_stage-IsConcluded a on true true false v4 before fit =
      failed on _ (record { held = refl; bus = refl })
  bar_stage-IsConcluded a on false true false v4 before fit =
      failed on _ (record { held = refl; bus = refl })
  bar_stage-IsConcluded a on true true true false before fit =
      failed on _ (record { held = refl; bus = refl })
  bar_stage-IsConcluded a on false true true false before fit =
      failed on _ (record { held = refl; bus = refl })
  bar_stage-IsConcluded a on true true true true before fit =
      register_stage-IsConcluded a on before (windows (started_up true before)) fit refl refl
  bar_stage-IsConcluded a on false true true true before fit =
      register_stage-IsConcluded a on before (windows (started_up false before)) fit refl refl

  -- For a Wishbone core whose `wishbone_register` changes nothing if it fails and is undone by
  -- `wishbone_unregister` otherwise, whatever the kernel answers, the Wishbone core is left as it was
  -- by a `probe` that returns an error, and by `remove` after one that returns 0. A `probe` of a card of
  -- a wrong revision returns -EIO, one without memory -ENOMEM, and one whose card cannot be enabled the
  -- error of pci_enable_device; they leave nothing held. One that fails later returns -ENOMEM; it, and
  -- a `remove`, leave the card enabled and a bus master, and nothing else.
  pub probe-IsConcluded :
      (a : Answers) (m : Machine (SpecWbDev H) B)
      → core.IsFit m.bus
      → IsConcluded a m (probe core a m)
  unfolding probe
  probe-IsConcluded a m fit =
      if-IsConcluded a m (wrong_revision a) _ _
        (λ w. wrong_card w m (record { held = refl; bus = refl }))
        (λ w.
          if-IsConcluded a m (not a.kmalloc) _ _
            (λ k. no_memory (w, ground (arith, k)) m (record { held = refl; bus = refl }))
            (λ k.
              if-IsConcluded a m (not (a.enable == 0)) _ _
                (λ e.
                  not_enabled (w, ground (arith, k), ground (arith, e)) m
                    (record { held = refl; bus = refl }))
                (λ e.
                  bar_stage-IsConcluded a (w, ground (arith, k), ground (arith, e)) a.msi
                    (a.region 0) (a.region 2) (a.region 4) m fit)))
