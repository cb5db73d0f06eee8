-- ===== src/Backends/Pcie/Probe/Settled.antt =====
-- How `probe` of pcie-wb/pcie_wb.c ends: with the card ready and `remove` able to undo it, or with
-- nothing kept.
use fpga_config_space.Base.{
  ℕ, List, ◌∷◌, Option, some, Bool, true, false, not, ◌≡◌, refl, sym, ap, subst, ◌∙◌, inl, inr,
  ◌==◌, if◌then◌else◌, arith, Bool-cases,
}
use mathlib.Core.Option.{map}
use fpga_config_space.Endian.{Host, little, big}
use fpga_config_space.Backends.{control, Io}
use fpga_config_space.Backends.Lanes.{word, lanes_of}
use fpga_config_space.Backends.Resources.{
  Resource, enabled, memory, master, msi, intx_off, irq, region, mapping, eio, Registration,
  Machine, hold, release,
}
use fpga_config_space.Backends.Pcie.{
  PcieWbDev, pcie_int_enable, control_register_high, window_offset_low,
}
use fpga_config_space.Backends.Pcie.Window.{Bridge}
use fpga_config_space.Backends.Pcie.Ready.{IsReady, pcie_int_enable-IsReady, control-IsReady}
use fpga_config_space.Backends.Pcie.Probe.{
  Answers, setup_bar, fail_msi, initialized, enable_msi, interrupts, irq_stage, register_stage,
  init_registers, bar_stage, probe, tear_down, remove,
}

module _ {H B V : Type 0} (io : Io H) (b : Bridge io) (h : Host) (core : Registration B V) where
  -- The same resources are held, and the Wishbone core has the same in the kernel.
  pub record IsRestored (before after : Machine (PcieWbDev H) B) : Type 0 where
    pub held : after.held ≡ before.held
    pub bus : core.view after.bus ≡ core.view before.bus

  abbrev pub IsUndone :
      (before : Machine (PcieWbDev H) B) → Option (Machine (PcieWbDev H) B) → Type 0
  IsUndone before r = (after : Machine (PcieWbDev H) B) × (r ≡ some after) × IsRestored before after

  -- Success, or an error.
  pub data IsSettled (before : Machine (PcieWbDev H) B)
      : Option (ℕ × Machine (PcieWbDev H) B) → Type 0 where
    started :
        (after : Machine (PcieWbDev H) B)
        → IsReady io b h after.dev
        → IsUndone before (remove io core after)
        → IsSettled before (some (0, after))
    failed :
        (after : Machine (PcieWbDev H) B)
        → IsRestored before after
        → IsSettled before (some (eio, after))

  if-IsSettled :
      {before : Machine (PcieWbDev H) B} (p : Bool) (x y : Option (ℕ × Machine (PcieWbDev H) B))
      → IsSettled before x
      → IsSettled before y
      → IsSettled before (if p then x else y)
  if-IsSettled true x y a c = a
  if-IsSettled false x y a c = c

  -- From `wishbone_register` on: all that is held by then.
  abbrev equipped : Bool → List Resource → List Resource
  equipped on held =
      if on
      then intx_off
        ∷ msi
        ∷ master
        ∷ mapping 1
        ∷ region 1
        ∷ mapping 0
        ∷ region 0
        ∷ memory
        ∷ enabled
        ∷ held
      else master ∷ mapping 1 ∷ region 1 ∷ mapping 0 ∷ region 0 ∷ memory ∷ enabled ∷ held

  tear_down-held :
      (on : Bool) (held : List Resource) (m : Machine (PcieWbDev H) B)
      → m.held ≡ equipped on held
      → m.dev.msi ≡ on
      → (tear_down m).held ≡ held
  tear_down-held true held m e d = rw d (rw e refl)
  tear_down-held false held m e d = rw d (rw e refl)

  tear_down-bus : (m : Machine (PcieWbDev H) B) → (tear_down m).bus ≡ m.bus
  tear_down-bus m = elim (Bool-cases m.dev.msi) [ inl e ↦ rw e refl | inr e ↦ rw e refl ]

  -- All is held, and the device can be taken off the list.
  record IsEquipped (before m : Machine (PcieWbDev H) B) : Type 0 where
    held : m.held ≡ equipped m.dev.msi before.held
    ready : IsReady io b h m.dev
    listed : (bus : B) × (core.unregister m.bus ≡ some bus) × (core.view bus ≡ core.view before.bus)

  torn_down-IsRestored :
      (before m : Machine (PcieWbDev H) B)
      → m.held ≡ equipped m.dev.msi before.held
      → core.view m.bus ≡ core.view before.bus
      → IsRestored before (tear_down m)
  torn_down-IsRestored before m e v = record {
    held = tear_down-held m.dev.msi before.held m e refl;
    bus = ap core.view (tear_down-bus m) ∙ v;
  }

  unregister-IsUndone :
      (before m : Machine (PcieWbDev H) B)
      → IsEquipped before m
      → (on : Bool) → IsUndone before (remove io core (interrupts io core on (hold irq m)))
  unfolding remove pcie_int_enable
  unregister-IsUndone before m q on =
      let (bus, gone, v) = q.listed in
      (
        _,
        ap
            (λ r. map tear_down (
              map
                (λ x.
                  record (release irq
                    (interrupts io core false (interrupts io core on (hold irq m)))) { bus = x })
                r))
            gone,
        torn_down-IsRestored before
            (record (release irq (interrupts io core false (interrupts io core on (hold irq m)))) {
              bus = bus;
            })
            q.held v,
      )

  irq_stage-IsSettled :
      (a : Answers) (before m : Machine (PcieWbDev H) B)
      → IsEquipped before m
      → IsSettled before (irq_stage io core a m)
  unfolding irq_stage
  irq_stage-IsSettled a before m q =
      let (bus, gone, v) = q.listed in
      if-IsSettled (not a.request_irq) _ _
        (subst (IsSettled before)
          (sym (ap (λ r. map fail_msi (map (λ x. record m { bus = x }) r)) gone))
          (failed _ (torn_down-IsRestored before (record m { bus = bus }) q.held v)))
        (started _ (pcie_int_enable-IsReady io b h true m.dev q.ready)
          (unregister-IsUndone before m q true))

  register_stage-IsSettled :
      (a : Answers) (before m : Machine (PcieWbDev H) B)
      → core.IsFit m.bus
      → m.bus ≡ before.bus
      → m.held ≡ equipped m.dev.msi before.held
      → IsReady io b h m.dev
      → IsSettled before (register_stage io core a m)
  unfolding register_stage
  register_stage-IsSettled a before m fit same e k =
      elim (Bool-cases ((core.register m.bus).0 == 0)) [
        | inl zero_is ↦ rw zero_is (
            irq_stage-IsSettled a before (record m { bus = (core.register m.bus).1 })
              (record {
                held = e;
                ready = k;
                listed =
                    let (bus, gone, v) = core.undone m.bus fit (ground (arith, zero_is)) in
                    (bus, gone, v ∙ ap core.view same);
              }))
        | inr nonzero ↦ rw nonzero (
            failed _ (
              torn_down-IsRestored before (record m { bus = (core.register m.bus).1 }) e
                (core.refused m.bus fit (ground (arith, nonzero)) ∙ ap core.view same)))
      ]

  msi_stage-IsSettled :
      (a : Answers) (granted : Bool) (before m : Machine (PcieWbDev H) B)
      → core.IsFit m.bus
      → m.bus ≡ before.bus
      → m.held ≡ equipped false before.held
      → m.dev.msi ≡ true
      → IsReady io b h m.dev
      → IsSettled before (register_stage io core a (enable_msi granted m))
  msi_stage-IsSettled a true before m fit same e d k =
      register_stage-IsSettled a before (hold intx_off (hold msi m)) fit same
        (rw d (ap (λ l. intx_off ∷ msi ∷ l) e)) k
  msi_stage-IsSettled a false before m fit same e d k =
      register_stage-IsSettled a before (record m { dev = record m.dev { msi = false } }) fit same e
        (record { cached = k.cached; lanes = k.lanes })

  -- What `bar_stage` is given.
  abbrev allocated : Machine (PcieWbDev H) B → Machine (PcieWbDev H) B
  allocated m = hold memory (record (hold enabled m) { dev = initialized m.dev })

  whole_word-lanes :
      (order : Host) (dev : PcieWbDev H) → (initialized dev).lanes ≡ lanes_of order 4 0
  whole_word-lanes little dev = refl
  whole_word-lanes big dev = refl

  initialized-IsReady :
      (dev : PcieWbDev H)
      → IsReady io b h (record (initialized dev) {
        card =
            io.iowrite control 4 control_register_high 0
              (io.iowrite control 4 window_offset_low 0 dev.card);
      })
  initialized-IsReady dev =
      control-IsReady io b h control_register_high 0
        (record (initialized dev) { card = io.iowrite control 4 window_offset_low 0 dev.card })
        (omega arith)
        (record {
          cached = sym (b.seek 0 dev.card);
          lanes = (4, 0, word refl, whole_word-lanes h dev);
        })

  bar_stage-IsSettled :
      (a : Answers) (is_memory available0 available1 : Bool) (before : Machine (PcieWbDev H) B)
      → core.IsFit before.bus
      → IsSettled before (bar_stage io core a is_memory available0 available1 (allocated before))
  unfolding bar_stage setup_bar
  bar_stage-IsSettled a false v0 v1 before fit = failed _ (record { held = refl; bus = refl })
  bar_stage-IsSettled a true false v1 before fit = failed _ (record { held = refl; bus = refl })
  bar_stage-IsSettled a true true false before fit = failed _ (record { held = refl; bus = refl })
  bar_stage-IsSettled a true true true before fit =
      msi_stage-IsSettled a a.msi before
        (hold master (
          init_registers io core (
            hold (mapping 1)
              (hold (region 1) (hold (mapping 0) (hold (region 0) (allocated before)))))))
        fit refl refl refl (initialized-IsReady before.dev)

  -- For a card whose window is moved by the register WINDOW_OFFSET_LOW only, and a Wishbone core whose
  -- `wishbone_register` changes nothing if it fails and is undone by `wishbone_unregister` otherwise:
  -- whatever the kernel answers, `probe` returns. It returns 0 with a device that is ready, and
  -- `remove` then gives all back; or it returns -EIO, and all is given back already.
  pub probe-IsSettled :
      (a : Answers) (m : Machine (PcieWbDev H) B)
      → core.IsFit m.bus
      → IsSettled m (probe io core a m)
  unfolding probe
  probe-IsSettled a m fit =
      if-IsSettled (not (a.revision == 1)) _ _ (failed m (record { held = refl; bus = refl })) (
        if-IsSettled (not a.enable) _ _ (failed m (record { held = refl; bus = refl })) (
          if-IsSettled (not a.kmalloc) _ _ (failed _ (record { held = refl; bus = refl }))
            (bar_stage-IsSettled a a.is_memory (a.region 0) (a.region 1) m fit)))
