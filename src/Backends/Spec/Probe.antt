-- ===== src/Backends/Spec/Probe.antt =====
-- `probe` and `remove` of pcie-wb/spec_wb.c.
pub mod Concluded
use fpga_config_space.Base.{
  ℕ, ◌+◌, List, [], ◌∷◌, ◌++◌, Option, none, some, Bool, true, false, not, ◌&&◌, ◌||◌, ◌==◌,
  if◌then◌else◌, ◌≡◌, ◌≢◌, refl, sym, ap, ◌∙◌, arith, Bool-cases, inl, inr,
}
use mathlib.Core.Option.{map}
use fpga_config_space.Backends.Lanes.{Lanes}
use fpga_config_space.Backends.Resources.{
  Resource, enabled, memory, master, msi, intx_off, region, mapping, without, eio, enomem,
  Registration, Machine, hold, release, destroy_bar, unregister,
}
use fpga_config_space.Backends.Spec.{SpecWbDev}

-- What the kernel answers `probe`. `enable` is 0 or the error of pci_enable_device.
pub record Answers : Type 0 where
  pub vendor : ℕ
  pub revision : ℕ
  pub kmalloc : Bool
  pub enable : ℕ
  pub msi : Bool
  pub region : ℕ → Bool

abbrev pub wrong_revision : Answers → Bool
wrong_revision a =
    ((a.vendor == 0x1a39) && not (a.revision == 1))
    || ((a.vendor == 0x10dc) && not (a.revision == 3))

-- From `mutex_init` on, with what kmalloc left.
abbrev pub initialized : {H : Type 0} → SpecWbDev H → SpecWbDev H
initialized dev = record dev { msi = true; lanes = record { width = 4; shift = 0; low_addr = 0 } }

module _ {H B : Type 0} where
  -- ioremap_nocache is taken to succeed: its answer is not looked at.
  unfoldable pub setup_bar :
      (available : Bool) (bar : ℕ) → Machine (SpecWbDev H) B → ℕ × Machine (SpecWbDev H) B
  setup_bar available bar m =
      if not available then (enomem, m) else (0, hold (mapping bar) (hold (region bar) m))

  -- The labels at the end of `probe`.
  abbrev pub fail_out : (ret : ℕ) → Machine (SpecWbDev H) B → ℕ × Machine (SpecWbDev H) B
  fail_out ret m = (ret, release memory m)

  -- `if (dev->msi)`, in `probe` and in `remove`.
  abbrev pub release_msi : Machine (SpecWbDev H) B → Machine (SpecWbDev H) B
  release_msi m = if m.dev.msi then release msi (release intx_off m) else m

  abbrev pub fail_msi : Machine (SpecWbDev H) B → ℕ × Machine (SpecWbDev H) B
  fail_msi m = fail_out enomem (release_msi m)

  abbrev pub fail_bar0 : Machine (SpecWbDev H) B → ℕ × Machine (SpecWbDev H) B
  fail_bar0 m = fail_msi (destroy_bar 0 m)

  abbrev pub fail_bar1 : Machine (SpecWbDev H) B → ℕ × Machine (SpecWbDev H) B
  fail_bar1 m = fail_bar0 (destroy_bar 2 m)

  abbrev pub fail_bar2 : Machine (SpecWbDev H) B → ℕ × Machine (SpecWbDev H) B
  fail_bar2 m = fail_bar1 (destroy_bar 4 m)

  abbrev pub enable_msi : (granted : Bool) → Machine (SpecWbDev H) B → Machine (SpecWbDev H) B
  enable_msi granted m =
      if granted
      then hold intx_off (hold msi m)
      else record m { dev = record m.dev { msi = false } }

  -- The rest of `remove`, once the device is not listed any more.
  abbrev pub tear_down : Machine (SpecWbDev H) B → Machine (SpecWbDev H) B
  tear_down m = release memory (release_msi (destroy_bar 0 (destroy_bar 2 (destroy_bar 4 m))))

module _ {H B V : Type 0} (core : Registration B V) where
  -- From `wishbone_register` on.
  unfoldable pub register_stage : Machine (SpecWbDev H) B → ℕ × Machine (SpecWbDev H) B
  register_stage m =
      let (err, bus) = core.register m.bus in
      let m' = record m { bus = bus } in if not (err == 0) then fail_bar2 m' else (0, m')

  -- From the first `setup_bar` on, for the BARs 0, 2 and 4.
  unfoldable pub bar_stage :
      (available0 available2 available4 : Bool)
      → Machine (SpecWbDev H) B
      → ℕ × Machine (SpecWbDev H) B
  bar_stage available0 available2 available4 m =
      let (err0, m0) = setup_bar available0 0 m in
      let (err1, m1) = setup_bar available2 2 m0 in
      let (err2, m2) = setup_bar available4 4 m1 in
      if not (err0 == 0)
      then fail_msi m0
      else if not (err1 == 0)
      then fail_bar0 m1
      else if not (err2 == 0)
      then fail_bar1 m2
      else register_stage m2

  -- probe. An error is its positive number.
  unfoldable pub probe : Answers → Machine (SpecWbDev H) B → ℕ × Machine (SpecWbDev H) B
  probe a m =
      let m1 = hold memory m in
      let m2 = hold master (hold enabled m1) in
      let m3 = record m2 { dev = initialized m2.dev } in
      if wrong_revision a
      then (eio, m)
      else if not a.kmalloc
      then (enomem, m)
      else if not (a.enable == 0)
      then fail_out a.enable m1
      else bar_stage (a.region 0) (a.region 2) (a.region 4) (enable_msi a.msi m3)

  unfoldable pub remove : Machine (SpecWbDev H) B → Option (Machine (SpecWbDev H) B)
  remove m = map tear_down (unregister core m)
