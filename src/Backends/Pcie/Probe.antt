-- ===== src/Backends/Pcie/Probe.antt =====
-- `probe` and `remove` of pcie-wb/pcie_wb.c: what the driver takes of the kernel for a card, and
-- gives back.
pub mod Settled
use fpga_config_space.Base.{
  ℕ, ◌+◌, List, [], ◌∷◌, Option, none, some, Bool, true, false, not, ◌==◌, if◌then◌else◌,
}
use mathlib.Core.Option.{map}
use fpga_config_space.Backends.{Region, control, window, Io}
use fpga_config_space.Backends.Lanes.{Lanes}
use fpga_config_space.Backends.Resources.{
  Resource, enabled, memory, master, msi, intx_off, irq, region, mapping, without, eio, enomem,
  Registration, Machine, hold, release, destroy_bar, unregister,
}
use fpga_config_space.Backends.Pcie.{
  PcieWbDev, window_offset_low, control_register_high, pcie_int_enable,
}

-- What the kernel answers `probe`. `is_memory` is IORESOURCE_MEM in the flags of BAR 0.
pub record Answers : Type 0 where
  pub revision : ℕ
  pub enable : Bool
  pub kmalloc : Bool
  pub is_memory : Bool
  pub region : ℕ → Bool
  pub msi : Bool
  pub request_irq : Bool

-- From `mutex_init` on, with what kmalloc left.
abbrev pub initialized : {H : Type 0} → PcieWbDev H → PcieWbDev H
initialized dev = record dev {
  msi = true;
  window_offset = 0;
  lanes = record { width = 4; shift = 0; low_addr = 0 };
}

module _ {H B : Type 0} where
  -- Both calls look at the flags of BAR 0. ioremap_nocache is taken to succeed: its answer is not looked at.
  unfoldable pub setup_bar :
      (is_memory available : Bool) (bar : ℕ) → Machine (PcieWbDev H) B → ℕ × Machine (PcieWbDev H) B
  setup_bar is_memory available bar m =
      if not is_memory
      then (enomem, m)
      else if not available
      then (enomem, m)
      else (0, hold (mapping bar) (hold (region bar) m))

  -- The labels at the end of `probe`.
  abbrev pub fail_disable : Machine (PcieWbDev H) B → ℕ × Machine (PcieWbDev H) B
  fail_disable m = (eio, release enabled m)

  abbrev pub fail_free : Machine (PcieWbDev H) B → ℕ × Machine (PcieWbDev H) B
  fail_free m = fail_disable (release memory m)

  abbrev pub fail_bar0 : Machine (PcieWbDev H) B → ℕ × Machine (PcieWbDev H) B
  fail_bar0 m = fail_free (destroy_bar 0 m)

  -- `if (dev->msi)`, in `probe` and in `remove`.
  abbrev pub release_msi : Machine (PcieWbDev H) B → Machine (PcieWbDev H) B
  release_msi m = if m.dev.msi then release msi (release intx_off m) else m

  abbrev pub fail_msi : Machine (PcieWbDev H) B → ℕ × Machine (PcieWbDev H) B
  fail_msi m = fail_bar0 (destroy_bar 1 (release master (release_msi m)))

  abbrev pub enable_msi : (granted : Bool) → Machine (PcieWbDev H) B → Machine (PcieWbDev H) B
  enable_msi granted m =
      if granted
      then hold intx_off (hold msi m)
      else record m { dev = record m.dev { msi = false } }

  -- The rest of `remove`, once the device is not listed any more.
  abbrev pub tear_down : Machine (PcieWbDev H) B → Machine (PcieWbDev H) B
  tear_down m =
      release enabled
        (release memory (destroy_bar 0 (destroy_bar 1 (release master (release_msi m)))))

module _ {H B V : Type 0} (io : Io H) (core : Registration B V) where
  abbrev pub interrupts : Bool → Machine (PcieWbDev H) B → Machine (PcieWbDev H) B
  interrupts on m = record m { dev = pcie_int_enable io on m.dev }

  abbrev pub fail_reg : Machine (PcieWbDev H) B → Option (ℕ × Machine (PcieWbDev H) B)
  fail_reg m = map fail_msi (unregister core m)

  -- From `request_irq` on.
  unfoldable pub irq_stage :
      Answers → Machine (PcieWbDev H) B → Option (ℕ × Machine (PcieWbDev H) B)
  irq_stage a m = if not a.request_irq then fail_reg m else some (0, interrupts true (hold irq m))

  -- From `wishbone_register` on.
  unfoldable pub register_stage :
      Answers → Machine (PcieWbDev H) B → Option (ℕ × Machine (PcieWbDev H) B)
  register_stage a m =
      let (err, bus) = core.register m.bus in
      let m' = record m { bus = bus } in
      if not (err == 0) then some (fail_msi m') else irq_stage a m'

  -- Initialize device registers
  abbrev pub init_registers : Machine (PcieWbDev H) B → Machine (PcieWbDev H) B
  init_registers m = record m {
    dev = record m.dev {
      card =
          io.iowrite control 4 control_register_high 0
            (io.iowrite control 4 window_offset_low 0 m.dev.card);
    };
  }

  -- From the first `setup_bar` on.
  unfoldable pub bar_stage :
      Answers
      → (is_memory available0 available1 : Bool) → Machine (PcieWbDev H) B
      → Option (ℕ × Machine (PcieWbDev H) B)
  bar_stage a is_memory available0 available1 m =
      let (err0, m0) = setup_bar is_memory available0 0 m in
      let (err1, m1) = setup_bar is_memory available1 1 m0 in
      if not (err0 == 0)
      then some (fail_free m0)
      else if not (err1 == 0)
      then some (fail_bar0 m1)
      else register_stage a (enable_msi a.msi (hold master (init_registers m1)))

  -- probe. An error is its positive number; none is a call that does not return.
  unfoldable pub probe : Answers → Machine (PcieWbDev H) B → Option (ℕ × Machine (PcieWbDev H) B)
  probe a m =
      let m1 = hold enabled m in
      let m2 = hold memory (record m1 { dev = initialized m1.dev }) in
      if not (a.revision == 1)
      then some (eio, m)
      else if not a.enable
      then some (eio, m)
      else if not a.kmalloc
      then some (fail_disable m1)
      else bar_stage a a.is_memory (a.region 0) (a.region 1) m2

  unfoldable pub remove : Machine (PcieWbDev H) B → Option (Machine (PcieWbDev H) B)
  remove m = map tear_down (unregister core (release irq (interrupts false m)))
