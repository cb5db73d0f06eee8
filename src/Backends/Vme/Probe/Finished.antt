-- ===== src/Backends/Vme/Probe/Finished.antt =====
-- How `vme_probe` of vme-wb/vme_wb_external.c ends, and what is then held.
use fpga_config_space.Base.{
  ℕ, ◌∷◌, some, Bool, true, false, not, ◌==◌, if◌then◌else◌, ◌≡◌, ◌≢◌, refl, ap, arith, Bool-cases,
  inl, inr,
}
use mathlib.Core.Option.{map}
use fpga_config_space.Endian.{Host}
use fpga_config_space.Backends.{Io}
use fpga_config_space.Backends.Resources.{
  memory, irq, mapping, without, enomem, Registration, Machine, hold, release,
}
use fpga_config_space.Backends.Vme.{VmeWbDev, init_ctrl_reg}
use fpga_config_space.Backends.Vme.Csr.{Window, map_cr_csr, map_reg, map_ctrl}
use fpga_config_space.Backends.Vme.Probe.{
  VmeDev, Answers, einval, set_map, vme_map_window, vme_unmap_window, irq_stage, register_stage,
  ctrl_stage, reg_stage, present_stage, csr_stage, vme_is_present, vme_probe, vme_remove,
}

-- vme_release_mapping gives every mapping back.
abbrev pub all_unmapped : Window → Bool
all_unmapped w = true

module _ {H B V : Type 0} (io : Io H) (h : Host) (core : Registration B V)
    (csr_read : (offset : ℕ) → H → ℕ) (iowrite32be : (offset value : ℕ) → H → H)
    (a32_mblt a24_mblt : ℕ) where
  -- Success; an error; and the two ends that return 0 with the device freed.
  pub data IsFinished (before : Machine (VmeDev H) B) : ℕ × Machine (VmeDev H) B → Type 0 where
    started :
        (after removed : Machine (VmeDev H) B)
        → vme_remove io h core csr_read iowrite32be a32_mblt a24_mblt all_unmapped after
          ≡ some removed
        → removed.held ≡ before.held
        → core.view removed.bus ≡ core.view before.bus
        → IsFinished before (0, after)
    refused :
        (err : ℕ) (after : Machine (VmeDev H) B)
        → err ≢ 0
        → after.held ≡ before.held
        → after.bus ≡ before.bus
        → IsFinished before (err, after)
    unregistered :
        (after : Machine (VmeDev H) B)
        → (core.register before.bus).0 ≢ 0
        → after.held ≡ mapping 2 ∷ before.held
        → core.view after.bus ≡ core.view before.bus
        → IsFinished before (0, after)
    dangling :
        (after : Machine (VmeDev H) B)
        → (core.register before.bus).0 ≡ 0
        → after.held ≡ mapping 2 ∷ without irq before.held
        → after.bus ≡ (core.register before.bus).1
        → IsFinished before (0, after)

  -- The machine with the device in memory, and the windows that are mapped one after the other.
  abbrev allocated : VmeWbDev H → Machine (VmeDev H) B → Machine (VmeDev H) B
  allocated wb m = hold memory (record m { dev = record { map = λ i. false; wb = wb } })

  abbrev mapped : ℕ → Machine (VmeDev H) B → Machine (VmeDev H) B
  mapped n m = hold (mapping n) (record m { dev = record m.dev { map = set_map m.dev.map n true } })

  abbrev all_mapped : VmeWbDev H → Machine (VmeDev H) B → Machine (VmeDev H) B
  all_mapped wb m = mapped 2 (mapped 1 (mapped 0 (allocated wb m)))

  -- With the interrupt, and then without its windows.
  abbrev live : VmeWbDev H → Machine (VmeDev H) B → Machine (VmeDev H) B
  live wb before =
      hold irq
        (all_mapped (init_ctrl_reg io h wb) (record before { bus = (core.register before.bus).1 }))

  abbrev blind : VmeWbDev H → Machine (VmeDev H) B → Machine (VmeDev H) B
  blind wb before =
      vme_unmap_window true map_ctrl
        (vme_unmap_window true map_reg (vme_unmap_window true map_cr_csr (live wb before)))

  irq_stage-IsFinished :
      (granted : Bool) (wb : VmeWbDev H) (before : Machine (VmeDev H) B)
      → core.IsFit before.bus
      → (core.register before.bus).0 ≡ 0
      → IsFinished before (
          irq_stage io h core csr_read iowrite32be a32_mblt a24_mblt all_unmapped granted
            (record (all_mapped wb before) { bus = (core.register before.bus).1 }))
  unfolding irq_stage vme_unmap_window vme_remove
  irq_stage-IsFinished false wb before fit ok = dangling _ ok refl refl
  irq_stage-IsFinished true wb before fit ok =
      let (bus, gone, v) = core.undone before.bus fit ok in
      started (live wb before) _
        (ap
          (λ r.
            map (λ x. release memory (release irq x))
              (map (λ b. record (blind wb before) { bus = b }) r))
          gone)
        refl v

  register_stage-IsFinished :
      (granted : Bool) (wb : VmeWbDev H) (before : Machine (VmeDev H) B)
      → core.IsFit before.bus
      → IsFinished before (
          register_stage io h core csr_read iowrite32be a32_mblt a24_mblt all_unmapped granted
            (all_mapped wb before))
  unfolding register_stage vme_unmap_window
  register_stage-IsFinished granted wb before fit =
      elim (Bool-cases ((core.register before.bus).0 == 0)) [
        | inl zero_is ↦
            rw zero_is (irq_stage-IsFinished granted wb before fit (ground (arith, zero_is)))
        | inr nonzero ↦
            let ne : (core.register before.bus).0 ≢ 0 = ground (arith, nonzero) in
            rw nonzero (unregistered _ ne refl (core.refused before.bus fit ne))
      ]

  reg_stage-IsFinished :
      (mr fr mc fc granted : Bool) (wb : VmeWbDev H) (before : Machine (VmeDev H) B)
      → core.IsFit before.bus
      → IsFinished before (
          reg_stage io h core csr_read iowrite32be a32_mblt a24_mblt all_unmapped mr fr mc fc
            granted
            (mapped 0 (allocated wb before)))
  unfolding reg_stage ctrl_stage vme_map_window vme_unmap_window
  reg_stage-IsFinished false fr mc fc granted wb before fit =
      refused enomem _ (omega arith) refl refl
  reg_stage-IsFinished true false mc fc granted wb before fit =
      refused einval _ (omega arith) refl refl
  reg_stage-IsFinished true true false fc granted wb before fit =
      refused enomem _ (omega arith) refl refl
  reg_stage-IsFinished true true true false granted wb before fit =
      refused einval _ (omega arith) refl refl
  reg_stage-IsFinished true true true true granted wb before fit =
      register_stage-IsFinished granted wb before fit

  present_stage-IsFinished :
      (a : Answers) (present : Bool) (wb : VmeWbDev H) (before : Machine (VmeDev H) B)
      → core.IsFit before.bus
      → IsFinished before (
          present_stage io h core csr_read iowrite32be a32_mblt a24_mblt all_unmapped a present
            (mapped 0 (allocated wb before)))
  unfolding present_stage vme_unmap_window
  present_stage-IsFinished a false wb before fit = refused einval _ (omega arith) refl refl
  present_stage-IsFinished a true wb before fit =
      reg_stage-IsFinished (a.mapping_memory map_reg) (a.find map_reg) (a.mapping_memory map_ctrl)
        (a.find map_ctrl) a.request_irq _ before fit

  csr_stage-IsFinished :
      (a : Answers) (mz fz : Bool) (wb : VmeWbDev H) (before : Machine (VmeDev H) B)
      → core.IsFit before.bus
      → IsFinished before (
          csr_stage io h core csr_read iowrite32be a32_mblt a24_mblt all_unmapped a mz fz
            (allocated wb before))
  unfolding csr_stage vme_map_window
  csr_stage-IsFinished a false fz wb before fit = refused enomem _ (omega arith) refl refl
  csr_stage-IsFinished a true false wb before fit = refused einval _ (omega arith) refl refl
  csr_stage-IsFinished a true true wb before fit =
      present_stage-IsFinished a
        (vme_is_present io h core csr_read iowrite32be a32_mblt a24_mblt wb.card) wb before fit

  if-IsFinished :
      {before : Machine (VmeDev H) B} (p : Bool) (x y : ℕ × Machine (VmeDev H) B)
      → IsFinished before x
      → IsFinished before y
      → IsFinished before (if p then x else y)
  if-IsFinished true x y a c = a
  if-IsFinished false x y a c = c

  -- When vme_release_mapping gives every mapping back and `wishbone_unregister` undoes
  -- `wishbone_register`, whatever else the kernel and the card answer, `vme_probe` ends in one of four
  -- ways. It returns 0, and `vme_remove` then gives all back; or it returns an error with all given
  -- back; or `wishbone_register` has failed, and it returns 0 with the device freed and the control
  -- window mapped; or the interrupt was refused, and it does so with the device still listed.
  pub vme_probe-IsFinished :
      (a : Answers) (m : Machine (VmeDev H) B)
      → core.IsFit m.bus
      → IsFinished m (vme_probe io h core csr_read iowrite32be a32_mblt a24_mblt all_unmapped a m)
  unfolding vme_probe
  vme_probe-IsFinished a m fit =
      if-IsFinished (not a.lun_fits) _ _ (refused einval m (omega arith) refl refl) (
        if-IsFinished (not a.kzalloc) _ _ (refused enomem m (omega arith) refl refl)
          (csr_stage-IsFinished a (a.mapping_memory map_cr_csr) (a.find map_cr_csr) _ m fit))
