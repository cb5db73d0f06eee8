-- ===== src/Backends/Vme/Probe.antt =====
-- `vme_probe` and `vme_remove` of vme-wb/vme_wb_external.c, with the windows that they map.
pub mod Finished
use fpga_config_space.Base.{
  ℕ, ◌+◌, ◌*◌, ◌%◌, ◌^◌, List, [], ◌∷◌, Option, none, some, Bool, true, false, not, ◌==◌,
  if◌then◌else◌, leb,
}
use mathlib.Core.Option.{map}
use fpga_config_space.Endian.{Host, htonl}
use fpga_config_space.Backends.{Io}
use fpga_config_space.Backends.Resources.{
  Resource, memory, irq, mapping, without, enomem, Registration, Machine, hold, release, unregister,
}
use fpga_config_space.Backends.Vme.{VmeWbDev, init_ctrl_reg}
use fpga_config_space.Backends.Vme.Csr.{Window, map_cr_csr, map_reg, map_ctrl, vme_setup_csr_fa0}

abbrev pub eperm : ℕ
eperm = 1

abbrev pub einval : ℕ
einval = 22

-- The number of a window in `enum vme_map_win`.
abbrev pub number : Window → ℕ
number map_cr_csr = 0
number map_reg = 1
number map_ctrl = 2

-- `vme_res.map`: which pointers are not null. With it the device that the back end uses.
pub record VmeDev (H : Type 0) : Type 0 where
  pub map : ℕ → Bool
  pub wb : VmeWbDev H

-- The module's parameters for the card, and what the kernel answers: `lun_fits` is
-- `lun[ndev] < VME_MAX_DEVICES`, `kzalloc` is about the device, `mapping_memory` and `find` about a
-- window's structure and vme_find_mapping.
pub record Answers : Type 0 where
  pub lun_fits : Bool
  pub slot : ℕ
  pub vector : ℕ
  pub level : ℕ
  pub kzalloc : Bool
  pub mapping_memory : Window → Bool
  pub find : Window → Bool
  pub request_irq : Bool

abbrev pub set_map : (ℕ → Bool) → ℕ → Bool → ℕ → Bool
set_map maps n v i = if i == n then v else maps i

-- The vendor that the configuration registers spell out, one byte in each.
abbrev pub idc_of : (first second third : ℕ) → ℕ
idc_of first second third = (first * 2 ^ 16 + second * 2 ^ 8 + third) % 2 ^ 32

module _ {H B : Type 0} where
  unfoldable pub vme_map_window :
      (memory_there found : Bool) → Window → Machine (VmeDev H) B → ℕ × Machine (VmeDev H) B
  vme_map_window memory_there found w m =
      if m.dev.map (number w)
      then (eperm, m)
      else if not memory_there
      then (enomem, m)
      else if not found
      then (einval, m)
      else (
        0,
        hold (mapping (number w))
            (record m { dev = record m.dev { map = set_map m.dev.map (number w) true } }),
      )

  -- `unmap` is what vme_release_mapping answers. The callers do not look at what `vme_unmap_window` returns.
  unfoldable pub vme_unmap_window :
      (unmapped : Bool) → Window → Machine (VmeDev H) B → Machine (VmeDev H) B
  vme_unmap_window unmapped w m =
      if not (m.dev.map (number w))
      then m
      else if not unmapped
      then m
      else release (mapping (number w))
          (record m { dev = record m.dev { map = set_map m.dev.map (number w) false } })

  -- The labels at the end of `vme_probe`.
  abbrev pub failed : (error : ℕ) → Machine (VmeDev H) B → ℕ × Machine (VmeDev H) B
  failed error m = (error, release memory m)

  abbrev pub failed_unmap_crcsr :
      (unmap : Window → Bool) (error : ℕ) → Machine (VmeDev H) B → ℕ × Machine (VmeDev H) B
  failed_unmap_crcsr unmap error m = failed error (vme_unmap_window (unmap map_cr_csr) map_cr_csr m)

  abbrev pub unmap_both : (unmap : Window → Bool) → Machine (VmeDev H) B → Machine (VmeDev H) B
  unmap_both unmap m =
      vme_unmap_window (unmap map_cr_csr) map_cr_csr (vme_unmap_window (unmap map_reg) map_reg m)

  abbrev pub failed_unmap_wb :
      (unmap : Window → Bool) (error : ℕ) → Machine (VmeDev H) B → ℕ × Machine (VmeDev H) B
  failed_unmap_wb unmap error m = failed_unmap_crcsr unmap error (unmap_both unmap m)

  -- vme_free_irq, of an interrupt that is not held here, then the windows.
  abbrev pub fail_irq :
      (unmap : Window → Bool) (error : ℕ) → Machine (VmeDev H) B → ℕ × Machine (VmeDev H) B
  fail_irq unmap error m = failed_unmap_wb unmap error (unmap_both unmap (release irq m))

module _ {H B V : Type 0} (io : Io H) (h : Host) (core : Registration B V)
    (csr_read : (offset : ℕ) → H → ℕ) (iowrite32be : (offset value : ℕ) → H → H)
    (a32_mblt a24_mblt : ℕ) where
  -- vme_is_present, where `csr_read` is ioread32 on the configuration registers.
  unfoldable pub vme_is_present : H → Bool
  vme_is_present card =
      idc_of (htonl h (csr_read 0x24 card)) (htonl h (csr_read 0x28 card))
        (htonl h (csr_read 0x2C card))
      == 0x80031

  -- From `vme_request_irq` on. `error` is still 0.
  unfoldable pub irq_stage :
      (Window → Bool) → (granted : Bool) → Machine (VmeDev H) B → ℕ × Machine (VmeDev H) B
  irq_stage unmap granted m =
      if not granted
      then fail_irq unmap 0 m
      else (0, hold irq (record m { dev = record m.dev { wb = init_ctrl_reg io h m.dev.wb } }))

  -- From `wishbone_register` on.
  unfoldable pub register_stage :
      (Window → Bool) → (granted : Bool) → Machine (VmeDev H) B → ℕ × Machine (VmeDev H) B
  register_stage unmap granted m =
      let (err, bus) = core.register m.bus in
      let m' = record m { bus = bus } in
      if not (err == 0) then failed_unmap_wb unmap 0 m' else irq_stage unmap granted m'

  unfoldable pub ctrl_stage :
      (Window → Bool)
      → (memory_there found granted : Bool) → Machine (VmeDev H) B
      → ℕ × Machine (VmeDev H) B
  ctrl_stage unmap memory_there found granted m =
      let (error, m') = vme_map_window memory_there found map_ctrl m in
      if not (error == 0) then failed_unmap_wb unmap error m' else register_stage unmap granted m'

  unfoldable pub reg_stage :
      (Window → Bool)
      → (reg_memory reg_found ctrl_memory ctrl_found granted : Bool) → Machine (VmeDev H) B
      → ℕ × Machine (VmeDev H) B
  reg_stage unmap reg_memory reg_found ctrl_memory ctrl_found granted m =
      let (error, m') = vme_map_window reg_memory reg_found map_reg m in
      if not (error == 0)
      then failed_unmap_wb unmap error m'
      else ctrl_stage unmap ctrl_memory ctrl_found granted m'

  -- From the call of `vme_is_present` on, with its answer.
  unfoldable pub present_stage :
      (Window → Bool) → Answers → (present : Bool) → Machine (VmeDev H) B → ℕ × Machine (VmeDev H) B
  present_stage unmap a present m =
      let card =
        vme_setup_csr_fa0 iowrite32be a32_mblt a24_mblt a.slot a.vector a.level m.dev.wb.card in
      if not present
      then failed_unmap_crcsr unmap einval m
      else reg_stage unmap (a.mapping_memory map_reg) (a.find map_reg) (a.mapping_memory map_ctrl)
          (a.find map_ctrl) a.request_irq
          (record m { dev = record m.dev { wb = record m.dev.wb { card = card } } })

  -- From the first `vme_map_window` on.
  unfoldable pub csr_stage :
      (Window → Bool)
      → Answers
      → (memory_there found : Bool) → Machine (VmeDev H) B
      → ℕ × Machine (VmeDev H) B
  csr_stage unmap a memory_there found m =
      let (error, m') = vme_map_window memory_there found map_cr_csr m in
      if not (error == 0)
      then failed error m'
      else present_stage unmap a (vme_is_present m'.dev.wb.card) m'

  -- vme_probe. An error is its positive number.
  unfoldable pub vme_probe :
      (Window → Bool) → Answers → Machine (VmeDev H) B → ℕ × Machine (VmeDev H) B
  vme_probe unmap a m =
      if not a.lun_fits
      then (einval, m)
      else if not a.kzalloc
      then (enomem, m)
      else csr_stage unmap a (a.mapping_memory map_cr_csr) (a.find map_cr_csr) (
          hold memory (record m {
            dev = record { map = λ i. false; wb = record m.dev.wb { window_offset = 0 } };
          }))

  -- vme_remove
  unfoldable pub vme_remove : (Window → Bool) → Machine (VmeDev H) B → Option (Machine (VmeDev H) B)
  vme_remove unmap m =
      map (λ x. release memory (release irq x))
        (unregister core (
          vme_unmap_window (unmap map_ctrl) map_ctrl (
            vme_unmap_window (unmap map_reg) map_reg
              (vme_unmap_window (unmap map_cr_csr) map_cr_csr m))))
