-- ===== src/Backends/Vme/Csr.antt =====
-- `vme_setup_csr_fa0` of vme-wb/vme_wb_external.c, which tells the card where its windows are, and the
-- bases at which `vme_map_window` maps them.
use fpga_config_space.Base.{ℕ, ◌+◌, ◌-◌, ◌*◌, ◌/◌, ◌%◌, ◌^◌, ◌≡◌, refl, arith, update}

-- enum vme_map_win
pub data Window : Type 0 where
  map_cr_csr map_reg map_ctrl : Window

-- `base` and `size` of `vme_map_window`, once `base` is in the 32-bit field `vme_addrl`.
abbrev pub base : Window → (slot : ℕ) → ℕ
base map_cr_csr slot = slot * 0x80000 % 2 ^ 32
base map_reg slot = slot * 0x10000000 % 2 ^ 32
base map_ctrl slot = slot * 0x400 % 2 ^ 32

abbrev pub size : Window → ℕ
size map_cr_csr = 0x80000
size map_reg = 0x10000
size map_ctrl = 0xA0

-- VME_A32_USER_MBLT and VME_A24_USER_MBLT are the kernel's, and so is `iowrite32be`, on the state of
-- the card behind `base`.
module _ {H : Type 0} (iowrite32be : (offset value : ℕ) → H → H) (a32_mblt a24_mblt : ℕ) where
  abbrev pub vme_csr_write : (value offset : ℕ) → H → H
  vme_csr_write value offset card = iowrite32be (offset - offset % 4) (value % 2 ^ 8) card

  -- The four writes of `fa` from the register FUN0ADER or FUN1ADER on.
  abbrev pub write_ader : (ader address am : ℕ) → H → H
  write_ader ader address am card = vme_csr_write (am % 2 ^ 6 * 2 ^ 2) (ader + 12) (
      vme_csr_write (address / 2 ^ 8 % 2 ^ 8) (ader + 8) (
        vme_csr_write (address / 2 ^ 16 % 2 ^ 8) (ader + 4)
          (vme_csr_write (address / 2 ^ 24 % 2 ^ 8) ader card)))

  -- vme_setup_csr_fa0, with the offsets RESET_CORE to FUN1ADER of vme-wb/vme_wb.h written out.
  unfoldable pub vme_setup_csr_fa0 : (wb_vme vector level : ℕ) → H → H
  vme_setup_csr_fa0 wb_vme vector level card =
      let off =
        vme_csr_write 1 0x7ff33 (vme_csr_write 0x10 0x7FFF7 (vme_csr_write 0x80 0x7FFFB card)) in
      let irq = vme_csr_write level 0x7FF5B (vme_csr_write vector 0x7FF5F off) in
      let fun0 = write_ader 0x7FF63 (wb_vme * 2 ^ 28 % 2 ^ 32) a32_mblt irq in
      let fun1 = write_ader 0x7FF73 (wb_vme * 2 ^ 10 % 2 ^ 32) a24_mblt fun0 in
      vme_csr_write 0x10 0x7FFFB fun1

-- A card whose registers keep what is written.
abbrev pub keep : (offset value : ℕ) → (ℕ → ℕ) → ℕ → ℕ
keep offset value card = update card offset value

-- The base that three registers from `ader` on give, most significant byte first.
abbrev pub decoded : (ader : ℕ) → (ℕ → ℕ) → ℕ
decoded ader card = card ader * 2 ^ 24 + card (ader + 4) * 2 ^ 16 + card (ader + 8) * 2 ^ 8

-- Of a card whose registers keep what is written, `vme_setup_csr_fa0` sets the function 0 to the base
-- at which `vme_map_window` maps the window into the bus, and the function 1 to the one of the control
-- registers, for every slot. Its last write enables the card again.
pub vme_setup_csr_fa0-base :
    (a32_mblt a24_mblt slot vector level : ℕ) (card : ℕ → ℕ)
    → let after = vme_setup_csr_fa0 keep a32_mblt a24_mblt slot vector level card in
      (decoded 0x7FF60 after ≡ base map_reg slot)
      × (decoded 0x7FF70 after ≡ base map_ctrl slot)
      × (after 0x7FFF8 ≡ 0x10)
unfolding vme_setup_csr_fa0
vme_setup_csr_fa0-base a32_mblt a24_mblt slot vector level card = (omega arith, omega arith, refl)
