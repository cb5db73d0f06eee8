-- ===== src/Historic/Onewire.antt =====
-- historic/driver/wb_1wire.c: the driver of a 1-wire master on the bus.
pub mod Answered
pub mod Tests
use fpga_config_space.Base.{
  ℕ, zero, suc, ◌+◌, ◌*◌, ◌%◌, ◌^◌, List, [], ◌∷◌, Option, none, some, Bool, true, false, not,
  if◌then◌else◌, ◌==◌, bit_and,
}
use fpga_config_space.Historic.Bus.{WbDevice, WbDeviceId, wb_no_class}
use fpga_config_space.Historic.Bus.Match.{last_id}

-- read32 and write32 of the bus, on a state of its own.
pub record Io {ℓ} (S : Type ℓ) : Type ℓ where
  pub readl : (addr : ℕ) → S → ℕ × S
  pub writel : (addr val : ℕ) → S → S

-- struct wb_onewire_dev. `base` is the address of the registers.
pub record OnewireDev : Type 0 where
  pub num : ℕ
  pub port : ℕ
  pub clk_div_nor : ℕ
  pub clk_div_ovd : ℕ
  pub base : ℕ

-- OCOW_REG_CSR and OCOW_REG_CDR
abbrev pub csr : OnewireDev → ℕ
csr dev = dev.base

abbrev pub cdr : OnewireDev → ℕ
cdr dev = (dev.base + 4) % 2 ^ 64

-- OCOW_CSR_CYC_MASK
abbrev pub cyc_mask : ℕ
cyc_mask = 8

-- The selected port and a cycle. The fields share no bit, so ORing them adds.
abbrev pub select : OnewireDev → ℕ
select dev = dev.port % 16 * 2 ^ 8 + cyc_mask

module _ {ℓ} {S : Type ℓ} (io : Io S) where
  unfoldable pub wb_onewire_init_lowlevel : OnewireDev → S → S
  wb_onewire_init_lowlevel dev s =
      io.writel (cdr dev) (dev.clk_div_nor % 2 ^ 16 + dev.clk_div_ovd % 2 ^ 16 * 2 ^ 16) s

  -- The loop that waits for the end of the cycle, on fuel. None is a loop that has not ended.
  unfoldable pub wait : OnewireDev → (fuel : ℕ) → S → Option S
  wait dev zero s = none
  wait dev (suc fuel) s =
      let (val, s') = io.readl (csr dev) s in
      let rest = wait dev fuel s' in if not (bit_and val cyc_mask == 0) then rest else some s'

  -- The last read: OCOW_CSR_DAT_MASK of the register.
  abbrev pub sampled : OnewireDev → Option S → Option (ℕ × S)
  sampled dev none = none
  sampled dev (some s) = let (reg, s') = io.readl (csr dev) s in some (reg % 2, s')

  -- What the two operations do once they have their value.
  abbrev pub cycle : OnewireDev → (fuel val : ℕ) → S → Option (ℕ × S)
  cycle dev fuel val s = sampled dev (wait dev fuel (io.writel (csr dev) val s))

  unfoldable pub wb_onewire_touch_bit : OnewireDev → (fuel bit : ℕ) → S → Option (ℕ × S)
  wb_onewire_touch_bit dev fuel bit s = cycle dev fuel (select dev + bit % 2) s

  -- OCOW_CSR_RST_MASK is 2.
  unfoldable pub wb_onewire_reset : OnewireDev → (fuel : ℕ) → S → Option (ℕ × S)
  wb_onewire_reset dev fuel s = cycle dev fuel (select dev + 2) s

  -- wb_onewire_dev_init, with what w1_add_master_device answers: whether it has succeeded.
  unfoldable pub wb_onewire_dev_init : (added : Bool) → OnewireDev → S → Bool × S
  wb_onewire_dev_init added dev s =
      if not added then (false, s) else (true, wb_onewire_init_lowlevel dev s)

  -- wb_onewire_probe, with the answers of kzalloc and of w1_add_master_device: none is -ENOMEM.
  unfoldable pub wb_onewire_probe :
      (memory added : Bool) (devno hdl_base : ℕ) → S → Option OnewireDev × S
  wb_onewire_probe memory added devno hdl_base s =
      let owdev : OnewireDev = record {
        num = devno;
        port = 0;
        clk_div_nor = 624;
        clk_div_ovd = 124;
        base = hdl_base;
      } in
      if not memory then (none, s) else (some owdev, (wb_onewire_dev_init added owdev s).1)

-- wb_onewire_ids
abbrev pub wb_onewire_id : WbDeviceId
wb_onewire_id = record { vendor = 0; device = 1; dev_class = wb_no_class }

abbrev pub wb_onewire_ids : List WbDeviceId
wb_onewire_ids = wb_onewire_id ∷ last_id ∷ []
