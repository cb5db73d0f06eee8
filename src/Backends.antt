-- ===== src/Backends.antt =====
-- The back ends of the Wishbone core: what the drivers of pcie-wb/pcie_wb.c, pcie-wb/spec_wb.c and
-- vme-wb/vme_wb_external.c share.
--
-- A card is outside the repository: its registers are read and written through `Io`, on a state `H`
-- of its own. What a register answers, and what a write does, are its functions.
pub mod Lanes
pub mod Resources
pub mod Pcie
pub mod Spec
pub mod Vme
use fpga_config_space.Base.{ℕ}

-- A mapped region of a card: the control registers, or the window into the bus.
pub data Region : Type 0 where
  control window : Region

-- ioread8, ioread16, ioread32 and iowrite8, iowrite16, iowrite32, with the width in bytes.
pub record Io (H : Type 0) : Type 0 where
  pub ioread : Region → (width offset : ℕ) → H → ℕ × H
  pub iowrite : Region → (width offset value : ℕ) → H → H
