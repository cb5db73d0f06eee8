-- ===== src/Wishbone.antt =====
-- The Wishbone core of pcie-wb/wishbone.c and pcie-wb/wishbone.h: what its character devices share.
--
-- A back end is a `struct wishbone_operations`: its operations are functions on a state of its own,
-- `S`. An array of bytes in a context is a function from indices to bytes.
pub mod Slave
pub mod Bus
pub mod Master
pub mod Init
pub mod Iovec
use fpga_config_space.Base.{ℕ, suc, ◌^◌, ◌%◌, Option, List, [], ◌∷◌, Bool, update, window}
use fpga_config_space.Endian.{big, store32, be32}

-- struct wishbone_request
pub record Request : Type 0 where
  pub write : Bool
  pub addr : ℕ
  pub dat : ℕ
  pub mask : ℕ

-- struct wishbone_operations
pub record Operations (S : Type 0) : Type 0 where
  pub cycle : S → Bool → S
  pub byteenable : S → ℕ → S
  pub write : S → (addr dat : ℕ) → S
  pub read : S → (addr : ℕ) → ℕ × S
  pub read_cfg : S → (addr : ℕ) → ℕ × S
  pub request : S → Option Request × S
  pub reply : S → (err dat : ℕ) → S

abbrev pub etherbone_bca : ℕ
etherbone_bca = 0x80

abbrev pub etherbone_rca : ℕ
etherbone_rca = 0x40

abbrev pub etherbone_rff : ℕ
etherbone_rff = 0x20

abbrev pub etherbone_cyc : ℕ
etherbone_cyc = 0x08

abbrev pub etherbone_wca : ℕ
etherbone_wca = 0x04

abbrev pub etherbone_wff : ℕ
etherbone_wff = 0x02

abbrev pub wba_data : ℕ
wba_data = 0x8000

abbrev pub wba_err : ℕ
wba_err = 0x8004

-- eb_to_cpu, at index `i` of a buffer.
unfoldable pub eb_to_cpu : (ℕ → ℕ) → ℕ → ℕ
eb_to_cpu buf i = be32 (window buf i 4) 0

-- The bytes that eb_from_cpu stores.
abbrev pub eb_from_cpu : ℕ → List ℕ
eb_from_cpu x = store32 big x

-- Bytes copied into a buffer from index `at` on.
unfoldable pub copy_in : (ℕ → ℕ) → (at : ℕ) → List ℕ → ℕ → ℕ
copy_in buf at [] = buf
copy_in buf at (x ∷ xs) = copy_in (update buf at x) (suc at) xs
