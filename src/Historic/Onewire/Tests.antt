-- ===== src/Historic/Onewire/Tests.antt =====
-- The 1-wire driver with a master whose cycles take three reads, and on whose line no slave answers.
use fpga_config_space.Base.{
  ℕ, zero, suc, ◌%◌, some, Bool, true, false, if◌then◌else◌, ◌==◌, bit_and, ◌≡◌, refl, arith,
}
use fpga_config_space.Historic.Onewire.{
  Io, OnewireDev, cyc_mask, wb_onewire_touch_bit, wb_onewire_reset,
}
use fpga_config_space.Historic.Onewire.Answered.{IsMaster, wb_onewire-sampled}

-- The reads that are left of the cycle, and the bit on the line.
abbrev Line : Type 0
Line = ℕ × Bool

abbrev seen : Line → ℕ
seen (zero, b) = if b then 1 else 0
seen (suc n, b) = 8

abbrev later : Line → Line
later (zero, b) = (zero, b)
later (suc n, b) = (n, b)

abbrev io : Io Line
io = record { readl = λ addr s. (seen s, later s); writel = λ addr val s. (3, val % 2 == 1) }

abbrev busy : Line → ℕ
busy (n, b) = n

abbrev bit : Line → ℕ
bit (n, b) = if b then 1 else 0

io-IsMaster : (csr : ℕ) → IsMaster io csr
io-IsMaster csr = record {
  busy = busy;
  bit = bit;
  set = set;
  count = count;
  cleared = cleared;
  idle = idle;
  same = same;
  sample = sample;
}
  where
    set : (s : Line) (n : ℕ) → busy s ≡ suc n → (bit_and (seen s) cyc_mask == 0) ≡ false
    set (zero, b) n e = absurd (omega (arith, e))
    set (suc m, b) n e = refl

    count : (s : Line) (n : ℕ) → busy s ≡ suc n → busy (later s) ≡ n
    count (zero, b) n e = absurd (omega (arith, e))
    count (suc m, b) n e = omega (arith, e)

    cleared : (s : Line) → busy s ≡ 0 → (bit_and (seen s) cyc_mask == 0) ≡ true
    cleared (zero, true) e = refl
    cleared (zero, false) e = refl
    cleared (suc m, b) e = absurd (omega (arith, e))

    idle : (s : Line) → busy s ≡ 0 → busy (later s) ≡ 0
    idle (zero, b) e = refl
    idle (suc m, b) e = absurd (omega (arith, e))

    same : (s : Line) → bit (later s) ≡ bit s
    same (zero, b) = refl
    same (suc m, b) = refl

    sample : (s : Line) → busy s ≡ 0 → seen s % 2 ≡ bit s
    sample (zero, true) e = refl
    sample (zero, false) e = refl
    sample (suc m, b) e = absurd (omega (arith, e))

abbrev dev : OnewireDev
dev = record { num = 0; port = 0; clk_div_nor = 624; clk_div_ovd = 124; base = 0x100 }

wb_onewire-sampled_example :
    ((s : Line) × (wb_onewire_touch_bit io dev 4 1 (0, false) ≡ some (1, s)))
    × ((s : Line) × (wb_onewire_reset io dev 4 (0, false) ≡ some (0, s)))
unfolding io-IsMaster
wb_onewire-sampled_example =
    wb_onewire-sampled io dev (io-IsMaster 0x100) 4 1 (0, false) (omega arith) (omega arith)
