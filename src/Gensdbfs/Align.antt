-- ===== src/Gensdbfs/Align.antt =====
-- The rounding of positions to blocks.
use fpga_config_space.Base.{
  ℕ, zero, suc, ◌+◌, ◌-◌, ◌*◌, ◌/◌, ◌%◌, ◌^◌, ◌≤◌, ◌<◌, ◌≡◌, sym, ap, subst, ◌∙◌, arith, bit_and,
}
use Prim.Native.Nat.add
use native.Mathlib.Nat.{
  zero-add, pow-zero, pow-suc, mul-one, mul_assoc, mod-eq_of_lt, pow-le-pow_right,
  div-lt_iff_lt-mul, div-mul-le_self, lt-div-mul-add, mul-mod_left, div-add-mod', mul-add-div_right,
  div-eq_of_lt, add-zero,
}
use fpga_config_space.Base.Bits.{bit_and-le, bit_and_ones, bit_and_shifted, pow-pos}
use fpga_config_space.Gensdbfs.{sdb_align}

two_pow_add : (k w : ℕ) → 2 ^ (k + w) ≡ 2 ^ w * 2 ^ k
two_pow_add zero w = rw (zero-add, pow-zero, mul-one)
two_pow_add (suc k) w = rw (add.suc k w, pow-suc, pow-suc, two_pow_add k w) (mul_assoc _ _ _)

pred_mul : (m n : ℕ) → 0 < m → (m - 1) * n + n ≡ m * n
pred_mul zero n p = absurd (omega arith)
pred_mul (suc m) n p = let back : suc m - 1 ≡ m = omega arith in rw back (omega arith)

-- The mask of `SDB_ALIGN`, for a block of 2^k bytes.
mask_blocks :
    (k w a : ℕ) → k + w ≡ 32 → a < 2 ^ 32 → bit_and a (2 ^ 32 - 1 - (2 ^ k - 1)) ≡ a / 2 ^ k * 2 ^ k
mask_blocks k w a e small =
    let total : 2 ^ 32 ≡ 2 ^ w * 2 ^ k = ap (λ t. 2 ^ t) (sym e) ∙ two_pow_add k w in
    let mask : 2 ^ 32 - 1 - (2 ^ k - 1) ≡ (2 ^ w - 1) * 2 ^ k =
      omega (arith, total, pred_mul (2 ^ w) (2 ^ k) (pow-pos w), pow-pos k, pow-pos w) in
    let fits : a / 2 ^ k < 2 ^ w =
      (div-lt_iff_lt-mul (pow-pos k)).1 (subst (λ t. a < t) total small) in
    rw mask (bit_and_shifted k a (2 ^ w - 1))
    ∙ ap (λ t. t * 2 ^ k) (bit_and_ones w (a / 2 ^ k) ∙ mod-eq_of_lt fits)

pow-le : (k : ℕ) → k ≤ 31 → 2 ^ k < 2 ^ 32
pow-le k p = let below : 2 ^ k ≤ 2 ^ 31 = pow-le-pow_right {n = 2} (omega arith) p in omega arith

sdb_align_lem :
    (k x : ℕ)
    → k ≤ 31
    → x + 2 ^ k ≤ 2 ^ 32
    → sdb_align (2 ^ k) x ≡ (x + (2 ^ k - 1)) / 2 ^ k * 2 ^ k
unfolding sdb_align
sdb_align_lem k x small fits =
    let ones : (2 ^ k + (2 ^ 32 - 1)) % 2 ^ 32 ≡ 2 ^ k - 1 =
      omega (arith, pow-pos k, pow-le k small) in
    let sum : (x + (2 ^ k - 1)) % 2 ^ 64 ≡ x + (2 ^ k - 1) = omega arith in
    rw (ones, sum)
      (mask_blocks k (32 - k) (x + (2 ^ k - 1)) (omega arith) (omega (arith, pow-pos k)))

-- `SDB_ALIGN` with blocks of 2^k bytes, k up to 31, rounds a position up to the next multiple of
-- the block, as long as the result fits 32 bits.
pub sdb_align-up :
    (k x : ℕ)
    → k ≤ 31
    → x + 2 ^ k ≤ 2 ^ 32
    → (x ≤ sdb_align (2 ^ k) x)
      × (sdb_align (2 ^ k) x < x + 2 ^ k)
      × (sdb_align (2 ^ k) x % 2 ^ k ≡ 0)
sdb_align-up k x small fits = rw (sdb_align_lem k x small fits) (
  omega (arith, lt-div-mul-add {a = x + (2 ^ k - 1)} (pow-pos k), pow-pos k),
  omega (arith, div-mul-le_self (x + (2 ^ k - 1)) (2 ^ k), pow-pos k),
  mul-mod_left ((x + (2 ^ k - 1)) / 2 ^ k) (2 ^ k),
)

-- A position on a block stays.
pub sdb_align_whole :
    (k x : ℕ) → k ≤ 31 → x + 2 ^ k ≤ 2 ^ 32 → x % 2 ^ k ≡ 0 → sdb_align (2 ^ k) x ≡ x
sdb_align_whole k x small fits e =
    let b = 2 ^ k in
    let q = x / b in
    let exact : q * b ≡ x = omega (arith, div-add-mod' x b) in
    let down : (x + (b - 1)) / b ≡ q =
      ap (λ t. t / b) (omega (arith, exact))
      ∙ mul-add-div_right {m = b} (pow-pos k) q (b - 1)
      ∙ ap (λ t. q + t) (div-eq_of_lt {n = b - 1} {m = b} (omega (arith, pow-pos k)))
      ∙ add-zero q in
    sdb_align_lem k x small fits ∙ rw down exact

-- `SDB_ALIGN` gives less than 2^32 for every block size and every position: beyond 32 bits its
-- mask clears the upper half.
pub sdb_align-lt : (blocksize x : ℕ) → sdb_align blocksize x < 2 ^ 32
unfolding sdb_align
sdb_align-lt blocksize x = omega (
  arith,
  bit_and-le ((x + (blocksize + (2 ^ 32 - 1)) % 2 ^ 32) % 2 ^ 64)
      (2 ^ 32 - 1 - (blocksize + (2 ^ 32 - 1)) % 2 ^ 32),
)
