-- ===== src/Base/Bits.antt =====
-- Masks: `x & (2^w - 1)` and `x & ((2^w - 1) << k)` as remainders and quotients, for every width.
use Prim.Native.Nat.{
  ℕ, zero, suc, ◌+◌, ◌-◌, ◌*◌, ◌/◌, ◌%◌, ◌^◌, ◌≤◌, ◌<◌, min, bit_and, digits, bit_and-bitwise,
}
use mathlib.Core.Path.{◌≡◌, refl, sym, ap, ◌∙◌}
use native.Mathlib.Omega.{arith}
use native.Mathlib.Nat.{
  pow-suc, pow-zero, mul-one, div-one, mod-one, div-add-mod', add-mul-mod_self_right, mod-lt,
  mod-eq_of_lt, div-div-eq-div-mul, pow-succ',
}

-- The definition of `bit_and`, on fuel for the digits of the first number.
abbrev common : (fuel x y : ℕ) → ℕ
common = digits (λ y. zero) min

common_more : (fuel x y : ℕ) → x ≤ fuel → common (suc fuel) x y ≡ common fuel x y
common_more zero zero y le = refl
common_more (suc fuel) zero y le = refl
common_more zero (suc x) y le = absurd (omega (arith, le))
common_more (suc fuel) (suc x) y le =
    ap (λ t. t * 2 + min (suc x % 2) (y % 2))
      (common_more fuel (suc x / 2) (y / 2) (omega (arith, le)))

-- Fuel beyond the number itself changes nothing.
common-bit_and : (extra fuel x y : ℕ) → extra + x ≡ fuel → common fuel x y ≡ bit_and x y
common-bit_and zero fuel x y e =
    ap (λ n. common n x y) (omega (arith, e)) ∙ sym (bit_and-bitwise x y)
common-bit_and (suc extra) fuel x y e =
    let same : fuel ≡ suc (extra + x) = omega (arith, e) in
    ap (λ n. common n x y) same
    ∙ common_more (extra + x) x y (omega arith)
    ∙ common-bit_and extra (extra + x) x y refl

-- The lowest digit of `x & y`, and the rest.
bit_and_lowest : (x y : ℕ) → bit_and x y ≡ bit_and (x / 2) (y / 2) * 2 + min (x % 2) (y % 2)
bit_and_lowest zero y = omega (arith, bit_and-bitwise 0 y, bit_and-bitwise 0 (y / 2))
bit_and_lowest (suc x) y =
    bit_and-bitwise (suc x) y
    ∙ ap (λ t. t * 2 + min (suc x % 2) (y % 2))
        (common-bit_and (x - suc x / 2) x (suc x / 2) (y / 2) (omega arith))

mask_bound : (bound x y : ℕ) → x ≤ bound → bit_and x y ≤ y
mask_bound bound zero y le = omega (arith, bit_and-bitwise 0 y)
mask_bound zero (suc x) y le = absurd (omega (arith, le))
mask_bound (suc bound) (suc x) y le =
    omega (
      arith,
      le,
      bit_and_lowest (suc x) y,
      mask_bound bound (suc x / 2) (y / 2) (omega (arith, le)),
    )

-- A masked number is at most the mask.
pub bit_and-le : (a b : ℕ) → bit_and a b ≤ b
bit_and-le a b = mask_bound a a b (omega arith)

bit_and-zero : (a : ℕ) → bit_and a 0 ≡ 0
bit_and-zero a = omega (arith, bit_and-le a 0)

-- A remainder by an even number, from the halves.
half-mod : (a p : ℕ) → 0 < p → a % (p * 2) ≡ a / 2 % p * 2 + a % 2
half-mod a p pos =
    let split : a ≡ (a / 2 % p * 2 + a % 2) + a / 2 / p * (p * 2) =
      omega (arith, ap (λ (t : ℕ). t * 2) (div-add-mod' (a / 2) p)) in
    let small : a / 2 % p * 2 + a % 2 < p * 2 = omega (arith, mod-lt (a / 2) pos) in
    ap (λ t. t % (p * 2)) split
    ∙ add-mul-mod_self_right (a / 2 % p * 2 + a % 2) (a / 2 / p) (p * 2)
    ∙ mod-eq_of_lt small

pub pow-pos : (w : ℕ) → 0 < 2 ^ w
pow-pos zero = omega (arith, pow-zero 2)
pow-pos (suc w) = omega (arith, pow-suc 2 w, pow-pos w)

-- A mask of w ones keeps the remainder by 2^w.
pub bit_and_ones : (w a : ℕ) → bit_and a (2 ^ w - 1) ≡ a % 2 ^ w
bit_and_ones zero a = rw pow-zero (bit_and-zero a ∙ sym (mod-one a))
bit_and_ones (suc w) a =
    let half : (2 ^ w * 2 - 1) / 2 ≡ 2 ^ w - 1 = omega (arith, pow-pos w) in
    let odd : (2 ^ w * 2 - 1) % 2 ≡ 1 = omega (arith, pow-pos w) in
    rw pow-suc (
      omega (
        arith,
        bit_and_lowest a (2 ^ w * 2 - 1),
        ap (bit_and (a / 2)) half,
        odd,
        bit_and_ones w (a / 2),
        half-mod a (2 ^ w) (pow-pos w),
      ))

-- A mask shifted by k clears the k low bits and masks the rest.
pub bit_and_shifted : (k a m : ℕ) → bit_and a (m * 2 ^ k) ≡ bit_and (a / 2 ^ k) m * 2 ^ k
bit_and_shifted zero a m = rw (pow-zero, mul-one, div-one, mul-one)
bit_and_shifted (suc k) a m =
    let even : m * 2 ^ suc k ≡ m * 2 ^ k * 2 = omega (arith, ap (λ (t : ℕ). m * t) (pow-suc 2 k)) in
    let deep : a / 2 / 2 ^ k ≡ a / 2 ^ suc k =
      div-div-eq-div-mul a 2 (2 ^ k) ∙ ap (λ t. a / t) (sym (pow-succ' 2 k)) in
    let rest : m * 2 ^ k * 2 / 2 ≡ m * 2 ^ k = omega arith in
    let low : bit_and a (m * 2 ^ k * 2) ≡ bit_and (a / 2) (m * 2 ^ k) * 2 =
      omega (arith, bit_and_lowest a (m * 2 ^ k * 2), ap (bit_and (a / 2)) rest) in
    rw (even, low, bit_and_shifted k (a / 2) m, deep, pow-suc) (omega arith)
