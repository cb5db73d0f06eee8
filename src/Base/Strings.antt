-- ===== src/Base/Strings.antt =====
-- Strings as lists of bytes without their terminator, and buffers of a fixed length.
use Prim.Native.Nat.{ℕ, zero, suc, ◌+◌}
use mathlib.Core.Path.{◌≡◌, refl, ap, ◌∙◌}
use mathlib.Core.List.{List, [], ◌∷◌, ◌++◌}
use native.Mathlib.Omega.{arith}
use fpga_config_space.Base.Tests.{◌==◌, if◌then◌else◌}
use fpga_config_space.Base.Lists.{length}

-- strncpy: zeros behind the end of the string.
abbrev pub strncpy : (n : ℕ) → List ℕ → List ℕ
strncpy zero src = []
strncpy (suc n) [] = 0 ∷ strncpy n []
strncpy (suc n) (x ∷ src) = x ∷ strncpy n (if x == 0 then [] else src)

pub length-strncpy : (n : ℕ) (src : List ℕ) → length (strncpy n src) ≡ n
length-strncpy zero src = refl
length-strncpy (suc n) [] = ap suc (length-strncpy n [])
length-strncpy (suc n) (x ∷ src) = ap suc (length-strncpy n _)

-- memset: the same byte, over and over.
abbrev pub copies : (n x : ℕ) → List ℕ
copies zero x = []
copies (suc n) x = x ∷ copies n x

pub length-copies : (n x : ℕ) → length (copies n x) ≡ n
length-copies zero x = refl
length-copies (suc n) x = ap suc (length-copies n x)

pub copies-add : (m n x : ℕ) → copies (m + n) x ≡ copies m x ++ copies n x
copies-add zero n x = ap (λ k. copies k x) (omega arith)
copies-add (suc m) n x = ap (λ k. copies k x) step ∙ ap (λ l. x ∷ l) (copies-add m n x)
  where
    step : suc m + n ≡ suc (m + n)
    step = omega arith

-- A buffer up to its terminator.
abbrev pub c_string : List ℕ → List ℕ
c_string [] = []
c_string (c ∷ s) = let rest = c_string s in if c == 0 then [] else c ∷ rest
