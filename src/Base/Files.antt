-- ===== src/Base/Files.antt =====
-- A file that is written at positions: its bytes from the start on, holes as zeros, and the position.
use Prim.Native.Nat.{ℕ, zero, suc, ◌+◌, ◌≤◌, ◌<◌}
use mathlib.Core.Path.{◌≡◌, refl, sym, ap, ap₂, ◌∙◌}
use mathlib.Core.List.{List, [], ◌∷◌, ◌++◌}
use native.Mathlib.Nat.{add-zero}
use native.Mathlib.Omega.{arith}
use fpga_config_space.Base.Tests.{◌==◌, if◌then◌else◌, eq-false, ==_iff}
use fpga_config_space.Base.Lists.{length, window, length-append}

pub record Output : Type 0 where
  pub bytes : ℕ → ℕ
  pub pos : ℕ

abbrev pub byte_set : (pos b : ℕ) → (ℕ → ℕ) → ℕ → ℕ
byte_set pos b f j = if j == pos then b else f j

-- The bytes of a file after a write.
abbrev pub put : List ℕ → (pos : ℕ) → (ℕ → ℕ) → ℕ → ℕ
put [] pos f = f
put (b ∷ bs) pos f = put bs (suc pos) (byte_set pos b f)

abbrev pub fseek : (pos : ℕ) → Output → Output
fseek pos o = record o { pos = pos }

abbrev pub fwrite : List ℕ → Output → Output
fwrite bytes o = record { bytes = put bytes o.pos o.bytes; pos = o.pos + length bytes }

pub put-below : (bs : List ℕ) (p : ℕ) (f : ℕ → ℕ) (j : ℕ) → j < p → put bs p f j ≡ f j
put-below [] p f j lt = refl
put-below (b ∷ bs) p f j lt =
    put-below bs (suc p) (byte_set p b f) j (omega (arith, lt))
    ∙ ap (λ t. if t then b else f j) (eq-false j p (omega (arith, lt)))

pub window-cong :
    (f g : ℕ → ℕ) (i n : ℕ)
    → ((j : ℕ) → i ≤ j → j < i + n → f j ≡ g j)
    → window f i n ≡ window g i n
window-cong f g i zero h = refl
window-cong f g i (suc n) h =
    ap₂ (λ x xs. x ∷ xs) (h i (omega arith) (omega arith))
      (window-cong f g (suc i) n (λ j le lt. h j (omega (arith, le)) (omega (arith, lt))))

-- What was written is read back.
pub window-put : (bs : List ℕ) (p : ℕ) (f : ℕ → ℕ) → window (put bs p f) p (length bs) ≡ bs
window-put [] p f = refl
window-put (b ∷ bs) p f =
    ap₂ (λ x xs. x ∷ xs)
      (put-below bs (suc p) (byte_set p b f) p (omega arith)
        ∙ ap (λ t. if t then b else f p) ((==_iff p p).1 refl))
      (window-put bs (suc p) (byte_set p b f))

-- A write in two pieces.
pub put-append :
    (xs ys : List ℕ) (p : ℕ) (f : ℕ → ℕ) → put (xs ++ ys) p f ≡ put ys (p + length xs) (put xs p f)
put-append [] ys p f = ap (λ q. put ys q f) (omega arith)
put-append (x ∷ xs) ys p f =
    put-append xs ys (suc p) (byte_set p x f)
    ∙ ap (λ q. put ys q (put xs (suc p) (byte_set p x f))) (omega arith)

pub fwrite-nil : (o : Output) → fwrite [] o ≡ o
fwrite-nil o = λ i. record { bytes = o.bytes; pos = add-zero o.pos i }

pub fwrite-append : (xs ys : List ℕ) (o : Output) → fwrite ys (fwrite xs o) ≡ fwrite (xs ++ ys) o
fwrite-append xs ys o = λ i. record { bytes = sym (put-append xs ys o.pos o.bytes) i; pos = ends i }
  where
    ends : o.pos + length xs + length ys ≡ o.pos + length (xs ++ ys)
    ends = omega (arith, length-append xs ys)
