-- ===== src/Wishbone/Iovec/Flat.antt =====
-- The pieces of a user's data are one list of bytes.
use fpga_config_space.Base.{
  ℕ, zero, suc, ◌+◌, ◌-◌, ◌%◌, ◌^◌, ◌≤◌, ◌<◌, List, [], ◌∷◌, ◌++◌, Bool, true, leb, take, drop,
  length, min, ◌≡◌, refl, sym, ap, ◌∙◌, arith, Bool-cases, inl, inr, length-append, length-drop,
  leb→le, leb→lt,
}
use fpga_config_space.Wishbone.Iovec.{copied_len, done, copy_from, memcpy_fromiovecend}

abbrev pub flat : List (List ℕ) → List ℕ
flat [] = []
flat (v ∷ iov) = v ++ flat iov

pub take-short : (n : ℕ) (xs ys : List ℕ) → n ≤ length xs → take n (xs ++ ys) ≡ take n xs
take-short zero xs ys le = refl
take-short (suc n) [] ys le = absurd (omega (arith, le))
take-short (suc n) (x ∷ xs) ys le = ap (λ l. x ∷ l) (take-short n xs ys (omega (arith, le)))

-- Taking from two lists, of which the first is used up.
pub take-long :
    (n : ℕ) (xs ys : List ℕ) → length xs ≤ n → take n (xs ++ ys) ≡ xs ++ take (n - length xs) ys
take-long n [] ys le = ap (λ m. take m ys) (omega arith)
take-long zero (x ∷ xs) ys le = absurd (omega (arith, le))
take-long (suc n) (x ∷ xs) ys le =
    ap (λ l. x ∷ l)
      (take-long n xs ys (omega (arith, le)) ∙ ap (λ m. xs ++ take m ys) (omega arith))

pub drop-short : (n : ℕ) (xs ys : List ℕ) → n ≤ length xs → drop n (xs ++ ys) ≡ drop n xs ++ ys
drop-short zero xs ys le = refl
drop-short (suc n) [] ys le = absurd (omega (arith, le))
drop-short (suc n) (x ∷ xs) ys le = drop-short n xs ys (omega (arith, le))

pub drop-long :
    (n : ℕ) (xs ys : List ℕ) → length xs ≤ n → drop n (xs ++ ys) ≡ drop (n - length xs) ys
drop-long n [] ys le = ap (λ m. drop m ys) (omega arith)
drop-long zero (x ∷ xs) ys le = absurd (omega (arith, le))
drop-long (suc n) (x ∷ xs) ys le =
    drop-long n xs ys (omega (arith, le)) ∙ ap (λ m. drop m ys) (omega arith)

take-two :
    (m : ℕ) (xs ys : List ℕ)
    → take m (xs ++ ys) ≡ take (min m (length xs)) xs ++ take (m - min m (length xs)) ys
take-two m [] ys =
    ap (λ k. take k ys) (omega arith) ∙ ap (λ k. take k [] ++ take (m - min m 0) ys) zero_is
  where
    zero_is : 0 ≡ min m 0
    zero_is = omega arith
take-two zero (x ∷ xs) ys = ap (λ k. take k (x ∷ xs) ++ take (0 - k) ys) zero_is
  where
    zero_is : 0 ≡ min 0 (suc (length xs))
    zero_is = omega arith
take-two (suc m) (x ∷ xs) ys =
    ap (λ l. x ∷ l) (take-two m xs ys)
    ∙ (ap (λ k. (x ∷ take (min m (length xs)) xs) ++ take k ys) left
        ∙ ap (λ k. take k (x ∷ xs) ++ take (suc m - min (suc m) (suc (length xs))) ys) front)
  where
    left : m - min m (length xs) ≡ suc m - min (suc m) (suc (length xs))
    left = omega arith

    front : suc (min m (length xs)) ≡ min (suc m) (suc (length xs))
    front = omega arith

-- Below 4 GiB nothing is lost.
pub copied_len-min :
    (left room : ℕ) → left < 2 ^ 32 → room < 2 ^ 32 → copied_len left room ≡ min left room
copied_len-min left room l r =
    ap (λ n. min n (room % 2 ^ 32)) (same left l) ∙ ap (min left) (same room r)
  where
    same : (n : ℕ) → n < 2 ^ 32 → n % 2 ^ 32 ≡ n
    same n lt = omega (arith, lt)

module _ (user : List ℕ → Bool) (mapped : (v : List ℕ) → user v ≡ true) where
  -- From a place in the first piece on, if the pieces behind it can be copied from their start on.
  piece-flat :
      (offset len : ℕ) (v : List ℕ) (iov : List (List ℕ))
      → ((m : ℕ) → m ≤ length (flat iov) → copy_from user 0 m iov ≡ done (take m (flat iov)))
      → offset ≤ length v
      → offset + len ≤ length v + length (flat iov)
      → length v + length (flat iov) < 2 ^ 31
      → copy_from user offset len (v ∷ iov) ≡ done (take len (drop offset v ++ flat iov))
  unfolding copy_from
  piece-flat offset zero v iov behind le enough small = refl
  piece-flat offset (suc len) v iov behind le enough small =
      let n = min (suc len) (length v - offset) in
      let size = length-drop offset v in
      let whole =
        copied_len-min (suc len) (length v - offset) (omega (arith, enough, small))
          (omega (arith, small)) in
      rw (mapped v, whole, behind (suc len - n) (omega (arith, enough)))
        (ap
            (λ k. done (
              take (min (suc len) k) (drop offset v)
              ++ take (suc len - min (suc len) k) (flat iov)))
            (sym size)
          ∙ ap done (sym (take-two (suc len) (drop offset v) (flat iov))))

  copy_from-flat :
      (iov : List (List ℕ)) (m : ℕ)
      → m ≤ length (flat iov)
      → length (flat iov) < 2 ^ 31
      → copy_from user 0 m iov ≡ done (take m (flat iov))
  unfolding copy_from
  copy_from-flat [] zero le small = refl
  copy_from-flat [] (suc m) le small = absurd (omega (arith, le))
  copy_from-flat (v ∷ iov) m le small =
      let size = length-append v (flat iov) in
      piece-flat 0 m v iov (λ n le'. copy_from-flat iov n le' (omega (arith, small, size)))
        (omega arith) (omega (arith, le, size)) (omega (arith, small, size))

  -- If all pieces can be read and there are bytes to copy, which lie in the pieces, of less than
  -- 2 GiB in all: the copy is that part of the pieces, one behind the other.
  pub memcpy_fromiovecend-flat :
      (offset len : ℕ) (iov : List (List ℕ))
      → 0 < len
      → offset + len ≤ length (flat iov)
      → length (flat iov) < 2 ^ 31
      → memcpy_fromiovecend user offset len iov ≡ done (take len (drop offset (flat iov)))
  unfolding memcpy_fromiovecend
  memcpy_fromiovecend-flat offset len [] pos le small = absurd (omega (arith, pos, le))
  memcpy_fromiovecend-flat offset len (v ∷ iov) pos le small =
      let size = length-append v (flat iov) in
      elim (Bool-cases (leb (length v) offset)) [
        | inl t ↦
            let over = leb→le (length v) offset t in
            rw (t) (
              memcpy_fromiovecend-flat (offset - length v) len iov pos
                (omega (arith, le, size, over)) (omega (arith, small, size))
              ∙ ap (λ l. done (take len l)) (sym (drop-long offset v (flat iov) over)))
        | inr t ↦
            let within = leb→lt (length v) offset t in
            rw (t) (
              piece-flat offset len v iov
                (λ n le'. copy_from-flat iov n le' (omega (arith, small, size)))
                (omega (arith, within)) (omega (arith, le, size)) (omega (arith, small, size))
              ∙ ap (λ l. done (take len l))
                  (sym (drop-short offset v (flat iov) (omega (arith, within)))))
      ]
