-- ===== src/Wishbone/Iovec/Back.antt =====
-- What a copy puts into the pieces of a user's data is what the other copy takes from there.
use fpga_config_space.Base.{
  ℕ, zero, suc, ◌+◌, ◌-◌, ◌^◌, ◌≤◌, ◌<◌, List, [], ◌∷◌, ◌++◌, Bool, true, take, drop, leb, length,
  min, ◌≡◌, refl, sym, ap, ◌∙◌, arith, Bool-cases, inl, inr, length-append, length-drop,
  length-take, leb→le, leb→lt, append_assoc, append-nil, take-drop, drop_front, take-append,
}
use fpga_config_space.Wishbone.Iovec.{
  copied_len, Copied, done, map_copied, memcpy_fromiovecend, memcpy_toiovecend,
}
use fpga_config_space.Wishbone.Iovec.Flat.{
  copied_len-min, flat, memcpy_fromiovecend-flat, take-short, take-long, drop-short, drop-long,
}

-- The bytes of the pieces with `kdata` put over those from `offset` on.
abbrev pub replaced : List ℕ → List ℕ → ℕ → List ℕ
replaced bytes kdata offset = take offset bytes ++ (kdata ++ drop (offset + length kdata) bytes)

-- The copy ended with pieces that hold these bytes.
abbrev pub Holds : Copied (List (List ℕ)) → List ℕ → Type 0
Holds c bytes = (iov : List (List ℕ)) × (c ≡ done iov) × (flat iov ≡ bytes)

take-all : (n : ℕ) (xs : List ℕ) → length xs ≤ n → take n xs ≡ xs
take-all zero [] le = refl
take-all (suc n) [] le = refl
take-all zero (x ∷ xs) le = absurd (omega (arith, le))
take-all (suc n) (x ∷ xs) le = ap (λ l. x ∷ l) (take-all n xs (omega (arith, le)))

drop-all : (n : ℕ) (xs : List ℕ) → length xs ≤ n → drop n xs ≡ []
drop-all zero [] le = refl
drop-all (suc n) [] le = refl
drop-all zero (x ∷ xs) le = absurd (omega (arith, le))
drop-all (suc n) (x ∷ xs) le = drop-all n xs (omega (arith, le))

-- The bytes from a place in the first piece on: the data goes beyond the piece, or ends within it.
beyond :
    (v kdata rest : List ℕ) (offset n : ℕ)
    → offset + n ≡ length v
    → n ≤ length kdata
    → (take n kdata ++ drop (offset + n) v) ++ replaced rest (drop n kdata) 0
      ≡ kdata ++ drop (offset + length kdata) (v ++ rest)
beyond v kdata rest offset n end le =
    ap (λ l. (take n kdata ++ l) ++ replaced rest (drop n kdata) 0)
      (drop-all (offset + n) v (omega (arith, end)))
    ∙ (ap (λ l. l ++ replaced rest (drop n kdata) 0) (append-nil (take n kdata))
        ∙ (sym (append_assoc (take n kdata) (drop n kdata) (drop (0 + length (drop n kdata)) rest))
            ∙ (ap (λ l. l ++ drop (0 + length (drop n kdata)) rest) (take-drop n kdata)
                ∙ ap (λ l. kdata ++ l)
                    (ap (λ m. drop m rest) (omega (arith, length-drop n kdata, end, le))
                      ∙ sym (drop-long (offset + length kdata) v rest (omega (arith, end, le)))))))

within :
    (v kdata rest : List ℕ) (offset n : ℕ)
    → n ≡ length kdata
    → offset + n ≤ length v
    → (take n kdata ++ drop (offset + n) v) ++ replaced rest (drop n kdata) 0
      ≡ kdata ++ drop (offset + length kdata) (v ++ rest)
within v kdata rest offset n all le =
    ap (λ l. (l ++ drop (offset + n) v) ++ replaced rest (drop n kdata) 0)
      (take-all n kdata (omega (arith, all)))
    ∙ (ap (λ l. (kdata ++ drop (offset + n) v) ++ replaced rest l 0)
          (drop-all n kdata (omega (arith, all)))
        ∙ (append_assoc kdata (drop (offset + n) v) rest
            ∙ ap (λ l. kdata ++ l)
                (sym (drop-short (offset + n) v rest le)
                  ∙ ap (λ m. drop (offset + m) (v ++ rest)) all)))

from_here :
    (v kdata rest : List ℕ) (offset n : ℕ)
    → offset ≤ length v
    → n ≡ min (length v - offset) (length kdata)
    → (take offset v ++ (take n kdata ++ drop (offset + n) v)) ++ replaced rest (drop n kdata) 0
      ≡ replaced (v ++ rest) kdata offset
from_here v kdata rest offset n le e =
    append_assoc (take offset v) (take n kdata ++ drop (offset + n) v)
      (replaced rest (drop n kdata) 0)
    ∙ (ap (λ l. l ++ ((take n kdata ++ drop (offset + n) v) ++ replaced rest (drop n kdata) 0))
          (sym (take-short offset v rest le))
        ∙ ap (λ l. take offset (v ++ rest) ++ l) tail)
  where
    tail :
        (take n kdata ++ drop (offset + n) v) ++ replaced rest (drop n kdata) 0
        ≡ kdata ++ drop (offset + length kdata) (v ++ rest)
    tail = elim (Bool-cases (leb (length v - offset) (length kdata))) [
      | inl t ↦
          let long = leb→le (length v - offset) (length kdata) t in
          beyond v kdata rest offset n (omega (arith, le, e, long)) (omega (arith, e))
      | inr t ↦
          let short = leb→lt (length v - offset) (length kdata) t in
          within v kdata rest offset n (omega (arith, e, short)) (omega (arith, le, e, short))
    ]

replaced-behind :
    (v kdata rest : List ℕ) (offset : ℕ)
    → length v ≤ offset
    → v ++ replaced rest kdata (offset - length v) ≡ replaced (v ++ rest) kdata offset
replaced-behind v kdata rest offset le =
    sym (
      append_assoc v (take (offset - length v) rest)
        (kdata ++ drop (offset - length v + length kdata) rest))
    ∙ (ap (λ l. l ++ (kdata ++ drop (offset - length v + length kdata) rest))
          (sym (take-long offset v rest le))
        ∙ ap (λ l. take offset (v ++ rest) ++ (kdata ++ l))
            (ap (λ n. drop n rest) (omega (arith, le))
              ∙ sym (drop-long (offset + length kdata) v rest (omega (arith, le)))))

module _ (user : List ℕ → Bool) (mapped : (v : List ℕ) → user v ≡ true) where
  pub memcpy_toiovecend-flat :
      (iov : List (List ℕ)) (kdata : List ℕ) (offset : ℕ)
      → offset + length kdata ≤ length (flat iov)
      → length (flat iov) < 2 ^ 31
      → Holds (memcpy_toiovecend user kdata offset iov) (replaced (flat iov) kdata offset)
  unfolding memcpy_toiovecend
  memcpy_toiovecend-flat iov [] offset le small = (
    iov,
    refl,
    sym (take-drop offset (flat iov))
        ∙ ap (λ n. take offset (flat iov) ++ drop n (flat iov)) (omega arith),
  )
  memcpy_toiovecend-flat [] (k ∷ kdata) offset le small = absurd (omega (arith, le))
  memcpy_toiovecend-flat (v ∷ iov) (k ∷ kdata) offset le small =
      let size = length-append v (flat iov) in
      elim (Bool-cases (leb (length v) offset)) [
        | inl t ↦
            let over = leb→le (length v) offset t in
            let r =
              memcpy_toiovecend-flat iov (k ∷ kdata) (offset - length v)
                (omega (arith, le, size, over)) (omega (arith, small, size)) in
            (
              v ∷ r.0,
              rw (t) (ap (map_copied (λ l. v ∷ l)) r.1),
              ap (λ l. v ++ l) r.2 ∙ replaced-behind v (k ∷ kdata) (flat iov) offset over,
            )
        | inr t ↦
            let inside = leb→lt (length v) offset t in
            let n = copied_len (length v - offset) (suc (length kdata)) in
            let few : n ≡ min (length v - offset) (suc (length kdata)) =
              copied_len-min (length v - offset) (suc (length kdata)) (omega (arith, small, size))
                (omega (arith, le, small)) in
            let r =
              memcpy_toiovecend-flat iov (drop n (k ∷ kdata)) 0
                (omega (arith, le, size, few, length-drop n (k ∷ kdata)))
                (omega (arith, small, size)) in
            let piece = take offset v ++ (take n (k ∷ kdata) ++ drop (offset + n) v) in
            (
              piece ∷ r.0,
              rw (t, mapped v) (ap (map_copied (λ l. piece ∷ l)) r.1),
              ap (λ l. piece ++ l) r.2
                  ∙ from_here v (k ∷ kdata) (flat iov) offset n (omega (arith, inside)) few,
            )
      ]

  -- If all pieces can be read and written and the data, which is not empty, lies in them,
  -- and they have less than 2 GiB in all: what memcpy_toiovecend puts into them, memcpy_fromiovecend takes from the same place.
  pub memcpy_fromiovecend-memcpy_toiovecend :
      (iov : List (List ℕ)) (kdata : List ℕ) (offset : ℕ)
      → 0 < length kdata
      → offset + length kdata ≤ length (flat iov)
      → length (flat iov) < 2 ^ 31
      → (iov' : List (List ℕ)) × (memcpy_toiovecend user kdata offset iov ≡ done iov')
        × (memcpy_fromiovecend user offset (length kdata) iov' ≡ done kdata)
  memcpy_fromiovecend-memcpy_toiovecend iov kdata offset pos le small =
      let r = memcpy_toiovecend-flat iov kdata offset le small in
      let front : length (take offset (flat iov)) ≡ offset =
        omega (arith, length-take offset (flat iov), le) in
      let tail = kdata ++ drop (offset + length kdata) (flat iov) in
      let size = length-append (take offset (flat iov)) tail in
      let size' = length-append kdata (drop (offset + length kdata) (flat iov)) in
      let cut : drop offset (replaced (flat iov) kdata offset) ≡ tail =
        drop_front offset (take offset (flat iov)) tail front in
      (
        r.0,
        r.1,
        memcpy_fromiovecend-flat user mapped offset (length kdata) r.0 pos
              (omega (arith, ap length r.2, size, size', front))
              (omega (
                arith,
                ap length r.2,
                size,
                size',
                front,
                small,
                length-drop (offset + length kdata) (flat iov),
                le,
              ))
            ∙ ap done (
                ap (λ l. take (length kdata) (drop offset l)) r.2
                ∙ (ap (take (length kdata)) cut
                    ∙ take-append kdata (drop (offset + length kdata) (flat iov)))),
      )
