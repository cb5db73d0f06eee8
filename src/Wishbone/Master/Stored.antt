-- ===== src/Wishbone/Master/Stored.antt =====
-- What char_master_aio_write stores in the ring buffer, and what it leaves there.
use fpga_config_space.Base.{
  ℕ, zero, suc, ◌+◌, ◌-◌, ◌%◌, ◌≤◌, ◌<◌, List, [], ◌∷◌, ltb, ◌≡◌, refl, ap, ◌∙◌, ◌⊎◌, inl, inr,
  arith, Bool-cases, length, take, drop, get_or, update, ltb→lt, ltb→le, length-take, length-drop,
}
use fpga_config_space.Base.Bits.{bit_and_ones}
use fpga_config_space.Wishbone.{copy_in}
use fpga_config_space.Wishbone.Master.{ring_index, ring_copy_in}

update-same : (f : ℕ → ℕ) (i v : ℕ) → update f i v i ≡ v
update-same f i v = ground arith

update-other : (f : ℕ → ℕ) (i v j : ℕ) → (i < j) ⊎ (j < i) → update f i v j ≡ f j
update-other f i v j (inl lt) = ground (arith, lt)
update-other f i v j (inr lt) = ground (arith, lt)

copy_in-outside :
    (buf : ℕ → ℕ) (at : ℕ) (xs : List ℕ) (p : ℕ)
    → (p < at) ⊎ (at + length xs ≤ p)
    → copy_in buf at xs p ≡ buf p
unfolding copy_in
copy_in-outside buf at [] p o = refl
copy_in-outside buf at (x ∷ xs) p (inl lt) =
    copy_in-outside (update buf at x) (suc at) xs p (inl (omega (arith, lt)))
    ∙ update-other buf at x p (inr lt)
copy_in-outside buf at (x ∷ xs) p (inr le) =
    copy_in-outside (update buf at x) (suc at) xs p (inr (omega (arith, le)))
    ∙ update-other buf at x p (inl (omega (arith, le)))

copy_in-inside :
    (buf : ℕ → ℕ) (at : ℕ) (xs : List ℕ) (j p : ℕ)
    → j < length xs
    → p ≡ at + j
    → copy_in buf at xs p ≡ get_or xs j 0
unfolding copy_in
copy_in-inside buf at [] j p lt e = absurd (omega (arith, lt))
copy_in-inside buf at (x ∷ xs) zero p lt e =
    copy_in-outside (update buf at x) (suc at) xs p (inl (omega (arith, e)))
    ∙ (ap (update buf at x) (omega (arith, e)) ∙ update-same buf at x)
copy_in-inside buf at (x ∷ xs) (suc j) p lt e =
    copy_in-inside (update buf at x) (suc at) xs j p (omega (arith, lt)) (omega (arith, e))

get_or-take : (n : ℕ) (xs : List ℕ) (j : ℕ) → j < n → get_or (take n xs) j 0 ≡ get_or xs j 0
get_or-take zero xs j lt = absurd (omega (arith, lt))
get_or-take (suc n) [] j lt = refl
get_or-take (suc n) (x ∷ xs) zero lt = refl
get_or-take (suc n) (x ∷ xs) (suc j) lt = get_or-take n xs j (omega (arith, lt))

get_or-drop : (n : ℕ) (xs : List ℕ) (j : ℕ) → get_or (drop n xs) j 0 ≡ get_or xs (n + j) 0
get_or-drop zero xs j = let same : j ≡ 0 + j = omega arith in ap (λ k. get_or xs k 0) same
get_or-drop (suc n) [] j = refl
get_or-drop (suc n) (x ∷ xs) j =
    let next : suc (n + j) ≡ suc n + j = omega arith in
    get_or-drop n xs j ∙ ap (λ k. get_or (x ∷ xs) k 0) next

ring_index_lem : (x : ℕ) → ring_index x ≡ x % 8192
unfolding ring_index
ring_index_lem x = bit_and_ones 13 x

module _ (buf : ℕ → ℕ) (s r i : ℕ) (xs : List ℕ) (at : i ≡ r % 16384) (low : s ≤ r)
    (room : r + length xs ≤ s + 8192) where
  -- The bytes stand where the counter says.
  pub ring_copy_in-inside :
      (j : ℕ) → j < length xs → ring_copy_in buf i xs ((r + j) % 8192) ≡ get_or xs j 0
  unfolding ring_copy_in
  ring_copy_in-inside j lt =
      let a = ring_index i in
      let where_is = ring_index_lem i in
      let n = 8192 - a in
      elim (Bool-cases (ltb n (length xs))) [
        | inr e ↦
            let short = ltb→le n (length xs) e in
            rw (e) (
              copy_in-inside buf a xs j ((r + j) % 8192) lt
                (omega (arith, where_is, at, lt, short)))
        | inl e ↦
            let long = ltb→lt n (length xs) e in
            rw (e) (elim (Bool-cases (ltb j n)) [
              | inl f ↦
                  let first = ltb→lt j n f in
                  copy_in-outside (copy_in buf a (take n xs)) 0 (drop n xs) ((r + j) % 8192)
                    (inr (omega (arith, where_is, at, first, length-drop n xs, low, room)))
                  ∙ (copy_in-inside buf a (take n xs) j ((r + j) % 8192)
                        (omega (arith, length-take n xs, first, lt))
                        (omega (arith, where_is, at, first))
                      ∙ get_or-take n xs j first)
              | inr f ↦
                  let second = ltb→le j n f in
                  copy_in-inside (copy_in buf a (take n xs)) 0 (drop n xs) (j - n) ((r + j) % 8192)
                    (omega (arith, length-drop n xs, lt, second))
                    (omega (arith, where_is, at, second, lt, low, room))
                  ∙ (get_or-drop n xs (j - n) ∙ ap (λ k. get_or xs k 0) (omega (arith, second)))
            ])
      ]

  -- The bytes that are not sent yet stay.
  pub ring_copy_in-outside :
      (j : ℕ) → s ≤ j → j < r → ring_copy_in buf i xs (j % 8192) ≡ buf (j % 8192)
  unfolding ring_copy_in
  ring_copy_in-outside j le lt =
      let a = ring_index i in
      let where_is = ring_index_lem i in
      let n = 8192 - a in
      elim (Bool-cases (ltb n (length xs))) [
        | inr e ↦
            let short = ltb→le n (length xs) e in
            rw (e) (
              copy_in-outside buf a xs (j % 8192) (elim (Bool-cases (ltb (j % 8192) a)) [
                | inl f ↦ inl (ltb→lt (j % 8192) a f)
                | inr f ↦
                    inr (omega (arith, where_is, at, le, lt, room, short, ltb→le (j % 8192) a f))
              ]))
        | inl e ↦
            let long = ltb→lt n (length xs) e in
            rw (e) (
              copy_in-outside (copy_in buf a (take n xs)) 0 (drop n xs) (j % 8192)
                (inr (omega (arith, where_is, at, le, lt, room, long, length-drop n xs)))
              ∙ copy_in-outside buf a (take n xs) (j % 8192)
                  (inl (omega (arith, where_is, at, le, lt, room, long))))
      ]
