-- ===== src/Sdbfs/Registry/Destroy.antt =====
-- `sdbfs_dev_destroy` takes one device out of the list.
use fpga_config_space.Base.{
  ℕ, zero, suc, ◌<◌, List, [], ◌∷◌, true, false, ◌==◌, ◌≡◌, ◌≢◌, refl, sym, ap, ◌∙◌, arith, length,
  Bool-cases, inl, inr,
}
use fpga_config_space.Sdbfs.Registry.{
  Ptr, Registry, Slot, list_head, next_of, deref, assign, done, find_slot, remove_at, dev_destroy,
}
use fpga_config_space.Sdbfs.Registry.Chain.{
  has, Chain, Distinct, IsRegistry, erase, Distinct-erase, Chain-frame,
}

-- A slot that is none of the `next` fields of the devices.
abbrev Outside : Slot → List Ptr → Type 0
Outside list_head xs = Unit {0}
Outside (next_of x) xs = has x xs ≡ false

-- What a removal from the devices behind the slot `p` has done.
record Removed (reg : Registry) (p : Slot) (fs : Ptr) (xs : List Ptr) (reg' : Registry)
    : Type 0 where
  chain : Chain reg' (deref reg' p) (erase fs xs)
  frame : (s : Slot) → s ≢ p → Outside s xs → deref reg' s ≡ deref reg s

deref-assign : (reg : Registry) (p : Slot) (v : Ptr) → deref (assign reg p v) p ≡ v
unfolding deref assign
deref-assign reg list_head v = refl
deref-assign reg (next_of a) v = ground arith

deref-assign_ne :
    (reg : Registry) (p s : Slot) (v : Ptr) → s ≢ p → deref (assign reg p v) s ≡ deref reg s
unfolding deref assign
deref-assign_ne reg list_head list_head v h = absurd (h refl)
deref-assign_ne reg list_head (next_of b) v h = refl
deref-assign_ne reg (next_of a) list_head v h = refl
deref-assign_ne reg (next_of a) (next_of b) v h = elim (Bool-cases (a == b)) [
  | inl e ↦ absurd (h (ap next_of (ground arith)))
  | inr e ↦ ground arith
]

-- The `next` field of a device on the chain is another slot than one outside the chain.
next-ne : (p : Slot) (a : Ptr) (xs : List Ptr) → Outside p xs → has a xs ≡ true → next_of a ≢ p
next-ne list_head a xs o i e = cc
next-ne (next_of b) a xs o i e = cc

next-deref : (reg : Registry) (a : Ptr) → deref reg (next_of a) ≡ reg.next a
unfolding deref
next-deref reg a = refl

head-deref : (reg : Registry) → deref reg list_head ≡ reg.head
unfolding deref
head-deref reg = refl

-- The three ways out of one round.
module _ (fuel : ℕ) (reg : Registry) (p : Slot) (fs : Ptr) where
  round_end : deref reg p ≡ 0 → remove_at reg fs (find_slot (suc fuel) reg p fs) ≡ done (false, reg)
  unfolding find_slot remove_at
  round_end e = ground arith

  round_hit :
      deref reg p ≢ 0
      → deref reg p ≡ fs
      → remove_at reg fs (find_slot (suc fuel) reg p fs) ≡ done (true, assign reg p (reg.next fs))
  unfolding find_slot remove_at
  round_hit ne e = ground arith

  round_on :
      (x : Ptr)
      → deref reg p ≡ x
      → x ≢ 0
      → (x == fs) ≡ false
      → find_slot (suc fuel) reg p fs ≡ find_slot fuel reg (next_of x) fs
  unfolding find_slot
  round_on x e ne miss = rw (e, miss) (ground arith)

hit_Removed :
    (reg : Registry) (p : Slot) (fs x : Ptr) (xs : List Ptr)
    → Chain reg (reg.next x) xs
    → Outside p (x ∷ xs)
    → has x xs ≡ false
    → x ≡ fs
    → Removed reg p fs (x ∷ xs) (assign reg p (reg.next fs))
hit_Removed reg p fs x xs c o fresh e = record {
  chain =
      let dropped : erase fs (x ∷ xs) ≡ xs = ground arith in
      rw (dropped, deref-assign reg p (reg.next fs), ← e)
        (Chain-frame reg (assign reg p (reg.next x)) (reg.next x) xs
          (λ a i.
            sym (next-deref _ a)
            ∙ deref-assign_ne reg p (next_of a) (reg.next x) (next-ne p a xs (later p o) i)
            ∙ next-deref reg a)
          c);
  frame = λ s ne out. deref-assign_ne reg p s (reg.next fs) ne;
}
  where
    later : (q : Slot) → Outside q (x ∷ xs) → Outside q xs
    later list_head o' = tt
    later (next_of b) o' = ground arith

on_Removed :
    (reg reg' : Registry) (p : Slot) (fs x : Ptr) (xs : List Ptr)
    → deref reg p ≡ x
    → x ≢ 0
    → Outside p (x ∷ xs)
    → (x == fs) ≡ false
    → Removed reg (next_of x) fs xs reg'
    → Removed reg p fs (x ∷ xs) reg'
on_Removed reg reg' p fs x xs at ne o miss r = record {
  chain = rw miss (r.frame p (other p o) (later p o) ∙ at, ne, rw (← next-deref reg' x) r.chain);
  frame = λ s sp out. r.frame s (other s out) (later s out);
}
  where
    later : (q : Slot) → Outside q (x ∷ xs) → Outside q xs
    later list_head o' = tt
    later (next_of b) o' = ground arith

    other : (q : Slot) → Outside q (x ∷ xs) → q ≢ next_of x
    other list_head o' e = cc
    other (next_of b) o' e = let same : b ≡ x = cc in ground arith

destroy_from :
    (fuel : ℕ) (reg : Registry) (p : Slot) (fs : Ptr) (xs : List Ptr)
    → Chain reg (deref reg p) xs
    → Outside p xs
    → Distinct xs
    → length xs < fuel
    → (reg' : Registry) × (remove_at reg fs (find_slot fuel reg p fs) ≡ done (has fs xs, reg'))
      × Removed reg p fs xs reg'
destroy_from zero reg p fs xs c o d enough = absurd (omega arith)
destroy_from (suc fuel) reg p fs [] c o d enough =
    (reg, round_end fuel reg p fs c, record { chain = c; frame = λ s ne out. refl })
destroy_from (suc fuel) reg p fs (x ∷ xs) c o d enough = elim (Bool-cases (x == fs)) [
  | inl hit ↦
      let same : x ≡ fs = ground arith in
      let ne : deref reg p ≢ 0 = λ e. c.1 (sym c.0 ∙ e) in
      (
        assign reg p (reg.next fs),
        rw hit (round_hit fuel reg p fs ne (c.0 ∙ same)),
        hit_Removed reg p fs x xs c.2 o d.0 same,
      )
  | inr miss ↦
      let (reg', e, r) =
        destroy_from fuel reg (next_of x) fs xs (rw next-deref c.2) d.0 d.1 (omega arith) in
      (
        reg',
        ap (remove_at reg fs) (round_on fuel reg p fs x c.0 c.1 miss) ∙ rw miss e,
        on_Removed reg reg' p fs x xs c.0 c.1 o miss r,
      )
]

-- On a registry of the devices `xs`, with a round of fuel for each, `sdbfs_dev_destroy` returns. It
-- reports whether the device was there, and leaves the others in their order.
pub dev_destroy-erase :
    (fuel : ℕ) (reg : Registry) (xs : List Ptr) (fs : Ptr)
    → IsRegistry reg xs
    → length xs < fuel
    → (reg' : Registry) × (dev_destroy fuel reg fs ≡ done (has fs xs, reg'))
      × IsRegistry reg' (erase fs xs)
unfolding dev_destroy
dev_destroy-erase fuel reg xs fs r enough =
    let (reg', e, removed) =
      destroy_from fuel reg list_head fs xs (rw head-deref r.chain) tt r.distinct enough in
    (
      reg',
      e,
      record {
        chain = rw (← head-deref reg') removed.chain;
        distinct = Distinct-erase fs xs r.distinct;
      },
    )
