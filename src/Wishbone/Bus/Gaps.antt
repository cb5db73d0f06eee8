-- ===== src/Wishbone/Bus/Gaps.antt =====
-- The list of back ends: each has a minor number of its own, and a new one gets the lowest that is
-- free.
use fpga_config_space.Base.{
  ℕ, suc, ◌+◌, ◌-◌, ◌%◌, ◌^◌, ◌≤◌, ◌<◌, List, [], ◌∷◌, ◌++◌, true, false, ◌≡◌, ◌≢◌, refl, sym, ap,
  subst, ◌∙◌, ◌==◌, arith, length, Bool-cases, inl, inr, ==_iff,
}
use native.Mathlib.Decide.{dec_lt}
use fpga_config_space.Wishbone.Bus.{
  Globals, Entry, Gap, full, gap, behind, dev_at, entry_at, find_gap,
}

module _ (g : Globals) where
  -- The devices of a list have the numbers of minors between `lo` and `hi`, in order.
  abbrev pub IsSorted : (lo hi : ℕ) → List Entry → Type 0
  IsSorted lo hi [] = lo ≤ hi
  IsSorted lo hi (e ∷ es) =
      (n : ℕ) × (lo ≤ n) × (n < hi) × (e ≡ entry_at g e.wb n) × IsSorted (suc n) hi es

  -- What the walk finds: all minors are taken, or it stops at the lowest that is free.
  abbrev pub IsGap : (lo : ℕ) → List Entry → Gap → Type 0
  IsGap lo es full = length es + lo ≡ g.max_devices
  IsGap lo es (gap n before after) =
      (es ≡ before ++ after)
      × (length before + lo ≡ n)
      × (n < g.max_devices)
      × IsSorted lo n before
      × IsSorted (suc n) g.max_devices after

module _ (g : Globals) (masters : g.minor g.master_first + g.max_devices ≤ 2 ^ 20) where
  -- The device numbers of different minors differ.
  number_of :
      (n : ℕ) → n < g.max_devices → g.minor (dev_at g g.master_first n) ≡ g.minor g.master_first + n
  number_of n lt = g.minor-mkdev _ _ (omega (arith, lt, masters)) ∙ omega (arith, lt, masters)

  dev_at-ne :
      (m n : ℕ) → m < n → n < g.max_devices → dev_at g g.master_first n ≢ dev_at g g.master_first m
  dev_at-ne m n lt small e =
      omega
        (arith, lt, small, ap g.minor e, number_of n small, number_of m (omega (arith, lt, small)))

  behind-IsGap :
      (lo : ℕ) (e : Entry) (es : List Entry) (r : Gap)
      → e ≡ entry_at g e.wb lo
      → IsGap g (suc lo) es r
      → IsGap g lo (e ∷ es) (behind e r)
  behind-IsGap lo e es full he h = omega (arith, h)
  behind-IsGap lo e es (gap n before after) he h = (
    ap (λ l. e ∷ l) h.0,
    omega (arith, h.1),
    h.2,
    (lo, omega arith, omega (arith, h.1), he, h.3),
    h.4,
  )

  minor_of :
      (lo n : ℕ) (e : Entry)
      → lo ≤ n
      → n < g.max_devices
      → e ≡ entry_at g e.wb n
      → (e.master_dev == dev_at g g.master_first lo) ≡ true
      → n ≡ lo
  minor_of lo n e le lt he same = elim (dec_lt lo n) [
    | yes above ↦
        absurd (dev_at-ne lo n above lt (sym (ap (λ x. x.master_dev) he) ∙ (==_iff _ _).0 same))
    | no not_above ↦ omega (arith, le, not_above)
  ]

  lowest :
      (lo n : ℕ) (e : Entry)
      → lo ≤ n
      → e ≡ entry_at g e.wb n
      → (e.master_dev == dev_at g g.master_first lo) ≡ false
      → suc lo ≤ n
  lowest lo n e le he other = elim (dec_lt lo n) [
    | yes above ↦ above
    | no not_above ↦
        let here : n ≡ lo = omega (arith, le, not_above) in
        absurd (
          ground (
            arith,
            other,
            ap (λ (x : Entry). x.master_dev) he ∙ ap (λ (m : ℕ). dev_at g g.master_first m) here,
          ))
  ]

  no_more :
      (lo : ℕ) (es : List Entry)
      → IsSorted g lo g.max_devices es
      → lo ≡ g.max_devices
      → length es ≡ 0
  no_more lo [] s e = refl
  no_more lo (x ∷ es) (n, le, lt, he, s) e = absurd (omega (arith, le, lt, e))

  pub find_gap-IsGap :
      (lo : ℕ) (es : List Entry)
      → lo < g.max_devices
      → IsSorted g lo g.max_devices es
      → IsGap g lo es (find_gap g lo es)
  unfolding find_gap
  find_gap-IsGap lo [] lt s = (refl, omega arith, lt, omega arith, omega (arith, lt))
  find_gap-IsGap lo (e ∷ es) lt (n, le, ltn, he, s) =
      elim (Bool-cases (e.master_dev == dev_at g g.master_first lo)) [
        | inl same ↦
            let n_lo : n ≡ lo = minor_of lo n e le ltn he same in
            let he' : e ≡ entry_at g e.wb lo = subst (λ m. e ≡ entry_at g e.wb m) n_lo he in
            let s' : IsSorted g (suc lo) g.max_devices es =
              subst (λ m. IsSorted g (suc m) g.max_devices es) n_lo s in
            elim (Bool-cases (lo == (g.max_devices + (2 ^ 32 - 1)) % 2 ^ 32)) [
              | inl last ↦
                  let top : suc lo ≡ g.max_devices = ground (arith, last, masters, lt) in
                  rw (same, last) (omega (arith, top, no_more (suc lo) es s' top))
              | inr more ↦
                  let next : suc lo < g.max_devices = ground (arith, more, masters, lt) in
                  rw (same, more) (behind-IsGap lo e es _ he' (find_gap-IsGap (suc lo) es next s'))
            ]
        | inr other ↦
            let above : suc lo ≤ n = lowest lo n e le he other in
            rw other (refl, omega arith, lt, omega arith, (n, above, ltn, he, s))
      ]
