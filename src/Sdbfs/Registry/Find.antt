-- ===== src/Sdbfs/Registry/Find.antt =====
-- `sdbfs_dev_find` returns the first device with the name.
use fpga_config_space.Base.{
  ℕ, zero, suc, ◌<◌, Option, none, some, List, [], ◌∷◌, Bool, true, false, if◌then◌else◌, ◌≡◌, ◌≢◌,
  ap, ◌∙◌, arith, length, bytes_eq, Bool-cases, inl, inr,
}
use fpga_config_space.Sdbfs.Registry.{Ptr, Registry, done, named, find_from, dev_find}
use fpga_config_space.Sdbfs.Registry.Chain.{Chain, IsRegistry}

-- Every device of the list has a name: `names a` is that of the device at `a`.
abbrev pub AllNamed : Registry → (Ptr → List ℕ) → List Ptr → Type 0
AllNamed reg names [] = Unit {0}
AllNamed reg names (x ∷ xs) = (reg.name x ≡ some (names x)) × AllNamed reg names xs

-- The first device with the name, or the null pointer.
abbrev pub first_named : (Ptr → List ℕ) → List ℕ → List Ptr → Ptr
first_named names name [] = 0
first_named names name (x ∷ xs) = if bytes_eq (names x) name then x else first_named names name xs

-- What the comparison says of a name.
abbrev asked : List ℕ → Option (List ℕ) → Option Bool
asked name o = elim o [ none ↦ none | some n ↦ some (bytes_eq n name) ]

named-some :
    (reg : Registry) (p : Ptr) (n name : List ℕ)
    → reg.name p ≡ some n
    → named reg p name ≡ some (bytes_eq n name)
unfolding named
named-some reg p n name e = ap (asked name) e

module _ (fuel : ℕ) (reg : Registry) (name : List ℕ) where
  find_end : (l : Ptr) → l ≡ 0 → find_from (suc fuel) reg l name ≡ done (some 0)
  unfolding find_from
  find_end l e = ground arith

  find_hit :
      (l : Ptr)
      → l ≢ 0
      → named reg l name ≡ some true
      → find_from (suc fuel) reg l name ≡ done (some l)
  unfolding find_from
  find_hit l ne e = ground arith

  find_on :
      (l : Ptr)
      → l ≢ 0
      → named reg l name ≡ some false
      → find_from (suc fuel) reg l name ≡ find_from fuel reg (reg.next l) name
  unfolding find_from
  find_on l ne e = ground arith

find_from-first :
    (fuel : ℕ) (reg : Registry) (names : Ptr → List ℕ) (name : List ℕ) (l : Ptr) (xs : List Ptr)
    → Chain reg l xs
    → AllNamed reg names xs
    → length xs < fuel
    → find_from fuel reg l name ≡ done (some (first_named names name xs))
find_from-first zero reg names name l xs c a enough = absurd (omega arith)
find_from-first (suc fuel) reg names name l [] c a enough = find_end fuel reg name l c
find_from-first (suc fuel) reg names name l (x ∷ xs) c a enough =
    let answer = named-some reg x (names x) name a.0 in
    rw c.0 (elim (Bool-cases (bytes_eq (names x) name)) [
      | inl hit ↦ rw hit (find_hit fuel reg name x c.1 (answer ∙ ap some hit))
      | inr miss ↦ rw miss (
          find_on fuel reg name x c.1 (answer ∙ ap some miss)
          ∙ find_from-first fuel reg names name (reg.next x) xs c.2 a.1 (omega arith))
    ])

-- On a registry of named devices, with a round of fuel for each, `sdbfs_dev_find` returns the newest
-- device with the name, or null if there is none; it follows no null name.
pub dev_find-first :
    (fuel : ℕ) (reg : Registry) (xs : List Ptr) (names : Ptr → List ℕ) (name : List ℕ)
    → IsRegistry reg xs
    → AllNamed reg names xs
    → length xs < fuel
    → dev_find fuel reg name ≡ done (some (first_named names name xs))
unfolding dev_find
dev_find-first fuel reg xs names name r a enough =
    find_from-first fuel reg names name reg.head xs r.chain a enough
