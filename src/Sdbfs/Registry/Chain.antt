-- ===== src/Sdbfs/Registry/Chain.antt =====
-- The linked list of devices stands for a list of addresses: creation puts one in front, destruction
-- takes one out, and a search returns the first with the name.
use fpga_config_space.Base.{
  List, [], ◌∷◌, Bool, true, false, ◌||◌, ◌==◌, if◌then◌else◌, ◌≡◌, ◌≢◌, refl, arith, update,
}
use fpga_config_space.Sdbfs.Registry.{Ptr, Registry, link}

abbrev pub has : Ptr → List Ptr → Bool
has a [] = false
has a (x ∷ xs) = (x == a) || has a xs

-- From `p` the `next` fields lead through the devices `xs` to the null pointer.
abbrev pub Chain : Registry → Ptr → List Ptr → Type 0
Chain reg p [] = p ≡ 0
Chain reg p (x ∷ xs) = (p ≡ x) × (x ≢ 0) × Chain reg (reg.next x) xs

abbrev pub Distinct : List Ptr → Type 0
Distinct [] = Unit {0}
Distinct (x ∷ xs) = (has x xs ≡ false) × Distinct xs

-- The registry holds the devices `xs`, newest first, each once.
pub record IsRegistry (reg : Registry) (xs : List Ptr) : Type 0 where
  pub chain : Chain reg reg.head xs
  pub distinct : Distinct xs

-- `xs` without the first `a`.
abbrev pub erase : Ptr → List Ptr → List Ptr
erase a [] = []
erase a (x ∷ xs) = if x == a then xs else x ∷ erase a xs

pub has-erase : (a b : Ptr) (xs : List Ptr) → has a xs ≡ false → has a (erase b xs) ≡ false
has-erase a b [] h = refl
has-erase a b (x ∷ xs) h = ground (arith, has-erase a b xs)

pub Distinct-erase : (b : Ptr) (xs : List Ptr) → Distinct xs → Distinct (erase b xs)
Distinct-erase b [] d = tt
Distinct-erase b (x ∷ xs) d = ground (arith, Distinct-erase b xs d.1, has-erase x b xs d.0)

-- A chain depends on the `next` fields of its own devices only.
pub Chain-frame :
    (reg reg' : Registry) (p : Ptr) (xs : List Ptr)
    → ((a : Ptr) → has a xs ≡ true → reg'.next a ≡ reg.next a)
    → Chain reg p xs
    → Chain reg' p xs
Chain-frame reg reg' p [] same c = c
Chain-frame reg reg' p (x ∷ xs) same c = (
  c.0,
  c.1,
  Chain-frame reg reg' (reg'.next x) xs (λ a i. same a (ground arith))
      (rw (same x (ground arith)) c.2),
)

-- Linking a device that is not null and not yet listed, as `sdbfs_dev_create` does, puts it in
-- front of the others and keeps the list well formed.
pub link-IsRegistry :
    (p : Ptr) (reg : Registry) (xs : List Ptr)
    → IsRegistry reg xs
    → p ≢ 0
    → has p xs ≡ false
    → IsRegistry (link p reg) (p ∷ xs)
unfolding link
link-IsRegistry p reg xs r ne new = record {
  chain = (refl, ne, rw (at_self p) (Chain-frame reg (link p reg) reg.head xs other r.chain));
  distinct = (new, r.distinct);
}
  where
    at_self : (q : Ptr) → update reg.next q reg.head q ≡ reg.head
    at_self q = ground arith

    other : (a : Ptr) → has a xs ≡ true → update reg.next p reg.head a ≡ reg.next a
    other a i = ground arith
