-- ===== src/Wishbone/Iovec/Tests.antt =====
-- The copies of pieces at concrete data.
use fpga_config_space.Base.{◌≡◌, refl, ℕ, [], ◌∷◌, List, Bool, true, arith}
use fpga_config_space.Wishbone.Iovec.{
  out_of_bounds, done, memcpy_fromiovecend, memcpy_toiovecend, copy_from,
}
use fpga_config_space.Wishbone.Iovec.Flat.{memcpy_fromiovecend-flat}
use fpga_config_space.Wishbone.Iovec.Back.{memcpy_fromiovecend-memcpy_toiovecend}

abbrev every : List ℕ → Bool
every v = true

abbrev pieces : List (List ℕ)
pieces = (1 ∷ 2 ∷ []) ∷ [] ∷ (3 ∷ 4 ∷ 5 ∷ []) ∷ (6 ∷ []) ∷ []

from_the_second : memcpy_fromiovecend every 1 4 pieces ≡ done (2 ∷ 3 ∷ 4 ∷ 5 ∷ [])
unfolding memcpy_fromiovecend copy_from
from_the_second = refl

-- An offset at the end looks for a piece behind the last, also if nothing is to be copied.
behind_the_last : memcpy_fromiovecend every 6 0 pieces ≡ out_of_bounds
unfolding memcpy_fromiovecend copy_from
behind_the_last = refl

into_the_second :
    memcpy_toiovecend every (7 ∷ 8 ∷ 9 ∷ []) 1 pieces
    ≡ done ((1 ∷ 7 ∷ []) ∷ [] ∷ (8 ∷ 9 ∷ 5 ∷ []) ∷ (6 ∷ []) ∷ [])
unfolding memcpy_toiovecend
into_the_second = refl

memcpy_fromiovecend-memcpy_toiovecend_example :
    (iov' : List (List ℕ)) × (memcpy_toiovecend every (7 ∷ 8 ∷ 9 ∷ []) 1 pieces ≡ done iov')
    × (memcpy_fromiovecend every 1 3 iov' ≡ done (7 ∷ 8 ∷ 9 ∷ []))
memcpy_fromiovecend-memcpy_toiovecend_example =
    memcpy_fromiovecend-memcpy_toiovecend every (λ v. refl) pieces (7 ∷ 8 ∷ 9 ∷ []) 1 (omega arith)
      (omega arith) (omega arith)

memcpy_fromiovecend-flat_example : memcpy_fromiovecend every 1 4 pieces ≡ done (2 ∷ 3 ∷ 4 ∷ 5 ∷ [])
memcpy_fromiovecend-flat_example =
    memcpy_fromiovecend-flat every (λ v. refl) 1 4 pieces (omega arith) (omega arith) (omega arith)
