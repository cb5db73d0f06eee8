-- ===== src/Wishbone/Iovec.antt =====
-- The copies between a buffer and the pieces of a user's data of pcie-wb/wishbone.c, for kernels that
-- do not have them: `compat_memcpy_fromiovecend` and `compat_memcpy_toiovecend`.
pub mod Back
pub mod Flat
pub mod Tests
use fpga_config_space.Base.{
  ℕ, zero, suc, ◌+◌, ◌-◌, ◌%◌, ◌^◌, List, [], ◌∷◌, ◌++◌, Option, none, some, Bool, not,
  if◌then◌else◌, ◌==◌, leb, take, drop, length, min,
}
use mathlib.Core.Option.{map}

-- How a copy ends: it reads or writes behind the last piece, or user memory that is not there; or it
-- is done.
pub data Copied {ℓ} (A : Type ℓ) : Type ℓ where
  out_of_bounds : Copied A
  efault : Copied A
  done : A → Copied A

abbrev pub map_copied {ℓ κ} : {A : Type ℓ} {B : Type κ} → (A → B) → Copied A → Copied B
map_copied f out_of_bounds = out_of_bounds
map_copied f efault = efault
map_copied f (done x) = done (f x)

-- min_t(unsigned int, ...) of what is left and of the room in a piece.
abbrev pub copied_len : (left room : ℕ) → ℕ
copied_len left room = min (left % 2 ^ 32) (room % 2 ^ 32)

-- The second loop. `offset` and `len` are ints that are not negative. `user` is whether copy_from_user can read a piece.
unfoldable pub copy_from : (user : List ℕ → Bool) (offset len : ℕ) → List (List ℕ) → Copied (List ℕ)
copy_from user offset zero iov = done []
copy_from user offset (suc len) [] = out_of_bounds
copy_from user offset (suc len) (v ∷ iov) =
    let n = copied_len (suc len) (length v - offset) in
    let rest = copy_from user 0 (suc len - n) iov in
    if not (user v) then efault else map_copied (λ l. take n (drop offset v) ++ l) rest

-- compat_memcpy_fromiovecend: what it puts into `kdata`. The first loop skips the pieces that are
-- finished.
unfoldable pub memcpy_fromiovecend :
    (user : List ℕ → Bool) (offset len : ℕ) → List (List ℕ) → Copied (List ℕ)
memcpy_fromiovecend user offset len [] = out_of_bounds
memcpy_fromiovecend user offset len (v ∷ iov) =
    let rest = memcpy_fromiovecend user (offset - length v) len iov in
    if leb (length v) offset then rest else copy_from user offset len (v ∷ iov)

-- compat_memcpy_toiovecend: the pieces once `kdata` is copied into them.
unfoldable pub memcpy_toiovecend :
    (user : List ℕ → Bool) (kdata : List ℕ) (offset : ℕ) → List (List ℕ) → Copied (List (List ℕ))
memcpy_toiovecend user [] offset iov = done iov
memcpy_toiovecend user (k ∷ kdata) offset [] = out_of_bounds
memcpy_toiovecend user (k ∷ kdata) offset (v ∷ iov) =
    let n = copied_len (length v - offset) (length (k ∷ kdata)) in
    let skipped = memcpy_toiovecend user (k ∷ kdata) (offset - length v) iov in
    let rest = memcpy_toiovecend user (drop n (k ∷ kdata)) 0 iov in
    let piece = take offset v ++ (take n (k ∷ kdata) ++ drop (offset + n) v) in
    if leb (length v) offset
    then map_copied (λ l. v ∷ l) skipped
    else if not (user v)
    then efault
    else map_copied (λ l. piece ∷ l) rest
