-- ===== src/Gensdbfs/Nested.antt =====
-- A subdirectory and the slot behind it.
use fpga_config_space.Base.{ℕ, ◌+◌, ◌%◌, ◌^◌, ◌≤◌, ◌<◌, false, ◌≡◌, refl, ap, ◌∙◌, arith}
use native.Mathlib.Nat.{add-mod, zero-mod}
use fpga_config_space.Endian.{Host}
use fpga_config_space.Endian.Laws.{ntohll-htonll}
use fpga_config_space.Gensdbfs.{Sdbf, Dir, dot_of, place, adopt, sdb_align}
use fpga_config_space.Gensdbfs.Align.{sdb_align_whole}
use fpga_config_space.Gensdbfs.Alloc.{first_of, last_of}

place_at :
    (h : Host) (block rpos last : ℕ) (f : Sdbf)
    → f.userpos ≡ false
    → rpos < 2 ^ 64
    → first_of h (place h block rpos last f).0 ≡ rpos
unfolding place
place_at h block rpos last f e small = rw e (ntohll-htonll h rpos small)

place_next :
    (h : Host) (block rpos last : ℕ) (f : Sdbf)
    → f.userpos ≡ false
    → (place h block rpos last f).1 ≡ sdb_align block ((rpos + f.size) % 2 ^ 64)
unfolding place
place_next h block rpos last f e = rw e

adopt-size :
    (h : Host) (rpos : ℕ) (f : Sdbf) (sub : Dir)
    → f.size ≤ last_of h (dot_of sub)
    → (adopt h rpos f sub).size ≡ last_of h (dot_of sub)
unfolding adopt
adopt-size h rpos f sub le = ground arith

adopt-userpos :
    (h : Host) (rpos : ℕ) (f : Sdbf) (sub : Dir) → (adopt h rpos f sub).userpos ≡ f.userpos
unfolding adopt
adopt-userpos h rpos f sub = refl

-- A subdirectory counts as long as the address of its last byte, one byte less than it is. So
-- where that address is a multiple of the block and not below the size that the slot had, the next
-- slot gets the position of that very byte, if neither has a position of its own and all fits 32
-- bits.
pub subdir_overlap :
    (h : Host) (k rpos last : ℕ) (f g : Sdbf) (sub : Dir)
    → k ≤ 31
    → rpos % 2 ^ k ≡ 0
    → f.userpos ≡ false
    → g.userpos ≡ false
    → f.size ≤ last_of h (dot_of sub)
    → last_of h (dot_of sub) % 2 ^ k ≡ 0
    → rpos + last_of h (dot_of sub) + 2 ^ k ≤ 2 ^ 32
    → let p = place h (2 ^ k) rpos last (adopt h rpos f sub) in
      first_of h (place h (2 ^ k) p.1 p.2 g).0 ≡ rpos + last_of h (dot_of sub)
subdir_overlap h k rpos last f g sub small al uf ug le even fits =
    let l = last_of h (dot_of sub) in
    let f' = adopt h rpos f sub in
    let whole : (rpos + f'.size) % 2 ^ 64 ≡ rpos + l =
      rw (adopt-size h rpos f sub le) (omega arith) in
    let block : (rpos + l) % 2 ^ k ≡ 0 = add-mod rpos l (2 ^ k) ∙ rw (al, even) (zero-mod _) in
    let next : (place h (2 ^ k) rpos last f').1 ≡ rpos + l =
      place_next h (2 ^ k) rpos last f' (adopt-userpos h rpos f sub ∙ uf)
      ∙ ap (sdb_align (2 ^ k)) whole
      ∙ sdb_align_whole k (rpos + l) small fits block in
    place_at h (2 ^ k) (place h (2 ^ k) rpos last f').1 _ g ug (rw next (omega arith)) ∙ next
