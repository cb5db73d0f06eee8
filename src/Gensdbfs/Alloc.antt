-- ===== src/Gensdbfs/Alloc.antt =====
-- Where `alloc_storage` puts the files of one directory.
use fpga_config_space.Base.{
  ℕ, zero, suc, ◌+◌, ◌-◌, ◌*◌, ◌%◌, ◌^◌, ◌≤◌, false, ◌≡◌, refl, ◌∙◌, arith, if◌then◌else◌,
  Bool-cases, inl, inr,
}
use native.Mathlib.Nat.{add-mod, zero-mod}
use fpga_config_space.Endian.{Host, htons, ntohll}
use fpga_config_space.Endian.Laws.{ntohll-htonll}
use fpga_config_space.Gensdbfs.{
  Sdbf, Dir, dir, Slots, end, file, subdir, sdb_align, last_byte, place, adopt, start_of, finish,
  alloc_storage, alloc_slots,
}
use fpga_config_space.Gensdbfs.Align.{sdb_align-up}

-- The addresses that a slot has in the image.
abbrev pub first_of : Host → Sdbf → ℕ
first_of h f = ntohll h f.addr_first

abbrev pub last_of : Host → Sdbf → ℕ
last_of h f = ntohll h f.addr_last

-- A slot with no position of its own lies behind `lo`, on a block, and is as long as its size.
abbrev pub IsSequential : Host → (block lo : ℕ) → Sdbf → Type 0
IsSequential h block lo f =
    f.userpos ≡ false
    → (lo ≤ first_of h f)
      × (first_of h f % block ≡ 0)
      × (f.rstart ≡ first_of h f)
      × (last_of h f + 1 ≡ first_of h f + f.size)

-- The first address behind such a slot; one with a position of its own does not count.
abbrev pub behind : Host → ℕ → Sdbf → ℕ
behind h lo f = if f.userpos then lo else last_of h f + 1

-- The slots lie one behind the other from `lo` on: their ranges are apart.
abbrev pub InOrder : Host → (block lo : ℕ) → Slots → Type 0
InOrder h block lo end = Unit {0}
InOrder h block lo (file f rest) = IsSequential h block lo f × InOrder h block (behind h lo f) rest
InOrder h block lo (subdir f sub rest) =
    IsSequential h block lo f × InOrder h block (behind h lo f) rest

-- The bytes that the slots may take up, a block of padding for each included.
abbrev pub room : ℕ → Slots → ℕ
room block end = 0
room block (file f rest) = f.size + block + room block rest
room block (subdir f sub rest) = f.size + block + room block rest

abbrev pub slots_of : Dir → Slots
slots_of (dir dot slots) = slots

abbrev pub slot_count : Slots → ℕ
slot_count end = 0
slot_count (file f rest) = suc (slot_count rest)
slot_count (subdir f sub rest) = suc (slot_count rest)

-- What one round does: the slot is in place, and the next position is free and on a block.
record Placed (h : Host) (block lo rpos : ℕ) (f f' : Sdbf) (rpos' : ℕ) : Type 0 where
  in_place : IsSequential h block lo f'
  free : behind h lo f' ≤ rpos'
  aligned : rpos' % block ≡ 0
  positive : 1 ≤ rpos'
  near : rpos' ≤ rpos + f'.size + block

place-size :
    (h : Host) (block rpos last : ℕ) (f : Sdbf) → (place h block rpos last f).0.size ≡ f.size
unfolding place
place-size h block rpos last f = elim (Bool-cases f.userpos) [ inl e ↦ rw e | inr e ↦ rw e ]

module _ (h : Host) (k : ℕ) (small : k ≤ 31) where
  place-Placed :
      (lo rpos last : ℕ) (f : Sdbf)
      → lo ≤ rpos
      → rpos % 2 ^ k ≡ 0
      → 1 ≤ rpos
      → rpos + f.size + 2 ^ k ≤ 2 ^ 32
      → let p = place h (2 ^ k) rpos last f in Placed h (2 ^ k) lo rpos f p.0 p.1
  unfolding place
  place-Placed lo rpos last f le al pos fits = elim (Bool-cases f.userpos) [
    | inl e ↦
        rw e (record {
          in_place = λ u. cc;
          free = le;
          aligned = al;
          positive = pos;
          near = omega arith;
        })
    | inr e ↦
        let up = sdb_align-up k (rpos + f.size) small (omega arith) in
        let whole : (rpos + f.size) % 2 ^ 64 ≡ rpos + f.size = omega arith in
        let here = ntohll-htonll h rpos (omega arith) in
        let there = ntohll-htonll h (last_byte rpos f.size) (omega arith) in
        rw e (record {
          in_place = λ u. rw (here, there) (le, al, refl, omega arith);
          free = rw (whole, there) (omega (arith, up.0));
          aligned = rw whole up.2;
          positive = rw whole (omega (arith, up.0));
          near = rw whole (omega (arith, up.1));
        })
  ]

  -- With blocks of 2^k bytes and a directory that ends below 2^32, the loop puts every slot without a
  -- position of its own on a block, behind all such slots before it, with its size as its length.
  alloc_slots-InOrder :
      (base count lo rpos last : ℕ) (slots : Slots)
      → lo ≤ rpos
      → rpos % 2 ^ k ≡ 0
      → 1 ≤ rpos
      → slot_count slots ≤ count
      → rpos + room (2 ^ k) (alloc_slots h (2 ^ k) base count rpos last slots).0 ≤ 2 ^ 32
      → InOrder h (2 ^ k) lo (alloc_slots h (2 ^ k) base count rpos last slots).0
  unfolding alloc_slots
  alloc_slots-InOrder base count lo rpos last end le al pos enough fits = tt
  alloc_slots-InOrder base zero lo rpos last (file f rest) le al pos enough fits =
      absurd (omega arith)
  alloc_slots-InOrder base zero lo rpos last (subdir f sub rest) le al pos enough fits =
      absurd (omega arith)
  alloc_slots-InOrder base (suc count) lo rpos last (file f rest) le al pos enough fits =
      let p = place h (2 ^ k) rpos last f in
      let q =
        place-Placed lo rpos last f le al pos (omega (arith, place-size h (2 ^ k) rpos last f)) in
      (
        q.in_place,
        alloc_slots-InOrder base count (behind h lo p.0) p.1 p.2 rest q.free q.aligned q.positive
            (omega arith) (omega (arith, q.near)),
      )
  alloc_slots-InOrder base (suc count) lo rpos last (subdir f sub rest) le al pos enough fits =
      let f' = adopt h rpos f (alloc_storage h (2 ^ k) ((base + rpos) % 2 ^ 64) sub) in
      let p = place h (2 ^ k) rpos last f' in
      let q =
        place-Placed lo rpos last f' le al pos (omega (arith, place-size h (2 ^ k) rpos last f')) in
      (
        q.in_place,
        alloc_slots-InOrder base count (behind h lo p.0) p.1 p.2 rest q.free q.aligned q.positive
            (omega arith) (omega (arith, q.near)),
      )

  start_of_lem :
      (dot : Sdbf)
      → dot.ustart % 2 ^ k ≡ 0
      → dot.ustart + htons h dot.sdb_records * 64 + 2 ^ k ≤ 2 ^ 32
      → (dot.ustart + htons h dot.sdb_records * 64 ≤ start_of h (2 ^ k) dot)
        × (start_of h (2 ^ k) dot % 2 ^ k ≡ 0)
  unfolding start_of
  start_of_lem dot al fits =
      let n = htons h dot.sdb_records * 64 in
      let up = sdb_align-up k n small (omega arith) in
      let whole : (dot.ustart + sdb_align (2 ^ k) n) % 2 ^ 64 ≡ dot.ustart + sdb_align (2 ^ k) n =
        omega (arith, up.1) in
      rw whole (
        omega (arith, up.0),
        add-mod dot.ustart (sdb_align (2 ^ k) n) (2 ^ k) ∙ rw (al, up.2) (zero-mod _),
      )

  -- For a directory that starts on a block of 2^k bytes and whose records are counted right, if
  -- what its slots take up fits 32 bits: `alloc_storage` puts its slots without a position of
  -- their own in order behind its own records, each on a block and behind the slot before it.
  pub alloc_storage-InOrder :
      (base : ℕ) (dot : Sdbf) (slots : Slots)
      → dot.ustart % 2 ^ k ≡ 0
      → htons h dot.sdb_records ≡ suc (slot_count slots)
      → dot.ustart + htons h dot.sdb_records * 64 + 2 ^ k ≤ 2 ^ 32
      → start_of h (2 ^ k) dot
          + room (2 ^ k) (slots_of (alloc_storage h (2 ^ k) base (dir dot slots)))
        ≤ 2 ^ 32
      → InOrder h
          (2 ^ k)
          (dot.ustart + htons h dot.sdb_records * 64)
          (slots_of (alloc_storage h (2 ^ k) base (dir dot slots)))
  unfolding alloc_storage finish
  alloc_storage-InOrder base dot slots al count low fits =
      let start = start_of_lem dot al low in
      alloc_slots-InOrder base (htons h dot.sdb_records - 1) _ (start_of h (2 ^ k) dot)
        (start_of h (2 ^ k) dot) slots start.0 start.1 (omega (arith, start.0)) (omega arith) fits
