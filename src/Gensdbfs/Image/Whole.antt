-- ===== src/Gensdbfs/Image/Whole.antt =====
-- gensdbfs from the tree on: the files are placed, and then written where they have been placed.
use fpga_config_space.Base.{
  ℕ, zero, suc, ◌+◌, ◌-◌, ◌*◌, ◌%◌, ◌^◌, ◌≤◌, ◌++◌, true, length, window, ◌≡◌, refl, sym, ap, subst,
  ◌∙◌, arith,
}
use fpga_config_space.Base.Bits.{pow-pos}
use fpga_config_space.Endian.{Host, htons, htonll}
use fpga_config_space.Gensdbfs.{
  Sdbf, Dir, dir, Slots, end, file, subdir, start_of, place, adopt, finish, then_file, then_subdir,
  alloc_storage, alloc_slots, dot_of,
}
use fpga_config_space.Gensdbfs.Alloc.{InOrder, slots_of, slot_count, room, alloc_storage-InOrder}
use fpga_config_space.Gensdbfs.Image.{Sources, Image, write_sdb}
use fpga_config_space.Gensdbfs.Image.Stored.{AreCopied, AreStored, records, write_sdb-AreStored}

then_file-count : (f : Sdbf) (r : Slots × ℕ) → slot_count (then_file f r).0 ≡ suc (slot_count r.0)
then_file-count f (rest, last) = refl

then_subdir-count :
    (f : Sdbf) (sub : Dir) (r : Slots × ℕ)
    → slot_count (then_subdir f sub r).0 ≡ suc (slot_count r.0)
then_subdir-count f sub (rest, last) = refl

count-alloc :
    (h : Host) (blocksize base count rpos last : ℕ) (slots : Slots)
    → slot_count (alloc_slots h blocksize base count rpos last slots).0 ≡ slot_count slots
unfolding alloc_slots
count-alloc h blocksize base count rpos last end = refl
count-alloc h blocksize base zero rpos last (file f rest) = refl
count-alloc h blocksize base zero rpos last (subdir f sub rest) = refl
count-alloc h blocksize base (suc count) rpos last (file f rest) =
    then_file-count (place h blocksize rpos last f).0 (alloc_slots h blocksize base count _ _ rest)
    ∙ ap suc (count-alloc h blocksize base count _ _ rest)
count-alloc h blocksize base (suc count) rpos last (subdir f sub rest) =
    let sub' = alloc_storage h blocksize ((base + rpos) % 2 ^ 64) sub in
    then_subdir-count (place h blocksize rpos last (adopt h rpos f sub')).0 sub'
      (alloc_slots h blocksize base count _ _ rest)
    ∙ ap suc (count-alloc h blocksize base count _ _ rest)

-- The first slot of a directory that is placed.
abbrev pub placed_dot : Host → (last : ℕ) → Sdbf → Sdbf
placed_dot h last dot = record dot { base = 0; addr_first = htonll h 0; addr_last = htonll h last }

module _ (h : Host) (k : ℕ) (small : k ≤ 31) (dot : Sdbf) (slots : Slots) where
  abbrev allocated : Slots × ℕ
  allocated =
      alloc_slots h (2 ^ k) 0 (htons h dot.sdb_records - 1) (start_of h (2 ^ k) dot)
        (start_of h (2 ^ k) dot) slots

  finish-dir : (r : Slots × ℕ) → finish h 0 dot r ≡ dir (placed_dot h r.1 dot) r.0
  unfolding finish
  finish-dir (rest, last) = refl

  alloc_storage-dir :
      alloc_storage h (2 ^ k) 0 (dir dot slots) ≡ dir (placed_dot h allocated.1 dot) allocated.0
  unfolding alloc_storage
  alloc_storage-dir = finish-dir allocated

  -- A directory at the start of the image, on a block of 2^k bytes, without subdirectories, whose
  -- records are counted right and take up 32 bits with its files: once it is placed, if its files
  -- have no position of their own, open, are as long as they were and fit their places, if there is
  -- memory and records have 64 bytes, write_sdb succeeds on it. The image has its records at its
  -- position, and the bytes of each file at the address that its record gives.
  pub write_sdb-alloc_storage :
      (s : Sources) (im : Image)
      → dot.ustart % 2 ^ k ≡ 0
      → htons h dot.sdb_records ≡ suc (slot_count slots)
      → dot.ustart + htons h dot.sdb_records * 64 + 2 ^ k ≤ 2 ^ 32
      → start_of h (2 ^ k) dot + room (2 ^ k) (slots_of (alloc_storage h (2 ^ k) 0 (dir dot slots)))
        ≤ 2 ^ 32
      → ((f : Sdbf) → s.malloc f ≡ true)
      → ((f : Sdbf) → length (s.record_of f) ≡ 64)
      → AreCopied s 0 (slots_of (alloc_storage h (2 ^ k) 0 (dir dot slots)))
      → let placed = alloc_storage h (2 ^ k) 0 (dir dot slots) in
        let r = write_sdb h s (2 ^ k) placed im in
        (r.0 ≡ true)
        × (window r.1.out.bytes dot.ustart (64 * htons h dot.sdb_records)
            ≡ s.record_of (dot_of placed) ++ records s (slots_of placed))
        × AreStored h s 0 r.1.out.bytes (slots_of placed)
  write_sdb-alloc_storage s im al count low fits memory sized c =
      let last = allocated.1 in
      let order = alloc_storage-InOrder h k small 0 dot slots al count low fits in
      let at = alloc_storage-dir in
      let dot' = placed_dot h last dot in
      let (succeeds, listed, stored) =
        write_sdb-AreStored h s (2 ^ k) (2 ^ k) dot' allocated.0 im (pow-pos k) (memory dot')
          (count ∙ ap suc (sym (count-alloc h (2 ^ k) 0 (htons h dot.sdb_records - 1) _ _ slots)))
          (sized dot') (omega (arith, low))
          (subst (λ d. InOrder h (2 ^ k) (dot.ustart + htons h dot.sdb_records * 64) (slots_of d))
            at order)
          (subst (λ d. AreCopied s 0 (slots_of d)) at c) in
      let bytes = (write_sdb h s (2 ^ k) (dir dot' allocated.0) im).1.out.bytes in
      let start : dot.ustart ≡ 0 + dot.ustart = omega arith in
      subst
        (λ d.
          ((write_sdb h s (2 ^ k) d im).0 ≡ true)
          × (window (write_sdb h s (2 ^ k) d im).1.out.bytes dot.ustart
                (64 * htons h dot.sdb_records)
              ≡ s.record_of (dot_of d) ++ records s (slots_of d))
          × AreStored h s 0 (write_sdb h s (2 ^ k) d im).1.out.bytes (slots_of d))
        (sym at)
        (succeeds, ap (λ p. window bytes p (64 * htons h dot.sdb_records)) start ∙ listed, stored)
