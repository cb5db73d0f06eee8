-- ===== src/Gensdbfs/Image/Stored.antt =====
-- What write_sdb leaves in the image for a directory without subdirectories.
use fpga_config_space.Base.{
  ℕ, zero, suc, ◌+◌, ◌-◌, ◌*◌, ◌%◌, ◌^◌, ◌≤◌, ◌<◌, List, [], ◌∷◌, ◌++◌, true, false, Option, none,
  some, if◌then◌else◌, ◌==◌, ltb, take, drop, length, ◌≡◌, refl, sym, ap, ap₂, ◌∙◌, arith, lt→ltb,
  eq-false, Bool-cases, inl, inr, ltb→lt, length-append, length-take, length-drop, take-drop,
  window, window-cong, window-put, put, put-below, fseek, fwrite, fwrite-nil, fwrite-append, subst,
}
use fpga_config_space.Endian.{Host, htons}
use fpga_config_space.Gensdbfs.{Sdbf, dir, Slots, end, file, subdir}
use fpga_config_space.Gensdbfs.Alloc.{first_of, last_of, InOrder, behind, slot_count}
use fpga_config_space.Gensdbfs.Image.{
  Sources, Image, seek, write_records, write_piece, copy, slot_pos, write_file, records_pos,
  write_sdb, write_files,
}

-- The loop copies a file that has the size that stat has found.
copy-fwrite :
    (fuel blocksize st_size copied : ℕ) (rest : List ℕ) (im : Image)
    → 0 < blocksize
    → length rest < fuel
    → copied + length rest ≡ st_size
    → (copy fuel blocksize st_size copied rest im).out ≡ fwrite rest im.out
copy-fwrite zero blocksize st_size copied rest im block enough size = absurd (omega (arith, enough))
copy-fwrite (suc fuel) blocksize st_size copied [] im block enough size =
    rw (lt_self) (sym (fwrite-nil im.out))
  where
    lt_self : ltb copied st_size ≡ false
    lt_self = elim (Bool-cases (ltb copied st_size)) [
      | inl e ↦ absurd (omega (arith, ltb→lt copied st_size e, size))
      | inr e ↦ e
    ]
copy-fwrite (suc fuel) blocksize st_size copied (x ∷ rest) im block enough size =
    let piece = take blocksize (x ∷ rest) in
    let len = length-take blocksize (x ∷ rest) in
    let left = length-drop blocksize (x ∷ rest) in
    let more : ltb copied st_size ≡ true = lt→ltb copied st_size (omega (arith, size)) in
    let some_bytes : (length piece == 0) ≡ false =
      eq-false (length piece) 0 (omega (arith, len, block)) in
    rw (more, some_bytes)
      (copy-fwrite fuel blocksize st_size (copied + length piece) (drop blocksize (x ∷ rest))
          (write_piece piece im) block (omega (arith, left, enough, block))
          (omega (arith, left, len, size))
        ∙ (fwrite-append piece (drop blocksize (x ∷ rest)) im.out
            ∙ ap (λ l. fwrite l im.out) (take-drop blocksize (x ∷ rest))))

-- A slot without a position of its own, whose file opens with the size that it had and has room.
pub record IsCopied (s : Sources) (base : ℕ) (f : Sdbf) : Type 0 where
  pub content : List ℕ
  pub opened : s.fopen f ≡ some content
  pub whole : s.st_size f ≡ length content
  pub fits : length content ≤ f.size
  pub inside : base + f.rstart + f.size < 2 ^ 64
  pub plain : f.userpos ≡ false
  pub sized : length (s.record_of f) ≡ 64

-- All slots are such, and there are no directories.
abbrev pub AreCopied : Sources → (base : ℕ) → Slots → Type 0
AreCopied s base end = Unit {0}
AreCopied s base (file f rest) = IsCopied s base f × AreCopied s base rest
AreCopied s base (subdir f sub rest) = ⊥

abbrev found : Option (List ℕ) → List ℕ
found none = []
found (some content) = content

-- The bytes of a file that opens.
abbrev pub content_of : Sources → Sdbf → List ℕ
content_of s f = found (s.fopen f)

-- Each file stands in the image at the address that its record has, from the base of the directory on.
abbrev pub AreStored : Host → Sources → (base : ℕ) → (ℕ → ℕ) → Slots → Type 0
AreStored h s base bytes end = Unit {0}
AreStored h s base bytes (file f rest) =
    (window bytes (base + first_of h f) (length (content_of s f)) ≡ content_of s f)
    × AreStored h s base bytes rest
AreStored h s base bytes (subdir f sub rest) = AreStored h s base bytes rest

abbrev pub records : Sources → Slots → List ℕ
records s end = []
records s (file f rest) = s.record_of f ++ records s rest
records s (subdir f sub rest) = s.record_of f ++ records s rest

module _ (s : Sources) (blocksize base : ℕ) (block : 0 < blocksize) where
  file-fwrite :
      (f : Sdbf) (im : Image) (c : IsCopied s base f)
      → (write_file s blocksize base f (s.fopen f) im).out
        ≡ fwrite c.content (fseek (base + f.rstart) im.out)
  file-fwrite f im c = rw (c.opened) (
      copy-fwrite (suc (length c.content)) blocksize (s.st_size f) 0 c.content
        (seek (slot_pos base f) im) block (omega arith) (omega (arith, c.whole))
      ∙ ap (λ p. fwrite c.content (fseek p im.out)) (place c.plain))
    where
      place : f.userpos ≡ false → slot_pos base f ≡ base + f.rstart
      place e =
          ap (λ b. if b then f.ustart else (base + f.rstart) % 2 ^ 64) e ∙ omega (arith, c.inside)

  -- The byte at j is that of the image, whatever is written from p on behind it.
  bytes-below :
      (f : Sdbf) (im : Image) (c : IsCopied s base f) (j : ℕ)
      → j < base + f.rstart
      → (write_file s blocksize base f (s.fopen f) im).out.bytes j ≡ im.out.bytes j
  bytes-below f im c j lt =
      ap (λ o. o.bytes j) (file-fwrite f im c)
      ∙ put-below c.content (base + f.rstart) im.out.bytes j lt

  module _ (h : Host) (k : ℕ) where
    behind-plain : (lo : ℕ) (f : Sdbf) → f.userpos ≡ false → behind h lo f ≡ last_of h f + 1
    behind-plain lo f e = ap (λ b. if b then lo else last_of h f + 1) e

    -- Files do not touch what lies in front of the first of them.
    files-below :
        (lo : ℕ) (slots : Slots) (im : Image)
        → InOrder h k lo slots
        → AreCopied s base slots
        → (j : ℕ) → j < base + lo
        → (write_files h s blocksize base (slot_count slots) slots im).out.bytes j ≡ im.out.bytes j
    unfolding write_files
    files-below lo end im o c j lt = refl
    files-below lo (file f rest) im (q, o) (c, cs) j lt =
        let (le, al, start, last) = q c.plain in
        files-below (behind h lo f) rest (write_file s blocksize base f (s.fopen f) im) o cs j
          (omega (arith, behind-plain lo f c.plain, le, start, last, lt))
        ∙ bytes-below f im c j (omega (arith, le, start, lt))
    files-below lo (subdir f sub rest) im o c j lt = absurd c

    files-AreStored :
        (lo : ℕ) (slots : Slots) (im : Image)
        → InOrder h k lo slots
        → AreCopied s base slots
        → AreStored h s base
            (write_files h s blocksize base (slot_count slots) slots im).out.bytes
            slots
    unfolding write_files
    files-AreStored lo end im o c = tt
    files-AreStored lo (file f rest) im (q, o) (c, cs) =
        let (le, al, start, last) = q c.plain in
        let im' = write_file s blocksize base f (s.fopen f) im in
        let after = write_files h s blocksize base (slot_count rest) rest im' in
        let p = base + f.rstart in
        let is : content_of s f ≡ c.content = ap found c.opened in
        let kept = window-cong after.out.bytes im'.out.bytes p (length c.content) (λ j le' lt.
          files-below (behind h lo f) rest im' o cs j
            (omega (arith, behind-plain lo f c.plain, start, last, lt, c.fits))) in
        let copied =
          ap (λ o'. window o'.bytes p (length c.content)) (file-fwrite f im c)
          ∙ window-put c.content p im.out.bytes in
        let stored =
          subst (λ l. window after.out.bytes p (length l) ≡ l) (sym is) (kept ∙ copied) in
        (
          subst (λ q. window after.out.bytes (base + q) (length (content_of s f)) ≡ content_of s f)
              start stored,
          files-AreStored (behind h lo f) rest im' o cs,
        )
    files-AreStored lo (subdir f sub rest) im o c = absurd c

records-fwrite :
    (s : Sources) (base : ℕ) (slots : Slots) (im : Image)
    → AreCopied s base slots
    → (write_records s (slot_count slots) slots im).out ≡ fwrite (records s slots) im.out
records-fwrite s base end im c = sym (fwrite-nil im.out)
records-fwrite s base (file f rest) im (c, cs) =
    records-fwrite s base rest (record im { out = fwrite (s.record_of f) im.out }) cs
    ∙ fwrite-append (s.record_of f) (records s rest) im.out
records-fwrite s base (subdir f sub rest) im c = absurd c

length-records :
    (s : Sources) (base : ℕ) (slots : Slots)
    → AreCopied s base slots
    → length (records s slots) ≡ 64 * slot_count slots
length-records s base end c = omega arith
length-records s base (file f rest) (c, cs) =
    length-append (s.record_of f) (records s rest)
    ∙ omega (arith, c.sized, length-records s base rest cs)
length-records s base (subdir f sub rest) c = absurd c

write_sdb-files :
    (h : Host) (s : Sources) (blocksize : ℕ) (dot : Sdbf) (slots : Slots) (im : Image)
    → s.malloc dot ≡ true
    → htons h dot.sdb_records ≡ suc (slot_count slots)
    → write_sdb h s blocksize (dir dot slots) im ≡ (
      true,
      write_files h s blocksize dot.base (slot_count slots) slots (
          write_records s
            (slot_count slots)
            slots
            (record im { out = fwrite (s.record_of dot) (fseek (records_pos dot) im.out) })),
    )
unfolding write_sdb
write_sdb-files h s blocksize dot slots im memory count =
    let listed =
      write_records s (slot_count slots) slots
        (record im { out = fwrite (s.record_of dot) (fseek (records_pos dot) im.out) }) in
    let less : suc (slot_count slots) - 1 ≡ slot_count slots = omega arith in
    rw (memory, count) (ap (λ m. (true, write_files h s blocksize dot.base m slots listed)) less)

-- For a directory without subdirectories whose records are counted right, and whose files have no
-- position of their own, can be opened, are as long as they were and fit their places, which lie in
-- order behind the records and within 64 bits: with a buffer of a byte at least, write_sdb succeeds.
-- The image then has the records of the directory, one behind the other, at its position, and the
-- bytes of each file at the address that its record gives.
pub write_sdb-AreStored :
    (h : Host) (s : Sources) (blocksize k : ℕ) (dot : Sdbf) (slots : Slots) (im : Image)
    → 0 < blocksize
    → s.malloc dot ≡ true
    → htons h dot.sdb_records ≡ suc (slot_count slots)
    → length (s.record_of dot) ≡ 64
    → dot.base + dot.ustart < 2 ^ 64
    → InOrder h k (dot.ustart + htons h dot.sdb_records * 64) slots
    → AreCopied s dot.base slots
    → let r = write_sdb h s blocksize (dir dot slots) im in
      (r.0 ≡ true)
      × (window r.1.out.bytes (dot.base + dot.ustart) (64 * htons h dot.sdb_records)
          ≡ s.record_of dot ++ records s slots)
      × AreStored h s dot.base r.1.out.bytes slots
write_sdb-AreStored h s blocksize k dot slots im block memory count sized at o c =
    let lo = dot.ustart + htons h dot.sdb_records * 64 in
    let n = slot_count slots in
    let first = record im { out = fwrite (s.record_of dot) (fseek (records_pos dot) im.out) } in
    let listed = write_records s n slots first in
    let all = s.record_of dot ++ records s slots in
    let done = write_sdb-files h s blocksize dot slots im memory count in
    let bytes = (write_files h s blocksize dot.base n slots listed).out.bytes in
    let put_all : listed.out ≡ fwrite all (fseek (records_pos dot) im.out) =
      records-fwrite s dot.base slots first c
      ∙ fwrite-append (s.record_of dot) (records s slots) (fseek (records_pos dot) im.out) in
    let len : length all ≡ 64 * htons h dot.sdb_records =
      length-append (s.record_of dot) (records s slots)
      ∙ omega (arith, sized, length-records s dot.base slots c, count) in
    let place : records_pos dot ≡ dot.base + dot.ustart = omega (arith, at) in
    let kept =
      window-cong bytes listed.out.bytes (dot.base + dot.ustart) (64 * htons h dot.sdb_records)
        (λ j le lt.
          files-below s blocksize dot.base block h k lo slots listed o c j (omega (arith, lt))) in
    let written =
      ap (λ x. window x.bytes (dot.base + dot.ustart) (64 * htons h dot.sdb_records)) put_all
      ∙ (ap₂ (λ p m. window (put all p im.out.bytes) (dot.base + dot.ustart) m) place (sym len)
          ∙ window-put all (dot.base + dot.ustart) im.out.bytes) in
    (
      ap (λ r. r.0) done,
      ap (λ r. window r.1.out.bytes (dot.base + dot.ustart) (64 * htons h dot.sdb_records)) done
          ∙ (kept ∙ written),
      subst (λ r. AreStored h s dot.base r.1.out.bytes slots) (sym done)
          (files-AreStored s blocksize dot.base block h k lo slots listed o c),
    )
