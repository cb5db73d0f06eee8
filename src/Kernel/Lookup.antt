-- ===== src/Kernel/Lookup.antt =====
-- What sdbfs_lookup of sdbfs/kernel/sdbfs-inode.c finds.
use fpga_config_space.Base.{
  strncpy, length-strncpy, ℕ, zero, suc, ◌+◌, ◌*◌, ◌%◌, ◌^◌, ◌<◌, ◌≤◌, List, [], ◌∷◌, Option, none,
  some, false, not, ◌==◌, if◌then◌else◌, ◌≡◌, ◌≢◌, refl, ap, ◌∙◌, length, arith, Bool-cases, inl,
  inr, bytes_eq, subst, length-take,
}
use mathlib.Core.Option.{map}
use fpga_config_space.Endian.{Host}
use fpga_config_space.Sdb.{Sdb, name_of}
use fpga_config_space.Kernel.{
  SdbfsDev, Info, Inode, sdbfs_ino, sdbfs_offset, strncmp_same, search, lookup, read_files, trimmed,
  info_of, with_record, iget_record, read_record,
}

-- Names have no byte that is zero.
abbrev pub HasNoZero : List ℕ → Type 0
HasNoZero [] = Unit {0}
HasNoZero (x ∷ xs) = (x ≢ 0) × HasNoZero xs

-- As info_of makes them.
abbrev pub AreMeasured : List Info → Type 0
AreMeasured [] = Unit {0}
AreMeasured (f ∷ files) = (f.namelen ≡ length f.name) × AreMeasured files

-- The first file of a name.
abbrev pub first_named : List ℕ → (i : ℕ) → List Info → Option ℕ
first_named name i [] = none
first_named name i (f ∷ files) =
    let rest = first_named name (suc i) files in if bytes_eq f.name name then some i else rest

strncmp_same-bytes_eq :
    (a b : List ℕ) → HasNoZero b → length a ≡ length b → strncmp_same (length b) a b ≡ bytes_eq a b
unfolding strncmp_same
strncmp_same-bytes_eq [] [] nz e = refl
strncmp_same-bytes_eq (x ∷ a) [] nz e = absurd (omega (arith, e))
strncmp_same-bytes_eq [] (y ∷ b) nz e = absurd (omega (arith, e))
strncmp_same-bytes_eq (x ∷ a) (y ∷ b) (ny, nz) e =
    ground (arith, strncmp_same-bytes_eq a b nz (omega (arith, e)), ny)

bytes_eq-length : (a b : List ℕ) → length a ≢ length b → bytes_eq a b ≡ false
bytes_eq-length [] [] ne = absurd (ne refl)
bytes_eq-length (x ∷ a) [] ne = refl
bytes_eq-length [] (y ∷ b) ne = refl
bytes_eq-length (x ∷ a) (y ∷ b) ne = ground (arith, bytes_eq-length a b (λ e. ne (ap suc e)))

-- One round of the loop.
search_step :
    (namelen : ℕ) (fname name : List ℕ) (x rest rest' : Option ℕ)
    → namelen ≡ length fname
    → HasNoZero name
    → rest ≡ rest'
    → (if not (namelen == length name)
        then rest
        else if strncmp_same (length name) fname name
        then x
        else rest)
      ≡ (if bytes_eq fname name then x else rest')
search_step namelen fname name x rest rest' m nz e = elim (Bool-cases (namelen == length name)) [
  | inl same ↦
      let cmp = strncmp_same-bytes_eq fname name nz (ground (arith, m, same)) in
      rw same (rw cmp (rw e refl))
  | inr differ ↦
      let ne : length fname ≢ length name = ground (arith, m, differ) in
      rw differ (rw (bytes_eq-length fname name ne) e)
]

search-first_named :
    (name : List ℕ) (i : ℕ) (files : List Info)
    → HasNoZero name
    → AreMeasured files
    → search name i files ≡ first_named name i files
unfolding search
search-first_named name i [] nz ms = refl
search-first_named name i (f ∷ files) nz (m, ms) =
    search_step f.namelen f.name name (some i) (search name (suc i) files)
      (first_named name (suc i) files) m nz (search-first_named name (suc i) files nz ms)

-- An inode number leads back to its offset, when that has 32 bits and is a multiple of 16.
offset-ino :
    (offset : ℕ) → offset % 16 ≡ 0 → offset < 2 ^ 32 → sdbfs_offset (sdbfs_ino offset) ≡ offset
offset-ino offset aligned lt = omega (arith, aligned, lt)

-- The record of the file with an index, in a table.
abbrev pub record_at : Host → SdbfsDev → (base_sdb i : ℕ) → Option Sdb
record_at h sd base_sdb i = read_record h sd (base_sdb + 64 * i)

first_named-lt :
    (name : List ℕ) (i j : ℕ) (files : List Info)
    → first_named name i files ≡ some j
    → j < i + length files
first_named-lt name i j [] e = absurd cc
first_named-lt name i j (f ∷ files) e = elim (Bool-cases (bytes_eq f.name name)) [
  | inl same ↦ ground (arith, e, same)
  | inr differ ↦
      let later : first_named name (suc i) files ≡ some j = ground (arith, e, differ) in
      omega (arith, first_named-lt name (suc i) j files later)
]

trimmed-le : (j : ℕ) (name : List ℕ) → trimmed j name ≤ j
trimmed-le zero name = omega arith
trimmed-le (suc j) name = ground (arith, trimmed-le j name)

info_of-measured : (r : Sdb) → (info_of r).namelen ≡ length (info_of r).name
info_of-measured r =
    let name = strncpy 19 (name_of r) in
    omega
      (arith, length-take (trimmed 19 name) name, length-strncpy 19 (name_of r), trimmed-le 19 name)

abbrev AllMeasured : Option (List Info) → Type 0
AllMeasured none = Unit {0}
AllMeasured (some files) = AreMeasured files

with_record-AllMeasured :
    (r : Option Sdb) (rest : Option (List Info))
    → AllMeasured rest
    → AllMeasured (with_record r rest)
with_record-AllMeasured none rest ms = tt
with_record-AllMeasured (some r) none ms = tt
with_record-AllMeasured (some r) (some files) ms = (info_of-measured r, ms)

read_files-AllMeasured :
    (h : Host) (sd : SdbfsDev) (n offset : ℕ) → AllMeasured (read_files h sd n offset)
unfolding read_files
read_files-AllMeasured h sd zero offset = tt
read_files-AllMeasured h sd (suc n) offset =
    with_record-AllMeasured (read_record h sd offset) (read_files h sd n (offset + 64))
      (read_files-AllMeasured h sd n (offset + 64))

map-map-same :
    {A : Type 0} (f g : ℕ → A) (k : ℕ → ℕ) (o : Option ℕ)
    → ((j : ℕ) → o ≡ some j → f (k j) ≡ g j)
    → map f (map k o) ≡ map g o
map-map-same f g k none e = refl
map-map-same f g k (some j) e = ap some (e j refl)

-- A directory is read from a table at a multiple of 16 with all of its records below 2^32, and a name
-- has no zero byte. sdbfs_lookup gets the inode of the first file of this name, or none exactly if no
-- file has it; and sdbfs_iget reads the record of this file for the inode.
pub lookup-first_named :
    (h : Host) (sd : SdbfsDev) (name : List ℕ) (n : ℕ) (inode : Inode)
    → HasNoZero name
    → read_files h sd n inode.base_sdb ≡ some inode.files
    → inode.base_sdb % 16 ≡ 0
    → inode.base_sdb + 64 * length inode.files < 2 ^ 32
    → (lookup name inode
        ≡ map (λ i. sdbfs_ino (inode.base_sdb + 64 * i)) (first_named name 0 inode.files))
      × (map (iget_record h sd) (lookup name inode)
          ≡ map (record_at h sd inode.base_sdb) (first_named name 0 inode.files))
unfolding lookup
lookup-first_named h sd name n inode nz loaded aligned small =
    let found =
      search-first_named name 0 inode.files nz
        (subst AllMeasured loaded (read_files-AllMeasured h sd n inode.base_sdb)) in
    (
      ap (map (λ i. sdbfs_ino (inode.base_sdb + 64 * i))) found,
      ap (λ o. map (iget_record h sd) (map (λ i. sdbfs_ino (inode.base_sdb + 64 * i)) o)) found
          ∙ map-map-same (iget_record h sd) (record_at h sd inode.base_sdb)
              (λ i. sdbfs_ino (inode.base_sdb + 64 * i)) (first_named name 0 inode.files)
              (λ j e. ap (read_record h sd) (
                offset-ino (inode.base_sdb + 64 * j) (omega (arith, aligned))
                  (omega (arith, small, first_named-lt name 0 j inode.files e)))),
    )
