-- ===== src/Sdbfs/Scan/Listing.antt =====
-- The order in which a scan should visit a tree of SDB tables, as one recursive function on the
-- image: each record of a table in turn, and after a bridge the table behind it.
use fpga_config_space.Base.{
  ℕ, zero, suc, some, List, [], ◌∷◌, ◌++◌, Bool, true, false, ◌||◌, ◌≡◌, refl, if◌then◌else◌,
  window, arith, ◌&&◌,
}
use fpga_config_space.Endian.{Host}
use fpga_config_space.Sdb.{Sdb, sizeof_device, records_of, child_of, addr_first_of, convert_words}
use fpga_config_space.Sdbfs.{Fs}
use fpga_config_space.Sdbfs.Scan.{add64, dec32, is_interconnect, is_bridge, readentry}

-- What a scan delivers: a record, and the offset that it leaves in `f_offset`.
abbrev pub Entry : Type 0
Entry = Sdb × ℕ

-- The record at an offset, words converted if the bus asks for it.
unfoldable pub entry_at : Host → Bool → (ℕ → ℕ) → ℕ → Sdb
entry_at h true memory offset = convert_words h (window memory offset sizeof_device)
entry_at h false memory offset = window memory offset sizeof_device

-- `at offset` is the record at an offset.
module _ (h : Host) (at : ℕ → Sdb) where
  abbrev pub entry : ℕ → Sdb → Entry
  entry base r = (r, add64 base (addr_first_of h r))

  -- `n` records from `this` on, whose addresses are relative to `base`. A bridge is followed by the
  -- table behind it, if there is one there, and while levels are left.
  unfoldable pub contents : (levels base this n : ℕ) → List Entry
  contents levels base this zero = []
  contents zero base this (suc n) =
      entry base (at this) ∷ contents zero base (add64 this sizeof_device) n
  contents (suc levels) base this (suc n) =
      let r = at this in
      let base' = add64 base (addr_first_of h r) in
      let this' = add64 base (child_of h r) in
      let below =
        entry base' (at this')
        ∷ contents levels base' (add64 this' sizeof_device) (dec32 (records_of h (at this'))) in
      entry base r
      ∷ ((if is_bridge r && is_interconnect h (at this') then below else [])
          ++ contents (suc levels) base (add64 this sizeof_device) n)

  -- A whole table: the interconnect and the records behind it, or nothing.
  unfoldable pub table : (levels base this : ℕ) → List Entry
  table levels base this =
      if is_interconnect h (at this)
      then entry base (at this)
        ∷ contents levels base (add64 this sizeof_device) (dec32 (records_of h (at this)))
      else []

  -- What lies behind a record.
  unfoldable pub inside : (levels base : ℕ) → Sdb → List Entry
  inside zero base r = []
  inside (suc levels) base r =
      if is_bridge r
      then table levels (add64 base (addr_first_of h r)) (add64 base (child_of h r))
      else []

  pub contents-inside :
      (levels base this n : ℕ)
      → contents levels base this (suc n)
        ≡ entry base (at this)
          ∷ (inside levels base (at this) ++ contents levels base (add64 this sizeof_device) n)
  unfolding contents inside table
  contents-inside zero base this n = refl
  contents-inside (suc levels) base this n = ground arith

  pub contents_nil : (levels base this : ℕ) → contents levels base this 0 ≡ []
  unfolding contents
  contents_nil zero base this = refl
  contents_nil (suc levels) base this = refl

  -- An interconnect is no bridge: the records of its own table come next.
  pub inside_interconnect :
      (levels base : ℕ) (r : Sdb) → is_interconnect h r ≡ true → inside levels base r ≡ []
  unfolding inside is_interconnect is_bridge
  inside_interconnect zero base r e = refl
  inside_interconnect (suc levels) base r e = ground arith

  pub table_found :
      (levels base this : ℕ)
      → is_interconnect h (at this) ≡ true
      → table levels base this
        ≡ entry base (at this)
          ∷ contents levels base (add64 this sizeof_device) (dec32 (records_of h (at this)))
  unfolding table
  table_found levels base this e = rw (e, table)

  pub table_missing :
      (levels base this : ℕ) → is_interconnect h (at this) ≡ false → table levels base this ≡ []
  unfolding table
  table_missing levels base this e = rw (e, table)

  pub inside_bridge :
      (levels base : ℕ) (r : Sdb)
      → is_bridge r ≡ true
      → inside (suc levels) base r
        ≡ table levels (add64 base (addr_first_of h r)) (add64 base (child_of h r))
  unfolding inside
  inside_bridge levels base r e = rw (e, inside)

  pub inside_other : (levels base : ℕ) (r : Sdb) → is_bridge r ≡ false → inside levels base r ≡ []
  unfolding inside
  inside_other zero base r e = refl
  inside_other (suc levels) base r e = rw (e, inside)

  pub inside_bottom : (base : ℕ) (r : Sdb) → inside 0 base r ≡ []
  unfolding inside
  inside_bottom base r = refl

-- The part of a state that a mapped device does not change.
pub record IsMapped (memory : ℕ → ℕ) (conv : Bool) (fs : Fs) : Type 0 where
  pub direct : (fs.mapped || fs.zerobased) ≡ true
  pub same_memory : fs.memory ≡ memory
  pub same_order : fs.convert32 ≡ conv

-- Reading an entry of a mapped device succeeds, gives the record there, and touches nothing but
-- `current_record`.
pub readentry-mapped :
    (h : Host) (fs : Fs) (offset : ℕ) {memory : ℕ → ℕ} {conv : Bool}
    → IsMapped memory conv fs
    → (c : Sdb) × (readentry h fs offset
        ≡ some (entry_at h conv memory offset, record fs { current_record = c }))
unfolding readentry entry_at
readentry-mapped h fs offset {conv = true} m =
    (convert_words h (window fs.memory offset sizeof_device), ground arith)
readentry-mapped h fs offset {conv = false} m = (fs.current_record, ground arith)
