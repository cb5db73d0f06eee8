-- ===== src/Sdbfs/Open/First.antt =====
-- Opening a file finds the first record of the listing that answers to the name or the identifier.
use fpga_config_space.Base.{
  ℕ, zero, suc, ◌-◌, ◌^◌, ◌≤◌, ◌<◌, Option, none, some, List, [], ◌∷◌, Bool, true, false, ◌≡◌, refl,
  ap, sym, subst, arith, length, ltb, if◌then◌else◌, Bool-cases, inl, inr,
}
use fpga_config_space.Endian.{Host}
use fpga_config_space.Sdb.{Sdb, addr_first_of, addr_last_of}
use fpga_config_space.Sdbfs.{Fs}
use fpga_config_space.Sdbfs.Scan.{Scan, crash, finished, found, scan}
use fpga_config_space.Sdbfs.Scan.Listing.{Entry, entry_at, table, IsMapped}
use fpga_config_space.Sdbfs.Scan.Pending.{pending, Yields}
use fpga_config_space.Sdbfs.Scan.Order.{scan-Yields, scan_new-Yields}
use fpga_config_space.Sdbfs.Open.{
  Opening, opened, missing, crashed, out_of_fuel, open_current, span64, search_loop, search_from,
  has_name, has_id, open_name, open_id, find_result, find_name, find_id, enoent, close,
}

-- The first entry whose record answers.
abbrev pub first : (Sdb → Bool) → List Entry → Option Entry
first wanted [] = none
first wanted ((d, at) ∷ rest) = if wanted d then some (d, at) else first wanted rest

-- The device is open at an entry: its offset is the entry's, and its length that of the record.
pub record IsOpenAt (h : Host) (e : Entry) (fs : Fs) : Type 0 where
  pub current : fs.currentp ≡ some e.0
  pub offset : fs.f_offset ≡ e.1
  pub len : fs.f_len ≡ span64 (addr_last_of h e.0) (addr_first_of h e.0)
  pub start : fs.read_offset ≡ 0

-- An opening returns, and agrees with the first answer: open there, or -ENOENT if there is none.
abbrev pub Opens : Host → Option Entry → Opening → Type 0
Opens h (some e) (opened fs) = IsOpenAt h e fs
Opens h none (opened fs) = ⊥
Opens h none (missing fs) = Unit {0}
Opens h (some e) (missing fs) = ⊥
Opens h answer crashed = ⊥
Opens h answer out_of_fuel = ⊥

module _ (h : Host) (memory : ℕ → ℕ) (conv : Bool) (wanted : Sdb → Bool) where
  search_loop-Opens :
      (fuel : ℕ) (due : List Entry) (k : Scan)
      → Yields h memory conv due k
      → length due < suc fuel
      → Opens h (first wanted due) (search_loop h wanted fuel k)
  unfolding search_loop open_current
  search_loop-Opens fuel due crash y enough = absurd y
  search_loop-Opens fuel due (finished fs) y enough = rw y tt
  search_loop-Opens zero due (found d fs) y enough = absurd (omega (arith, ap length y.0))
  search_loop-Opens (suc fuel) due (found d fs) y enough =
      let short : length (pending h memory conv d fs) < suc fuel = omega (arith, ap length y.0) in
      let rest =
        search_loop-Opens fuel (pending h memory conv d fs) (scan h fs false)
          (scan-Yields h memory conv fs d y.3 y.2) short in
      rw y.0 (elim (Bool-cases (wanted d)) [
        | inl e ↦ rw e (record { current = refl; offset = sym y.1; len = refl; start = refl })
        | inr e ↦ rw e rest
      ])

  -- With the root table there, the search passes over its interconnect and goes through the rest.
  search_from-Opens :
      (fs : Fs) (fuel : ℕ) (e : Entry) (rest : List Entry)
      → IsMapped memory conv fs
      → ((i : ℕ) → fs.nleft i < 2 ^ 32)
      → table h (entry_at h conv memory) 3 0 fs.entrypoint ≡ e ∷ rest
      → length rest < suc fuel
      → Opens h (first wanted rest) (search_from h wanted fuel (scan h fs true))
  unfolding search_from
  search_from-Opens fs fuel e rest m small is enough =
      go (scan h fs true) (scan_new-Yields h memory conv fs m small)
    where
      go :
          (k : Scan)
          → Yields h memory conv (table h (entry_at h conv memory) 3 0 fs.entrypoint) k
          → Opens h (first wanted rest) (search_from h wanted fuel k)
      go crash y = absurd y
      go (finished g) y = cc
      go (found d g) y =
          let behind : pending h memory conv d g ≡ rest = cc in
          search_loop-Opens fuel rest (scan h g false)
            (subst (λ l. Yields h memory conv l (scan h g false)) behind
              (scan-Yields h memory conv g d y.3 y.2))
            enough

-- A find returns the offset of the answer, and -ENOENT without one; the device is closed after.
abbrev pub Finds : Option Entry → Option (ℕ × Fs) → Type 0
Finds answer none = ⊥
Finds (some e) (some (offset, fs)) = (offset ≡ e.1) × (fs.currentp ≡ none)
Finds none (some (offset, fs)) = offset ≡ 2 ^ 64 - enoent

answered :
    (h : Host) (answer : Option Entry) (o : Opening)
    → Opens h answer o
    → Finds answer (find_result o)
unfolding find_result close
answered h (some e) (opened fs) p = (p.offset, refl)
answered h none (opened fs) p = absurd p
answered h (some e) (missing fs) p = absurd p
answered h none (missing fs) p = refl
answered h answer crashed p = absurd p
answered h answer out_of_fuel p = absurd p

-- The search of a mapped device that has a table at its entry point.
module _ (h : Host) (fs : Fs) (fuel : ℕ) (e : Entry) (rest : List Entry)
    (direct : IsMapped fs.memory fs.convert32 fs) (small : (i : ℕ) → fs.nleft i < 2 ^ 32)
    (is : table h (entry_at h fs.convert32 fs.memory) 3 0 fs.entrypoint ≡ e ∷ rest)
    (enough : length rest < suc fuel) where
  -- On a mapped device with an interconnect at its entry point, and with fuel for every entry of
  -- the table there, `sdbfs_open_id` returns. It opens the first record behind the root
  -- interconnect, in scan order, whose identifiers are the two given, at that record's offset and
  -- with its length; it returns -ENOENT exactly if no record has them.
  pub open_id-first :
      (vid did : ℕ) → Opens h (first (has_id h vid did) rest) (open_id h fuel fs vid did)
  unfolding open_id
  open_id-first vid did =
      search_from-Opens h fs.memory fs.convert32 (has_id h vid did) fs fuel e rest direct small is
        enough

  -- On a mapped device with an interconnect at its entry point, with fuel for every entry of the
  -- table there, and for a name of at most 19 bytes, `sdbfs_open_name` returns. It opens the first
  -- record behind the root interconnect, in scan order, that has the name; it returns -ENOENT
  -- exactly if no record has it.
  pub open_name-first :
      (name : List ℕ)
      → length name ≤ 19
      → Opens h (first (has_name name) rest) (open_name h fuel fs name)
  unfolding open_name
  open_name-first name short =
      let fits : ltb 19 (length name) ≡ false = ground arith in
      rw fits (
        search_from-Opens h fs.memory fs.convert32 (has_name name) fs fuel e rest direct small is
          enough)

  -- On a mapped device with an interconnect at its entry point, and with fuel for every entry of
  -- the table there, `sdbfs_find_id` returns the offset of the first record behind the root
  -- interconnect that has the two identifiers, and leaves the device closed, or -ENOENT as an
  -- `unsigned long` if there is none.
  pub find_id-first :
      (vid did : ℕ) → Finds (first (has_id h vid did) rest) (find_id h fuel fs vid did)
  unfolding find_id
  find_id-first vid did = answered h _ _ (open_id-first vid did)

  -- The same of `sdbfs_find_name`, for names of at most 19 bytes.
  pub find_name-first :
      (name : List ℕ)
      → length name ≤ 19
      → Finds (first (has_name name) rest) (find_name h fuel fs name)
  unfolding find_name
  find_name-first name short = answered h _ _ (open_name-first name short)
