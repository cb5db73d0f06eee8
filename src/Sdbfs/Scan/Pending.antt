-- ===== src/Sdbfs/Scan/Pending.antt =====
-- What a scan in progress still has to deliver, and the step from one record to the next.
use fpga_config_space.Base.{
  ℕ, zero, suc, ◌-◌, ◌^◌, ◌≤◌, ◌<◌, none, some, List, [], ◌∷◌, ◌++◌, Bool, true, ◌==◌, ◌≡◌, refl,
  sym, subst, ap, ◌∙◌, ◌⊎◌, inl, inr, arith, update, append_assoc, Bool-cases,
}
use fpga_config_space.Endian.{Host}
use fpga_config_space.Sdb.{Sdb, sizeof_device, addr_first_of}
use fpga_config_space.Sdbfs.{Fs, max_depth}
use fpga_config_space.Sdbfs.Scan.{
  Scan, crash, finished, found, add64, dec32, climb, out, next_entry,
}
use fpga_config_space.Sdbfs.Scan.Steps.{
  update_self, update_below, update_small, dec32-lt, dec32-suc, next_entry-none, next_entry-some,
}
use fpga_config_space.Sdbfs.Scan.Listing.{
  Entry, entry, entry_at, contents, contents-inside, contents_nil, inside, IsMapped,
  readentry-mapped,
}

module _ (h : Host) (memory : ℕ → ℕ) (conv : Bool) where
  abbrev pub at : ℕ → Sdb
  at = entry_at h conv memory

  -- The records left at the levels below `d`, the innermost first.
  abbrev pub outer : (base this nleft : ℕ → ℕ) → ℕ → List Entry
  outer base this nleft zero = []
  outer base this nleft (suc d) =
      contents h at (3 - d) (base d) (this d) (nleft d) ++ outer base this nleft d

  -- All that a scan still has to deliver, once `r` has been.
  abbrev pub pending : Sdb → Fs → List Entry
  pending r fs =
      inside h at (3 - fs.depth) (fs.base fs.depth) r
      ++ outer fs.base fs.this fs.nleft (suc fs.depth)

  -- A device in the middle of a scan.
  pub record IsScanning (fs : Fs) : Type 0 where
    pub device : IsMapped memory conv fs
    pub deep : fs.depth < max_depth
    pub small : (d : ℕ) → fs.nleft d < 2 ^ 32

  -- The entry that is due comes out, and those behind it stay due; `NULL` comes if none is due.
  abbrev pub Yields : List Entry → Scan → Type 0
  Yields due crash = ⊥
  Yields due (finished fs) = due ≡ []
  Yields due (found r fs) =
      (due ≡ (r, fs.f_offset) ∷ pending r fs)
      × (fs.f_offset ≡ add64 (fs.base fs.depth) (addr_first_of h r))
      × (fs.currentp ≡ some r)
      × IsScanning fs

  pub outer-same :
      (b b' t t' n n' : ℕ → ℕ) (d : ℕ)
      → ((i : ℕ) → i < d → b i ≡ b' i)
      → ((i : ℕ) → i < d → t i ≡ t' i)
      → ((i : ℕ) → i < d → n i ≡ n' i)
      → outer b t n d ≡ outer b' t' n' d
  outer-same b b' t t' n n' zero p q r = refl
  outer-same b b' t t' n n' (suc d) p q r = rw (
    p d (omega arith),
    q d (omega arith),
    r d (omega arith),
    outer-same b b' t t' n n' d (λ i l. p i (omega arith)) (λ i l. q i (omega arith))
        (λ i l. r i (omega arith)),
  )

  -- Climbing drops levels that have nothing left.
  climb_lem :
      (fs : Fs) (d : ℕ)
      → ((climb (record fs { depth = d }) d ≡ (none, record fs { depth = 0 }))
          × (outer fs.base fs.this fs.nleft (suc d) ≡ []))
        ⊎ ((e : ℕ) × (climb (record fs { depth = d }) d ≡ (some e, record fs { depth = e }))
            × (e ≤ d)
            × (0 < fs.nleft e)
            × (outer fs.base fs.this fs.nleft (suc d) ≡ outer fs.base fs.this fs.nleft (suc e)))
  unfolding climb
  climb_lem fs zero = elim (Bool-cases (fs.nleft 0 == 0)) [
    | inl e ↦ inl (rw e, rw (the_zero _ e, contents_nil))
    | inr e ↦ inr (0, rw e, omega arith, ground arith, refl)
  ]
    where
      the_zero : (n : ℕ) → (n == 0) ≡ true → n ≡ 0
      the_zero n e = ground arith
  climb_lem fs (suc d) = elim (Bool-cases (fs.nleft (suc d) == 0)) [
    | inl e ↦ elim (climb_lem fs d) [
      | inl (p, q) ↦ inl (rw e p, rw (the_zero _ e, contents_nil) q)
      | inr (k, p, q, r, s) ↦ inr (k, rw e p, omega arith, r, rw (the_zero _ e, contents_nil) s)
    ]
    | inr e ↦ inr (suc d, rw e, omega arith, ground arith, refl)
  ]
    where
      the_zero : (n : ℕ) → (n == 0) ≡ true → n ≡ 0
      the_zero n e = ground arith

  contents_step :
      (levels base t n m : ℕ)
      → n ≡ suc m
      → n < 2 ^ 32
      → contents h at levels base t n
        ≡ entry h at base (at t)
          ∷ (inside h at levels base (at t)
              ++ contents h at levels base (add64 t sizeof_device) (dec32 n))
  contents_step levels base t n m e p =
      let back : dec32 n ≡ m = ap dec32 e ∙ dec32-suc m (omega arith) in
      rw (back, e) (contents-inside h at levels base t m)

  -- Reading the next record of level `e` delivers it.
  read_next :
      (fs : Fs) (e m : ℕ)
      → IsScanning fs
      → e ≤ fs.depth
      → fs.nleft e ≡ suc m
      → (c : Sdb)
      → Yields (outer fs.base fs.this fs.nleft (suc e)) (
          out h (at (fs.this e)) (record fs {
            depth = e;
            current_record = c;
            currentp = some (at (fs.this e));
            this = update fs.this e (add64 (fs.this e) sizeof_device);
            nleft = update fs.nleft e (dec32 (fs.nleft e));
          }))
  unfolding out
  read_next fs e m s le left c =
      let under =
        outer-same fs.base fs.base fs.this (update fs.this e (add64 (fs.this e) sizeof_device))
          fs.nleft (update fs.nleft e (dec32 (fs.nleft e))) e (λ i l. refl)
          (λ i l. sym (update_below fs.this e _ i l))
          (λ i l. sym (update_below fs.nleft e _ i l)) in
      (
        rw (
          contents_step (3 - e) (fs.base e) (fs.this e) (fs.nleft e) m left (s.small e),
          update_self fs.this e (add64 (fs.this e) sizeof_device),
          update_self fs.nleft e (dec32 (fs.nleft e)),
          ← under,
          append_assoc,
        ),
        refl,
        refl,
        record {
          device = record {
            direct = s.device.direct;
            same_memory = s.device.same_memory;
            same_order = s.device.same_order;
          };
          deep = omega (arith, s.deep);
          small = update_small fs.nleft e _ _ (dec32-lt _) s.small;
        },
      )

  moved :
      {fs : Fs} → IsMapped memory conv fs → (d : ℕ) → IsMapped memory conv (record fs { depth = d })
  moved m d = record { direct = m.direct; same_memory = m.same_memory; same_order = m.same_order }

  pub next_entry-Yields :
      (fs : Fs)
      → IsScanning fs
      → Yields (outer fs.base fs.this fs.nleft (suc fs.depth)) (next_entry h fs fs.depth)
  next_entry-Yields fs s = elim (climb_lem fs fs.depth) [
    | inl (p, q) ↦ subst (Yields _) (sym (next_entry-none h fs fs.depth _ p)) q
    | inr (e, p, le, pos, same) ↦
        let (c, got) =
          readentry-mapped h (record fs { depth = e }) (fs.this e) (moved s.device e) in
        subst (Yields _) (sym (next_entry-some h fs fs.depth e _ _ _ p got))
          (rw same (read_next fs e (fs.nleft e - 1) s le (omega arith) c))
  ]
