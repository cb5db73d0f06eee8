-- ===== src/Sdbfs/Scan/Steps.antt =====
-- Single steps of the scan: what each function returns, from what the functions that it calls return.
use fpga_config_space.Base.{
  ℕ, suc, ◌^◌, ◌<◌, ◌≤◌, ◌+◌, none, some, true, false, ◌≡◌, ap, ◌∙◌, arith, update, lt→ltb,
}
use native.Mathlib.Numerals.{add-one}
use fpga_config_space.Endian.{Host}
use fpga_config_space.Sdb.{Sdb, sizeof_device, records_of, child_of, addr_first_of}
use fpga_config_space.Sdbfs.{Fs, max_depth}
use fpga_config_space.Sdbfs.Scan.{
  found, finished, add64, dec32, is_interconnect, readentry, scan_newdir, climb, out, read_level,
  next_entry, enter, resume, scan, is_bridge,
}

pub update_self : {A : Type 0} (f : ℕ → A) (i : ℕ) (v : A) → update f i v i ≡ v
update_self f i v = ground arith

pub update_below : {A : Type 0} (f : ℕ → A) (i : ℕ) (v : A) (j : ℕ) → j < i → update f i v j ≡ f j
update_below f i v j p = ground arith

pub update_small :
    (f : ℕ → ℕ) (i v bound : ℕ)
    → v < bound
    → ((j : ℕ) → f j < bound)
    → (j : ℕ) → update f i v j < bound
update_small f i v bound p q j = ground (arith, q j)

pub dec32-lt : (n : ℕ) → dec32 n < 2 ^ 32
dec32-lt n = omega arith

pub dec32-suc : (n : ℕ) → suc n < 2 ^ 32 → dec32 (suc n) ≡ n
dec32-suc n p = omega arith

-- The computed forms of `next_entry` and `enter`, from what they call.
module _ (h : Host) (fs : Fs) where
  pub next_entry-none : (d : ℕ) (g : Fs) → climb fs d ≡ (none, g) → next_entry h fs d ≡ finished g
  unfolding next_entry read_level
  next_entry-none d g p = ap (read_level h) p

  pub next_entry-some :
      (d e : ℕ) (g g' : Fs) (dev : Sdb)
      → climb fs d ≡ (some e, g)
      → readentry h g (g.this e) ≡ some (dev, g')
      → next_entry h fs d
        ≡ out h dev (record g' {
          currentp = some dev;
          this = update g'.this e (add64 (g'.this e) sizeof_device);
          nleft = update g'.nleft e (dec32 (g'.nleft e));
        })
  unfolding next_entry read_level
  next_entry-some d e g g' dev p q = ap (read_level h) p ∙ rw (q, read_level)

  pub scan_newdir_found :
      (d : ℕ) (g : Fs) (dev : Sdb)
      → readentry h fs (fs.this d) ≡ some (dev, g)
      → is_interconnect h dev ≡ true
      → scan_newdir h fs d
        ≡ found dev (record g {
          currentp = some dev;
          nleft = update g.nleft d (dec32 (records_of h dev));
          this = update g.this d (add64 (g.this d) sizeof_device);
          depth = d;
        })
  unfolding scan_newdir
  scan_newdir_found d g dev p q = rw (p, scan_newdir, q)

  pub scan_newdir_none :
      (d : ℕ) (g : Fs) (dev : Sdb)
      → readentry h fs (fs.this d) ≡ some (dev, g)
      → is_interconnect h dev ≡ false
      → scan_newdir h fs d ≡ finished (record g { currentp = some dev })
  unfolding scan_newdir
  scan_newdir_none d g dev p q = rw (p, scan_newdir, q)

  pub enter_table :
      (d : ℕ) (g : Fs) (dev : Sdb)
      → readentry h fs (fs.this d) ≡ some (dev, g)
      → is_interconnect h dev ≡ true
      → enter h fs d
        ≡ out h dev (record g {
          currentp = some dev;
          nleft = update g.nleft d (dec32 (records_of h dev));
          this = update g.this d (add64 (g.this d) sizeof_device);
          depth = d;
        })
  unfolding enter
  enter_table d g dev p q = rw (scan_newdir_found d g dev p q, enter)

  pub enter_missing_root :
      (g : Fs) (dev : Sdb)
      → readentry h fs (fs.this 0) ≡ some (dev, g)
      → is_interconnect h dev ≡ false
      → enter h fs 0 ≡ finished (record g { currentp = some dev })
  unfolding enter
  enter_missing_root g dev p q = rw (scan_newdir_none 0 g dev p q, enter)

  pub enter_missing :
      (d : ℕ) (g : Fs) (dev : Sdb)
      → readentry h fs (fs.this (suc d)) ≡ some (dev, g)
      → is_interconnect h dev ≡ false
      → enter h fs (suc d) ≡ next_entry h (record g { currentp = some dev }) d
  unfolding enter
  enter_missing d g dev p q = rw (scan_newdir_none (suc d) g dev p q, enter)

  -- After a record that is no bridge, and at the last level, the scan goes on along the table.
  pub scan_leaf :
      (r : Sdb)
      → fs.currentp ≡ some r
      → is_bridge r ≡ false
      → scan h fs false ≡ next_entry h fs fs.depth
  unfolding scan resume
  scan_leaf r e leaf = ap (resume h fs) e ∙ rw leaf

  pub scan_bottom :
      (r : Sdb)
      → fs.currentp ≡ some r
      → max_depth ≤ fs.depth + 1
      → scan h fs false ≡ next_entry h fs fs.depth
  unfolding scan resume
  scan_bottom r e deep = ap (resume h fs) e ∙ ground arith

  -- After a bridge it enters the table behind it.
  pub scan_bridge :
      (r : Sdb)
      → fs.currentp ≡ some r
      → is_bridge r ≡ true
      → fs.depth + 1 < max_depth
      → scan h fs false
        ≡ enter h
            (record fs {
              this = update fs.this (suc fs.depth) (add64 (fs.base fs.depth) (child_of h r));
              base = update fs.base (suc fs.depth) (add64 (fs.base fs.depth) (addr_first_of h r));
            })
            (suc fs.depth)
  unfolding scan resume
  scan_bridge r e bridge room = ap (resume h fs) e ∙ rw (lt→ltb _ _ room, add-one fs.depth, bridge)
