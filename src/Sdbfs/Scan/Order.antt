-- ===== src/Sdbfs/Scan/Order.antt =====
-- The scan of a mapped device visits its tables in the order of `Listing`: one call delivers the
-- next entry, and `NULL` comes exactly at the end.
use fpga_config_space.Base.{
  ℕ, suc, ◌+◌, ◌-◌, ◌^◌, ◌≤◌, ◌<◌, some, List, [], ◌++◌, Bool, true, false, ltb, ◌≡◌, refl, sym,
  subst, ap, ◌∙◌, inl, inr, arith, update, append-nil, Bool-cases, ltb→lt, ltb→le,
}
use fpga_config_space.Endian.{Host}
use fpga_config_space.Sdb.{Sdb, sizeof_device, records_of, child_of, addr_first_of}
use fpga_config_space.Sdbfs.{Fs, max_depth}
use fpga_config_space.Sdbfs.Scan.{add64, dec32, is_interconnect, is_bridge, out, enter, scan}
use fpga_config_space.Sdbfs.Scan.Steps.{
  update_self, update_below, update_small, dec32-lt, enter_table, enter_missing_root, enter_missing,
  scan_leaf, scan_bridge, scan_bottom,
}
use fpga_config_space.Sdbfs.Scan.Listing.{
  Entry, table, inside, inside_interconnect, inside_bridge, inside_other, inside_bottom,
  table_found, table_missing, IsMapped, readentry-mapped,
}
use fpga_config_space.Sdbfs.Scan.Pending.{
  at, outer, outer-same, pending, IsScanning, Yields, next_entry-Yields,
}

module _ (h : Host) (memory : ℕ → ℕ) (conv : Bool) where
  -- Entering a table that is there delivers its interconnect.
  enter_found :
      (due : List Entry) (fs : Fs) (d : ℕ) (c : Sdb)
      → due
        ≡ table h (at h memory conv) (3 - d) (fs.base d) (fs.this d)
          ++ outer h memory conv fs.base fs.this fs.nleft d
      → IsMapped memory conv fs
      → d < max_depth
      → ((i : ℕ) → fs.nleft i < 2 ^ 32)
      → is_interconnect h (at h memory conv (fs.this d)) ≡ true
      → Yields h memory conv due (
          out h (at h memory conv (fs.this d)) (record fs {
            current_record = c;
            currentp = some (at h memory conv (fs.this d));
            nleft = update fs.nleft d (dec32 (records_of h (at h memory conv (fs.this d))));
            this = update fs.this d (add64 (fs.this d) sizeof_device);
            depth = d;
          }))
  unfolding out
  enter_found due fs d c is m deep small e =
      let r = (at h memory conv) (fs.this d) in
      let under =
        outer-same h memory conv fs.base fs.base fs.this
          (update fs.this d (add64 (fs.this d) sizeof_device)) fs.nleft
          (update fs.nleft d (dec32 (records_of h r))) d (λ i l. refl)
          (λ i l. sym (update_below fs.this d _ i l))
          (λ i l. sym (update_below fs.nleft d _ i l)) in
      (
        is
            ∙ rw (
              table_found h (at h memory conv) (3 - d) (fs.base d) (fs.this d) e,
              inside_interconnect h (at h memory conv) (3 - d) (fs.base d) r e,
              update_self fs.this d (add64 (fs.this d) sizeof_device),
              update_self fs.nleft d (dec32 (records_of h r)),
              ← under,
            ),
        refl,
        refl,
        record {
          device = record {
            direct = m.direct;
            same_memory = m.same_memory;
            same_order = m.same_order;
          };
          deep = deep;
          small = update_small fs.nleft d _ _ (dec32-lt _) small;
        },
      )

  enter_root-Yields :
      (fs : Fs)
      → IsMapped memory conv fs
      → ((i : ℕ) → fs.nleft i < 2 ^ 32)
      → Yields h memory conv (table h (at h memory conv) 3 (fs.base 0) (fs.this 0)) (enter h fs 0)
  enter_root-Yields fs m small =
      let (c, got) = readentry-mapped h fs (fs.this 0) m in
      elim (Bool-cases (is_interconnect h (at h memory conv (fs.this 0)))) [
        | inl e ↦
            subst (Yields h memory conv _) (sym (enter_table h fs 0 _ _ got e))
              (enter_found _ fs 0 c (sym (append-nil _)) m (omega arith) small e)
        | inr e ↦
            subst (Yields h memory conv _) (sym (enter_missing_root h fs _ _ got e))
              (table_missing h (at h memory conv) 3 _ _ e)
      ]

  enter_below-Yields :
      (fs : Fs)
      → IsScanning h memory conv fs
      → fs.depth + 1 < max_depth
      → Yields h memory conv
          (table h
              (at h memory conv)
              (3 - suc fs.depth)
              (fs.base (suc fs.depth))
              (fs.this (suc fs.depth))
            ++ outer h memory conv fs.base fs.this fs.nleft (suc fs.depth))
          (enter h fs (suc fs.depth))
  enter_below-Yields fs s room =
      let d = fs.depth in
      let (c, got) = readentry-mapped h fs (fs.this (suc d)) s.device in
      elim (Bool-cases (is_interconnect h (at h memory conv (fs.this (suc d))))) [
        | inl e ↦
            subst (Yields h memory conv _) (sym (enter_table h fs (suc d) _ _ got e))
              (enter_found _ fs (suc d) c refl s.device (omega arith) s.small e)
        | inr e ↦ subst (Yields h memory conv _) (sym (enter_missing h fs d _ _ got e)) (
            rw
              (table_missing h (at h memory conv) (3 - suc d) (fs.base (suc d)) (fs.this (suc d)) e)
              (next_entry-Yields h memory conv _ (still s c _)))
      ]
    where
      still :
          {fs : Fs}
          → IsScanning h memory conv fs
          → (c r : Sdb)
          → IsScanning h memory conv (record fs { current_record = c; currentp = some r })
      still s c r = record {
        device = record {
          direct = s.device.direct;
          same_memory = s.device.same_memory;
          same_order = s.device.same_order;
        };
        deep = s.deep;
        small = s.small;
      }

  -- The state with which the scan enters the table behind the bridge `r`.
  abbrev below : Fs → Sdb → Fs
  below fs r = record fs {
    this = update fs.this (suc fs.depth) (add64 (fs.base fs.depth) (child_of h r));
    base = update fs.base (suc fs.depth) (add64 (fs.base fs.depth) (addr_first_of h r));
  }

  going :
      {fs : Fs} → IsScanning h memory conv fs → (r : Sdb) → IsScanning h memory conv (below fs r)
  going s r = record {
    device = record {
      direct = s.device.direct;
      same_memory = s.device.same_memory;
      same_order = s.device.same_order;
    };
    deep = s.deep;
    small = s.small;
  }

  inside_room :
      (fs : Fs) (r : Sdb)
      → is_bridge r ≡ true
      → fs.depth + 1 < max_depth
      → inside h (at h memory conv) (3 - fs.depth) (fs.base fs.depth) r
        ≡ table h
            (at h memory conv)
            (3 - suc fs.depth)
            ((below fs r).base (suc fs.depth))
            ((below fs r).this (suc fs.depth))
  inside_room fs r bridge room =
      let level : 3 - fs.depth ≡ suc (3 - suc fs.depth) = omega arith in
      rw
        (
          level,
          update_self fs.this (suc fs.depth) (add64 (fs.base fs.depth) (child_of h r)),
          update_self fs.base (suc fs.depth) (add64 (fs.base fs.depth) (addr_first_of h r)),
        )
        (inside_bridge h (at h memory conv) (3 - suc fs.depth) (fs.base fs.depth) r bridge)

  no_room :
      (fs : Fs) (r : Sdb)
      → IsScanning h memory conv fs
      → max_depth ≤ fs.depth + 1
      → inside h (at h memory conv) (3 - fs.depth) (fs.base fs.depth) r ≡ []
  no_room fs r s bottom =
      let level : 3 - fs.depth ≡ 0 = omega arith in
      rw level (inside_bottom h (at h memory conv) (fs.base fs.depth) r)

  -- On a mapped device that is being scanned, `sdbfs_scan` delivers the entry that is due, or `NULL`
  -- if none is; the device stays in a state from which the scan goes on.
  pub scan-Yields :
      (fs : Fs) (r : Sdb)
      → IsScanning h memory conv fs
      → fs.currentp ≡ some r
      → Yields h memory conv (pending h memory conv r fs) (scan h fs false)
  scan-Yields fs r s e = elim (Bool-cases (is_bridge r)) [
    | inr leaf ↦ subst (Yields h memory conv _) (sym (scan_leaf h fs r e leaf)) (
        rw (inside_other h (at h memory conv) (3 - fs.depth) (fs.base fs.depth) r leaf)
          (next_entry-Yields h memory conv fs s))
    | inl bridge ↦ elim (Bool-cases (ltb (fs.depth + 1) max_depth)) [
      | inl room ↦
          let deeper = ltb→lt _ _ room in
          let g = below fs r in
          let moved_on =
            outer-same h memory conv fs.base g.base fs.this g.this fs.nleft fs.nleft (suc fs.depth)
              (λ i l. sym (update_below fs.base (suc fs.depth) _ i l))
              (λ i l. sym (update_below fs.this (suc fs.depth) _ i l)) (λ i l. refl) in
          subst (Yields h memory conv _) (sym (scan_bridge h fs r e bridge deeper)) (
            subst (λ l. Yields h memory conv l (enter h g (suc fs.depth)))
              (sym (
                ap (λ l. l ++ outer h memory conv fs.base fs.this fs.nleft (suc fs.depth))
                  (inside_room fs r bridge deeper)
                ∙ ap
                    (λ l.
                      table h (at h memory conv) (3 - suc fs.depth) (g.base (suc fs.depth))
                        (g.this (suc fs.depth))
                      ++ l)
                    moved_on))
              (enter_below-Yields g (going s r) deeper))
      | inr full ↦
          let bottom = ltb→le _ _ full in
          subst (Yields h memory conv _) (sym (scan_bottom h fs r e bottom))
            (rw (no_room fs r s bottom) (next_entry-Yields h memory conv fs s))
    ]
  ]

  -- A new scan of a mapped device starts with the table at its entry point.
  pub scan_new-Yields :
      (fs : Fs)
      → IsMapped memory conv fs
      → ((i : ℕ) → fs.nleft i < 2 ^ 32)
      → Yields h memory conv (table h (at h memory conv) 3 0 fs.entrypoint) (scan h fs true)
  unfolding scan
  scan_new-Yields fs m small =
      enter_root-Yields
        (record fs { base = update fs.base 0 0; this = update fs.this 0 fs.entrypoint; depth = 0 })
        (record { direct = m.direct; same_memory = m.same_memory; same_order = m.same_order }) small
