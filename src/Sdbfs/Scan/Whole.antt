-- ===== src/Sdbfs/Scan/Whole.antt =====
-- The loop `while ((d = sdbfs_scan(fs, new)) != NULL)` of sdbfs/userspace/sdb-read.c and
-- sdbfs/userspace/sdb-extract.c: a whole scan, on fuel.
use fpga_config_space.Base.{
  ℕ, zero, suc, ◌^◌, ◌<◌, Option, none, some, List, [], ◌∷◌, Bool, true, false, ◌≡◌, ap, sym, ◌∙◌,
  arith, length,
}
use fpga_config_space.Endian.{Host}
use fpga_config_space.Sdbfs.{Fs}
use fpga_config_space.Sdbfs.Scan.{Scan, crash, finished, found, scan}
use fpga_config_space.Sdbfs.Scan.Listing.{Entry, entry_at, table, IsMapped}
use fpga_config_space.Sdbfs.Scan.Pending.{pending, Yields}
use fpga_config_space.Sdbfs.Scan.Order.{scan-Yields, scan_new-Yields}

abbrev pub prepend : Entry → Option (List Entry) → Option (List Entry)
prepend e none = none
prepend e (some rest) = some (e ∷ rest)

-- The records that the loop sees, with the offset that each call leaves in `f_offset`. `none`: a
-- null pointer was followed, or the fuel ran out.
unfoldable pub scan_all : Host → ℕ → Scan → Option (List Entry)
scan_all h fuel crash = none
scan_all h fuel (finished fs) = some []
scan_all h zero (found d fs) = none
scan_all h (suc fuel) (found d fs) = prepend (d, fs.f_offset) (scan_all h fuel (scan h fs false))

module _ (h : Host) (memory : ℕ → ℕ) (conv : Bool) where
  scan_all-Yields :
      (fuel : ℕ) (due : List Entry) (k : Scan)
      → Yields h memory conv due k
      → length due < suc fuel
      → scan_all h fuel k ≡ some due
  unfolding scan_all
  scan_all-Yields fuel due crash y enough = absurd y
  scan_all-Yields fuel due (finished fs) y enough = ap some (sym y)
  scan_all-Yields zero due (found d fs) y enough = absurd (omega (arith, ap length y.0))
  scan_all-Yields (suc fuel) due (found d fs) y enough =
      let short : length (pending h memory conv d fs) < suc fuel = omega (arith, ap length y.0) in
      ap (prepend (d, fs.f_offset))
        (scan_all-Yields fuel _ (scan h fs false) (scan-Yields h memory conv fs d y.3 y.2) short)
      ∙ ap some (sym y.0)

  -- Given fuel for every entry, a new scan of a mapped device ends, follows no null pointer, and
  -- sees exactly the entries of the table at the entry point, each bridge before what lies behind
  -- it, down to four levels.
  pub scan_all-table :
      (fs : Fs) (fuel : ℕ)
      → IsMapped memory conv fs
      → ((i : ℕ) → fs.nleft i < 2 ^ 32)
      → length (table h (entry_at h conv memory) 3 0 fs.entrypoint) < suc fuel
      → scan_all h fuel (scan h fs true) ≡ some (table h (entry_at h conv memory) 3 0 fs.entrypoint)
  scan_all-table fs fuel m small enough =
      scan_all-Yields fuel _ (scan h fs true) (scan_new-Yields h memory conv fs m small) enough
