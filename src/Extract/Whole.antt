-- ===== src/Extract/Whole.antt =====
-- Which files sdb-extract creates.
use fpga_config_space.Base.{
  ℕ, zero, suc, ◌^◌, ◌<◌, List, [], ◌∷◌, Option, none, some, Bool, true, false, length, get_or, ◌≡◌,
  refl, ap, ◌∙◌,
}
use mathlib.Core.Option.{map}
use fpga_config_space.Endian.{Host}
use fpga_config_space.Sdbfs.{Fs}
use fpga_config_space.Sdbfs.Scan.{Scan, crash, finished, found, scan}
use fpga_config_space.Sdbfs.Scan.Listing.{Entry, entry_at, table, IsMapped}
use fpga_config_space.Sdbfs.Scan.Whole.{scan_all, scan_all-table, prepend}
use fpga_config_space.Extract.{Created, create_file, and_then, extract_all}

module _ (h : Host) (opened : List ℕ → Bool) (image : List ℕ) where
  abbrev pub created_of : List Entry → List Created
  created_of [] = []
  created_of ((d, at) ∷ es) = create_file h opened image d ∷ created_of es

  and_then-prepend :
      (e : Entry) (o : Option (List Entry))
      → and_then (create_file h opened image e.0) (map created_of o) ≡ map created_of (prepend e o)
  and_then-prepend (d, at) none = refl
  and_then-prepend (d, at) (some es) = refl

  extract_all-scan_all :
      (fuel : ℕ) (k : Scan) → extract_all h opened image fuel k ≡ map created_of (scan_all h fuel k)
  unfolding extract_all scan_all
  extract_all-scan_all fuel crash = refl
  extract_all-scan_all fuel (finished fs) = refl
  extract_all-scan_all zero (found d fs) = refl
  extract_all-scan_all (suc fuel) (found d fs) =
      ap (and_then (create_file h opened image d)) (extract_all-scan_all fuel (scan h fs false))
      ∙ and_then-prepend (d, fs.f_offset) (scan_all h fuel (scan h fs false))

  -- Given fuel for every entry, the loop of sdb-extract on an image that is mapped, if its first call
  -- starts a new scan, ends, follows no null pointer, and calls create_file for the entries of the table
  -- at the entry point, in their order, each once.
  pub extract_all-table :
      (conv : Bool) (fs : Fs) (fuel : ℕ)
      → IsMapped (λ j. get_or image j 0) conv fs
      → ((i : ℕ) → fs.nleft i < 2 ^ 32)
      → length (table h (entry_at h conv (λ j. get_or image j 0)) 3 0 fs.entrypoint) < suc fuel
      → extract_all h opened image fuel (scan h fs true)
        ≡ some (created_of (table h (entry_at h conv (λ j. get_or image j 0)) 3 0 fs.entrypoint))
  extract_all-table conv fs fuel m small enough =
      extract_all-scan_all fuel (scan h fs true)
      ∙ ap (map created_of) (scan_all-table h (λ j. get_or image j 0) conv fs fuel m small enough)
