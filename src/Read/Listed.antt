-- ===== src/Read/Listed.antt =====
-- What sdb-read lists of a device.
use fpga_config_space.Base.{
  ℕ, zero, suc, ◌+◌, ◌^◌, ◌<◌, List, [], ◌∷◌, ◌++◌, Option, none, some, Bool, true, false, length,
  ◌≡◌, refl, ap, ◌∙◌,
}
use mathlib.Core.Option.{map}
use fpga_config_space.Endian.{Host}
use fpga_config_space.Sdbfs.{Fs}
use fpga_config_space.Sdbfs.Scan.{Scan, crash, finished, found, scan}
use fpga_config_space.Sdbfs.Scan.Listing.{Entry, entry_at, table, IsMapped}
use fpga_config_space.Sdbfs.Scan.Whole.{scan_all, scan_all-table, prepend}
use fpga_config_space.Read.{Line, list_device, joined, do_list}

-- The records one by one: the errors add up, and the lines follow each other.
abbrev pub listing_of : Host → List Entry → ℕ × List Line
listing_of h [] = (0, [])
listing_of h ((d, at) ∷ es) =
    let (e, lines) = list_device h false 0 0 d in
    let (err, more) = listing_of h es in (e + err, lines ++ more)

joined-prepend :
    (h : Host) (e : Entry) (o : Option (List Entry))
    → joined (list_device h false 0 0 e.0) (map (listing_of h) o) ≡ map (listing_of h) (prepend e o)
joined-prepend h (d, at) none = refl
joined-prepend h (d, at) (some es) = refl

do_list-scan_all :
    (h : Host) (fuel : ℕ) (k : Scan)
    → do_list h false fuel k ≡ map (listing_of h) (scan_all h fuel k)
unfolding do_list scan_all list_device
do_list-scan_all h fuel crash = refl
do_list-scan_all h fuel (finished fs) = refl
do_list-scan_all h zero (found d fs) = refl
do_list-scan_all h (suc fuel) (found d fs) =
    ap (joined (list_device h false 0 0 d)) (do_list-scan_all h fuel (scan h fs false))
    ∙ joined-prepend h (d, fs.f_offset) (scan_all h fuel (scan h fs false))

-- Given fuel for every entry, the short listing of a mapped device ends, follows no null pointer, and
-- prints the lines of the entries of the table at the entry point, in their order, each once; its
-- errors are those of these entries.
pub do_list-table :
    (h : Host) (memory : ℕ → ℕ) (conv : Bool) (fs : Fs) (fuel : ℕ)
    → IsMapped memory conv fs
    → ((i : ℕ) → fs.nleft i < 2 ^ 32)
    → length (table h (entry_at h conv memory) 3 0 fs.entrypoint) < suc fuel
    → do_list h false fuel (scan h fs true)
      ≡ some (listing_of h (table h (entry_at h conv memory) 3 0 fs.entrypoint))
do_list-table h memory conv fs fuel m small enough =
    do_list-scan_all h fuel (scan h fs true)
    ∙ ap (map (listing_of h)) (scan_all-table h memory conv fs fuel m small enough)
