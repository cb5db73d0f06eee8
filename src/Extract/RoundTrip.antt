-- ===== src/Extract/RoundTrip.antt =====
-- What gensdbfs puts into an image for a file, sdb-extract takes out again.
use fpga_config_space.Base.{ℕ, ◌≢◌, List, [], ◌∷◌}
use fpga_config_space.Endian.{Host, htonll}
use fpga_config_space.Sdb.{Sdb}
use fpga_config_space.Gensdbfs.Reading.{Entry, Stat, fill_regular, device_record}

-- A name that fits a record: bytes that are not 0, of which the last is no blank.
abbrev pub IsNamed : List ℕ → Type 0
IsNamed [] = Unit {0}
IsNamed (c ∷ []) = (c ≢ 0) × (c ≢ 0x20)
IsNamed (c ∷ d ∷ s) = (c ≢ 0) × IsNamed (d ∷ s)

-- A file with its place in the image.
abbrev pub placed : Host → (first last : ℕ) → Entry → Entry
placed h first last e = record e {
  sdbf = record e.sdbf { addr_first = htonll h first; addr_last = htonll h last };
}

-- The file of gensdbfs, and the record that it is written with.
abbrev pub image_record :
    Host → (blocksize : ℕ) (dirname fname : List ℕ) (level : ℕ) → Stat → (first last : ℕ) → Sdb
image_record h blocksize dirname fname level st first last =
    device_record h (placed h first last (fill_regular h blocksize dirname fname level st))
