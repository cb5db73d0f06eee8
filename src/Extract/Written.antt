-- ===== src/Extract/Written.antt =====
-- The files of a directory that gensdbfs has written are extracted again.
pub mod Tests
use fpga_config_space.Base.{
  ℕ, zero, ◌+◌, ◌≤◌, ◌<◌, List, [], ◌∷◌, ◌++◌, Bool, true, false, length, ◌≡◌, refl, bytes_eq,
}
use fpga_config_space.Endian.{Host, htonl}
use fpga_config_space.Sdb.{device_id}
use fpga_config_space.Gensdbfs.{Sdbf, Slots, end, file, subdir, last_byte}
use fpga_config_space.Gensdbfs.Alloc.{first_of}
use fpga_config_space.Gensdbfs.Reading.{Stat}
use fpga_config_space.Gensdbfs.Image.{Sources, Image}
use fpga_config_space.Gensdbfs.Image.Stored.{content_of}
use fpga_config_space.Extract.{Created, created, create_file, mode_of}
use fpga_config_space.Extract.RoundTrip.{IsNamed, image_record}

-- Which names open, and of the directory its block size, its path and level; of a file its name and
-- what stat has found.
module _ (h : Host) (opened : List ℕ → Bool) (blocksize : ℕ) (dirname : List ℕ) (level : ℕ)
    (fname : Sdbf → List ℕ) (st : Sdbf → Stat) (s : Sources) (size : ℕ) where
  -- A file in the first `size` bytes of the image, not at their start, whose record is the one that
  -- gensdbfs makes, with a name that fits it.
  pub record IsNamedFile (f : Sdbf) : Type 0 where
    pub record_is :
        s.record_of f
        ≡ image_record h blocksize dirname
            (fname f)
            level
            (st f)
            (first_of h f)
            (last_byte (first_of h f) (length (content_of s f)))
    pub short : length (fname f) ≤ 19
    pub named : IsNamed (fname f)
    pub long : 0 < length (fname f)
    pub plain : bytes_eq (fname f) (0x2e ∷ []) ≡ false
    pub opens : opened (fname f) ≡ true
    pub behind : 0 < first_of h f
    pub inside : first_of h f + length (content_of s f) ≤ size

  abbrev pub AreNamedFiles : Slots → Type 0
  AreNamedFiles end = Unit {0}
  AreNamedFiles (file f rest) = IsNamedFile f × AreNamedFiles rest
  AreNamedFiles (subdir f sub rest) = AreNamedFiles rest

  -- What is to come out of sdb-extract for a file: its name, its bytes, and what others may do with it.
  abbrev pub extracted_of : Sdbf → Created
  extracted_of f =
      created
        (record {
          name = fname f;
          vendor = 0x46696c6544617461;
          device = htonl h (device_id h (s.record_of f));
          position = first_of h f;
          write = (st f).s_iwoth;
        })
        (content_of s f) (mode_of (st f).s_iwoth (st f).s_ixoth)

  abbrev pub AreExtracted : (image : List ℕ) → Slots → Type 0
  AreExtracted image end = Unit {0}
  AreExtracted image (file f rest) =
      (create_file h opened image (s.record_of f) ≡ extracted_of f) × AreExtracted image rest
  AreExtracted image (subdir f sub rest) = AreExtracted image rest
