-- ===== src/Extract/Written/Tests.antt =====
-- Two files of one byte and of five, written to an image of 512 bytes and extracted again.
use fpga_config_space.Base.{ℕ, List, [], ◌∷◌, Bool, true, some, refl, length, copies, arith}
use fpga_config_space.Endian.{big, htons, htonll, ntohll, htonl}
use fpga_config_space.Gensdbfs.{
  Sdbf, dir, sdb_align, place, finish, start_of, alloc_storage, alloc_slots, last_byte,
}
use fpga_config_space.Gensdbfs.Alloc.{first_of, slots_of}
use fpga_config_space.Gensdbfs.Reading.{Stat}
use fpga_config_space.Gensdbfs.Image.{Sources}
use fpga_config_space.Gensdbfs.Image.Tests.{fresh, two_files}
use fpga_config_space.Extract.RoundTrip.{image_record}
use fpga_config_space.Extract.Written.{AreNamedFiles}

abbrev script : Stat
script = record { st_size = 3; s_iroth = true; s_iwoth = true; s_ixoth = true }

-- "run"
abbrev run_name : List ℕ
run_name = 0x72 ∷ 0x75 ∷ 0x6e ∷ []

abbrev every : List ℕ → Bool
every name = true

abbrev record_at : Sdbf → List ℕ
record_at f =
    image_record big 64 [] run_name 0 script (first_of big f)
      (last_byte (first_of big f) (length (copies f.size 7)))

abbrev sources : Sources
sources = record {
  record_of = record_at;
  fopen = λ f. some (copies f.size 7);
  st_size = λ f. f.size;
  malloc = λ f. true;
}

named :
    AreNamedFiles big every 64 [] 0
      (λ f. run_name)
      (λ f. script)
      sources
      512
      (slots_of (alloc_storage big 64 0 (dir (fresh 3 0) two_files)))
unfolding alloc_storage alloc_slots finish start_of place sdb_align htons htonll ntohll htonl
named = (
  record {
    record_is = refl;
    short = omega arith;
    named = (omega arith, (omega arith, (omega arith, omega arith)));
    long = omega arith;
    plain = refl;
    opens = refl;
    behind = omega arith;
    inside = omega arith;
  },
  (
    record {
      record_is = refl;
      short = omega arith;
      named = (omega arith, (omega arith, (omega arith, omega arith)));
      long = omega arith;
      plain = refl;
      opens = refl;
      behind = omega arith;
      inside = omega arith;
    },
    tt,
  ),
)
