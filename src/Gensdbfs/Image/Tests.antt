-- ===== src/Gensdbfs/Image/Tests.antt =====
-- The image of a directory of two files, in blocks of 64 bytes.
use fpga_config_space.Base.{ℕ, ◌*◌, [], ◌++◌, true, false, some, ◌≡◌, refl, window, copies, arith}
use fpga_config_space.Endian.{big, htons, htonll, ntohll, htonl}
use fpga_config_space.Gensdbfs.{
  Sdbf, dir, Slots, end, file, sdb_align, place, finish, start_of, dot_of, alloc_storage,
  alloc_slots,
}
use fpga_config_space.Gensdbfs.Alloc.{slots_of}
use fpga_config_space.Gensdbfs.Image.{Sources, Image, write_sdb, fill_device}
use fpga_config_space.Gensdbfs.Image.Stored.{AreCopied, AreStored, records}
use fpga_config_space.Gensdbfs.Image.Whole.{write_sdb-alloc_storage}

abbrev pub fresh : (records size : ℕ) → Sdbf
fresh records size = record {
  fullname = [];
  basename = [];
  sdb_records = records;
  addr_first = 0;
  addr_last = 0;
  sdb_child = 0;
  ustart = 0;
  rstart = 0;
  base = 0;
  size = size;
  userpos = false;
}

abbrev pub two_files : Slots
two_files = file (fresh 0 1) (file (fresh 0 5) end)

-- Each file is as long as its size, and full of sevens.
abbrev sources : Sources
sources = record {
  record_of = λ f. copies 64 1;
  fopen = λ f. some (copies f.size 7);
  st_size = λ f. f.size;
  malloc = λ f. true;
}

abbrev pub empty_image : Image
empty_image = record { out = record { bytes = λ j. 0; pos = 0 }; lastwritten = 0 }

two_files-AreCopied :
    AreCopied sources 0 (slots_of (alloc_storage big 64 0 (dir (fresh 3 0) two_files)))
unfolding alloc_storage alloc_slots finish start_of place sdb_align htons htonll ntohll htonl
two_files-AreCopied = (
  record {
    content = copies 1 7;
    opened = refl;
    whole = refl;
    fits = omega arith;
    inside = omega arith;
    plain = refl;
    sized = refl;
  },
  (
    record {
      content = copies 5 7;
      opened = refl;
      whole = refl;
      fits = omega arith;
      inside = omega arith;
      plain = refl;
      sized = refl;
    },
    tt,
  ),
)

write_sdb-alloc_storage_example :
    let placed = alloc_storage big 64 0 (dir (fresh 3 0) two_files) in
    let r = write_sdb big sources 64 placed empty_image in
    (r.0 ≡ true)
    × (window r.1.out.bytes 0 (64 * htons big 3)
        ≡ sources.record_of (dot_of placed) ++ records sources (slots_of placed))
    × AreStored big sources 0 r.1.out.bytes (slots_of placed)
unfolding alloc_storage alloc_slots finish start_of place sdb_align htons htonll ntohll htonl
write_sdb-alloc_storage_example =
    write_sdb-alloc_storage big 6 (omega arith) (fresh 3 0) two_files sources empty_image refl refl
      (omega arith) (omega arith) (λ f. refl) (λ f. refl) two_files-AreCopied

-- A device of 256 bytes is filled up to its last byte, and one of 16 bytes is too small for 32.
filled : (fill_device 256 empty_image).1.out.pos ≡ 256
unfolding fill_device
filled = refl

too_large : (fill_device 16 (record empty_image { lastwritten = 32 })).0 ≡ false
unfolding fill_device
too_large = refl
