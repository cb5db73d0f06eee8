-- ===== src/Gensdbfs/Tests.antt =====
-- A directory with a subdirectory and a file behind it, blocks of 64 bytes.
use fpga_config_space.Base.{ℕ, ◌+◌, List, [], ◌∷◌, false, ◌≡◌, refl, arith}
use fpga_config_space.Endian.{big, htons, htonll, ntohll, htonl}
use fpga_config_space.Gensdbfs.{
  Sdbf, Dir, dir, Slots, end, file, subdir, sdb_align, place, adopt, finish, start_of,
  alloc_storage, alloc_slots,
}
use fpga_config_space.Gensdbfs.Alloc.{InOrder, slots_of, alloc_storage-InOrder, first_of, last_of}
use fpga_config_space.Gensdbfs.Nested.{subdir_overlap}

-- A slot of a size, before it is placed; the first one of a directory has the number of records.
abbrev fresh : (records size : ℕ) → Sdbf
fresh records size = record {
  fullname = [];
  basename = [];
  sdb_records = records;
  addr_first = 0;
  addr_last = 0;
  sdb_child = 0;
  ustart = 0;
  rstart = 0;
  base = 0;
  size = size;
  userpos = false;
}

-- The inner directory holds one file of one byte.
abbrev inner : Dir
inner = dir (fresh 2 0) (file (fresh 0 1) end)

abbrev outer : Slots
outer = subdir (fresh 0 0) inner (file (fresh 0 5) end)

abbrev positions : Slots → List ℕ
positions end = []
positions (file f rest) = first_of big f ∷ last_of big f ∷ positions rest
positions (subdir f sub rest) = first_of big f ∷ last_of big f ∷ positions rest

-- The file of the inner directory takes up byte 128 of it, so byte 320 of the image, which is the first
-- byte of the outer file too.
overlap :
    (positions (slots_of (alloc_storage big 64 0 (dir (fresh 3 0) outer)))
      ≡ 192 ∷ 319 ∷ 320 ∷ 324 ∷ [])
    × (positions (slots_of (alloc_storage big 64 192 inner)) ≡ 128 ∷ 128 ∷ [])
unfolding alloc_storage alloc_slots finish start_of place adopt sdb_align htons htonll ntohll htonl
overlap = (refl, refl)

alloc_storage-InOrder_example :
    InOrder big 64 192 (slots_of (alloc_storage big 64 0 (dir (fresh 3 0) outer)))
unfolding alloc_storage alloc_slots finish start_of place adopt sdb_align htons htonll ntohll htonl
alloc_storage-InOrder_example =
    alloc_storage-InOrder big 6 (omega arith) 0 (fresh 3 0) outer refl refl (omega arith)
      (omega arith)

subdir_overlap_example :
    let p = place big 64 192 192 (adopt big 192 (fresh 0 0) (alloc_storage big 64 192 inner)) in
    first_of big (place big 64 p.1 p.2 (fresh 0 5)).0 ≡ 192 + 128
unfolding alloc_storage alloc_slots finish start_of place adopt sdb_align htons htonll ntohll htonl
subdir_overlap_example =
    subdir_overlap big 6 192 192 (fresh 0 0) (fresh 0 5) (alloc_storage big 64 192 inner)
      (omega arith) refl refl refl (omega arith) refl (omega arith)
