-- ===== src/Gensdbfs.antt =====
-- sdbfs/userspace/gensdbfs.c: the tree of files that becomes an SDB image.
--
-- `unsigned` is 32 bits wide and `unsigned long` 64. A `struct sdbf` is a record of the fields that
-- the placement of files uses; those of the union that lie in the SDB record hold the stored value,
-- in the order of the image. A directory is its first slot with the slots behind it, and a slot
-- whose `subdir` is set holds that directory.
pub mod Align
pub mod Alloc
pub mod Nested
pub mod Reading
pub mod Image
pub mod Tests
use fpga_config_space.Base.{
  ℕ, zero, suc, ◌+◌, ◌-◌, ◌*◌, ◌%◌, ◌^◌, Bool, true, false, List, bit_and, ltb, if◌then◌else◌,
}
use fpga_config_space.Endian.{Host, htons, htonll, ntohll}

pub record Sdbf : Type 0 where
  pub fullname : List ℕ
  pub basename : List ℕ
  pub sdb_records : ℕ
  pub addr_first : ℕ
  pub addr_last : ℕ
  pub sdb_child : ℕ
  pub ustart : ℕ
  pub rstart : ℕ
  pub base : ℕ
  pub size : ℕ
  pub userpos : Bool

mutual
  pub data Dir : Type 0 where
    dir : Sdbf → Slots → Dir

  pub data Slots : Type 0 where
    end : Slots
    file : Sdbf → Slots → Slots
    subdir : Sdbf → Dir → Slots → Slots

-- SDB_ALIGN: the mask `~(blocksize - 1)` is an `unsigned`, and widens with zeros.
unfoldable pub sdb_align : (blocksize x : ℕ) → ℕ
sdb_align blocksize x =
    let mask = (blocksize + (2 ^ 32 - 1)) % 2 ^ 32 in
    bit_and ((x + mask) % 2 ^ 64) (2 ^ 32 - 1 - mask)

-- rpos + size - 1
abbrev pub last_byte : (start size : ℕ) → ℕ
last_byte start size = (start + size + (2 ^ 64 - 1)) % 2 ^ 64

abbrev pub larger : ℕ → ℕ → ℕ
larger l last = if ltb last l then l else last

-- The placement of one slot, once its size is known: the slot, and the next `rpos` and `last`.
unfoldable pub place : Host → (blocksize rpos last : ℕ) → Sdbf → Sdbf × ℕ × ℕ
place h blocksize rpos last f =
    if f.userpos
    then (
      record f { addr_first = htonll h f.ustart; addr_last = htonll h (last_byte f.ustart f.size) },
      rpos,
      larger (last_byte f.ustart f.size) last,
    )
    else (
      record f {
        rstart = rpos;
        addr_first = htonll h rpos;
        addr_last = htonll h (last_byte rpos f.size);
      },
      sdb_align blocksize ((rpos + f.size) % 2 ^ 64),
      larger (last_byte rpos f.size) last,
    )

-- The first slot of a directory.
abbrev pub dot_of : Dir → Sdbf
dot_of (dir dot slots) = dot

-- What a slot takes over from its directory, which is allocated by then.
unfoldable pub adopt : Host → (rpos : ℕ) → Sdbf → Dir → Sdbf
adopt h rpos f sub = record f {
  size = larger (ntohll h (dot_of sub).addr_last) f.size;
  sdb_child = htonll h rpos;
}

-- The position behind the records of a directory.
unfoldable pub start_of : Host → (blocksize : ℕ) → Sdbf → ℕ
start_of h blocksize dot =
    (dot.ustart + sdb_align blocksize (htons h dot.sdb_records * 64)) % 2 ^ 64

unfoldable pub finish : Host → (base : ℕ) → Sdbf → Slots × ℕ → Dir
finish h base dot (slots, last) =
    dir (record dot { base = base; addr_first = htonll h 0; addr_last = htonll h last }) slots

abbrev pub then_file : Sdbf → Slots × ℕ → Slots × ℕ
then_file f (rest, last) = (file f rest, last)

abbrev pub then_subdir : Sdbf → Dir → Slots × ℕ → Slots × ℕ
then_subdir f sub (rest, last) = (subdir f sub rest, last)

-- alloc_storage. `base` is what the caller has stored in the first slot, and `count` the rounds of
-- the loop that are left. It never returns NULL, so its callers never fail.
unfoldable mutual
  pub alloc_storage : Host → (blocksize base : ℕ) → Dir → Dir
  alloc_storage h blocksize base (dir dot slots) =
      let start = start_of h blocksize dot in
      finish h base dot
        (alloc_slots h blocksize base (htons h dot.sdb_records - 1) start start slots)

  pub alloc_slots : Host → (blocksize base count rpos last : ℕ) → Slots → Slots × ℕ
  alloc_slots h blocksize base count rpos last end = (end, last)
  alloc_slots h blocksize base zero rpos last (file f rest) = (file f rest, last)
  alloc_slots h blocksize base zero rpos last (subdir f sub rest) = (subdir f sub rest, last)
  alloc_slots h blocksize base (suc count) rpos last (file f rest) =
      let p = place h blocksize rpos last f in
      then_file p.0 (alloc_slots h blocksize base count p.1 p.2 rest)
  alloc_slots h blocksize base (suc count) rpos last (subdir f sub rest) =
      let sub' = alloc_storage h blocksize ((base + rpos) % 2 ^ 64) sub in
      let p = place h blocksize rpos last (adopt h rpos f sub') in
      then_subdir p.0 sub' (alloc_slots h blocksize base count p.1 p.2 rest)
