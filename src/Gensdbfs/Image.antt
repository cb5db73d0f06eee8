-- ===== src/Gensdbfs/Image.antt =====
-- sdbfs/userspace/gensdbfs.c, step 3: write_sdb writes the records of a directory and its files.
pub mod Stored
pub mod Whole
pub mod Tests
use fpga_config_space.Base.{
  ℕ, zero, suc, ◌+◌, ◌-◌, ◌*◌, ◌%◌, ◌^◌, List, [], ◌∷◌, Bool, true, false, not, ◌&&◌, Option, none,
  some, if◌then◌else◌, ◌==◌, ltb, take, drop, length, Output, fseek, fwrite,
}
use fpga_config_space.Endian.{Host, htons}
use fpga_config_space.Gensdbfs.{Sdbf, Dir, dir, Slots, end, file, subdir}

-- What is read for a slot: its record in the union, what fopen and fread find in its file, and the
-- size that stat has found before. `malloc` is the answer for the buffer of a directory.
pub record Sources : Type 0 where
  pub record_of : Sdbf → List ℕ
  pub fopen : Sdbf → Option (List ℕ)
  pub st_size : Sdbf → ℕ
  pub malloc : Sdbf → Bool

-- The image and the global `lastwritten`.
pub record Image : Type 0 where
  pub out : Output
  pub lastwritten : ℕ

abbrev pub seek : (pos : ℕ) → Image → Image
seek pos im = record im { out = fseek pos im.out }

-- The records of the slots, as many as are left to count.
abbrev pub write_records : Sources → (count : ℕ) → Slots → Image → Image
write_records s count end im = im
write_records s zero (file f rest) im = im
write_records s zero (subdir f sub rest) im = im
write_records s (suc count) (file f rest) im =
    write_records s count rest (record im { out = fwrite (s.record_of f) im.out })
write_records s (suc count) (subdir f sub rest) im =
    write_records s count rest (record im { out = fwrite (s.record_of f) im.out })

-- fwrite of a piece of a file, with ftell.
abbrev pub write_piece : List ℕ → Image → Image
write_piece piece im =
    let out = fwrite piece im.out in
    record {
      out = out;
      lastwritten = if ltb im.lastwritten out.pos then out.pos else im.lastwritten;
    }

-- The loop that copies a file, of which `rest` is not read yet. Each round reads a byte at least, so
-- that fuel for each byte of the file and one round more is enough.
abbrev pub copy : (fuel blocksize st_size copied : ℕ) → (rest : List ℕ) → Image → Image
copy zero blocksize st_size copied rest im = im
copy (suc fuel) blocksize st_size copied rest im =
    let piece = take blocksize rest in
    let others =
      copy fuel blocksize st_size (copied + length piece) (drop blocksize rest)
        (write_piece piece im) in
    if not (ltb copied st_size) then im else if length piece == 0 then im else others

-- The place of a slot without or with a position of its own.
abbrev pub slot_pos : (base : ℕ) → Sdbf → ℕ
slot_pos base f = if f.userpos then f.ustart else (base + f.rstart) % 2 ^ 64

abbrev pub write_file : Sources → (blocksize base : ℕ) → Sdbf → Option (List ℕ) → Image → Image
write_file s blocksize base f none im = im
write_file s blocksize base f (some content) im =
    copy (suc (length content)) blocksize (s.st_size f) 0 content (seek (slot_pos base f) im)

-- The position at which the records of a directory start.
abbrev pub records_pos : Sdbf → ℕ
records_pos dot = (dot.base + dot.ustart) % 2 ^ 64

-- The first loop, for n records.
abbrev pub write_directory : Sources → (n : ℕ) → Sdbf → Slots → Image → Image
write_directory s zero dot slots im = im
write_directory s (suc n) dot slots im =
    write_records s n slots (record im { out = fwrite (s.record_of dot) im.out })

-- A directory that cannot be opened is left out.
abbrev pub write_subdir : Option (List ℕ) → (skipped written : Image) → Image
write_subdir none skipped written = skipped
write_subdir (some content) skipped written = written

-- write_sdb, and its second loop for the rounds that are left. False is NULL, which only the first
-- caller looks at. The `base` of a slot, which the first loop sets too, is only printed.
unfoldable mutual
  pub write_sdb : Host → Sources → (blocksize : ℕ) → Dir → Image → Bool × Image
  write_sdb h s blocksize (dir dot slots) im =
      let n = htons h dot.sdb_records in
      let listed = write_directory s n dot slots (seek (records_pos dot) im) in
      let whole = write_files h s blocksize dot.base (n - 1) slots listed in
      if not (s.malloc dot) then (false, im) else (true, whole)

  pub write_files : Host → Sources → (blocksize base count : ℕ) → Slots → Image → Image
  write_files h s blocksize base count end im = im
  write_files h s blocksize base zero (file f rest) im = im
  write_files h s blocksize base zero (subdir f sub rest) im = im
  write_files h s blocksize base (suc count) (file f rest) im =
      write_files h s blocksize base count rest (write_file s blocksize base f (s.fopen f) im)
  write_files h s blocksize base (suc count) (subdir f sub rest) im =
      write_files h s blocksize base count rest
        (write_subdir (s.fopen f) im (write_sdb h s blocksize sub (seek (slot_pos base f) im)).1)

-- The end of main: the image is filled up to the size of the device, or it is too large.
unfoldable pub fill_device : (devsize : ℕ) → Image → Bool × Image
fill_device devsize im =
    let filled =
      if ltb im.lastwritten devsize
      then record im { out = fwrite (0 ∷ []) (fseek (devsize - 1) im.out) }
      else im in
    (not (not (devsize == 0) && ltb devsize im.lastwritten), filled)
