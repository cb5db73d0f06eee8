-- ===== src/Sdbfs/Access.antt =====
-- sdbfs/lib/access.c: `sdbfs_fstat`, `sdbfs_fread` and `sdbfs_fwrite` on an open file.
pub mod Reading
pub mod Mapped
use fpga_config_space.Base.{
  ℕ, zero, suc, ◌+◌, ◌-◌, ◌%◌, ◌^◌, Option, none, some, List, [], Bool, true, false, ◌&&◌, not, leb,
  ltb, ◌==◌, if◌then◌else◌, window, fill,
}
use fpga_config_space.Sdb.{Sdb}
use fpga_config_space.Sdbfs.{Fs, Method}
use fpga_config_space.Sdbfs.Scan.{add64}

-- An `int` is its 32-bit pattern; this is its sign, and its value as an `unsigned long`.
abbrev pub negative : ℕ → Bool
negative x = leb (2 ^ 31) x

abbrev pub widen : ℕ → ℕ
widen x = if negative x then x + (2 ^ 64 - 2 ^ 32) else x

-- The record that is copied out, or `none` for -ENOENT.
unfoldable pub fstat : Fs → Option Sdb
fstat fs = fs.currentp

-- What a transfer returns: -ENOENT; no return, because a null method is called or a negative count
-- reaches `memcpy`; or a result, the buffer after the call, and the new state.
pub data Transfer : Type 0 where
  not_open : Transfer
  crashed : Transfer
  moved : ℕ → List ℕ → Fs → Transfer

-- The first statements: the offset, and the count cut at the end of the file.
unfoldable pub start_of : Fs → ℕ → ℕ
start_of fs offset = if negative offset then fs.read_offset % 2 ^ 32 else offset

unfoldable pub count_of : Fs → (offset count : ℕ) → ℕ
count_of fs offset count =
    if ltb fs.f_len (widen ((offset + count) % 2 ^ 32))
    then (fs.f_len + 2 ^ 64 - widen offset) % 2 ^ 64 % 2 ^ 32
    else count

-- if (ret > 0) fs->read_offset = offset + ret;
unfoldable pub advance : (offset ret : ℕ) → Fs → Fs
advance offset ret fs =
    if not (negative ret) && not (ret == 0)
    then record fs { read_offset = widen ((offset + ret) % 2 ^ 32) }
    else fs

-- Both functions are this one but for the method: with `data` set, also `sdbfs_fwrite` copies from
-- the device to the buffer.
unfoldable pub transfer : Option Method → Fs → (offset count : ℕ) → List ℕ → Transfer
transfer method fs offset count buf =
    if fs.mapped
    then if negative count
      then crashed
      else moved count (fill (window fs.memory (add64 fs.f_offset (widen offset)) count) buf)
          (advance offset count fs)
    else elim method [
      | none ↦ crashed
      | some f ↦
          let (ret, after) = f (add64 fs.f_offset (widen offset) % 2 ^ 32) count buf in
          moved ret after (advance offset ret fs)
    ]

-- The common body, for an open file.
unfoldable pub access : Option Method → Fs → (offset count : ℕ) → List ℕ → Transfer
access method fs offset count buf = elim fs.currentp [
  | none ↦ not_open
  | some d ↦
      let start = start_of fs offset in transfer method fs start (count_of fs start count) buf
]

unfoldable pub fread : Fs → (offset count : ℕ) → List ℕ → Transfer
fread fs offset count buf = access fs.read fs offset count buf

unfoldable pub fwrite : Fs → (offset count : ℕ) → List ℕ → Transfer
fwrite fs offset count buf = access fs.write fs offset count buf
