-- ===== src/Kernel/File/Clients.antt =====
-- `read` of the two kinds of devices, and a file that is read from one.
use fpga_config_space.Base.{
  ℕ, zero, suc, ◌+◌, ◌-◌, ◌%◌, ◌^◌, ◌≤◌, ◌<◌, List, ◌++◌, Option, some, true, if◌then◌else◌, ltb,
  length, take, drop, min, ◌≡◌, refl, sym, ap, ◌∙◌, arith, ltb→lt, ltb→le, Bool-cases, inl, inr,
  length-append, append-nil, length-take, length-drop,
}
use fpga_config_space.Endian.{Host}
use fpga_config_space.Sdb.{Sdb}
use fpga_config_space.Kernel.File.{
  Got, failed, got, einval, Result, delivered, Reader, file_start, file_size, clipped, sdbfs_read,
}
use fpga_config_space.Kernel.File.Repeats.{repeated, IsRepeated, sdbfs_read-IsRepeated}

-- sdbmem_read, of the memory at `address`, which is `datalen` bytes long.
unfoldable pub sdbmem_read : (memory : List ℕ) → (begin count : ℕ) → Got
sdbmem_read memory begin count =
    let len = length memory in
    let n = if ltb len ((begin + count) % 2 ^ 64) then len - begin else count in
    if ltb len begin then failed einval else got (take n (drop begin memory))

-- fakedev_read, of firmware below 2 GiB.
unfoldable pub fakedev_read : (fw : List ℕ) → (begin count : ℕ) → Got
fakedev_read fw begin count =
    let len = length fw in
    let n = if ltb len ((begin + count) % 2 ^ 64) then len - begin else count in
    if ltb len begin then failed einval else got (take n (drop begin fw))

-- Where there are enough bytes, they are what is read.
sdbmem_read-got :
    (memory : List ℕ) (begin n : ℕ)
    → begin + n ≤ length memory
    → length memory < 2 ^ 32
    → sdbmem_read memory begin n ≡ got (take n (drop begin memory))
unfolding sdbmem_read
sdbmem_read-got memory begin n le lt =
    elim (Bool-cases (ltb (length memory) ((begin + n) % 2 ^ 64))) [
      | inl t ↦ absurd (omega (arith, ltb→lt (length memory) ((begin + n) % 2 ^ 64) t, le, lt))
      | inr t ↦ elim (Bool-cases (ltb (length memory) begin)) [
        | inl u ↦ absurd (omega (arith, ltb→lt (length memory) begin u, le))
        | inr u ↦ rw (t, u) refl
      ]
    ]

-- A mounted memory, whose bytes the user takes.
abbrev pub memory_reader : (memory : List ℕ) → Reader
memory_reader memory = record { read = sdbmem_read memory; copy_to_user = λ done n. true }

-- Of all rounds there is one only.
once :
    (total offp : ℕ) (bytes : List ℕ) (o : Option Result)
    → 0 < total
    → total ≤ 16
    → length bytes ≡ min 16 total
    → IsRepeated total offp bytes o
    → o ≡ some (delivered total bytes (offp + total))
once total offp bytes o lt le long (zero, run, reached, bound) = absurd (omega (arith, reached, lt))
once total offp bytes o lt le long (suc zero, run, reached, bound) =
    run
    ∙ (ap (λ l. some (delivered (length l) l (offp + length l))) (append-nil bytes)
        ∙ ap (λ n. some (delivered n bytes (offp + n))) (omega (arith, long, le)))
once total offp bytes o lt le long (suc (suc m), run, reached, bound) = absurd (
    omega (
      arith,
      bound,
      long,
      le,
      length-append bytes (bytes ++ repeated m bytes),
      length-append bytes (repeated m bytes),
    ))

-- What is left to read in front of the end of a file.
clipped_lem :
    (size offp asked : ℕ)
    → offp < size
    → offp + asked < 2 ^ 64
    → 0 < asked
    → (clipped size offp asked ≤ asked)
      × (offp + clipped size offp asked ≤ size)
      × (0 < clipped size offp asked)
clipped_lem size offp asked before small lt =
    elim (Bool-cases (ltb size ((offp + asked) % 2 ^ 64))) [
      | inl t ↦ rw (t) (omega (arith, ltb→lt size ((offp + asked) % 2 ^ 64) t, before, small))
      | inr t ↦ rw (t) (omega (arith, ltb→le size ((offp + asked) % 2 ^ 64) t, before, small, lt))
    ]

-- A file that lies in a memory of less than 4 GiB, of which 16 bytes at most are asked for, from a
-- position in front of its end: sdbfs_read ends with the bytes of the file from the position on, as
-- many as are asked for and there, and moves the position behind them.
pub sdbfs_read-sdbmem_read :
    (h : Host) (memory : List ℕ) (fuel : ℕ) (rec : Sdb) (asked offp : ℕ)
    → file_start h rec + file_size h rec ≤ length memory
    → length memory < 2 ^ 32
    → 0 < asked
    → asked ≤ 16
    → offp < file_size h rec
    → asked < fuel
    → let total = clipped (file_size h rec) offp asked in
      sdbfs_read h (memory_reader memory) fuel rec asked offp
      ≡ some (delivered total (take total (drop (file_start h rec + offp) memory)) (offp + total))
sdbfs_read-sdbmem_read h memory fuel rec asked offp inside small lt le before enough =
    let size = file_size h rec in
    let start = file_start h rec in
    let (few, bound, pos) =
      clipped_lem size offp asked before (omega (arith, inside, small, before, le)) lt in
    let total = clipped size offp asked in
    let at : (start + offp) % 2 ^ 32 ≡ start + offp = omega (arith, inside, small, before) in
    let some_of : min 16 total ≡ total = omega (arith, few, le) in
    let bytes = take total (drop (start + offp) memory) in
    let long =
      length-take total (drop (start + offp) memory)
      ∙ omega (arith, length-drop (start + offp) memory, inside, bound) in
    let served : sdbmem_read memory ((start + offp) % 2 ^ 32) (min 16 total) ≡ got bytes =
      rw (at, some_of)
        (sdbmem_read-got memory (start + offp) total (omega (arith, inside, bound)) small) in
    once total offp bytes (sdbfs_read h (memory_reader memory) fuel rec asked offp) pos
      (omega (arith, few, le)) (long ∙ sym some_of)
      (sdbfs_read-IsRepeated h (memory_reader memory) fuel rec asked offp bytes
        (omega (arith, before)) pos served (long ∙ sym some_of) (λ done n. refl)
        (omega (arith, few, enough)))
