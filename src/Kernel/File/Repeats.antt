-- ===== src/Kernel/File/Repeats.antt =====
-- What sdbfs_read delivers from a device that gives all that it is asked for.
use fpga_config_space.Base.{
  ℕ, zero, suc, ◌+◌, ◌%◌, ◌^◌, ◌≤◌, ◌<◌, List, [], ◌++◌, Option, some, true, ltb, length, min, ◌≡◌,
  refl, sym, ap, ◌∙◌, arith, lt→ltb, ltb→lt, ltb→le, ==_iff, Bool-cases, inl, inr, length-append,
  append-nil, append_assoc,
}
use fpga_config_space.Endian.{Host}
use fpga_config_space.Sdb.{Sdb}
use fpga_config_space.Kernel.File.{
  got, Result, delivered, Reader, file_start, file_size, read_loop, clipped, sdbfs_read,
}

-- The same bytes, m times.
abbrev pub repeated : (m : ℕ) → List ℕ → List ℕ
repeated zero bytes = []
repeated (suc m) bytes = bytes ++ repeated m bytes

-- A read of `total` bytes has copied `bytes`, over and over, until there are enough of them.
abbrev pub IsRepeated : (total offp : ℕ) → List ℕ → Option Result → Type 0
IsRepeated total offp bytes o =
    (m : ℕ) × (o
      ≡ some (
          delivered (length (repeated m bytes)) (repeated m bytes)
            (offp + length (repeated m bytes))))
    × (total ≤ length (repeated m bytes))
    × (length (repeated m bytes) < total + min 16 total)

module _ (r : Reader) (at total offp : ℕ) (bytes : List ℕ) (asked : 0 < total)
    (served : r.read at (min 16 total) ≡ got bytes) (long : length bytes ≡ min 16 total)
    (taken : (done n : ℕ) → r.copy_to_user done n ≡ true) where
  round :
      (fuel done : ℕ) (copied : List ℕ)
      → done < total
      → read_loop r (suc fuel) at total offp done copied
        ≡ read_loop r fuel at total offp (done + length bytes) (copied ++ bytes)
  unfolding read_loop
  round fuel done copied lt =
      rw
        (
          lt→ltb done total lt,
          served,
          taken done (length bytes),
          (==_iff (length bytes) (min 16 total)).1 long,
        )
        refl

  over :
      (fuel done : ℕ) (copied : List ℕ)
      → total ≤ done
      → read_loop r (suc fuel) at total offp done copied
        ≡ some (delivered done copied (offp + done))
  unfolding read_loop
  over fuel done copied le = elim (Bool-cases (ltb done total)) [
    | inl t ↦ absurd (omega (arith, ltb→lt done total t, le))
    | inr t ↦ rw (t) refl
  ]

  -- The loop with what it has copied by then.
  Looped : (fuel done : ℕ) (copied : List ℕ) → Type 0
  Looped fuel done copied =
      (m : ℕ) × (read_loop r fuel at total offp done copied
        ≡ some (
            delivered (length (copied ++ repeated m bytes)) (copied ++ repeated m bytes)
              (offp + length (copied ++ repeated m bytes))))
      × (total ≤ length (copied ++ repeated m bytes))
      × (length (copied ++ repeated m bytes) < total + min 16 total)

  loop-Looped :
      (fuel done : ℕ) (copied : List ℕ)
      → length copied ≡ done
      → done < total + min 16 total
      → total < done + fuel
      → 0 < fuel
      → Looped fuel done copied
  unfolding Looped
  loop-Looped zero done copied e lt enough pos = absurd (omega (arith, pos))
  loop-Looped (suc fuel) done copied e lt enough pos = elim (Bool-cases (ltb done total)) [
    | inr t ↦
        let le = ltb→le done total t in
        let same = append-nil copied in
        (
          zero,
          over fuel done copied le
              ∙ (ap (λ d. some (delivered d copied (offp + d))) (sym e)
                  ∙ ap (λ l. some (delivered (length l) l (offp + length l))) (sym same)),
          omega (arith, ap length same, e, le),
          omega (arith, ap length same, e, lt),
        )
    | inl t ↦
        let less = ltb→lt done total t in
        let (m, run, le, bound) =
          loop-Looped fuel (done + length bytes) (copied ++ bytes)
            (length-append copied bytes ∙ ap (λ n. n + length bytes) e) (omega (arith, less, long))
            (omega (arith, less, long, enough, asked)) (omega (arith, less, enough)) in
        let same = append_assoc copied bytes (repeated m bytes) in
        (
          suc m,
          round fuel done copied less
              ∙ (run ∙ ap (λ l. some (delivered (length l) l (offp + length l))) same),
          omega (arith, ap length same, le),
          omega (arith, ap length same, bound),
        )
  ]

-- A read in front of the end of a file, of which `total` bytes are asked for and there: if the device
-- gives all that it is asked for and the user takes it, then with fuel for each byte and one round more
-- sdbfs_read ends. It has copied the first bytes, 16 at most, over and over, until `total` is reached;
-- and that many bytes are returned and added to the position.
pub sdbfs_read-IsRepeated :
    (h : Host) (r : Reader) (fuel : ℕ) (rec : Sdb) (asked offp : ℕ) (bytes : List ℕ)
    → let total = clipped (file_size h rec) offp asked in
      offp ≤ file_size h rec
      → 0 < total
      → r.read ((file_start h rec + offp) % 2 ^ 32) (min 16 total) ≡ got bytes
      → length bytes ≡ min 16 total
      → ((done n : ℕ) → r.copy_to_user done n ≡ true)
      → total < fuel
      → IsRepeated total offp bytes (sdbfs_read h r fuel rec asked offp)
unfolding sdbfs_read Looped
sdbfs_read-IsRepeated h r fuel rec asked offp bytes le some_bytes served long taken enough =
    let total = clipped (file_size h rec) offp asked in
    let at = (file_start h rec + offp) % 2 ^ 32 in
    elim (Bool-cases (ltb (file_size h rec) offp)) [
      | inl t ↦ absurd (omega (arith, ltb→lt (file_size h rec) offp t, le))
      | inr t ↦ rw (t) (
          loop-Looped r at total offp bytes some_bytes served long taken fuel 0 [] refl
            (omega (arith, some_bytes)) (omega (arith, enough)) (omega (arith, enough)))
    ]
