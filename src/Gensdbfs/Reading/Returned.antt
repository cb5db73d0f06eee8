-- ===== src/Gensdbfs/Reading/Returned.antt =====
-- Directories that can be read are prepared.
use fpga_config_space.Base.{
  ℕ, ◌+◌, suc, ◌≡◌, ◌≤◌, ◌<◌, ◌⊎◌, ◌%◌, ◌^◌, ◌∙◌, inl, inr, Bool-cases, leb, arith, refl, List,
  Bool, true, false, Option, none, some, if◌then◌else◌, bytes_eq,
}
use fpga_config_space.Endian.{Host, little, big, htons}
use fpga_config_space.Gensdbfs.Reading.{
  Entry, Tree, Nodes, count_of, end, Input, unreadable, listing, Names, entry, Found, missing,
  special, regular, directory, dot_name, dotdot_name, cfg_name, path, empty_slot, fill_dot,
  fill_regular, Stat, fill_dir, interconnect, fill_product,
}
use fpga_config_space.Gensdbfs.Reading.Config.{Formats, scan_config}
use fpga_config_space.Gensdbfs.Reading.Prepare.{
  count, step, runs_over, then_file, then_subdir, opened, configured, prepare_dir, fill_slots,
  fill_file,
}
use fpga_config_space.Gensdbfs.Reading.Positions.{
  IsLevelled, IsPrepared, ArePrepared, scan_lines-IsPrepared,
}

-- The directory lists itself.
abbrev pub HasDot : Names → Type 0
HasDot end = ⊥
HasDot (entry d_name found names) = (bytes_eq d_name dot_name ≡ true) ⊎ HasDot names

-- The names that get a slot or may get one.
abbrev needed : Names → ℕ
needed end = 0
needed (entry d_name found names) =
    if bytes_eq d_name dot_name
    then needed names
    else if bytes_eq d_name dotdot_name
    then needed names
    else if bytes_eq d_name cfg_name
    then needed names
    else suc (needed names)

needed-le : (names : Names) → needed names ≤ count names
needed-le end = omega arith
needed-le (entry d_name found names) = ground (arith, needed-le names)

needed-lt : (names : Names) → HasDot names → needed names < count names
needed-lt end d = absurd d
needed-lt (entry d_name found names) (inl e) = rw (e) (omega (arith, needed-le names))
needed-lt (entry d_name found names) (inr d) = ground (arith, needed-lt names d)

step-le : (found : Found) → step found ≤ 1
step-le missing = omega arith
step-le special = omega arith
step-le (regular st) = omega arith
step-le (directory input) = omega arith

runs_over-false :
    (size n : ℕ) (names : Names)
    → 0 < size
    → n + needed names ≤ size
    → runs_over size n names ≡ false
runs_over-false size n end pos le = ground (arith, pos)
runs_over-false size n (entry d_name found names) pos le =
    elim (Bool-cases (bytes_eq d_name dot_name)) [
      | inl a ↦ rw (a) (runs_over-false size n names pos (ground (arith, a, le)))
      | inr a ↦ elim (Bool-cases (bytes_eq d_name dotdot_name)) [
        | inl b ↦ rw (a, b) (runs_over-false size n names pos (ground (arith, a, b, le)))
        | inr b ↦ elim (Bool-cases (bytes_eq d_name cfg_name)) [
          | inl c ↦ rw (a, b, c) (runs_over-false size n names pos (ground (arith, a, b, c, le)))
          | inr c ↦
              let fits : n + suc (needed names) ≤ size = ground (arith, a, b, c, le) in
              let small : leb size n ≡ false = ground (arith, fits) in
              rw (a, b, c, small)
                (runs_over-false size (n + step found) names pos
                  (omega (arith, fits, step-le found)))
        ]
      ]
    ]

-- Every opendir and every stat succeeds, and every directory lists itself and fewer than 65535 names.
unfoldable mutual
  pub IsReadable : Input → Type 0
  IsReadable unreadable = ⊥
  IsReadable (listing config names) = (count names + 1 < 2 ^ 16) × HasDot names × AreReadable names

  pub AreReadable : Names → Type 0
  AreReadable end = Unit {0}
  AreReadable (entry d_name found names) = IsStatted found × AreReadable names

  pub IsStatted : Found → Type 0
  IsStatted missing = ⊥
  IsStatted special = Unit {0}
  IsStatted (regular st) = Unit {0}
  IsStatted (directory input) = IsReadable input

-- The slots as they are filled.
filled-IsLevelled :
    (h : Host) (blocksize : ℕ) (dirname d_name : List ℕ) (level : ℕ) (st : Stat)
    → IsLevelled level (fill_regular h blocksize dirname d_name level st)
unfolding fill_regular fill_product
filled-IsLevelled h blocksize dirname d_name level st = (refl, λ ne. refl)

dir-IsLevelled :
    (h : Host) (dirname d_name : List ℕ) (level : ℕ)
    → IsLevelled level (fill_dir h dirname d_name level)
unfolding fill_dir fill_product
dir-IsLevelled h dirname d_name level = (refl, λ ne. refl)

dot-IsLevelled :
    (h : Host) (dirname : List ℕ) (level : ℕ) → IsLevelled level (fill_dot h dirname level)
unfolding fill_dot fill_product
dot-IsLevelled h dirname level = (refl, λ ne. refl)

-- The loop does not return NULL, and what it returns is in order, `m` slots at most.
abbrev AreFilled : Host → (level m : ℕ) → Option (Entry × Nodes) → Type 0
AreFilled h level m none = ⊥
AreFilled h level m (some (dot, nodes)) =
    IsLevelled level dot × ArePrepared h level nodes × (count_of nodes ≤ m)

weaken-AreFilled :
    (h : Host) (level m : ℕ) (o : Option (Entry × Nodes))
    → AreFilled h level m o
    → AreFilled h level (suc m) o
weaken-AreFilled h level m none p = p
weaken-AreFilled h level m (some (dot, nodes)) (l, p, le) = (l, p, omega (arith, le))

-- A number of 16 bits is stored and read again.
htons-htons : (h : Host) (n : ℕ) → n < 2 ^ 16 → htons h (htons h n) ≡ n
unfolding htons
htons-htons little n lt = omega (arith, lt)
htons-htons big n lt = omega (arith, lt)

abbrev IsReturned : Host → (level : ℕ) → Option Tree → Type 0
IsReturned h level none = ⊥
IsReturned h level (some top) = IsPrepared h level top

if-AreFilled :
    (h : Host) (level m : ℕ) (b : Bool) (x y : Option (Entry × Nodes))
    → AreFilled h level m x
    → AreFilled h level m y
    → AreFilled h level m (if b then x else y)
if-AreFilled h level m true x y p q = p
if-AreFilled h level m false x y p q = q

then_file-AreFilled :
    (h : Host) (level m : ℕ) (e : Entry) (others : Option (Entry × Nodes))
    → IsLevelled level e
    → AreFilled h level m others
    → AreFilled h level (suc m) (then_file e others)
unfolding ArePrepared
then_file-AreFilled h level m e none l p = p
then_file-AreFilled h level m e (some (dot, nodes)) l (q, p, le) = (q, (l, p), omega (arith, le))

then_subdir-AreFilled :
    (h : Host) (level m : ℕ) (e : Entry) (sub : Option Tree) (others : Option (Entry × Nodes))
    → IsLevelled level e
    → IsReturned h (level + 1) sub
    → AreFilled h level m others
    → AreFilled h level (suc m) (then_subdir e sub others)
unfolding ArePrepared
then_subdir-AreFilled h level m e none others l q p = q
then_subdir-AreFilled h level m e (some sub) none l q p = p
then_subdir-AreFilled h level m e (some sub) (some (dot, nodes)) l q (d, p, le) =
    (d, (l, q, p), omega (arith, le))

interconnect-records :
    (h : Host) (dot : Entry) (nodes : Nodes)
    → count_of nodes + 1 < 2 ^ 16
    → htons h (htons h ((count_of nodes + 1) % 2 ^ 16)) ≡ suc (count_of nodes)
interconnect-records h dot nodes lt =
    htons-htons h ((count_of nodes + 1) % 2 ^ 16) (omega arith) ∙ omega (arith, lt)

configured-IsReturned :
    (h : Host) (fmt : Formats) (level m : ℕ) (small : m + 1 < 2 ^ 16)
    (config : Option (List (List ℕ))) (scanned : Option (Entry × Nodes))
    → AreFilled h level m scanned
    → IsReturned h level (configured h fmt config scanned)
unfolding IsPrepared scan_config
configured-IsReturned h fmt level m small config none p = p
configured-IsReturned h fmt level m small none (some (dot, nodes)) (l, p, le) =
    (interconnect-records h dot nodes (omega (arith, small, le)), l, p)
configured-IsReturned h fmt level m small (some lines) (some (dot, nodes)) (l, p, le) =
    scan_lines-IsPrepared h fmt level lines none (interconnect h (dot, nodes))
      (interconnect-records h dot nodes (omega (arith, small, le)), l, p)

mutual
  unfolding prepare_dir fill_slots fill_file ArePrepared IsReadable

  prepare_dir-IsReturned :
      (h : Host) (fmt : Formats) (blocksize : ℕ) (dirname : List ℕ) (level : ℕ) (input : Input)
      → IsReadable input
      → IsReturned h level (prepare_dir h fmt blocksize dirname level input)
  prepare_dir-IsReturned h fmt blocksize dirname level unreadable r = r
  prepare_dir-IsReturned h fmt blocksize dirname level (listing config names) (small, d, r) =
      rw
        (runs_over-false (count names) 1 names (omega (arith, needed-lt names d))
          (omega (arith, needed-lt names d)))
        (configured-IsReturned h fmt level (count names) small (opened config names) _ (
          fill_slots-AreFilled h fmt blocksize dirname level (empty_slot level) names r
            (refl, λ ne. refl)))

  fill_slots-AreFilled :
      (h : Host) (fmt : Formats) (blocksize : ℕ) (dirname : List ℕ) (level : ℕ) (dot : Entry)
      (names : Names)
      → AreReadable names
      → IsLevelled level dot
      → AreFilled h level (count names) (fill_slots h fmt blocksize dirname level dot names)
  fill_slots-AreFilled h fmt blocksize dirname level dot end r l = (l, tt, omega arith)
  fill_slots-AreFilled h fmt blocksize dirname level dot (entry d_name found names) (r, s) l =
      let m = count names in
      let others = fill_slots-AreFilled h fmt blocksize dirname level dot names s l in
      let more = weaken-AreFilled h level m _ others in
      let dotted =
        fill_slots-AreFilled h fmt blocksize dirname level (fill_dot h dirname level) names s
          (dot-IsLevelled h dirname level) in
      if-AreFilled h level (suc m) (bytes_eq d_name dot_name) _ _
        (weaken-AreFilled h level m _ dotted)
        (if-AreFilled h level (suc m) (bytes_eq d_name dotdot_name) _ _ more (
          if-AreFilled h level (suc m) (bytes_eq d_name cfg_name) _ _ more
            (fill_file-AreFilled h fmt blocksize dirname d_name level m found _ r others)))

  fill_file-AreFilled :
      (h : Host) (fmt : Formats) (blocksize : ℕ) (dirname d_name : List ℕ) (level m : ℕ)
      (found : Found) (others : Option (Entry × Nodes))
      → IsStatted found
      → AreFilled h level m others
      → AreFilled h level (suc m) (fill_file h fmt blocksize dirname d_name level found others)
  fill_file-AreFilled h fmt blocksize dirname d_name level m missing others r p = r
  fill_file-AreFilled h fmt blocksize dirname d_name level m special others r p =
      weaken-AreFilled h level m others p
  fill_file-AreFilled h fmt blocksize dirname d_name level m (regular st) others r p =
      then_file-AreFilled h level m _ others (filled-IsLevelled h blocksize dirname d_name level st)
        p
  fill_file-AreFilled h fmt blocksize dirname d_name level m (directory input) others r p =
      then_subdir-AreFilled h level m _ _ others (dir-IsLevelled h dirname d_name level)
        (prepare_dir-IsReturned h fmt blocksize (path dirname d_name) (level + 1) input r) p

-- A directory that can be read, with all files and directories in it, and that lists itself and fewer
-- than 65535 names, as each directory in it does, is prepared: at every level the interconnect has the
-- number of the records, itself included, and in a subdirectory no file has a position of its own, whatever the
-- configuration files say.
pub prepare_dir-IsPrepared :
    (h : Host) (fmt : Formats) (blocksize : ℕ) (dirname : List ℕ) (level : ℕ) (input : Input)
    → IsReadable input
    → (top : Tree) × (prepare_dir h fmt blocksize dirname level input ≡ some top)
      × IsPrepared h level top
prepare_dir-IsPrepared h fmt blocksize dirname level input r =
    returned h level (prepare_dir h fmt blocksize dirname level input)
      (prepare_dir-IsReturned h fmt blocksize dirname level input r)
  where
    returned :
        (h : Host) (level : ℕ) (o : Option Tree)
        → IsReturned h level o
        → (top : Tree) × (o ≡ some top) × IsPrepared h level top
    returned h level none p = absurd p
    returned h level (some top) p = (top, refl, p)
