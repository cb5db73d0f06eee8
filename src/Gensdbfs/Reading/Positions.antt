-- ===== src/Gensdbfs/Reading/Positions.antt =====
-- What holds of every tree that prepare_dir makes, and that a configuration file keeps.
use fpga_config_space.Base.{
  ℕ, zero, suc, ◌+◌, ◌≡◌, ◌≢◌, refl, sym, ap, ◌∙◌, List, [], ◌∷◌, Bool, true, false, not, Option,
  none, some, if◌then◌else◌, ◌==◌, get_or, ◌||◌, Bool-cases, inl, inr, ==_iff,
}
use fpga_config_space.Endian.{Host, htons}
use fpga_config_space.Gensdbfs.Reading.{Entry, Tree, tree, Nodes, end, file, subdir, count_of}
use fpga_config_space.Gensdbfs.Reading.Config.{
  Formats, parse_config_line, tried, positioned, change_slot, change, level_of, direct, scan_line,
  scan_lines, cut_spaces, skip_blanks, isblank, find_filename,
}

-- A slot of a directory of a level: in a subdirectory it has no position of its own.
abbrev pub IsLevelled : (level : ℕ) → Entry → Type 0
IsLevelled level e = (e.level ≡ level) × (level ≢ 0 → e.sdbf.userpos ≡ false)

-- A directory that the placement of files can take: its slots and those of its subdirectories are of
-- their level, and each directory counts its records.
unfoldable mutual
  pub IsPrepared : Host → (level : ℕ) → Tree → Type 0
  IsPrepared h level (tree dot nodes) =
      (htons h dot.sdbf.sdb_records ≡ suc (count_of nodes))
      × IsLevelled level dot
      × ArePrepared h level nodes

  pub ArePrepared : Host → (level : ℕ) → Nodes → Type 0
  ArePrepared h level end = Unit {0}
  ArePrepared h level (file e rest) = IsLevelled level e × ArePrepared h level rest
  ArePrepared h level (subdir e sub rest) =
      IsLevelled level e × IsPrepared h (level + 1) sub × ArePrepared h level rest

-- A change of a slot that the directory does not notice.
abbrev IsKept : (level : ℕ) → Entry → Entry → Type 0
IsKept level e e' =
    (e'.level ≡ e.level)
    × (e'.sdbf.sdb_records ≡ e.sdbf.sdb_records)
    × (level ≢ 0 → e'.sdbf.userpos ≡ e.sdbf.userpos)

positioned-IsKept : (level : ℕ) (e : Entry) (x : ℕ) → IsKept level e (positioned level e x)
positioned-IsKept level e x = elim (Bool-cases (level == 0)) [
  | inl z ↦ rw (z) (refl, refl, λ ne. absurd (ne ((==_iff level 0).0 z)))
  | inr z ↦ rw (z) (refl, refl, λ ne. refl)
]

tried-IsKept :
    (level : ℕ) (e : Entry) (o : Option ℕ) (f : ℕ → Entry) (others : Entry)
    → ((x : ℕ) → IsKept level e (f x))
    → IsKept level e others
    → IsKept level e (tried o f others)
tried-IsKept level e none f others k l = l
tried-IsKept level e (some x) f others k l = k x

parse-IsKept :
    (h : Host) (fmt : Formats) (level : ℕ) (t : List ℕ) (e : Entry)
    → IsKept level e (parse_config_line h fmt level t e)
unfolding parse_config_line
parse-IsKept h fmt level t e =
    tried-IsKept level e (fmt.vendor_llu t) _ _ (λ x. (refl, refl, λ ne. refl))
      (tried-IsKept level e (fmt.device_lu t) _ _ (λ x. (refl, refl, λ ne. refl))
        (tried-IsKept level e (fmt.write_i t) _ _ (λ x. (refl, refl, λ ne. refl))
          (tried-IsKept level e (fmt.maxsize_li t) _ _ (λ x. (refl, refl, λ ne. refl))
            (tried-IsKept level e (fmt.position_li t) _ _ (positioned-IsKept level e)
              (refl, refl, λ ne. refl)))))

kept-IsLevelled :
    (level : ℕ) (e e' : Entry) → IsKept level e e' → IsLevelled level e → IsLevelled level e'
kept-IsLevelled level e e' k l = (k.0 ∙ l.0, λ ne. k.2 ne ∙ l.1 ne)

-- A slot changes, and the tree is as well prepared as before.
count-change :
    (i : ℕ) (f : Entry → Entry) (nodes : Nodes) → count_of (change_slot i f nodes) ≡ count_of nodes
count-change i f end = refl
count-change zero f (file e rest) = refl
count-change zero f (subdir e sub rest) = refl
count-change (suc i) f (file e rest) = ap suc (count-change i f rest)
count-change (suc i) f (subdir e sub rest) = ap suc (count-change i f rest)

module _ (h : Host) (level : ℕ) (f : Entry → Entry)
    (kept : (e : Entry) → IsKept level e (f e)) where
  change_slot-ArePrepared :
      (i : ℕ) (nodes : Nodes)
      → ArePrepared h level nodes
      → ArePrepared h level (change_slot i f nodes)
  unfolding ArePrepared
  change_slot-ArePrepared i end p = p
  change_slot-ArePrepared zero (file e rest) (l, p) = (kept-IsLevelled level e (f e) (kept e) l, p)
  change_slot-ArePrepared zero (subdir e sub rest) (l, q, p) =
      (kept-IsLevelled level e (f e) (kept e) l, q, p)
  change_slot-ArePrepared (suc i) (file e rest) (l, p) = (l, change_slot-ArePrepared i rest p)
  change_slot-ArePrepared (suc i) (subdir e sub rest) (l, q, p) =
      (l, q, change_slot-ArePrepared i rest p)

  change-IsPrepared :
      (i : ℕ) (top : Tree) → IsPrepared h level top → IsPrepared h level (change i f top)
  unfolding IsPrepared
  change-IsPrepared zero (tree dot nodes) (r, l, p) =
      (ap (htons h) (kept dot).1 ∙ r, kept-IsLevelled level dot (f dot) (kept dot) l, p)
  change-IsPrepared (suc i) (tree dot nodes) (r, l, p) =
      (r ∙ ap suc (sym (count-change i f nodes)), l, change_slot-ArePrepared i nodes p)

level-IsPrepared :
    (h : Host) (level : ℕ) (top : Tree) → IsPrepared h level top → level_of top ≡ level
unfolding IsPrepared
level-IsPrepared h level (tree dot nodes) (r, l, p) = l.0

direct-IsPrepared :
    (h : Host) (fmt : Formats) (level : ℕ) (t : List ℕ) (current : Option ℕ) (top : Tree)
    → IsPrepared h level top
    → IsPrepared h level (direct h fmt t current top)
direct-IsPrepared h fmt level t none top p = p
direct-IsPrepared h fmt level t (some i) top p = rw (level-IsPrepared h level top p) (
    change-IsPrepared h level (parse_config_line h fmt level t) (parse-IsKept h fmt level t) i top
      p)

-- Of the three ends of a round.
line-IsPrepared :
    (h : Host) (level : ℕ) (skip head : Bool) (a b c : Option ℕ × Tree)
    → IsPrepared h level a.1
    → IsPrepared h level b.1
    → IsPrepared h level c.1
    → IsPrepared h level (if skip then a else if head then b else c).1
line-IsPrepared h level true head a b c p q r = p
line-IsPrepared h level false true a b c p q r = q
line-IsPrepared h level false false a b c p q r = r

scan_line-IsPrepared :
    (h : Host) (fmt : Formats) (level : ℕ) (s : List ℕ) (current : Option ℕ) (top : Tree)
    → IsPrepared h level top
    → IsPrepared h level (scan_line h fmt s (current, top)).1
unfolding scan_line
scan_line-IsPrepared h fmt level s current top p =
    let line = cut_spaces s in
    let t = skip_blanks line in
    line-IsPrepared h level ((get_or t 0 0 == 0x23) || (get_or t 0 0 == 0))
      (not (isblank (get_or line 0 0))) (current, top) (find_filename h top line, top)
      (current, direct h fmt t current top) p p (direct-IsPrepared h fmt level t current top p)

pub scan_lines-IsPrepared :
    (h : Host) (fmt : Formats) (level : ℕ) (lines : List (List ℕ)) (current : Option ℕ) (top : Tree)
    → IsPrepared h level top
    → IsPrepared h level (scan_lines h fmt lines (current, top)).1
scan_lines-IsPrepared h fmt level [] current top p = p
scan_lines-IsPrepared h fmt level (s ∷ lines) current top p =
    scan_lines-IsPrepared h fmt level lines (scan_line h fmt s (current, top)).0
      (scan_line h fmt s (current, top)).1 (scan_line-IsPrepared h fmt level s current top p)
