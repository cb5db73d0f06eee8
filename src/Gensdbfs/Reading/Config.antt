-- ===== src/Gensdbfs/Reading/Config.antt =====
-- sdbfs/userspace/gensdbfs.c, step 1: scan_config changes the tree as the configuration file says.
use fpga_config_space.Base.{
  ℕ, zero, suc, ◌-◌, ◌%◌, ◌^◌, List, [], ◌∷◌, Bool, true, not, ◌&&◌, ◌||◌, Option, none, some,
  if◌then◌else◌, ◌==◌, leb, get_or, bytes_eq, bit_and, bit_or,
}
use mathlib.Core.Option.{map}
use fpga_config_space.Endian.{Host, htonl, htons, htonll}
use fpga_config_space.Gensdbfs.Reading.{Entry, Tree, tree, Nodes, end, file, subdir}

-- What sscanf makes of a line for each format, if it converts: `vendor = %llu`, `vendor = %llx`, and
-- so on. The values are those of the variables, of 64 bits.
pub record Formats : Type 0 where
  pub vendor_llu : List ℕ → Option ℕ
  pub vendor_llx : List ℕ → Option ℕ
  pub device_lu : List ℕ → Option ℕ
  pub device_lx : List ℕ → Option ℕ
  pub write_i : List ℕ → Option ℕ
  pub maxsize_li : List ℕ → Option ℕ
  pub position_li : List ℕ → Option ℕ

abbrev pub with_vendor : Host → (int64 : ℕ) → Entry → Entry
with_vendor h int64 e = record e { vendor_id = htonll h int64 }

abbrev pub with_device : Host → (int32 : ℕ) → Entry → Entry
with_device h int32 e = record e { device_id = htonl h (int32 % 2 ^ 32) }

-- SDB_DATA_WRITE is set or cleared.
abbrev pub with_write : Host → (i : ℕ) → Entry → Entry
with_write h i e = record e {
  bus_specific =
      if not (i == 0)
      then bit_or e.bus_specific (htonl h 2)
      else bit_and e.bus_specific (htonl h (2 ^ 32 - 1 - 2));
}

abbrev pub with_maxsize : (int32 : ℕ) → Entry → Entry
with_maxsize int32 e = record e { sdbf = record e.sdbf { size = int32 } }

abbrev pub with_position : (int32 : ℕ) → Entry → Entry
with_position int32 e = record e { sdbf = record e.sdbf { userpos = true; ustart = int32 } }

-- A decimal number, or if that is 0 the hexadecimal one, if it converts.
abbrev pub or_hex : Option ℕ → (x : ℕ) → ℕ
or_hex none x = x
or_hex (some hex) x = if x == 0 then hex else x

-- A format that converts decides; else the next is tried.
abbrev pub tried : Option ℕ → (ℕ → Entry) → Entry → Entry
tried none change_by others = others
tried (some x) change_by others = change_by x

-- In a subdirectory a position is refused.
abbrev pub positioned : (level : ℕ) → Entry → (int32 : ℕ) → Entry
positioned level e int32 = if not (level == 0) then e else with_position int32 e

-- parse_config_line, for a directory of a level. An unknown directive changes nothing.
unfoldable pub parse_config_line : Host → Formats → (level : ℕ) → List ℕ → Entry → Entry
parse_config_line h fmt level t e =
    tried (fmt.vendor_llu t) (λ x. with_vendor h (or_hex (fmt.vendor_llx t) x) e)
      (tried (fmt.device_lu t) (λ x. with_device h (or_hex (fmt.device_lx t) x) e)
        (tried (fmt.write_i t) (λ x. with_write h x e)
          (tried (fmt.maxsize_li t) (λ x. with_maxsize x e)
            (tried (fmt.position_li t) (positioned level e) e))))

-- find_filename: the place of the first of n slots with the name.
abbrev pub find_slot : (n : ℕ) → List ℕ → Nodes → Option ℕ
find_slot zero s nodes = none
find_slot (suc n) s end = none
find_slot (suc n) s (file e rest) =
    let next = map suc (find_slot n s rest) in
    if bytes_eq s e.sdbf.basename then some zero else next
find_slot (suc n) s (subdir e sub rest) =
    let next = map suc (find_slot n s rest) in
    if bytes_eq s e.sdbf.basename then some zero else next

unfoldable pub find_filename : Host → Tree → List ℕ → Option ℕ
find_filename h (tree dot nodes) s =
    let n = htons h dot.sdbf.sdb_records in
    let next = map suc (find_slot (n - 1) s nodes) in
    if n == 0 then none else if bytes_eq s dot.sdbf.basename then some zero else next

-- A change of the slot at a place.
abbrev pub change_slot : ℕ → (Entry → Entry) → Nodes → Nodes
change_slot i f end = end
change_slot zero f (file e rest) = file (f e) rest
change_slot zero f (subdir e sub rest) = subdir (f e) sub rest
change_slot (suc i) f (file e rest) = file e (change_slot i f rest)
change_slot (suc i) f (subdir e sub rest) = subdir e sub (change_slot i f rest)

abbrev pub change : ℕ → (Entry → Entry) → Tree → Tree
change zero f (tree dot nodes) = tree (f dot) nodes
change (suc i) f (tree dot nodes) = tree dot (change_slot i f nodes)

abbrev pub isblank : ℕ → Bool
isblank c = (c == 0x20) || (c == 0x09)

abbrev pub isspace : ℕ → Bool
isspace c = (c == 0x20) || (leb 0x09 c && leb c 0x0d)

-- The loop that cuts white space off the end of a line.
abbrev pub cut_spaces : List ℕ → List ℕ
cut_spaces [] = []
cut_spaces (c ∷ s) = cut_behind c (cut_spaces s)
  where
    cut_behind : ℕ → List ℕ → List ℕ
    cut_behind c [] = if isspace c then [] else c ∷ []
    cut_behind c (d ∷ s) = c ∷ (d ∷ s)

-- The loop that moves `t` behind blanks.
abbrev pub skip_blanks : List ℕ → List ℕ
skip_blanks [] = []
skip_blanks (c ∷ t) = if isblank c then skip_blanks t else c ∷ t

abbrev pub level_of : Tree → ℕ
level_of (tree dot nodes) = dot.level

-- A line that is a directive, for the file that is current.
abbrev pub direct : Host → Formats → List ℕ → Option ℕ → Tree → Tree
direct h fmt t none tr = tr
direct h fmt t (some i) tr = change i (parse_config_line h fmt (level_of tr) t) tr

-- One line: the current file, and the tree.
unfoldable pub scan_line : Host → Formats → (s : List ℕ) → Option ℕ × Tree → Option ℕ × Tree
scan_line h fmt s (current, tr) =
    let line = cut_spaces s in
    let t = skip_blanks line in
    if (get_or t 0 0 == 0x23) || (get_or t 0 0 == 0)
    then (current, tr)
    else if not (isblank (get_or line 0 0))
    then (find_filename h tr line, tr)
    else (current, direct h fmt t current tr)

abbrev pub scan_lines : Host → Formats → List (List ℕ) → Option ℕ × Tree → Option ℕ × Tree
scan_lines h fmt [] st = st
scan_lines h fmt (s ∷ ss) st = scan_lines h fmt ss (scan_line h fmt s st)

unfoldable pub scan_config : Host → Formats → List (List ℕ) → Tree → Tree
scan_config h fmt lines tr = (scan_lines h fmt lines (none, tr)).1
