-- ===== src/Read.antt =====
-- sdbfs/userspace/sdb-read.c: the listing of a device, and its `read` method.
pub mod Listed
pub mod Tests
use fpga_config_space.Base.{
  ℕ, zero, suc, ◌+◌, ◌-◌, ◌%◌, ◌/◌, ◌^◌, List, [], ◌∷◌, ◌++◌, Option, none, some, Bool, true, false,
  not, ◌&&◌, ◌||◌, if◌then◌else◌, ◌==◌, ltb, leb, get_or, take, drop, c_string, window,
}
use fpga_config_space.Endian.{Host, htonl, ntohll, load32}
use fpga_config_space.Sdb.{
  Sdb, sdb_type_interconnect, sdb_type_device, sdb_type_bridge, record_type, addr_first_of,
  addr_last_of, vendor_id, device_id, name_of,
}
use fpga_config_space.Sdbfs.{Fs}
use fpga_config_space.Sdbfs.Scan.{Scan, crash, finished, found, scan}

-- What is printed for a record: a name; a component with its addresses and a product without, both
-- behind two blanks for each level; a string; metadata, of which the last four may be left out; and an
-- unknown record, with its bytes or without.
pub data Line : Type 0 where
  short : (name : List ℕ) → Line
  component : (vendor device first last depth : ℕ) (name : List ℕ) → Line
  product : (vendor device depth : ℕ) (name : List ℕ) → Line
  repo_url : (url : List ℕ) → Line
  synthesis_name : (syn_name commit_id : List ℕ) → Line
  tool_name user_name : (name : List ℕ) → Line
  tool_version build_date : (number : ℕ) → Line
  unknown : (bytes : List ℕ) → Line

abbrev pub sdb_type_integration : ℕ
sdb_type_integration = 0x80

abbrev pub sdb_type_repo_url : ℕ
sdb_type_repo_url = 0x81

abbrev pub sdb_type_synthesis : ℕ
sdb_type_synthesis = 0x82

abbrev pub sdb_type_empty : ℕ
sdb_type_empty = 0xff

-- `%.19s` of the name.
abbrev pub name_line : Sdb → List ℕ
name_line d = c_string (name_of d)

-- `base` is an int: its upper bit is its sign.
abbrev pub widened : (base : ℕ) → ℕ
widened base =
    if ltb (base % 2 ^ 32) (2 ^ 31) then base % 2 ^ 32 else base % 2 ^ 32 + (2 ^ 64 - 2 ^ 32)

abbrev pub component_line : Host → (depth base : ℕ) → Sdb → Line
component_line h depth base d =
    component (ntohll h (vendor_id h d)) (htonl h (device_id h d))
      ((widened base + addr_first_of h d) % 2 ^ 64) ((widened base + addr_last_of h d) % 2 ^ 64)
      depth (name_line d)

abbrev pub product_line : Host → (depth : ℕ) → Sdb → Line
product_line h depth d =
    product (ntohll h (vendor_id h d)) (htonl h (device_id h d)) depth (name_line d)

abbrev pub line_if : Bool → Line → List Line → List Line
line_if b l ls = if b then l ∷ ls else ls

-- A field that is not 0 and does not start with a blank.
abbrev pub is_filled : (c : ℕ) → (blank : ℕ) → Bool
is_filled c blank = not (c == 0) && not (blank == 0x20)

-- The metadata of a synthesis. The last test looks at the name of the tool for the one of the user.
abbrev pub synthesis_lines : Host → Sdb → List Line
synthesis_lines h d =
    synthesis_name (c_string (take 16 d)) (take 16 (drop 0x10 d))
    ∷ line_if (is_filled (get_or d 0x20 0) (get_or d 0x20 0))
        (tool_name (c_string (take 8 (drop 0x20 d))))
        (line_if (not (load32 h d 0x28 == 0)) (tool_version (htonl h (load32 h d 0x28))) (
          line_if (not (load32 h d 0x2c == 0)) (build_date (htonl h (load32 h d 0x2c))) (
            line_if (is_filled (get_or d 0x30 0) (get_or d 0x20 0))
              (user_name (c_string (take 15 (drop 0x30 d)))) [])))

-- list_device: 0 or -1, as how many errors that is, and the lines.
unfoldable pub list_device : Host → (opt_long : Bool) (depth base : ℕ) → Sdb → ℕ × List Line
list_device h opt_long depth base d =
    let type = record_type d in
    let short_or =
      λ (lines : List Line). if not opt_long then short (name_line d) ∷ [] else lines in
    let long_only = λ (lines : List Line). if not opt_long then [] else lines in
    if (type == sdb_type_interconnect) || ((type == sdb_type_device) || (type == sdb_type_bridge))
    then (0, short_or (component_line h depth base d ∷ []))
    else if type == sdb_type_integration
    then (0, short_or (product_line h depth d ∷ []))
    else if type == sdb_type_repo_url
    then (0, long_only (repo_url (c_string (take 63 d)) ∷ []))
    else if type == sdb_type_synthesis
    then (0, long_only (synthesis_lines h d))
    else if type == sdb_type_empty
    then (0, [])
    else (if leb 0x80 type then 0 else 1, unknown (if not opt_long then [] else take 64 d) ∷ [])

abbrev pub joined : ℕ × List Line → Option (ℕ × List Line) → Option (ℕ × List Line)
joined (e, lines) none = none
joined (e, lines) (some (err, more)) = some (e + err, lines ++ more)

-- do_list, on fuel, from a call of sdbfs_scan on: how often -1 is added, and all lines. None is a null
-- pointer that was followed, or a loop that has not ended.
unfoldable pub do_list : Host → (opt_long : Bool) (fuel : ℕ) → Scan → Option (ℕ × List Line)
do_list h opt_long fuel crash = none
do_list h opt_long fuel (finished fs) = some (0, [])
do_list h opt_long zero (found d fs) = none
do_list h opt_long (suc fuel) (found d fs) =
    joined (list_device h opt_long fs.depth (fs.base fs.depth) d)
      (do_list h opt_long fuel (scan h fs false))

-- The file of a device that is not mapped: whether fseek succeeds, and what fread then gives.
pub record File : Type 0 where
  pub fseek : (pos : ℕ) → Bool
  pub fread : (pos count : ℕ) → List ℕ

-- do_read, of a device that is mapped or of which `memaddr` is the start in its file: the bytes that it
-- gives, or none for -1. A negative offset is not modelled.
unfoldable pub do_read :
    (mapaddr : Option (ℕ → ℕ)) → File → (memaddr offset count : ℕ) → Option (List ℕ)
do_read (some mapaddr) f memaddr offset count = some (window mapaddr offset count)
do_read none f memaddr offset count =
    let pos = (memaddr + offset) % 2 ^ 64 in
    if not (f.fseek pos) then none else some (f.fread pos count)
