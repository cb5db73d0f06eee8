-- ===== src/Gensdbfs/Reading/Prepare.antt =====
-- sdbfs/userspace/gensdbfs.c: scan_inputdir and prepare_dir, which call each other for the directories
-- in a directory.
use fpga_config_space.Base.{
  ℕ, suc, ◌+◌, ◌==◌, leb, List, Bool, true, Option, none, some, if◌then◌else◌, bytes_eq,
}
use mathlib.Core.Option.{map}
use fpga_config_space.Endian.{Host}
use fpga_config_space.Gensdbfs.Reading.{
  Entry, Tree, Nodes, end, file, subdir, Input, unreadable, listing, Names, entry, Found, missing,
  special, regular, directory, dot_name, dotdot_name, cfg_name, path, empty_slot, fill_dot,
  fill_regular, fill_dir, interconnect,
}
use fpga_config_space.Gensdbfs.Reading.Config.{Formats, scan_config}

-- A slot is filled, or the next name gets it.
abbrev pub then_file : Entry → Option (Entry × Nodes) → Option (Entry × Nodes)
then_file e rest = map (λ r. (r.0, file e r.1)) rest

abbrev pub then_subdir : Entry → Option Tree → Option (Entry × Nodes) → Option (Entry × Nodes)
then_subdir e none rest = none
then_subdir e (some sub) rest = map (λ r. (r.0, subdir e sub r.1)) rest

-- The configuration file is only opened if the directory lists it.
abbrev pub opened : Option (List (List ℕ)) → Names → Option (List (List ℕ))
opened config end = none
opened config (entry d_name found names) =
    let rest = opened config names in if bytes_eq d_name cfg_name then config else rest

-- The first loop of scan_inputdir, which counts the names.
abbrev pub count : Names → ℕ
count end = 0
count (entry d_name found names) = suc (count names)

-- What __fill_file adds to `n` for a name.
abbrev pub step : Found → ℕ
step missing = 0
step special = 0
step (regular st) = 1
step (directory input) = 1

-- Whether the second loop, with `n` as it is by then, or the line behind it uses a slot behind the
-- `size` slots of `tree`.
abbrev pub runs_over : (size n : ℕ) → Names → Bool
runs_over size n end = size == 0
runs_over size n (entry d_name found names) =
    let rest = runs_over size n names in
    let next = runs_over size (n + step found) names in
    if bytes_eq d_name dot_name
    then rest
    else if bytes_eq d_name dotdot_name
    then rest
    else if bytes_eq d_name cfg_name
    then rest
    else if leb size n
    then true
    else next

-- prepare_dir, once the directory is read.
abbrev pub configured :
    Host → Formats → (config : Option (List (List ℕ))) → Option (Entry × Nodes) → Option Tree
configured h fmt config none = none
configured h fmt none (some scanned) = some (interconnect h scanned)
configured h fmt (some lines) (some scanned) =
    some (scan_config h fmt lines (interconnect h scanned))

-- A directory that does not list itself leaves the name of its first slot null; a configuration line
-- that is compared with it is not modelled.
--
-- prepare_dir for a directory of a level, the second loop of scan_inputdir with the first slot as it
-- is by then, and __fill_file for one name. None is NULL, or
-- a slot that is used behind the end of `tree`.
unfoldable mutual
  pub prepare_dir :
      Host → Formats → (blocksize : ℕ) (dirname : List ℕ) (level : ℕ) → Input → Option Tree
  prepare_dir h fmt blocksize dirname level unreadable = none
  prepare_dir h fmt blocksize dirname level (listing config names) =
      let filled = fill_slots h fmt blocksize dirname level (empty_slot level) names in
      if runs_over (count names) 1 names
      then none
      else configured h fmt (opened config names) filled

  pub fill_slots :
      Host
      → Formats
      → (blocksize : ℕ) (dirname : List ℕ) (level : ℕ) (dot : Entry) → Names
      → Option (Entry × Nodes)
  fill_slots h fmt blocksize dirname level dot end = some (dot, end)
  fill_slots h fmt blocksize dirname level dot (entry d_name found names) =
      let others = fill_slots h fmt blocksize dirname level dot names in
      if bytes_eq d_name dot_name
      then fill_slots h fmt blocksize dirname level (fill_dot h dirname level) names
      else if bytes_eq d_name dotdot_name
      then others
      else if bytes_eq d_name cfg_name
      then others
      else fill_file h fmt blocksize dirname d_name level found others

  pub fill_file :
      Host
      → Formats
      → (blocksize : ℕ) (dirname d_name : List ℕ) (level : ℕ) → Found
      → Option (Entry × Nodes)
      → Option (Entry × Nodes)
  fill_file h fmt blocksize dirname d_name level missing others = none
  fill_file h fmt blocksize dirname d_name level special others = others
  fill_file h fmt blocksize dirname d_name level (regular st) others =
      then_file (fill_regular h blocksize dirname d_name level st) others
  fill_file h fmt blocksize dirname d_name level (directory input) others =
      then_subdir (fill_dir h dirname d_name level)
        (prepare_dir h fmt blocksize (path dirname d_name) (level + 1) input) others
