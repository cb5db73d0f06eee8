-- ===== src/Gensdbfs/Reading.antt =====
-- sdbfs/userspace/gensdbfs.c, step 0: scan_inputdir reads a directory into a tree of records.
pub mod Config
pub mod Prepare
pub mod Positions
pub mod Returned
pub mod Tests
use fpga_config_space.Base.{
  ℕ, zero, suc, ◌+◌, ◌-◌, ◌%◌, ◌^◌, List, [], ◌∷◌, ◌++◌, Bool, false, Option, if◌then◌else◌, ltb,
  take, length, copies, bytes_eq,
}
use fpga_config_space.Endian.{Host, htonl, htons, htonll, load32, store32, store64}
use fpga_config_space.Gensdbfs.{Sdbf, sdb_align}

-- The parts of the SDB record that are the same for files and directories, with the values as stored.
-- `bus_specific` is only one of a file.
pub record Entry : Type 0 where
  pub sdbf : Sdbf
  pub name : List ℕ
  pub vendor_id : ℕ
  pub device_id : ℕ
  pub record_type : ℕ
  pub bus_specific : ℕ
  pub level : ℕ

-- A directory is its first slot and the slots behind it, in the order in which they are filled.
mutual
  pub data Tree : Type 0 where
    tree : Entry → Nodes → Tree

  pub data Nodes : Type 0 where
    end : Nodes
    file : Entry → Nodes → Nodes
    subdir : Entry → Tree → Nodes → Nodes

-- struct stat of a regular file: st_size, and what others may do.
pub record Stat : Type 0 where
  pub st_size : ℕ
  pub s_iroth : Bool
  pub s_iwoth : Bool
  pub s_ixoth : Bool

-- What the C library finds in a directory: opendir or calloc fail, or there are these names, each with
-- what stat says. `config` are the lines that fgets reads from the configuration file, if it opens.
mutual
  pub data Input : Type 0 where
    unreadable : Input
    listing : (config : Option (List (List ℕ))) → Names → Input

  pub data Names : Type 0 where
    end : Names
    entry : (d_name : List ℕ) → Found → Names → Names

  pub data Found : Type 0 where
    missing : Found
    special : Found
    regular : Stat → Found
    directory : Input → Found

abbrev pub dot_name : List ℕ
dot_name = 0x2e ∷ []

abbrev pub dotdot_name : List ℕ
dotdot_name = 0x2e ∷ 0x2e ∷ []

-- --SDB-CONFIG--
abbrev pub cfg_name : List ℕ
cfg_name =
    0x2d ∷ 0x2d ∷ 0x53 ∷ 0x44 ∷ 0x42 ∷ 0x2d ∷ 0x43 ∷ 0x4f ∷ 0x4e ∷ 0x46 ∷ 0x49 ∷ 0x47 ∷ 0x2d ∷ 0x2d
    ∷ []

abbrev pub default_vendor : Host → ℕ
default_vendor h = htonll h 0x46696c6544617461

-- The 19 bytes of `product.name`.
unfoldable pub product_name : (name : List ℕ) → List ℕ
product_name name =
    let len = if ltb 19 (length name) then 19 else length name in
    take len name ++ copies (19 - len) 0x20

-- __fill_product. `version` is always 1 and the date 0.
unfoldable pub fill_product : Host → (name : List ℕ) → (record_type : ℕ) → Entry → Entry
fill_product h name record_type e = record e {
  name = product_name name;
  device_id = load32 h (product_name name) 0;
  vendor_id = default_vendor h;
  record_type = record_type;
}

-- A slot as calloc gives it.
abbrev pub no_sdbf : Sdbf
no_sdbf = record {
  fullname = [];
  basename = [];
  sdb_records = 0;
  addr_first = 0;
  addr_last = 0;
  sdb_child = 0;
  ustart = 0;
  rstart = 0;
  base = 0;
  size = 0;
  userpos = false;
}

abbrev pub empty_slot : (level : ℕ) → Entry
empty_slot level = record {
  sdbf = no_sdbf;
  name = [];
  vendor_id = 0;
  device_id = 0;
  record_type = 0;
  bus_specific = 0;
  level = level;
}

-- sprintf("%s/%s"), as strcpy and strcat do it.
abbrev pub path : (dir fname : List ℕ) → List ℕ
path dir fname = dir ++ (0x2f ∷ fname)

-- A slot of the directory with its names.
abbrev pub named : (dir fname : List ℕ) (level : ℕ) → Entry
named dir fname level = record (empty_slot level) {
  sdbf = record no_sdbf { fullname = path dir fname; basename = fname };
}

unfoldable pub fill_dot : Host → (dir : List ℕ) (level : ℕ) → Entry
fill_dot h dir level = fill_product h dot_name 0 (named dir dot_name level)

-- SDB_DATA_READ, SDB_DATA_WRITE, SDB_DATA_EXEC. Each of the three is ORed in once.
abbrev pub flags_of : Stat → ℕ
flags_of st =
    (if st.s_iroth then 4 else 0) + ((if st.s_iwoth then 2 else 0) + (if st.s_ixoth then 1 else 0))

abbrev pub size_of : (blocksize : ℕ) → Stat → ℕ
size_of blocksize st = if st.s_iwoth then sdb_align blocksize st.st_size else st.st_size

-- What __fill_file does with the slot of a regular file, and __fill_dir with the one of a directory.
unfoldable pub fill_regular : Host → (blocksize : ℕ) (dir fname : List ℕ) (level : ℕ) → Stat → Entry
fill_regular h blocksize dir fname level st =
    let e = named dir fname level in
    fill_product h fname 1 (record e {
      sdbf = record e.sdbf { size = size_of blocksize st };
      bus_specific = htonl h (flags_of st);
    })

unfoldable pub fill_dir : Host → (dir fname : List ℕ) (level : ℕ) → Entry
fill_dir h dir fname level = fill_product h fname 2 (named dir fname level)

abbrev pub count_of : Nodes → ℕ
count_of end = 0
count_of (file e rest) = suc (count_of rest)
count_of (subdir e sub rest) = suc (count_of rest)

-- The end of scan_inputdir: sdb_records is `htons(n)`.
abbrev pub interconnect : Host → Entry × Nodes → Tree
interconnect h (dot, nodes) =
    tree
      (record dot {
        sdbf = record dot.sdbf { sdb_records = htons h ((count_of nodes + 1) % 2 ^ 16) };
      })
      nodes

-- `struct sdb_device` of a file, in the 64 bytes that fwrite takes.
abbrev pub device_record : Host → Entry → List ℕ
device_record h e =
    (0 ∷ 0 ∷ 0 ∷ 0 ∷ [])
    ++ (store32 h e.bus_specific
        ++ (store64 h e.sdbf.addr_first
            ++ (store64 h e.sdbf.addr_last
                ++ (store64 h e.vendor_id
                    ++ (store32 h e.device_id
                        ++ (store32 h (htonl h 1)
                            ++ (copies 4 0 ++ (e.name ++ (e.record_type ∷ [])))))))))
