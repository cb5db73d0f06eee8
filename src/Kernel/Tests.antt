-- ===== src/Kernel/Tests.antt =====
-- A table of two records at 0x100: the interconnect, named "root", and a file named "ab".
use fpga_config_space.Base.{
  copies, ℕ, List, [], ◌∷◌, ◌++◌, none, some, true, false, ◌==◌, if◌then◌else◌, ◌≡◌, refl, arith,
}
use mathlib.Core.Option.{map}
use fpga_config_space.Endian.{little}
use fpga_config_space.Sdb.{Sdb, name_of}
use fpga_config_space.Kernel.{
  SdbfsDev, Inode, read_files, info_of, read_whole_dir, lookup, iget_record,
}
use fpga_config_space.Kernel.Loaded.{IsLoaded, read_whole_dir-IsLoaded}
use fpga_config_space.Kernel.Lookup.{lookup-first_named}

-- The bytes before the name, the first four of the name, blanks, and the type.
abbrev entry : List ℕ → (a b c d type : ℕ) → Sdb
entry front a b c d type = front ++ ((a ∷ b ∷ c ∷ d ∷ []) ++ (copies 15 0x20 ++ (type ∷ [])))

abbrev root : Sdb
root = entry (0x53 ∷ 0x44 ∷ 0x42 ∷ 0x2d ∷ 0 ∷ 2 ∷ copies 38 0) 0x72 0x6f 0x6f 0x74 0

abbrev file : Sdb
file = entry (copies 44 0) 0x61 0x62 0x20 0x20 1

abbrev sd : SdbfsDev
sd = record {
  fixendian = false;
  read =
      λ offset. if offset == 0x100 then some root else if offset == 0x140 then some file else none;
}

abbrev inode : Inode
inode = record { files = info_of root ∷ info_of file ∷ []; base_sdb = 0x100 }

loaded : read_files little sd 2 0x100 ≡ some inode.files
unfolding read_files
loaded = refl

lookup-first_named_example :
    (lookup (0x61 ∷ 0x62 ∷ []) inode ≡ some 0x142)
    × (map (iget_record little sd) (lookup (0x61 ∷ 0x62 ∷ []) inode) ≡ some (some file))
unfolding name_of
lookup-first_named_example =
    lookup-first_named little sd (0x61 ∷ 0x62 ∷ []) 2 inode (omega arith, (omega arith, tt)) loaded
      refl (omega arith)

read_whole_dir-IsLoaded_example :
    IsLoaded little sd 0x100 true true
      (read_whole_dir little sd true true (record { files = []; base_sdb = 0x100 }))
read_whole_dir-IsLoaded_example = read_whole_dir-IsLoaded little sd 0x100 true true
