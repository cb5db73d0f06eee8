-- ===== src/Extract/Tests.antt =====
-- sdb-extract on the record of a small file.
use fpga_config_space.Base.{ℕ, List, [], ◌∷◌, ◌++◌, true, false, copies}
use fpga_config_space.Gensdbfs.Reading.{Stat}

abbrev script : Stat
script = record { st_size = 3; s_iroth = true; s_iwoth = false; s_ixoth = true }

-- "run"
abbrev run_name : List ℕ
run_name = 0x72 ∷ 0x75 ∷ 0x6e ∷ []

abbrev image : List ℕ
image = copies 128 0 ++ (1 ∷ 2 ∷ 3 ∷ 4 ∷ [])
