-- ===== src/Gensdbfs/Reading/Tests.antt =====
-- The tree of a small directory.
use fpga_config_space.Base.{arith, inl, [], ◌∷◌, ◌≡◌, refl, false, true, none, some}
use fpga_config_space.Endian.{little}
use fpga_config_space.Gensdbfs.Reading.{
  Tree, Input, listing, end, entry, special, regular, directory, dot_name, dotdot_name, cfg_name,
  product_name,
}
use fpga_config_space.Gensdbfs.Reading.Config.{Formats}
use fpga_config_space.Gensdbfs.Reading.Prepare.{prepare_dir}
use fpga_config_space.Gensdbfs.Reading.Positions.{IsPrepared}
use fpga_config_space.Gensdbfs.Reading.Returned.{IsReadable, prepare_dir-IsPrepared}

-- Every line that is a directive asks for a position.
abbrev formats : Formats
formats = record {
  vendor_llu = λ t. none;
  vendor_llx = λ t. none;
  device_lu = λ t. none;
  device_lx = λ t. none;
  write_i = λ t. none;
  maxsize_li = λ t. none;
  position_li = λ t. some 0x1000;
}

-- A file "a" in a directory, with a position that its configuration file gives it.
abbrev inner : Input
inner = listing (some ((0x61 ∷ 0x0a ∷ []) ∷ (0x09 ∷ 0x70 ∷ 0x0a ∷ []) ∷ [])) (
    entry dot_name special (
      entry cfg_name
        (regular (record { st_size = 5; s_iroth = true; s_iwoth = false; s_ixoth = false }))
        (entry (0x61 ∷ [])
          (regular (record { st_size = 7; s_iroth = true; s_iwoth = true; s_ixoth = false })) end)))

abbrev outer : Input
outer =
    listing none
      (entry dot_name special (entry dotdot_name special (entry (0x64 ∷ []) (directory inner) end)))

outer-IsReadable : IsReadable outer
unfolding IsReadable
outer-IsReadable =
    (omega arith, inl refl, (tt, (tt, ((omega arith, inl refl, (tt, (tt, (tt, tt)))), tt))))

prepare_dir-IsPrepared_example :
    (top : Tree) × (prepare_dir little formats 64 (0x69 ∷ []) 0 outer ≡ some top)
    × IsPrepared little 0 top
prepare_dir-IsPrepared_example =
    prepare_dir-IsPrepared little formats 64 (0x69 ∷ []) 0 outer outer-IsReadable

padded_name :
    product_name (0x61 ∷ 0x62 ∷ [])
    ≡ 0x61 ∷ 0x62 ∷ 0x20 ∷ 0x20 ∷ 0x20 ∷ 0x20 ∷ 0x20 ∷ 0x20 ∷ 0x20 ∷ 0x20 ∷ 0x20 ∷ 0x20 ∷ 0x20
      ∷ 0x20 ∷ 0x20 ∷ 0x20 ∷ 0x20 ∷ 0x20 ∷ 0x20 ∷ []
unfolding product_name
padded_name = refl
