-- ===== src/Wishbone/Init/Tests.antt =====
-- The module of the Wishbone core loaded with concrete answers.
use fpga_config_space.Base.{List, [], ◌∷◌, none, true, false, ◌≡◌, refl}
use fpga_config_space.Wishbone.Init.{
  Answers, Grant, master_class, slave_class, master_numbers, slave_numbers, wishbone_init,
}
use fpga_config_space.Wishbone.Bus.Tests.{globals}

abbrev willing : Answers
willing = record {
  master_class_error = none;
  slave_class_error = none;
  master_region = true;
  slave_region = true;
}

abbrev loaded_grants : List Grant
loaded_grants = slave_numbers ∷ master_numbers ∷ slave_class ∷ master_class ∷ []

loaded : wishbone_init globals willing [] ≡ (0, loaded_grants)
unfolding wishbone_init
loaded = refl

no_slave_numbers : wishbone_init globals (record willing { slave_region = false }) [] ≡ (5, [])
unfolding wishbone_init
no_slave_numbers = refl
