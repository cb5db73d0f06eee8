-- ===== src/Wishbone/Init.antt =====
-- pcie-wb/wishbone.c: the loading and unloading of the module, `wishbone_init` and `wishbone_exit`.
pub mod Loaded
pub mod Tests
use fpga_config_space.Base.{
  ℕ, zero, suc, ◌+◌, ◌-◌, ◌%◌, ◌^◌, List, [], ◌∷◌, Option, none, some, Bool, true, false, not,
  if◌then◌else◌, ◌==◌,
}
use fpga_config_space.Wishbone.Bus.{Globals}

-- What the module holds of the kernel: its classes, and the numbers of its devices.
pub data Grant : Type 0 where
  master_class slave_class master_numbers slave_numbers : Grant

abbrev pub code : Grant → ℕ
code master_class = 0
code slave_class = 1
code master_numbers = 2
code slave_numbers = 3

-- A call that gives a grant back. One that is not held stays away.
abbrev pub without : Grant → List Grant → List Grant
without g [] = []
without g (x ∷ xs) = if code x == code g then xs else x ∷ without g xs

-- What the kernel answers: the errors of the two calls of class_create, and whether the two calls of
-- alloc_chrdev_region succeed.
pub record Answers : Type 0 where
  pub master_class_error : Option ℕ
  pub slave_class_error : Option ℕ
  pub master_region : Bool
  pub slave_region : Bool

abbrev pub enomem : ℕ
enomem = 12

abbrev pub eio : ℕ
eio = 5

-- The labels at the end of wishbone_init.
abbrev pub fail_last : (err : ℕ) → List Grant → ℕ × List Grant
fail_last err held = (err, held)

abbrev pub fail_master_class : (err : ℕ) → List Grant → ℕ × List Grant
fail_master_class err held = fail_last err (without master_class held)

abbrev pub fail_slave_class : (err : ℕ) → List Grant → ℕ × List Grant
fail_slave_class err held = fail_master_class err (without slave_class held)

abbrev pub fail_master_dev : (err : ℕ) → List Grant → ℕ × List Grant
fail_master_dev err held = fail_slave_class err (without master_numbers held)

abbrev pub slave_numbers_stage : Answers → List Grant → ℕ × List Grant
slave_numbers_stage a held =
    if not a.slave_region then fail_master_dev eio held else (0, slave_numbers ∷ held)

abbrev pub master_numbers_stage : Answers → List Grant → ℕ × List Grant
master_numbers_stage a held =
    if not a.master_region
    then fail_slave_class eio held
    else slave_numbers_stage a (master_numbers ∷ held)

abbrev pub slave_class_stage : Answers → Option ℕ → List Grant → ℕ × List Grant
slave_class_stage a (some err) held = fail_master_class err held
slave_class_stage a none held = master_numbers_stage a (slave_class ∷ held)

abbrev pub master_class_stage : Answers → Option ℕ → List Grant → ℕ × List Grant
master_class_stage a (some err) held = fail_last err held
master_class_stage a none held = slave_class_stage a a.slave_class_error (master_class ∷ held)

-- max_devices - 1, an int, as a device number has it.
abbrev pub last_minor : Globals → ℕ
last_minor g = (g.max_devices + 2 ^ 32 - 1) % 2 ^ 32

-- wishbone_init.
unfoldable pub wishbone_init : Globals → Answers → List Grant → ℕ × List Grant
wishbone_init g a held =
    if not (g.minor (g.mkdev 0 (last_minor g)) == last_minor g)
    then fail_last enomem held
    else master_class_stage a a.master_class_error held

-- wishbone_exit.
unfoldable pub wishbone_exit : List Grant → List Grant
wishbone_exit held =
    without master_class (without slave_class (without master_numbers (without slave_numbers held)))
