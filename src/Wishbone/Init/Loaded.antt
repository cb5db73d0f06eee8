-- ===== src/Wishbone/Init/Loaded.antt =====
-- The module is loaded whole, or not at all.
use fpga_config_space.Base.{
  ℕ, List, ◌∷◌, Option, none, some, Bool, true, false, not, if◌then◌else◌, ◌≡◌, ◌≢◌, ◌⊎◌, inl, inr,
  refl, arith, ◌==◌,
}
use fpga_config_space.Wishbone.Bus.{Globals}
use fpga_config_space.Wishbone.Init.{
  Grant, master_class, slave_class, Answers, enomem, last_minor, master_numbers_stage,
  slave_class_stage, master_class_stage, wishbone_init, wishbone_exit,
}

-- The module is loaded, and wishbone_exit gives everything back; or there is an error, and nothing new
-- is held.
abbrev pub IsLoaded : List Grant → ℕ × List Grant → Type 0
IsLoaded held (err, held') =
    ((err ≡ 0) × (wishbone_exit held' ≡ held)) ⊎ ((err ≢ 0) × (held' ≡ held))

-- An error of the kernel is not 0.
abbrev pub IsError : Option ℕ → Type 0
IsError none = Unit {0}
IsError (some err) = err ≢ 0

module _ (a : Answers) (held : List Grant) where
  numbers-IsLoaded :
      (masters slaves : Bool)
      → IsLoaded held (
          master_numbers_stage
            (record a { master_region = masters; slave_region = slaves })
            (slave_class ∷ (master_class ∷ held)))
  unfolding wishbone_exit
  numbers-IsLoaded false slaves = inr (omega arith, refl)
  numbers-IsLoaded true false = inr (omega arith, refl)
  numbers-IsLoaded true true = inl (refl, refl)

  slave_class-IsLoaded :
      (o : Option ℕ) → IsError o → IsLoaded held (slave_class_stage a o (master_class ∷ held))
  unfolding wishbone_exit
  slave_class-IsLoaded (some err) e = inr (e, refl)
  slave_class-IsLoaded none e = numbers-IsLoaded a.master_region a.slave_region

  master_class-IsLoaded :
      (o : Option ℕ)
      → IsError o
      → IsError a.slave_class_error
      → IsLoaded held (master_class_stage a o held)
  unfolding wishbone_exit
  master_class-IsLoaded (some err) e e' = inr (e, refl)
  master_class-IsLoaded none e e' = slave_class-IsLoaded a.slave_class_error e'

-- If the errors of the kernel are not 0, wishbone_init returns 0, and then wishbone_exit gives back all
-- that the module holds; or it returns an error, and holds nothing more than before.
pub wishbone_init-IsLoaded :
    (g : Globals) (a : Answers) (held : List Grant)
    → IsError a.master_class_error
    → IsError a.slave_class_error
    → IsLoaded held (wishbone_init g a held)
unfolding wishbone_init wishbone_exit
wishbone_init-IsLoaded g a held e e' = guarded (g.minor (g.mkdev 0 (last_minor g)) == last_minor g)
  where
    guarded :
        (b : Bool)
        → IsLoaded held
            (if not b then (enomem, held) else master_class_stage a a.master_class_error held)
    guarded false = inr (omega arith, refl)
    guarded true = master_class-IsLoaded a held a.master_class_error e e'
