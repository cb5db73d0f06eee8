-- ===== src/Wishbone/Bus/Tests.antt =====
-- Two back ends are listed, with the minors 0 and 2 behind the first, and a third comes.
use fpga_config_space.Base.{
  ℕ, ◌+◌, ◌*◌, ◌^◌, ◌%◌, ◌/◌, ◌<◌, [], ◌∷◌, true, false, ◌≡◌, refl, arith, inl,
}
use fpga_config_space.Wishbone.Bus.{
  Globals, Entry, Bus, Answers, alone, removed, entry_at, find_gap, connect, register_at, register,
  unregister,
}
use fpga_config_space.Wishbone.Bus.Gaps.{IsSorted}
use fpga_config_space.Wishbone.Bus.Register.{
  Unchanged, IsConnected, register-Connected, register-Unchanged, unregister-register, entry_of,
}

pub minor_law : (a b : ℕ) → b < 2 ^ 20 → (a * 2 ^ 20 + b) % 2 ^ 20 ≡ b
minor_law a b lt = omega (arith, lt)

abbrev pub globals : Globals
globals = record {
  max_devices = 4;
  master_first = 250 * 2 ^ 20;
  slave_first = 251 * 2 ^ 20 + 8;
  mkdev = λ a b. a * 2 ^ 20 + b;
  major = λ d. d / 2 ^ 20;
  minor = λ d. d % 2 ^ 20;
  minor-mkdev = minor_law;
}

abbrev pub two : Bus
two = record {
  devices = entry_at globals 100 0 ∷ entry_at globals 300 2 ∷ [];
  cdevs = [];
  nodes = [];
  link = λ i. alone;
}

abbrev pub accepting : Answers
accepting = record {
  master_cdev = true;
  slave_cdev = true;
  master_device = true;
  slave_device = true;
}

abbrev pub two_sorted : IsSorted globals 0 4 two.devices
two_sorted = (0, omega arith, omega arith, refl, (2, omega arith, omega arith, refl, omega arith))

register-Connected_example : IsConnected globals 200 two (register globals accepting 200 two)
register-Connected_example =
    register-Connected globals (omega arith) accepting 200 two two_sorted refl (omega arith)

register-Unchanged_example :
    Unchanged two (register globals (record accepting { slave_device = false }) 200 two)
register-Unchanged_example =
    register-Unchanged globals (omega arith) (record accepting { slave_device = false }) 200 two
      two_sorted (omega arith) (inl refl)

unregister-register_example :
    (e : Entry) × (after : Bus) × (entry_of 200 (register globals accepting 200 two).1.devices ≡ e)
    × ((register globals accepting 200 two).0 ≡ 0)
    × (unregister e (register globals accepting 200 two).1 ≡ removed 0 after)
    × (after.devices ≡ two.devices)
    × (after.cdevs ≡ two.cdevs)
    × (after.nodes ≡ two.nodes)
unregister-register_example =
    unregister-register globals (omega arith) accepting 200 two two_sorted refl (omega arith) refl

-- The third device gets the minor 1.
third :
    (register globals accepting 200 two).1.devices
    ≡ entry_at globals 100 0 ∷ entry_at globals 200 1 ∷ entry_at globals 300 2 ∷ []
unfolding register register_at find_gap connect
third = refl
