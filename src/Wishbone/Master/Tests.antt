-- ===== src/Wishbone/Master/Tests.antt =====
-- The master device with a back end that reads every word as 7.
use fpga_config_space.Base.{ℕ, none, subst, [], ◌∷◌, ◌≡◌, ◌⊎◌, true, false, refl, arith}
use fpga_config_space.Wishbone.{Operations}
use fpga_config_space.Wishbone.Master.{Master, State, header, idle, cycle}
use fpga_config_space.Wishbone.Master.Counters.{IsRing}
use fpga_config_space.Wishbone.Master.Ring.{IsStarted, IsWritten, master_write-IsWritten}
use fpga_config_space.Wishbone.Master.{master_write}

-- The state is the last word written.
abbrev sevens : Operations ℕ
sevens = record {
  cycle = λ s on. s;
  byteenable = λ s mask. s;
  write = λ s addr dat. dat;
  read = λ s addr. (7, s);
  read_cfg = λ s addr. (7, s);
  request = λ s. (none, s);
  reply = λ s err dat. s;
}

abbrev at_open : Master ℕ
at_open = record {
  wishbone = 0;
  state = header;
  sent = 0;
  processed = 0;
  received = 0;
  buf = λ i. 0;
}

abbrev opened_ring : IsRing 0 0 0 at_open
opened_ring = record {
  sent = refl;
  processed = refl;
  received = refl;
  behind = omega arith;
  ahead = omega arith;
  room = omega arith;
  fresh = λ e. refl;
}

-- Twelve bytes are processed and not yet sent, and the counters have gone around.
abbrev running : Master ℕ
running = record at_open { state = cycle; sent = 16380; processed = 8; received = 10 }

abbrev NotHeader : State → Type 0
NotHeader header = ⊥
NotHeader idle = Unit {0}
NotHeader cycle = Unit {0}

abbrev running_ring : IsRing 16380 16392 16394 running
running_ring = record {
  sent = refl;
  processed = refl;
  received = refl;
  behind = omega arith;
  ahead = omega arith;
  room = omega arith;
  fresh = λ e. absurd (subst NotHeader e tt);
}

master_write-IsWritten_example :
    ((false ≡ true)
      ⊎ ((◌≡◌ {A = ℕ} 4 0)
          ⊎ IsStarted sevens 0 0 8193 false false (0x4E ∷ 0x6F ∷ 0x11 ∷ 0x44 ∷ []) at_open))
    × IsWritten 0 0 0 4
        (master_write sevens 8193 false false (0x4E ∷ 0x6F ∷ 0x11 ∷ 0x44 ∷ []) at_open)
master_write-IsWritten_example =
    master_write-IsWritten sevens 0 0 0 8193 false false (0x4E ∷ 0x6F ∷ 0x11 ∷ 0x44 ∷ []) at_open
      opened_ring (omega arith)
