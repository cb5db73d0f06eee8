-- ===== src/Backends/Pcie/Tests.antt =====
-- A card that keeps a log of the accesses on its bus, the last one first.
use fpga_config_space.Base.{
  ℕ, ◌+◌, ◌-◌, ◌*◌, ◌/◌, ◌%◌, ◌^◌, List, [], ◌∷◌, true, ◌≡◌, ◌≢◌, refl, ◌==◌, if◌then◌else◌, arith,
  inr,
}
use fpga_config_space.Endian.{little}
use fpga_config_space.Backends.{Region, control, window, Io}
use fpga_config_space.Backends.Lanes.{half, lanes_of, endian_addr}
use fpga_config_space.Wishbone.Bus.{Bus}
use fpga_config_space.Wishbone.Bus.Tests.{globals, accepting, two, two_sorted}
use fpga_config_space.Backends.Resources.Registered.{registration}
use fpga_config_space.Backends.Pcie.Probe.{Answers, probe}
use fpga_config_space.Backends.Resources.{Machine}
use fpga_config_space.Backends.Pcie.Probe.Settled.{IsSettled, probe-IsSettled}
use fpga_config_space.Backends.Pcie.{
  PcieWbDev, window_offset_low, wb_write, seek_window, write_piece,
}
use fpga_config_space.Backends.Pcie.Window.{Bridge, at_address, moved, wb_write-bus_write}
use fpga_config_space.Backends.Pcie.Ready.{
  write, enable, request, interrupt, perform_all, IsReady, perform_all-IsReady,
}

-- A width, an address and a value.
record Access : Type 0 where
  width : ℕ
  addr : ℕ
  value : ℕ

record Card : Type 0 where
  place : ℕ
  log : List Access

abbrev on_bus_write : (width addr value : ℕ) → Card → Card
on_bus_write width addr value card = record card {
  log = record { width = width; addr = addr; value = value } ∷ card.log;
}

-- An address reads as itself.
abbrev on_bus_read : (width addr : ℕ) → Card → ℕ × Card
on_bus_read width addr card = (addr % 2 ^ (8 * width), card)

abbrev on_write : Region → (width offset value : ℕ) → Card → Card
on_write window width offset value card = on_bus_write width (card.place + offset) value card
on_write control width offset value card =
    if offset == window_offset_low then record card { place = value } else card

abbrev on_read : Region → (width offset : ℕ) → Card → ℕ × Card
on_read window width offset card = on_bus_read width (card.place + offset) card
on_read control width offset card = (offset, card)

abbrev io : Io Card
io = record { ioread = on_read; iowrite = on_write }

stays_lem :
    (o v : ℕ) (card : Card)
    → o ≢ window_offset_low
    → (on_write control 4 o v card).place ≡ card.place
stays_lem o v card ne = ground (arith, ne)

abbrev bridge : Bridge io
bridge = record {
  place = λ card. card.place;
  bus_write = on_bus_write;
  bus_read = on_bus_read;
  seek = λ v card. refl;
  through = λ w o v card lt. refl;
  through_read = λ w o card lt. refl;
  stays_write = λ w a v card. refl;
  stays_read = λ w a card. refl;
  stays = stays_lem;
  stays_control = λ o card. refl;
}

-- What `probe` leaves, and then the lanes of the upper half word.
abbrev dev : PcieWbDev Card
dev = record {
  msi = true;
  window_offset = 0;
  lanes = lanes_of little 2 2;
  card = record { place = 0; log = [] };
}

wb_write-bus_write_example :
    wb_write io dev 0x12345 0xAABBCCDD
    ≡ at_address io bridge 0x12345 dev (
        on_bus_write 2
          (0x12345 - 0x12345 % 4 + endian_addr little 2 2)
          (0xAABBCCDD / 2 ^ (8 * 2) % 2 ^ (8 * 2))
          (moved io bridge 0x12345 dev.card))
wb_write-bus_write_example =
    wb_write-bus_write io bridge little 2 2 0x12345 0xAABBCCDD dev refl (half (inr refl)) refl
      (omega arith) (omega arith)

perform_all-IsReady_example :
    IsReady io bridge little
      (perform_all io little (enable 0x3 ∷ write 0x20000 7 ∷ request ∷ interrupt ∷ []) dev)
perform_all-IsReady_example =
    perform_all-IsReady io bridge little (enable 0x3 ∷ write 0x20000 7 ∷ request ∷ interrupt ∷ [])
      dev (tt, ((omega arith, omega arith), (tt, (tt, tt))))
      (record { cached = refl; lanes = (2, 2, half (inr refl), refl) })

-- The write above is the half word 0xAABB, at 0x12346.
logged :
    (wb_write io dev 0x12345 0xAABBCCDD).card.log
    ≡ record { width = 2; addr = 0x12346; value = 0xAABB } ∷ []
unfolding wb_write seek_window write_piece
logged = refl

abbrev answers : Answers
answers = record {
  revision = 1;
  enable = true;
  kmalloc = true;
  is_memory = true;
  region = λ bar. true;
  msi = true;
  request_irq = true;
}

abbrev machine : Machine (PcieWbDev Card) Bus
machine = record { held = []; bus = two; dev = dev }

probe-IsSettled_example :
    IsSettled io bridge little
      (registration globals (omega arith) (omega arith) accepting 200)
      machine
      (probe io (registration globals (omega arith) (omega arith) accepting 200) answers machine)
probe-IsSettled_example =
    probe-IsSettled io bridge little
      (registration globals (omega arith) (omega arith) accepting 200) answers machine
      (two_sorted, refl)
