-- ===== src/Backends/Vme/Tests.antt =====
-- A card on the VME bus that keeps what is written through its window.
use fpga_config_space.Base.{
  ℕ, ◌+◌, ◌%◌, ◌^◌, ◌<◌, [], ◌==◌, if◌then◌else◌, true, false, ◌≡◌, refl, ap, arith, update,
}
use fpga_config_space.Endian.{little, htonl}
use fpga_config_space.Endian.Laws.{htonl-htonl}
use fpga_config_space.Wishbone.Bus.{Bus}
use fpga_config_space.Wishbone.Bus.Tests.{globals, accepting, two, two_sorted}
use fpga_config_space.Backends.{Region, window, control, Io}
use fpga_config_space.Backends.Resources.{Machine}
use fpga_config_space.Backends.Resources.Registered.{registration}
use fpga_config_space.Backends.Vme.{VmeWbDev, window_offset_low, wb_write}
use fpga_config_space.Backends.Vme.Window.{
  BigEndianBridge, at_address, moved, wb_write-bus_write_be,
}
use fpga_config_space.Backends.Vme.Probe.{VmeDev, Answers, vme_probe}
use fpga_config_space.Backends.Vme.Probe.Finished.{IsFinished, all_unmapped, vme_probe-IsFinished}

record Card : Type 0 where
  place : ℕ
  words : ℕ → ℕ

abbrev on_read : Region → (width offset : ℕ) → Card → ℕ × Card
on_read window width offset card = (htonl little (card.words (card.place + offset) % 2 ^ 32), card)
on_read control width offset card = (0, card)

abbrev on_write : Region → (width offset value : ℕ) → Card → Card
on_write window width offset value card = record card {
  words = update card.words (card.place + offset) (htonl little value);
}
on_write control width offset value card =
    if offset == window_offset_low then record card { place = htonl little value } else card

abbrev io : Io Card
io = record { ioread = on_read; iowrite = on_write }

abbrev with_word : Card → (a v : ℕ) → Card
with_word c a v = record c { words = update c.words a v }

through_lem :
    (o v : ℕ) (c : Card)
    → v < 2 ^ 32
    → on_write window 4 o (htonl little v) c ≡ with_word c (c.place + o) v
through_lem o v c lt = ap (λ x. with_word c (c.place + o) x) (htonl-htonl little v lt)

abbrev bridge : BigEndianBridge io
bridge = record {
  place = λ c. c.place;
  bus_write = λ a v c. record c { words = update c.words a v };
  bus_read = λ a c. (c.words a % 2 ^ 32, c);
  bus_read-lt = λ a c. omega arith;
  seek = λ v c lt. htonl-htonl little v lt;
  through = λ o v c le lt. through_lem o v c lt;
  through_read = λ o c lt. refl;
}

abbrev dev : VmeWbDev Card
dev = record { window_offset = 0; card = record { place = 0; words = λ a. a } }

wb_write-bus_write_be_example :
    wb_write io little dev 0x12345 7
    ≡ at_address io bridge 0x12344 dev
        (bridge.bus_write 0x12344 7 (moved io bridge 0x12344 dev.card))
wb_write-bus_write_be_example =
    wb_write-bus_write_be io bridge 0x12345 7 dev refl (omega arith) (omega arith)

-- The card spells its vendor; the interrupt is refused.
abbrev csr_read : (offset : ℕ) → Card → ℕ
csr_read offset card =
    htonl little (if offset == 0x24 then 8 else if offset == 0x28 then 3 else 0x31)

abbrev answers : Answers
answers = record {
  lun_fits = true;
  slot = 5;
  vector = 0x60;
  level = 6;
  kzalloc = true;
  mapping_memory = λ w. true;
  find = λ w. true;
  request_irq = false;
}

abbrev machine : Machine (VmeDev Card) Bus
machine = record { held = []; bus = two; dev = record { map = λ i. false; wb = dev } }

vme_probe-IsFinished_example :
    IsFinished io little
      (registration globals (omega arith) (omega arith) accepting 200)
      csr_read
      (λ offset value card. card)
      8
      56
      machine
      (vme_probe io little
        (registration globals (omega arith) (omega arith) accepting 200)
        csr_read
        (λ offset value card. card)
        8
        56
        all_unmapped
        answers
        machine)
vme_probe-IsFinished_example =
    vme_probe-IsFinished io little (registration globals (omega arith) (omega arith) accepting 200)
      csr_read (λ offset value card. card) 8 56 answers machine (two_sorted, refl)
