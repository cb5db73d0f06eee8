-- ===== src/Backends/Spec/Tests.antt =====
-- A SPEC card of the fourth version, whose BAR 4 is taken, and accesses to its window.
use fpga_config_space.Base.{ℕ, ◌*◌, ◌%◌, ◌^◌, [], ◌==◌, true, not, refl, arith}
use fpga_config_space.Endian.{big}
use fpga_config_space.Wishbone.Bus.{Bus}
use fpga_config_space.Wishbone.Bus.Tests.{globals, accepting, two, two_sorted}
use fpga_config_space.Backends.{Io}
use fpga_config_space.Backends.Lanes.{lanes_of}
use fpga_config_space.Backends.Resources.{Machine}
use fpga_config_space.Backends.Resources.Registered.{registration}
use fpga_config_space.Backends.Spec.{SpecWbDev}
use fpga_config_space.Backends.Spec.Probe.{Answers, probe}
use fpga_config_space.Backends.Spec.Probe.Concluded.{IsConcluded, probe-IsConcluded}

-- The card remembers the last offset that was written.
abbrev io : Io ℕ
io = record {
  ioread = λ r width offset card. (offset % 2 ^ (8 * width), card);
  iowrite = λ r width offset value card. offset;
}

abbrev dev : SpecWbDev ℕ
dev = record { msi = true; lanes = lanes_of big 2 2; card = 0 }

abbrev answers : Answers
answers = record {
  vendor = 0x10dc;
  revision = 3;
  kmalloc = true;
  enable = 0;
  msi = true;
  region = λ bar. not (bar == 4);
}

abbrev machine : Machine (SpecWbDev ℕ) Bus
machine = record { held = []; bus = two; dev = dev }

probe-IsConcluded_example :
    IsConcluded
      (registration globals (omega arith) (omega arith) accepting 200)
      answers
      machine
      (probe (registration globals (omega arith) (omega arith) accepting 200) answers machine)
probe-IsConcluded_example =
    probe-IsConcluded (registration globals (omega arith) (omega arith) accepting 200) answers
      machine (two_sorted, refl)
