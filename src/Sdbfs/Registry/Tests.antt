-- ===== src/Sdbfs/Registry/Tests.antt =====
-- The theorems on the list of devices at a list of two, and on the magic number at an image.
use fpga_config_space.Base.{
  ℕ, zero, suc, ◌<◌, none, some, List, [], ◌∷◌, true, false, refl, arith, get_or,
}
use fpga_config_space.Endian.{little}
use fpga_config_space.Sdbfs.{Fs}
use fpga_config_space.Sdbfs.Registry.{Ptr, Registry, dev_create}
use fpga_config_space.Sdbfs.Registry.Chain.{IsRegistry}
use fpga_config_space.Sdbfs.Registry.Magic.{Accepts, dev_create-Accepts}

-- The devices at 8 and 4, named "b" and "a".
abbrev names : Ptr → List ℕ
names p = p ∷ []

abbrev two : Registry
two = record {
  head = 8;
  next = λ p. get_or (0 ∷ 0 ∷ 0 ∷ 0 ∷ 0 ∷ 0 ∷ 0 ∷ 0 ∷ 4 ∷ []) p 0;
  name = λ p. some (p ∷ []);
}

two-IsRegistry : IsRegistry two (8 ∷ 4 ∷ [])
two-IsRegistry = record { chain = omega arith; distinct = (refl, (refl, tt)) }

-- "-BDS": the magic number behind a bus that swaps the bytes of each word.
abbrev swapped : Fs
swapped = record {
  name = none;
  entrypoint = 0;
  convert32 = false;
  zerobased = false;
  mapped = true;
  memory = λ i. get_or (0x2d ∷ 0x42 ∷ 0x44 ∷ 0x53 ∷ []) i 0;
  read = none;
  write = none;
  currentp = none;
  current_record = [];
  f_len = 0;
  f_offset = 0;
  read_offset = 0;
  base = λ i. 0;
  this = λ i. 0;
  nleft = λ i. 0;
  depth = 0;
}

get_or_small : (i : ℕ) → swapped.memory i < 256
get_or_small zero = omega arith
get_or_small (suc zero) = omega arith
get_or_small (suc (suc zero)) = omega arith
get_or_small (suc (suc (suc zero))) = omega arith
get_or_small (suc (suc (suc (suc i)))) = omega arith

dev_create-Accepts_example : Accepts little 2 swapped two (dev_create little 2 swapped two [])
dev_create-Accepts_example = dev_create-Accepts 2 swapped two little [] refl get_or_small refl
