-- ===== src/Endian/Tests.antt =====
-- The laws of byte order at small inputs.
use fpga_config_space.Base.{ℕ, zero, suc, ◌≡◌, refl, List, [], ◌∷◌, arith}
use fpga_config_space.Endian.{little, htonll}
use fpga_config_space.Endian.Laws.{IsBytes}

swaps : htonll little 0x0102 ≡ 0x0201_0000_0000_0000
unfolding htonll
swaps = refl

abbrev bytes : List ℕ
bytes = 0 ∷ 0 ∷ 0 ∷ 0 ∷ 0 ∷ 0 ∷ 1 ∷ 2 ∷ []

bytes_are : IsBytes bytes
bytes_are zero = omega arith
bytes_are (suc zero) = omega arith
bytes_are (suc (suc zero)) = omega arith
bytes_are (suc (suc (suc zero))) = omega arith
bytes_are (suc (suc (suc (suc zero)))) = omega arith
bytes_are (suc (suc (suc (suc (suc zero))))) = omega arith
bytes_are (suc (suc (suc (suc (suc (suc zero)))))) = omega arith
bytes_are (suc (suc (suc (suc (suc (suc (suc zero))))))) = omega arith
bytes_are (suc (suc (suc (suc (suc (suc (suc (suc i)))))))) = omega arith
