-- ===== src/Backends/Lanes.antt =====
-- `wb_byteenable`, which pcie-wb/pcie_wb.c and pcie-wb/spec_wb.c have in common: the byte lanes of a
-- word that the next accesses touch.
use fpga_config_space.Base.{
  ℕ, zero, suc, ◌-◌, ◌*◌, ◌^◌, ◌≤◌, ◌≡◌, refl, ◌==◌, ◌⊎◌, inl, inr, arith, if◌then◌else◌, ◌/◌, ◌%◌,
  ◌<◌,
}
use fpga_config_space.Endian.{Host, little, big}

-- The fields `width` in bytes, `shift` in bits, and `low_addr`.
pub record Lanes : Type 0 where
  pub width : ℕ
  pub shift : ℕ
  pub low_addr : ℕ

-- endian_addr(width, shift)
abbrev pub endian_addr : Host → (width shift : ℕ) → ℕ
endian_addr little width shift = shift
endian_addr big width shift = 4 - width - shift

unfoldable pub byteenable : Host → (be : ℕ) → Lanes → Lanes
byteenable h be old =
    if be == 0x1
    then record { width = 1; shift = 0; low_addr = endian_addr h 1 0 }
    else if be == 0x2
    then record { width = 1; shift = 8; low_addr = endian_addr h 1 1 }
    else if be == 0x4
    then record { width = 1; shift = 16; low_addr = endian_addr h 1 2 }
    else if be == 0x8
    then record { width = 1; shift = 24; low_addr = endian_addr h 1 3 }
    else if be == 0x3
    then record { width = 2; shift = 0; low_addr = endian_addr h 2 0 }
    else if be == 0xC
    then record { width = 2; shift = 16; low_addr = endian_addr h 2 2 }
    else if be == 0xF
    then record { width = 4; shift = 0; low_addr = endian_addr h 4 0 }
    else old

-- What a card answers, shifted to its lanes.
abbrev pub shifted : {H : Type 0} → (shift : ℕ) → ℕ × H → ℕ × H
shifted shift (value, card) = (value * 2 ^ shift % 2 ^ 32, card)

-- The masks of one aligned byte, half word or word: `lane` is the lowest byte of a piece of `width`.
pub data IsAligned : (width lane : ℕ) → Type 0 where
  byte : {lane : ℕ} → lane ≤ 3 → IsAligned 1 lane
  half : {lane : ℕ} → (lane ≡ 0) ⊎ (lane ≡ 2) → IsAligned 2 lane
  word : {lane : ℕ} → lane ≡ 0 → IsAligned 4 lane

-- The mask of `width` lanes from `lane` on.
abbrev pub mask_of : (width lane : ℕ) → ℕ
mask_of width lane = (2 ^ width - 1) * 2 ^ lane

-- The lanes of a piece: its data stand `lane` bytes up in a word, and its address in memory is
-- counted from the other end on a processor with the most significant byte first.
abbrev pub lanes_of : Host → (width lane : ℕ) → Lanes
lanes_of h width lane = record {
  width = width;
  shift = 8 * lane;
  low_addr = endian_addr h width lane;
}

-- A value read for the lanes of a piece, where they stand in a word.
abbrev pub in_lanes : {H : Type 0} → (width lane : ℕ) → ℕ × H → ℕ × H
in_lanes width lane (value, card) =
    ((if width == 4 then value else value * 2 ^ (8 * lane) % 2 ^ 32), card)

pub low_addr-le : (h : Host) (width lane : ℕ) → IsAligned width lane → endian_addr h width lane ≤ 3
low_addr-le little _ lane (byte le) = le
low_addr-le little _ lane (half (inl e)) = omega (arith, e)
low_addr-le little _ lane (half (inr e)) = omega (arith, e)
low_addr-le little _ lane (word e) = omega (arith, e)
low_addr-le big _ lane (byte le) = omega arith
low_addr-le big _ lane (half e) = omega arith
low_addr-le big _ lane (word e) = omega arith

pub low_addr_word : (h : Host) (lane : ℕ) → lane ≡ 0 → endian_addr h 4 lane ≡ 0
low_addr_word little lane e = e
low_addr_word big lane e = omega arith

pub whole_word : (dat lane : ℕ) → lane ≡ 0 → dat < 2 ^ 32 → dat ≡ dat / 2 ^ (8 * lane) % 2 ^ 32
whole_word dat lane e small = rw e (omega (arith, small))

-- A mask of one aligned byte, half word or word selects its lanes, on a processor of either order.
pub byteenable-lanes_of :
    (h : Host) (width lane : ℕ) (old : Lanes)
    → IsAligned width lane
    → byteenable h (mask_of width lane) old ≡ lanes_of h width lane
unfolding byteenable
byteenable-lanes_of h _ _ old (byte {lane = zero} le) = refl
byteenable-lanes_of h _ _ old (byte {lane = suc zero} le) = refl
byteenable-lanes_of h _ _ old (byte {lane = suc (suc zero)} le) = refl
byteenable-lanes_of h _ _ old (byte {lane = suc (suc (suc zero))} le) = refl
byteenable-lanes_of h _ _ old (byte {lane = suc (suc (suc (suc lane)))} le) =
    absurd (omega (arith, le))
byteenable-lanes_of h _ _ old (half (inl e)) = ground (arith, e)
byteenable-lanes_of h _ _ old (half (inr e)) = ground (arith, e)
byteenable-lanes_of h _ _ old (word e) = ground (arith, e)
