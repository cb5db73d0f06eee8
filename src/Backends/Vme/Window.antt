-- ===== src/Backends/Vme/Window.antt =====
-- The accesses of vme-wb/vme_wb_external.c reach the word on the bus that they were given, wherever
-- the window stood before, on a little-endian processor.
use fpga_config_space.Base.{
  ℕ, ◌+◌, ◌-◌, ◌/◌, ◌%◌, ◌^◌, ◌<◌, not, ◌≡◌, ap, ◌∙◌, ◌==◌, if◌then◌else◌, arith, bit_and,
  Bool-cases, inl, inr,
}
use fpga_config_space.Base.Bits.{bit_and_ones, bit_and_shifted}
use fpga_config_space.Endian.{little, htonl}
use fpga_config_space.Endian.Laws.{htonl-htonl}
use fpga_config_space.Backends.{control, window, Io}
use fpga_config_space.Backends.Pcie.Window.{bit_and-window_high, bit_and-window_low}
use fpga_config_space.Backends.Vme.{
  VmeWbDev, window_offset_low, wbm_add_mask, window_high, window_low, write_be, answered, read_be,
  seek_window, wb_write, wb_read,
}

-- What the driver relies on, on a little-endian processor: iowrite32 and ioread32 move the bytes of a
-- word as they are, and the card takes and gives words with the most significant byte first; an
-- access through the window is one on the bus, at the address in WINDOW_OFFSET_LOW plus the offset.
pub record BigEndianBridge {H : Type 0} (io : Io H) : Type 0 where
  pub place : H → ℕ
  pub bus_write : (addr value : ℕ) → H → H
  pub bus_read : (addr : ℕ) → H → ℕ × H
  pub bus_read-lt : (a : ℕ) (c : H) → (bus_read a c).0 < 2 ^ 32
  pub seek :
      (v : ℕ) (c : H)
      → v < 2 ^ 32
      → place (io.iowrite control 4 window_offset_low (htonl little v) c) ≡ v
  pub through :
      (o v : ℕ) (c : H)
      → o < 2 ^ 16
      → v < 2 ^ 32
      → io.iowrite window 4 o (htonl little v) c ≡ bus_write (place c + o) v c
  pub through_read :
      (o : ℕ) (c : H)
      → o < 2 ^ 16
      → io.ioread window 4 o c
        ≡ (htonl little (bus_read (place c + o) c).0, (bus_read (place c + o) c).1)

bit_and-wbm_add_mask : (a : ℕ) → a < 2 ^ 32 → bit_and a wbm_add_mask ≡ a - a % 4
bit_and-wbm_add_mask a lt =
    bit_and_shifted 2 a (2 ^ 30 - 1) ∙ omega (arith, bit_and_ones 30 (a / 4), lt)

module _ {H : Type 0} (io : Io H) (b : BigEndianBridge io) where
  abbrev pub IsCached : VmeWbDev H → Type 0
  IsCached dev = dev.window_offset ≡ b.place dev.card

  -- The card once the window is where an address needs it.
  abbrev pub moved : (addr : ℕ) → H → H
  moved addr c =
      if not (bit_and addr window_high == b.place c)
      then write_be io little control window_offset_low (bit_and addr window_high) c
      else c

  place-moved :
      (addr : ℕ) (c : H) → addr < 2 ^ 32 → b.place (moved addr c) ≡ bit_and addr window_high
  place-moved addr c lt = elim (Bool-cases (bit_and addr window_high == b.place c)) [
    | inl e ↦ rw e (ground (arith, e))
    | inr e ↦
        rw e (b.seek (bit_and addr window_high) c (omega (arith, bit_and-window_high addr lt, lt)))
  ]

  abbrev pub at_address : (addr : ℕ) → VmeWbDev H → H → VmeWbDev H
  at_address addr dev c = record dev { window_offset = bit_and addr window_high; card = c }

  seek_window_lem :
      (addr : ℕ) (dev : VmeWbDev H)
      → IsCached dev
      → seek_window io little addr dev ≡ at_address addr dev (moved addr dev.card)
  unfolding seek_window
  seek_window_lem addr dev c = ground (arith, c)

  at_window :
      (a : ℕ) (c : H) → a < 2 ^ 32 → a % 4 ≡ 0 → b.place (moved a c) + bit_and a window_low ≡ a
  at_window a c lt aligned =
      omega (arith, place-moved a c lt, bit_and-window_high a lt, bit_and-window_low a, lt, aligned)

  low-lt : (a : ℕ) → bit_and a window_low < 2 ^ 16
  low-lt a = omega (arith, bit_and-window_low a)

  abbrev stored : (a dat : ℕ) → VmeWbDev H → VmeWbDev H
  stored a dat d = record d { card = write_be io little window (bit_and a window_low) dat d.card }

  word_write :
      (a dat : ℕ) (dev : VmeWbDev H)
      → IsCached dev
      → a < 2 ^ 32
      → a % 4 ≡ 0
      → dat < 2 ^ 32
      → stored a dat (seek_window io little a dev)
        ≡ at_address a dev (b.bus_write a dat (moved a dev.card))
  word_write a dat dev c lt aligned small =
      ap (stored a dat) (seek_window_lem a dev c)
      ∙ ap (at_address a dev) (
          b.through (bit_and a window_low) dat (moved a dev.card) (low-lt a) small
          ∙ ap (λ o. b.bus_write o dat (moved a dev.card)) (at_window a dev.card lt aligned))

  -- What `read_be` makes of a word of the bus.
  abbrev swapped : ℕ × H → ℕ × H
  swapped (value, c) = (htonl little value, c)

  read_be-through :
      (o : ℕ) (c : H) → o < 2 ^ 16 → read_be io little window o c ≡ b.bus_read (b.place c + o) c
  read_be-through o c lt =
      ap swapped (b.through_read o c lt)
      ∙ ap (λ v. (v, (b.bus_read (b.place c + o) c).1))
          (htonl-htonl little (b.bus_read (b.place c + o) c).0 (b.bus_read-lt (b.place c + o) c))

  word_read :
      (a : ℕ) (dev : VmeWbDev H)
      → IsCached dev
      → a < 2 ^ 32
      → a % 4 ≡ 0
      → let d = seek_window io little a dev in
        answered io little d (read_be io little window (bit_and a window_low) d.card)
        ≡ answered io little (at_address a dev (moved a dev.card)) (b.bus_read a (moved a dev.card))
  word_read a dev c lt aligned =
      ap (λ d. answered io little d (read_be io little window (bit_and a window_low) d.card))
        (seek_window_lem a dev c)
      ∙ ap (answered io little (at_address a dev (moved a dev.card))) (
          read_be-through (bit_and a window_low) (moved a dev.card) (low-lt a)
          ∙ ap (λ o. b.bus_read o (moved a dev.card)) (at_window a dev.card lt aligned))

  -- A write on a little-endian processor, with the address and the data 32-bit words. Wherever the window stood, the card makes one
  -- write of the data on the bus, at the address of the word that holds `addr`, if it takes words with
  -- the most significant byte first.
  pub wb_write-bus_write_be :
      (addr dat : ℕ) (dev : VmeWbDev H)
      → IsCached dev
      → addr < 2 ^ 32
      → dat < 2 ^ 32
      → wb_write io little dev addr dat
        ≡ at_address
            (addr - addr % 4)
            dev
            (b.bus_write (addr - addr % 4) dat (moved (addr - addr % 4) dev.card))
  unfolding wb_write
  wb_write-bus_write_be addr dat dev c lt small =
      ap (λ a. stored a dat (seek_window io little a dev)) (bit_and-wbm_add_mask addr lt)
      ∙ word_write (addr - addr % 4) dat dev c (omega (arith, lt)) (omega arith) small

  -- A read of a 32-bit address on a little-endian processor: one read on the bus, at the address of the word that holds `addr`, and
  -- its value is the one of the bus.
  pub wb_read-bus_read_be :
      (addr : ℕ) (dev : VmeWbDev H)
      → IsCached dev
      → addr < 2 ^ 32
      → let a = addr - addr % 4 in
        wb_read io little dev addr
        ≡ answered io little (at_address a dev (moved a dev.card)) (b.bus_read a (moved a dev.card))
  unfolding wb_read
  wb_read-bus_read_be addr dev c lt =
      ap
        (λ a.
          let d = seek_window io little a dev in
          answered io little d (read_be io little window (bit_and a window_low) d.card))
        (bit_and-wbm_add_mask addr lt)
      ∙ word_read (addr - addr % 4) dev c (omega (arith, lt)) (omega arith)
