-- ===== src/Backends/Pcie/Window.antt =====
-- The accesses of pcie-wb/pcie_wb.c reach the address on the bus that they were given, wherever the
-- window stood before.
use fpga_config_space.Base.{
  ℕ, ◌+◌, ◌-◌, ◌*◌, ◌/◌, ◌%◌, ◌^◌, ◌≤◌, ◌<◌, not, ◌≡◌, ◌≢◌, sym, ap, ap₂, ◌∙◌, ◌==◌, if◌then◌else◌,
  arith, bit_and, Bool-cases, inl, inr,
}
use native.Mathlib.Nat.{add-zero}
use fpga_config_space.Base.Bits.{bit_and_ones, bit_and_shifted}
use fpga_config_space.Endian.{Host}
use fpga_config_space.Backends.{control, window, Io}
use fpga_config_space.Backends.Lanes.{
  IsAligned, byte, half, word, lanes_of, endian_addr, low_addr-le, low_addr_word, whole_word,
  in_lanes, shifted,
}
use fpga_config_space.Backends.Pcie.{
  PcieWbDev, window_offset_low, window_high, window_low, seek_window, write_piece, read_piece,
  wb_write, answered, wb_read,
}

-- What the driver relies on: an access through the window is one on the bus, at the address in the
-- register WINDOW_OFFSET_LOW plus the offset; and nothing else moves the window.
pub record Bridge {H : Type 0} (io : Io H) : Type 0 where
  pub place : H → ℕ
  pub bus_write : (width addr value : ℕ) → H → H
  pub bus_read : (width addr : ℕ) → H → ℕ × H
  pub seek : (v : ℕ) (h : H) → place (io.iowrite control 4 window_offset_low v h) ≡ v
  pub through :
      (w o v : ℕ) (h : H) → o < 2 ^ 16 → io.iowrite window w o v h ≡ bus_write w (place h + o) v h
  pub through_read :
      (w o : ℕ) (h : H) → o < 2 ^ 16 → io.ioread window w o h ≡ bus_read w (place h + o) h
  pub stays_write : (w a v : ℕ) (h : H) → place (bus_write w a v h) ≡ place h
  pub stays_read : (w a : ℕ) (h : H) → place (bus_read w a h).1 ≡ place h
  pub stays :
      (o v : ℕ) (h : H) → o ≢ window_offset_low → place (io.iowrite control 4 o v h) ≡ place h
  pub stays_control : (o : ℕ) (h : H) → place (io.ioread control 4 o h).1 ≡ place h

pub bit_and-window_high : (a : ℕ) → a < 2 ^ 32 → bit_and a window_high ≡ a / 2 ^ 16 * 2 ^ 16
bit_and-window_high a lt =
    bit_and_shifted 16 a (2 ^ 16 - 1) ∙ omega (arith, bit_and_ones 16 (a / 2 ^ 16), lt)

pub bit_and-window_low : (a : ℕ) → bit_and a window_low ≡ a / 4 % 2 ^ 14 * 4
bit_and-window_low a = bit_and_shifted 2 a (2 ^ 14 - 1) ∙ omega (arith, bit_and_ones 14 (a / 4))

module _ {H : Type 0} (io : Io H) (b : Bridge io) where
  -- The driver knows where the window is.
  abbrev pub IsCached : PcieWbDev H → Type 0
  IsCached dev = dev.window_offset ≡ b.place dev.card

  -- The card once the window is where an address needs it.
  abbrev pub moved : (addr : ℕ) → H → H
  moved addr h =
      if not (bit_and addr window_high == b.place h)
      then io.iowrite control 4 window_offset_low (bit_and addr window_high) h
      else h

  pub place-moved : (addr : ℕ) (h : H) → b.place (moved addr h) ≡ bit_and addr window_high
  place-moved addr h = elim (Bool-cases (bit_and addr window_high == b.place h)) [
    | inl e ↦ rw e (ground (arith, e))
    | inr e ↦ rw e (b.seek (bit_and addr window_high) h)
  ]

  abbrev with_card : PcieWbDev H → H → PcieWbDev H
  with_card dev card = record dev { card = card }

  seek_window_lem :
      (addr : ℕ) (dev : PcieWbDev H)
      → IsCached dev
      → seek_window io addr dev
        ≡ record dev { window_offset = bit_and addr window_high; card = moved addr dev.card }
  unfolding seek_window
  seek_window_lem addr dev c = ground (arith, c)

  at_window :
      (addr low : ℕ) (h : H)
      → addr < 2 ^ 32
      → b.place (moved addr h) + (bit_and addr window_low + low) ≡ addr - addr % 4 + low
  at_window addr low h lt =
      omega (arith, place-moved addr h, bit_and-window_high addr lt, bit_and-window_low addr, lt)

  -- The state after an access at an address, once the window is there.
  abbrev pub at_address : (addr : ℕ) → PcieWbDev H → H → PcieWbDev H
  at_address addr dev card = record dev { window_offset = bit_and addr window_high; card = card }

  through_window :
      (w addr low v : ℕ) (h : H)
      → addr < 2 ^ 32
      → low ≤ 3
      → io.iowrite window w (bit_and addr window_low + low) v (moved addr h)
        ≡ b.bus_write w (addr - addr % 4 + low) v (moved addr h)
  through_window w addr low v h lt le =
      b.through w (bit_and addr window_low + low) v (moved addr h)
        (omega (arith, bit_and-window_low addr, le))
      ∙ ap (λ a. b.bus_write w a v (moved addr h)) (at_window addr low h lt)

  through_window_read :
      (w addr low : ℕ) (h : H)
      → addr < 2 ^ 32
      → low ≤ 3
      → io.ioread window w (bit_and addr window_low + low) (moved addr h)
        ≡ b.bus_read w (addr - addr % 4 + low) (moved addr h)
  through_window_read w addr low h lt le =
      b.through_read w (bit_and addr window_low + low) (moved addr h)
        (omega (arith, bit_and-window_low addr, le))
      ∙ ap (λ a. b.bus_read w a (moved addr h)) (at_window addr low h lt)

  write_piece_lanes :
      (h : Host) (width lane addr dat : ℕ) (card : H)
      → IsAligned width lane
      → addr < 2 ^ 32
      → dat < 2 ^ 32
      → write_piece io (lanes_of h width lane) (bit_and addr window_low) dat (moved addr card)
        ≡ b.bus_write width
            (addr - addr % 4 + endian_addr h width lane)
            (dat / 2 ^ (8 * lane) % 2 ^ (8 * width))
            (moved addr card)
  unfolding write_piece
  write_piece_lanes h _ lane addr dat card (byte le) lt small =
      through_window 1 addr (endian_addr h 1 lane) _ card lt (low_addr-le h 1 lane (byte le))
  write_piece_lanes h _ lane addr dat card (half e) lt small =
      through_window 2 addr (endian_addr h 2 lane) _ card lt (low_addr-le h 2 lane (half e))
  write_piece_lanes h _ lane addr dat card (word e) lt small =
      ap (λ o. io.iowrite window 4 o dat (moved addr card))
        (sym (add-zero (bit_and addr window_low)))
      ∙ through_window 4 addr 0 dat card lt (omega arith)
      ∙ ap₂ (λ a v. b.bus_write 4 a v (moved addr card))
          (ap (λ o. addr - addr % 4 + o) (sym (low_addr_word h lane e)))
          (whole_word dat lane e small)

  read_piece_lanes :
      (h : Host) (width lane addr : ℕ) (card : H)
      → IsAligned width lane
      → addr < 2 ^ 32
      → read_piece io (lanes_of h width lane) (bit_and addr window_low) (moved addr card)
        ≡ in_lanes width lane
            (b.bus_read width (addr - addr % 4 + endian_addr h width lane) (moved addr card))
  unfolding read_piece
  read_piece_lanes h _ lane addr card (byte le) lt =
      ap (shifted (8 * lane))
        (through_window_read 1 addr (endian_addr h 1 lane) card lt (low_addr-le h 1 lane (byte le)))
  read_piece_lanes h _ lane addr card (half e) lt =
      ap (shifted (8 * lane))
        (through_window_read 2 addr (endian_addr h 2 lane) card lt (low_addr-le h 2 lane (half e)))
  read_piece_lanes h _ lane addr card (word e) lt =
      ap (λ o. io.ioread window 4 o (moved addr card)) (sym (add-zero (bit_and addr window_low)))
      ∙ through_window_read 4 addr 0 card lt (omega arith)
      ∙ ap (λ a. b.bus_read 4 a (moved addr card))
          (ap (λ o. addr - addr % 4 + o) (sym (low_addr_word h lane e)))

  -- A write of the lanes of one byte, half word or word. Wherever the window stood, the card makes
  -- one write on the bus: of as many bytes, at the address of the word that holds `addr` plus that of
  -- the lanes, of the data that stand in them.
  pub wb_write-bus_write :
      (h : Host) (width lane addr dat : ℕ) (dev : PcieWbDev H)
      → IsCached dev
      → IsAligned width lane
      → dev.lanes ≡ lanes_of h width lane
      → addr < 2 ^ 32
      → dat < 2 ^ 32
      → wb_write io dev addr dat
        ≡ at_address addr dev (
            b.bus_write width
              (addr - addr % 4 + endian_addr h width lane)
              (dat / 2 ^ (8 * lane) % 2 ^ (8 * width))
              (moved addr dev.card))
  unfolding wb_write
  wb_write-bus_write h width lane addr dat dev c al e lt small =
      ap (λ d. with_card d (write_piece io d.lanes (bit_and addr window_low) dat d.card))
        (seek_window_lem addr dev c)
      ∙ ap (at_address addr dev) (
          ap (λ l. write_piece io l (bit_and addr window_low) dat (moved addr dev.card)) e
          ∙ write_piece_lanes h width lane addr dat dev.card al lt small)

  -- A read of the lanes of one byte, half word or word: one read on the bus, of as many bytes, at the
  -- address of the word that holds `addr` plus that of the lanes; its value is put where the lanes
  -- stand.
  pub wb_read-bus_read :
      (h : Host) (width lane addr : ℕ) (dev : PcieWbDev H)
      → IsCached dev
      → IsAligned width lane
      → dev.lanes ≡ lanes_of h width lane
      → addr < 2 ^ 32
      → let (value, card) =
          in_lanes width lane
            (b.bus_read width (addr - addr % 4 + endian_addr h width lane) (moved addr dev.card)) in
        wb_read io dev addr ≡ (value, at_address addr dev card)
  unfolding wb_read
  wb_read-bus_read h width lane addr dev c al e lt =
      ap (λ d. answered io d (read_piece io d.lanes (bit_and addr window_low) d.card))
        (seek_window_lem addr dev c)
      ∙ ap (answered io (at_address addr dev (moved addr dev.card))) (
          ap (λ l. read_piece io l (bit_and addr window_low) (moved addr dev.card)) e
          ∙ read_piece_lanes h width lane addr dev.card al lt)
