-- ===== src/Backends/Spec.antt =====
-- The back end of pcie-wb/spec_wb.c: a card whose BAR 0 shows 256 KiB of the bus from the offset
-- WB_OFFSET on. It has no window to move and is never the slave of a request.
pub mod Probe
pub mod Tests
use fpga_config_space.Base.{
  ℕ, zero, ◌+◌, ◌-◌, ◌*◌, ◌/◌, ◌%◌, ◌^◌, ◌≤◌, ◌<◌, Option, none, some, Bool, true, false, ◌≡◌, refl,
  sym, ap, ap₂, ◌∙◌, ◌==◌, if◌then◌else◌, arith, bit_and, inl, inr,
}
use fpga_config_space.Base.Bits.{bit_and_shifted, bit_and_ones}
use fpga_config_space.Endian.{Host, little, big}
use fpga_config_space.Wishbone.{Request, Operations}
use fpga_config_space.Backends.{Region, window, Io}
use fpga_config_space.Backends.Lanes.{
  Lanes, IsAligned, byte, half, word, lanes_of, endian_addr, byteenable, low_addr-le, low_addr_word,
  whole_word, in_lanes, shifted,
}

abbrev pub wb_offset : ℕ
wb_offset = 0x80000

abbrev pub wb_low : ℕ
wb_low = 0x3fffc

-- The fields of `struct spec_wb_dev` that the operations use, with the card behind them.
pub record SpecWbDev (H : Type 0) : Type 0 where
  pub msi : Bool
  pub lanes : Lanes
  pub card : H

-- The same `switch` as in pcie-wb/pcie_wb.c.
abbrev pub wb_byteenable : {H : Type 0} → Host → SpecWbDev H → (be : ℕ) → SpecWbDev H
wb_byteenable h dev be = record dev { lanes = byteenable h be dev.lanes }

module _ {H : Type 0} (io : Io H) where
  -- The mutex that `wb_cycle` takes and gives is all it does.
  abbrev pub wb_cycle : SpecWbDev H → Bool → SpecWbDev H
  wb_cycle dev on = dev

  unfoldable pub write_at : Lanes → (at dat : ℕ) → H → H
  write_at l at dat card =
      let piece = dat / 2 ^ l.shift in
      if l.width == 4
      then io.iowrite window 4 (wb_offset + at) dat card
      else if l.width == 2
      then io.iowrite window 2 (wb_offset + at) (piece % 2 ^ 16) card
      else if l.width == 1
      then io.iowrite window 1 (wb_offset + at) (piece % 2 ^ 8) card
      else card

  unfoldable pub wb_write : SpecWbDev H → (addr dat : ℕ) → SpecWbDev H
  wb_write dev addr dat = record dev {
    card = write_at dev.lanes (bit_and addr wb_low + dev.lanes.low_addr) dat dev.card;
  }

  -- The `switch` of `wb_read`.
  unfoldable pub read_at : Lanes → (at : ℕ) → H → ℕ × H
  read_at l at card =
      if l.width == 4
      then io.ioread window 4 (wb_offset + at) card
      else if l.width == 2
      then shifted l.shift (io.ioread window 2 (wb_offset + at) card)
      else if l.width == 1
      then shifted l.shift (io.ioread window 1 (wb_offset + at) card)
      else (0, card)

  abbrev pub answered : SpecWbDev H → ℕ × H → ℕ × SpecWbDev H
  answered dev (value, card) = (value, record dev { card = card })

  unfoldable pub wb_read : SpecWbDev H → (addr : ℕ) → ℕ × SpecWbDev H
  wb_read dev addr =
      answered dev (read_at dev.lanes (bit_and addr wb_low + dev.lanes.low_addr) dev.card)

  -- The module parameter `sdb_addr` is 0x100 unless it is set.
  unfoldable pub wb_read_cfg : (sdb_addr : ℕ) → SpecWbDev H → (addr : ℕ) → ℕ × SpecWbDev H
  wb_read_cfg sdb_addr dev addr = ((if addr == 12 then sdb_addr else 0), dev)

  abbrev pub wb_request : SpecWbDev H → Option Request × SpecWbDev H
  wb_request dev = (none, dev)

  abbrev pub wb_reply : SpecWbDev H → (err dat : ℕ) → SpecWbDev H
  wb_reply dev err dat = dev

  -- wb_ops
  abbrev pub wb_ops : Host → (sdb_addr : ℕ) → Operations (SpecWbDev H)
  wb_ops h sdb_addr = record {
    cycle = wb_cycle;
    byteenable = wb_byteenable h;
    write = wb_write;
    read = wb_read;
    read_cfg = wb_read_cfg sdb_addr;
    request = wb_request;
    reply = wb_reply;
  }

bit_and-wb_low : (a : ℕ) → bit_and a wb_low ≡ a % 2 ^ 18 - a % 4
bit_and-wb_low a = bit_and_shifted 2 a (2 ^ 16 - 1) ∙ omega (arith, bit_and_ones 16 (a / 4))

-- Where BAR 0 shows a piece of a word.
abbrev pub place_of : Host → (width lane addr : ℕ) → ℕ
place_of h width lane addr = wb_offset + (addr % 2 ^ 18 - addr % 4 + endian_addr h width lane)

module _ {H : Type 0} (io : Io H) where
  write_at_lanes :
      (h : Host) (width lane at dat : ℕ) (card : H)
      → IsAligned width lane
      → dat < 2 ^ 32
      → write_at io (lanes_of h width lane) at dat card
        ≡ io.iowrite window width (wb_offset + at) (dat / 2 ^ (8 * lane) % 2 ^ (8 * width)) card
  unfolding write_at
  write_at_lanes h _ lane at dat card (byte le) small = refl
  write_at_lanes h _ lane at dat card (half e) small = refl
  write_at_lanes h _ lane at dat card (word e) small =
      ap (λ v. io.iowrite window 4 (wb_offset + at) v card) (whole_word dat lane e small)

  read_at_lanes :
      (h : Host) (width lane at : ℕ) (card : H)
      → IsAligned width lane
      → read_at io (lanes_of h width lane) at card
        ≡ in_lanes width lane (io.ioread window width (wb_offset + at) card)
  unfolding read_at
  read_at_lanes h _ lane at card (byte le) = refl
  read_at_lanes h _ lane at card (half e) = refl
  read_at_lanes h _ lane at card (word e) = refl

  -- A write of the lanes of one byte, half word or word. The card sees one write of as many bytes
  -- in BAR 0: at WB_OFFSET, plus the word that holds `addr` in the 256 KiB that are shown, plus the
  -- address of the lanes; its data are those that stand in the lanes. The address lies in the
  -- 256 KiB.
  pub wb_write-place_of :
      (h : Host) (width lane addr dat : ℕ) (dev : SpecWbDev H)
      → IsAligned width lane
      → dev.lanes ≡ lanes_of h width lane
      → dat < 2 ^ 32
      → (wb_write io dev addr dat ≡ record dev {
        card =
            io.iowrite window width
              (place_of h width lane addr)
              (dat / 2 ^ (8 * lane) % 2 ^ (8 * width))
              dev.card;
      })
        × (wb_offset ≤ place_of h width lane addr)
        × (place_of h width lane addr < wb_offset + 2 ^ 18)
  unfolding wb_write
  wb_write-place_of h width lane addr dat dev al e small = (
    ap (λ c. record dev { card = c })
        (ap (λ l. write_at io l (bit_and addr wb_low + l.low_addr) dat dev.card) e
          ∙ write_at_lanes h width lane _ dat dev.card al small
          ∙ ap
              (λ a.
                io.iowrite window width (wb_offset + (a + endian_addr h width lane))
                  (dat / 2 ^ (8 * lane) % 2 ^ (8 * width)) dev.card)
              (bit_and-wb_low addr)),
    omega arith,
    omega (arith, low_addr-le h width lane al),
  )

  -- A read of the lanes of one byte, half word or word: one read of as many bytes at that place in
  -- BAR 0; its value is put where the lanes stand.
  pub wb_read-place_of :
      (h : Host) (width lane addr : ℕ) (dev : SpecWbDev H)
      → IsAligned width lane
      → dev.lanes ≡ lanes_of h width lane
      → wb_read io dev addr
        ≡ answered io dev
            (in_lanes width lane (io.ioread window width (place_of h width lane addr) dev.card))
  unfolding wb_read
  wb_read-place_of h width lane addr dev al e = ap (answered io dev) (
      ap (λ l. read_at io l (bit_and addr wb_low + l.low_addr) dev.card) e
      ∙ read_at_lanes h width lane _ dev.card al
      ∙ ap
          (λ a.
            in_lanes width lane
              (io.ioread window width (wb_offset + (a + endian_addr h width lane)) dev.card))
          (bit_and-wb_low addr))
