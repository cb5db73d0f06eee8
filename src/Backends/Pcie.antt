-- ===== src/Backends/Pcie.antt =====
-- The back end of pcie-wb/pcie_wb.c: a card with control registers in BAR 0 and a window of 64 KiB
-- into the bus in BAR 1.
pub mod Window
pub mod Ready
pub mod Tests
pub mod Probe
use fpga_config_space.Base.{
  ℕ, ◌+◌, ◌*◌, ◌/◌, ◌%◌, ◌^◌, Option, none, some, Bool, true, false, not, ◌&&◌, ◌==◌, if◌then◌else◌,
  bit_and,
}
use fpga_config_space.Endian.{Host}
use fpga_config_space.Wishbone.{Request, Operations}
use fpga_config_space.Backends.{Region, control, window, Io}
use fpga_config_space.Backends.Lanes.{Lanes, byteenable, shifted}

abbrev pub control_register_high : ℕ
control_register_high = 0

abbrev pub error_flag_high : ℕ
error_flag_high = 8

abbrev pub error_flag_low : ℕ
error_flag_low = 12

abbrev pub window_offset_low : ℕ
window_offset_low = 20

abbrev pub sdwb_address_high : ℕ
sdwb_address_high = 24

abbrev pub sdwb_address_low : ℕ
sdwb_address_low = 28

abbrev pub master_ctl_high : ℕ
master_ctl_high = 64

abbrev pub master_adr_low : ℕ
master_adr_low = 76

abbrev pub master_dat_low : ℕ
master_dat_low = 84

abbrev pub window_high : ℕ
window_high = 0xFFFF0000

abbrev pub window_low : ℕ
window_low = 0x0000FFFC

-- The fields of `struct pcie_wb_dev` that the operations use, with the card behind them.
pub record PcieWbDev (H : Type 0) : Type 0 where
  pub msi : Bool
  pub window_offset : ℕ
  pub lanes : Lanes
  pub card : H

abbrev pub wb_byteenable : {H : Type 0} → Host → PcieWbDev H → (be : ℕ) → PcieWbDev H
wb_byteenable h dev be = record dev { lanes = byteenable h be dev.lanes }

module _ {H : Type 0} (io : Io H) where
  unfoldable pub pcie_int_enable : Bool → PcieWbDev H → PcieWbDev H
  pcie_int_enable on dev =
      let enable = on && not dev.msi in
      record dev {
        card =
            io.iowrite control 4 control_register_high
              ((if enable then 0x20000000 else 0) + 0x10000000) dev.card;
      }

  -- wb_cycle. The mutex that it takes and gives keeps other users of the card away.
  unfoldable pub wb_cycle : PcieWbDev H → Bool → PcieWbDev H
  wb_cycle dev on = record dev {
    card =
        io.iowrite control 4 control_register_high ((if on then 0x80000000 else 0) + 0x40000000)
          dev.card;
  }

  -- The window is moved if it is not where the address needs it.
  unfoldable pub seek_window : (addr : ℕ) → PcieWbDev H → PcieWbDev H
  seek_window addr dev =
      let window_offset = bit_and addr window_high in
      if not (window_offset == dev.window_offset)
      then record dev {
        card = io.iowrite control 4 window_offset_low window_offset dev.card;
        window_offset = window_offset;
      }
      else dev

  -- The `switch` of `wb_write`: `low` is the offset of the word in the window.
  unfoldable pub write_piece : Lanes → (low dat : ℕ) → H → H
  write_piece l low dat card =
      let piece = dat / 2 ^ l.shift in
      if l.width == 4
      then io.iowrite window 4 low dat card
      else if l.width == 2
      then io.iowrite window 2 (low + l.low_addr) (piece % 2 ^ 16) card
      else if l.width == 1
      then io.iowrite window 1 (low + l.low_addr) (piece % 2 ^ 8) card
      else card

  unfoldable pub wb_write : PcieWbDev H → (addr dat : ℕ) → PcieWbDev H
  wb_write dev addr dat =
      let d = seek_window addr dev in
      record d { card = write_piece d.lanes (bit_and addr window_low) dat d.card }

  -- The `switch` of `wb_read`.
  unfoldable pub read_piece : Lanes → (low : ℕ) → H → ℕ × H
  read_piece l low card =
      if l.width == 4
      then io.ioread window 4 low card
      else if l.width == 2
      then shifted l.shift (io.ioread window 2 (low + l.low_addr) card)
      else if l.width == 1
      then shifted l.shift (io.ioread window 1 (low + l.low_addr) card)
      else (0, card)

  abbrev pub answered : PcieWbDev H → ℕ × H → ℕ × PcieWbDev H
  answered d (value, card) = (value, record d { card = card })

  unfoldable pub wb_read : PcieWbDev H → (addr : ℕ) → ℕ × PcieWbDev H
  wb_read dev addr =
      let d = seek_window addr dev in
      answered d (read_piece d.lanes (bit_and addr window_low) d.card)

  unfoldable pub wb_read_cfg : PcieWbDev H → (addr : ℕ) → ℕ × PcieWbDev H
  wb_read_cfg dev addr =
      if addr == 0
      then answered dev (io.ioread control 4 error_flag_high dev.card)
      else if addr == 4
      then answered dev (io.ioread control 4 error_flag_low dev.card)
      else if addr == 8
      then answered dev (io.ioread control 4 sdwb_address_high dev.card)
      else if addr == 12
      then answered dev (io.ioread control 4 sdwb_address_low dev.card)
      else (0, dev)

  -- Without a request, `wb_request` returns 0 and the record that it filled is not used.
  unfoldable pub wb_request : PcieWbDev H → Option Request × PcieWbDev H
  wb_request dev =
      let (ctl, card) = io.ioread control 4 master_ctl_high dev.card in
      let (addr, card') = io.ioread control 4 master_adr_low card in
      let (dat, card'') = io.ioread control 4 master_dat_low card' in
      let req : Request = record {
        write = not (bit_and ctl 0x40000000 == 0);
        addr = addr;
        dat = dat;
        mask = bit_and ctl 0xf;
      } in
      if bit_and ctl 0x80000000 == 0
      then (none, pcie_int_enable true (record dev { card = card'' }))
      else (
        some req,
        pcie_int_enable true (record dev { card = io.iowrite control 4 master_ctl_high 1 card'' }),
      )

  unfoldable pub wb_reply : PcieWbDev H → (err dat : ℕ) → PcieWbDev H
  wb_reply dev err dat = record dev {
    card =
        io.iowrite control 4 master_ctl_high (err + 2)
          (io.iowrite control 4 master_dat_low dat dev.card);
  }

  -- wb_ops
  abbrev pub wb_ops : Host → Operations (PcieWbDev H)
  wb_ops h = record {
    cycle = wb_cycle;
    byteenable = wb_byteenable h;
    write = wb_write;
    read = wb_read;
    read_cfg = wb_read_cfg;
    request = wb_request;
    reply = wb_reply;
  }

  -- irq_handler, up to the call of `wishbone_slave_ready`.
  unfoldable pub irq_handler : PcieWbDev H → PcieWbDev H
  irq_handler dev = pcie_int_enable false dev
