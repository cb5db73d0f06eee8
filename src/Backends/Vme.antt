-- ===== src/Backends/Vme.antt =====
-- The back end of vme-wb/vme_wb_external.c: a card on the VME bus, with control registers in the A24
-- space and a window of 64 KiB into the bus in the A32 space. Its registers have the most significant
-- byte first.
pub mod Window
pub mod Csr
pub mod Probe
pub mod Tests
use fpga_config_space.Base.{
  ℕ, ◌+◌, Option, none, some, Bool, true, false, not, ◌==◌, if◌then◌else◌, bit_and,
}
use fpga_config_space.Endian.{Host, htonl}
use fpga_config_space.Wishbone.{Request, Operations}
use fpga_config_space.Backends.{Region, control, window, Io}

abbrev pub error_flag : ℕ
error_flag = 0

abbrev pub sdwb_address : ℕ
sdwb_address = 8

abbrev pub ctrl : ℕ
ctrl = 16

abbrev pub master_ctrl : ℕ
master_ctrl = 24

abbrev pub master_add : ℕ
master_add = 32

abbrev pub master_data : ℕ
master_data = 40

abbrev pub emul_dat_wd : ℕ
emul_dat_wd = 48

abbrev pub window_offset_low : ℕ
window_offset_low = 56

abbrev pub wbm_add_mask : ℕ
wbm_add_mask = 0xFFFFFFFC

abbrev pub window_high : ℕ
window_high = 0xFFFF0000

abbrev pub window_low : ℕ
window_low = 0x0000FFFC

-- The fields of `struct vme_wb_dev` that the operations use, with the card behind them.
pub record VmeWbDev (H : Type 0) : Type 0 where
  pub window_offset : ℕ
  pub card : H

module _ {H : Type 0} (io : Io H) (h : Host) where
  -- iowrite32(cpu_to_be32(value), ...) and be32_to_cpu(ioread32(...)).
  abbrev pub write_be : Region → (offset value : ℕ) → H → H
  write_be r offset value card = io.iowrite r 4 offset (htonl h value) card

  abbrev pub read_be : Region → (offset : ℕ) → H → ℕ × H
  read_be r offset card = let (value, card') = io.ioread r 4 offset card in (htonl h value, card')

  abbrev pub answered : VmeWbDev H → ℕ × H → ℕ × VmeWbDev H
  answered dev (value, card) = (value, record dev { card = card })

  -- wb_cycle. The mutex that it takes and gives keeps other users of the card away.
  unfoldable pub wb_cycle : VmeWbDev H → Bool → VmeWbDev H
  wb_cycle dev on = record dev {
    card = write_be control ctrl ((if on then 0x80000000 else 0) + 0x40000000) dev.card;
  }

  unfoldable pub wb_read_cfg : VmeWbDev H → (addr : ℕ) → ℕ × VmeWbDev H
  wb_read_cfg dev addr =
      if addr == 4
      then answered dev (read_be control error_flag dev.card)
      else if addr == 12
      then answered dev (read_be control sdwb_address dev.card)
      else (0, dev)

  -- The window is moved if it is not where the address needs it.
  unfoldable pub seek_window : (addr : ℕ) → VmeWbDev H → VmeWbDev H
  seek_window addr dev =
      let window_offset = bit_and addr window_high in
      if not (window_offset == dev.window_offset)
      then record {
        window_offset = window_offset;
        card = write_be control window_offset_low window_offset dev.card;
      }
      else dev

  unfoldable pub wb_write : VmeWbDev H → (addr dat : ℕ) → VmeWbDev H
  wb_write dev addr dat =
      let word_addr = bit_and addr wbm_add_mask in
      let d = seek_window word_addr dev in
      record d { card = write_be window (bit_and word_addr window_low) dat d.card }

  unfoldable pub wb_read : VmeWbDev H → (addr : ℕ) → ℕ × VmeWbDev H
  wb_read dev addr =
      let word_addr = bit_and addr wbm_add_mask in
      let d = seek_window word_addr dev in
      answered d (read_be window (bit_and word_addr window_low) d.card)

  -- Without a request, `wb_request` returns 0 and the record that it filled is not used.
  unfoldable pub wb_request : VmeWbDev H → Option Request × VmeWbDev H
  wb_request dev =
      let (c, card) = read_be control master_ctrl dev.card in
      let (addr, card') = read_be control master_add card in
      let (dat, card'') = read_be control master_data card' in
      let req : Request = record {
        write = not (bit_and c 0x40000000 == 0);
        addr = addr;
        dat = dat;
        mask = bit_and c 0xf;
      } in
      if bit_and c 0x80000000 == 0
      then (none, record dev { card = card'' })
      else (some req, record dev { card = write_be control master_ctrl 1 card'' })

  unfoldable pub wb_reply : VmeWbDev H → (err dat : ℕ) → VmeWbDev H
  wb_reply dev err dat = record dev {
    card = write_be control master_ctrl (err + 2) (write_be control master_data dat dev.card);
  }

  unfoldable pub wb_byteenable : VmeWbDev H → (be : ℕ) → VmeWbDev H
  wb_byteenable dev be = record dev { card = write_be control emul_dat_wd be dev.card }

  -- wb_ops
  abbrev pub wb_ops : Operations (VmeWbDev H)
  wb_ops = record {
    cycle = wb_cycle;
    byteenable = wb_byteenable;
    write = wb_write;
    read = wb_read;
    read_cfg = wb_read_cfg;
    request = wb_request;
    reply = wb_reply;
  }

  unfoldable pub init_ctrl_reg : VmeWbDev H → VmeWbDev H
  init_ctrl_reg dev = record dev {
    card =
        io.iowrite control 4 master_ctrl 0
          (io.iowrite control 4 window_offset_low 0 (io.iowrite control 4 emul_dat_wd 0 dev.card));
  }
