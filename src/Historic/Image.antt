-- ===== src/Historic/Image.antt =====
-- The firmware file that historic/driver/fw/wb_cfggen.c writes, and the bus of
-- historic/driver/fake_wb_bus.c, which reads it.
pub mod Scanned
use fpga_config_space.Base.{
  ℕ, ◌+◌, ◌-◌, ◌*◌, ◌%◌, ◌^◌, List, [], ◌∷◌, ◌++◌, Bool, true, ◌&&◌, Option, none, some,
  if◌then◌else◌, ltb, take, drop, length, copies,
}
use fpga_config_space.Endian.{Host, htonll, ntohll, store64}
use fpga_config_space.Historic.Sdwb.{Wbd, sdwb_head_magic, sdwb_create_device}

-- sdwb_create_header: the 32 bytes of `struct sdwb_head`.
abbrev pub sdwb_create_header : Host → (wbid_addr wbd_addr : ℕ) → List ℕ
sdwb_create_header h wbid_addr wbd_addr =
    store64 h (ntohll h sdwb_head_magic)
    ++ (store64 h (htonll h wbid_addr) ++ (store64 h (htonll h wbd_addr) ++ copies 8 0))

-- sdwb_create_id: the 32 bytes of `struct sdwb_wbid`, of which all but the first eight stay as malloc
-- has given them.
abbrev pub sdwb_create_id : Host → (memory : List ℕ) → List ℕ
sdwb_create_id h memory = store64 h (htonll h 0xdeadbeefdeadbeef) ++ drop 8 memory

-- One device of the list, with its names as they stand in the list. The numbers of the descriptor are
-- of 32 bits.
pub record Entry : Type 0 where
  pub major : ℕ
  pub minor : ℕ
  pub wbd : Wbd

-- The loop that writes the devices.
abbrev pub written : Host → List Entry → List ℕ
written h [] = []
written h (e ∷ es) = sdwb_create_device h e.major e.minor e.wbd ++ written h es

-- Whether the names fit the arrays `vname` and `dname` of 16 bytes, into which sscanf stores them with
-- the terminator.
abbrev pub names_fit : List Entry → Bool
names_fit [] = true
names_fit (e ∷ es) =
    (ltb (length e.wbd.vendor_name) 16 && ltb (length e.wbd.device_name) 16) && names_fit es

-- What `main` writes, with the zeros that fill the file up to 4 MiB, if the names fit.
unfoldable pub image : Host → (memory : List ℕ) → List Entry → List ℕ
image h memory es =
    sdwb_create_header h 32 64
    ++ (sdwb_create_id h memory
        ++ (written h es ++ copies (4 * 1024 * 1024 - (64 + 80 * length es)) 0))

-- `main` on a list. None is a name that is written behind the end of its array.
unfoldable pub generate : Host → (memory : List ℕ) → List Entry → Option (List ℕ)
generate h memory es = if names_fit es then some (image h memory es) else none

-- fake_read_cfg: what is in the buffer then.
unfoldable pub fake_read_cfg : (wb_fw buf : List ℕ) (addr len : ℕ) → List ℕ
fake_read_cfg wb_fw buf addr len =
    if ltb (length wb_fw) ((addr + len) % 2 ^ 64) then buf else take len (drop addr wb_fw)
