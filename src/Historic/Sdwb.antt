-- ===== src/Historic/Sdwb.antt =====
-- The device descriptor of historic/driver/include/linux/sdwb.h, as `sdwb_create_device` of
-- historic/driver/fw/wb_cfggen.c writes it and `wb_get_next_device` of historic/driver/wishbone.c
-- reads it.
pub mod RoundTrip
use fpga_config_space.Base.{ℕ, ◌+◌, ◌*◌, ◌%◌, ◌^◌, List, [], ◌∷◌, ◌++◌, take, drop, strncpy}
use fpga_config_space.Endian.{
  Host, htonl, htons, htonll, ntohll, load16, load32, load64, store16, store32, store64,
}

-- __SDWB_HEAD_MAGIC and __SDWB_WBD_MAGIC
abbrev pub sdwb_head_magic : ℕ
sdwb_head_magic = 0x5344574248454144

abbrev pub sdwb_wbd_magic : ℕ
sdwb_wbd_magic = 0x5742

-- struct sdwb_wbd, with its numbers as the processor computes with them.
pub record Wbd : Type 0 where
  pub vendor : ℕ
  pub device : ℕ
  pub wbd_version : ℕ
  pub hdl_base : ℕ
  pub hdl_size : ℕ
  pub wbd_flags : ℕ
  pub hdl_class : ℕ
  pub hdl_version : ℕ
  pub hdl_date : ℕ
  pub vendor_name : List ℕ
  pub device_name : List ℕ

-- The 80 bytes that `sdwb_create_device` fills. Of the name, the last byte is the terminator.
abbrev pub terminated : List ℕ → List ℕ
terminated name = take 15 (strncpy 16 name) ++ (0 ∷ [])

unfoldable pub sdwb_create_device : Host → (major minor : ℕ) → Wbd → List ℕ
sdwb_create_device h major minor d =
    store64 h (htonll h d.vendor)
    ++ (store32 h (htonl h d.device)
        ++ (store16 h (htons h sdwb_wbd_magic)
            ++ (store16 h (htonl h (major % 2 ^ 8 * 2 ^ 8 + minor % 2 ^ 8) % 2 ^ 16)
                ++ (store64 h (htonll h d.hdl_base)
                    ++ (store64 h (htonll h d.hdl_size)
                        ++ (store32 h (htonl h d.wbd_flags)
                            ++ (store32 h (htonl h d.hdl_class)
                                ++ (store32 h (htonl h d.hdl_version)
                                    ++ (store32 h (htonl h d.hdl_date)
                                        ++ (terminated d.vendor_name
                                            ++ terminated d.device_name))))))))))

-- wbd.wbd_magic == SDWB_WBD_MAGIC
abbrev pub wbd_magic_of : Host → List ℕ → ℕ
wbd_magic_of h r = load16 h r 12

-- The descriptor that `wb_get_next_device` keeps: `wbd_version` stays as it lies in memory.
unfoldable pub wbd_of : Host → List ℕ → Wbd
wbd_of h r = record {
  vendor = ntohll h (load64 h r 0);
  device = htonl h (load32 h r 8);
  wbd_version = load16 h r 14;
  hdl_base = ntohll h (load64 h r 16);
  hdl_size = ntohll h (load64 h r 24);
  wbd_flags = htonl h (load32 h r 32);
  hdl_class = htonl h (load32 h r 36);
  hdl_version = htonl h (load32 h r 40);
  hdl_date = htonl h (load32 h r 44);
  vendor_name = take 16 (drop 48 r);
  device_name = take 16 (drop 64 r);
}
