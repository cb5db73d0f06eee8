-- ===== src/Historic/Sdwb/RoundTrip.antt =====
-- What the generator writes is what the bus driver reads, whatever the byte order of the two.
use fpga_config_space.Base.{
  ℕ, ◌+◌, ◌*◌, ◌%◌, ◌^◌, ◌<◌, List, [], ◌∷◌, ◌++◌, ◌≡◌, ap, ◌∙◌, take, drop, length, strncpy,
  length-strncpy, length-append, length-take, take_front, drop_front, take_all, arith,
}
use fpga_config_space.Endian.{
  Host, little, big, bswap32, htonl, htons, load16, load32, load64, store16,
}
use fpga_config_space.Endian.Laws.{field64, field32, load16-store16}
use fpga_config_space.Historic.Sdwb.{
  Wbd, sdwb_wbd_magic, terminated, sdwb_create_device, wbd_magic_of, wbd_of,
}

-- The numbers of a descriptor fit its fields.
pub record IsSized (d : Wbd) : Type 0 where
  pub vendor : d.vendor < 2 ^ 64
  pub device : d.device < 2 ^ 32
  pub hdl_base : d.hdl_base < 2 ^ 64
  pub hdl_size : d.hdl_size < 2 ^ 64
  pub wbd_flags : d.wbd_flags < 2 ^ 32
  pub hdl_class : d.hdl_class < 2 ^ 32
  pub hdl_version : d.hdl_version < 2 ^ 32
  pub hdl_date : d.hdl_date < 2 ^ 32

-- What is read for `wbd_version`: `htonl` puts the version into the upper half of a 32-bit number on a
-- processor with the least significant byte first, and the field takes the lower half.
abbrev pub version_read : Host → (major minor : ℕ) → ℕ
version_read little major minor = 0
version_read big major minor = major % 2 ^ 8 * 2 ^ 8 + minor % 2 ^ 8

-- The descriptor that is read for `d`.
abbrev pub as_read : Host → (major minor : ℕ) → Wbd → Wbd
as_read h major minor d = record d {
  wbd_version = version_read h major minor;
  vendor_name = terminated d.vendor_name;
  device_name = terminated d.device_name;
}

length-terminated : (name : List ℕ) → length (terminated name) ≡ 16
length-terminated name =
    length-append (take 15 (strncpy 16 name)) (0 ∷ [])
    ∙ omega (arith, length-take 15 (strncpy 16 name), length-strncpy 16 name)

version_stored :
    (h : Host) (major minor : ℕ)
    → load16 h (store16 h (htonl h (major % 2 ^ 8 * 2 ^ 8 + minor % 2 ^ 8) % 2 ^ 16)) 0
      ≡ version_read h major minor
unfolding load16 htonl
version_stored little major minor = unfold bswap32 in omega arith
version_stored big major minor = omega arith

first_name :
    (d : Wbd)
    → take 16 (terminated d.vendor_name ++ terminated d.device_name) ≡ terminated d.vendor_name
first_name d =
    take_front 16 (terminated d.vendor_name) (terminated d.device_name)
      (length-terminated d.vendor_name)

second_name :
    (d : Wbd)
    → take 16 (drop 16 (terminated d.vendor_name ++ terminated d.device_name))
      ≡ terminated d.device_name
second_name d =
    ap (take 16) (
      drop_front 16 (terminated d.vendor_name) (terminated d.device_name)
        (length-terminated d.vendor_name))
    ∙ take_all 16 (terminated d.device_name) (omega (arith, length-terminated d.device_name))

-- A descriptor whose numbers fit their fields comes back as the bus driver reads it: every number but
-- the version, and the names cut to 15 bytes. The version comes back on a processor with the most
-- significant byte first, and as 0 on the other.
pub wbd_of-create :
    (h : Host) (major minor : ℕ) (d : Wbd)
    → IsSized d
    → wbd_of h (sdwb_create_device h major minor d) ≡ as_read h major minor d
unfolding wbd_of sdwb_create_device load64 load32 load16
wbd_of-create little major minor d s = λ i. record {
  vendor = field64 little d.vendor s.vendor i;
  device = field32 little d.device s.device i;
  wbd_version = version_stored little major minor i;
  hdl_base = field64 little d.hdl_base s.hdl_base i;
  hdl_size = field64 little d.hdl_size s.hdl_size i;
  wbd_flags = field32 little d.wbd_flags s.wbd_flags i;
  hdl_class = field32 little d.hdl_class s.hdl_class i;
  hdl_version = field32 little d.hdl_version s.hdl_version i;
  hdl_date = field32 little d.hdl_date s.hdl_date i;
  vendor_name = first_name d i;
  device_name = second_name d i;
}
wbd_of-create big major minor d s = λ i. record {
  vendor = field64 big d.vendor s.vendor i;
  device = field32 big d.device s.device i;
  wbd_version = version_stored big major minor i;
  hdl_base = field64 big d.hdl_base s.hdl_base i;
  hdl_size = field64 big d.hdl_size s.hdl_size i;
  wbd_flags = field32 big d.wbd_flags s.wbd_flags i;
  hdl_class = field32 big d.hdl_class s.hdl_class i;
  hdl_version = field32 big d.hdl_version s.hdl_version i;
  hdl_date = field32 big d.hdl_date s.hdl_date i;
  vendor_name = first_name d i;
  device_name = second_name d i;
}

-- A descriptor has the magic number, and 80 bytes.
pub wbd_magic_of-create :
    (h : Host) (major minor : ℕ) (d : Wbd)
    → wbd_magic_of h (sdwb_create_device h major minor d) ≡ htons h sdwb_wbd_magic
unfolding sdwb_create_device load16
wbd_magic_of-create little major minor d =
    load16-store16 little (htons little sdwb_wbd_magic) (unfold htons in omega arith)
wbd_magic_of-create big major minor d =
    load16-store16 big (htons big sdwb_wbd_magic) (unfold htons in omega arith)

length_names : (d : Wbd) → length (terminated d.vendor_name ++ terminated d.device_name) ≡ 32
length_names d =
    length-append (terminated d.vendor_name) (terminated d.device_name)
    ∙ omega (arith, length-terminated d.vendor_name, length-terminated d.device_name)

pub length-create :
    (h : Host) (major minor : ℕ) (d : Wbd) → length (sdwb_create_device h major minor d) ≡ 80
unfolding sdwb_create_device
length-create little major minor d = omega (arith, length_names d)
length-create big major minor d = omega (arith, length_names d)
