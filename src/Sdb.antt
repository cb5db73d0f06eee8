-- ===== src/Sdb.antt =====
-- The SDB format of sdbfs/include/linux/sdb.h: a record is 64 bytes, and each field is read at its
-- offset in the structure.
use fpga_config_space.Base.{ℕ, List, ◌∷◌, ◌++◌, get_or, take, drop}
use fpga_config_space.Endian.{
  Host, htonl, htons, htonll, ntohll, word, load16, load32, load64, store32,
}

-- A record, as the bytes of `struct sdb_device` in memory.
abbrev pub Sdb : Type 0
Sdb = List ℕ

abbrev pub sizeof_device : ℕ
sizeof_device = 64

abbrev pub sdb_magic : ℕ
sdb_magic = 0x5344422d

abbrev pub sdb_type_interconnect : ℕ
sdb_type_interconnect = 0x00

abbrev pub sdb_type_device : ℕ
sdb_type_device = 0x01

abbrev pub sdb_type_bridge : ℕ
sdb_type_bridge = 0x02

-- sdb_component.product.record_type, at 0x3f.
abbrev pub record_type : Sdb → ℕ
record_type r = get_or r 0x3f 0

-- ntohl(intercon->sdb_magic), at 0x00.
unfoldable pub magic_of : Host → Sdb → ℕ
magic_of h r = htonl h (load32 h r 0x00)

-- ntohs(intercon->sdb_records), at 0x04.
unfoldable pub records_of : Host → Sdb → ℕ
records_of h r = htons h (load16 h r 0x04)

-- ntohll(bridge->sdb_child), at 0x00.
unfoldable pub child_of : Host → Sdb → ℕ
child_of h r = ntohll h (load64 h r 0x00)

-- htonll(sdb_component.addr_first), at 0x08.
unfoldable pub addr_first_of : Host → Sdb → ℕ
addr_first_of h r = htonll h (load64 h r 0x08)

-- htonll(sdb_component.addr_last), at 0x10.
unfoldable pub addr_last_of : Host → Sdb → ℕ
addr_last_of h r = htonll h (load64 h r 0x10)

-- The fields that are compared as they lie in memory: vendor_id at 0x18, device_id at 0x20.
unfoldable pub vendor_id : Host → Sdb → ℕ
vendor_id h r = load64 h r 0x18

unfoldable pub device_id : Host → Sdb → ℕ
device_id h r = load32 h r 0x20

-- The 19 bytes of sdb_component.product.name, at 0x2c.
unfoldable pub name_of : Sdb → List ℕ
name_of r = take 19 (drop 0x2c r)

-- Each 32-bit word of a record goes through `ntohl`, in place.
unfoldable pub convert_words : Host → List ℕ → List ℕ
convert_words h (a ∷ b ∷ c ∷ d ∷ rest) =
    store32 h (htonl h (word h a b c d)) ++ convert_words h rest
convert_words h other = other
