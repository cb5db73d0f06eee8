-- ===== src/Endian.antt =====
-- Byte order: `htonl`, `ntohl` and the `htonll`, `ntohll` of sdbfs/lib/libsdbfs.h,
-- sdbfs/userspace/gensdbfs.h and sdbfs/kernel/sdbfs-int.h, on hosts of either order.
pub mod Laws
pub mod Tests
use fpga_config_space.Base.{
  ℕ, ◌+◌, ◌*◌, ◌/◌, ◌%◌, ◌^◌, List, [], ◌∷◌, ◌++◌, ◌==◌, if◌then◌else◌, get_or,
}

-- The byte order of the processor that runs the code.
pub data Host : Type 0 where
  little big : Host

unfoldable pub bswap32 : ℕ → ℕ
bswap32 x =
    x % 2 ^ 8 * 2 ^ 24
    + x / 2 ^ 8 % 2 ^ 8 * 2 ^ 16
    + x / 2 ^ 16 % 2 ^ 8 * 2 ^ 8
    + x / 2 ^ 24 % 2 ^ 8

-- `htonl` and `ntohl` of the C library: the same function.
unfoldable pub htonl : Host → ℕ → ℕ
unfolding bswap32
htonl little x = bswap32 x
htonl big x = x

unfoldable pub htons : Host → ℕ → ℕ
htons little x = x % 2 ^ 8 * 2 ^ 8 + x / 2 ^ 8 % 2 ^ 8
htons big x = x

-- The two halves of `res` share no bit, so `|=` adds. `(uint32_t)ll` keeps the low 32 bits.
unfoldable pub htonll : Host → ℕ → ℕ
unfolding htonl
htonll h ll =
    if htonl h 1 == 1 then ll else htonl h (ll / 2 ^ 32 % 2 ^ 32) + htonl h (ll % 2 ^ 32) * 2 ^ 32

unfoldable pub ntohll : Host → ℕ → ℕ
unfolding htonll
ntohll h ll = htonll h ll

-- The number that the processor reads from the memory of a field, at byte `i`.
unfoldable pub load16 : Host → List ℕ → ℕ → ℕ
load16 little r i = get_or r i 0 + get_or r (i + 1) 0 * 2 ^ 8
load16 big r i = get_or r i 0 * 2 ^ 8 + get_or r (i + 1) 0

abbrev pub word : Host → (a b c d : ℕ) → ℕ
word little a b c d = a + b * 2 ^ 8 + c * 2 ^ 16 + d * 2 ^ 24
word big a b c d = a * 2 ^ 24 + b * 2 ^ 16 + c * 2 ^ 8 + d

unfoldable pub load32 : Host → List ℕ → ℕ → ℕ
load32 h r i = word h (get_or r i 0) (get_or r (i + 1) 0) (get_or r (i + 2) 0) (get_or r (i + 3) 0)

unfoldable pub load64 : Host → List ℕ → ℕ → ℕ
unfolding load32
load64 little r i = load32 little r i + load32 little r (i + 4) * 2 ^ 32
load64 big r i = load32 big r i * 2 ^ 32 + load32 big r (i + 4)

-- The four bytes that a 32-bit store leaves in memory.
abbrev pub store32 : Host → ℕ → List ℕ
store32 little x =
    x % 2 ^ 8 ∷ (x / 2 ^ 8 % 2 ^ 8) ∷ (x / 2 ^ 16 % 2 ^ 8) ∷ (x / 2 ^ 24 % 2 ^ 8) ∷ []
store32 big x = (x / 2 ^ 24 % 2 ^ 8) ∷ (x / 2 ^ 16 % 2 ^ 8) ∷ (x / 2 ^ 8 % 2 ^ 8) ∷ (x % 2 ^ 8) ∷ []

-- The two bytes of a 16-bit store.
abbrev pub store16 : Host → ℕ → List ℕ
store16 little x = x % 2 ^ 8 ∷ (x / 2 ^ 8 % 2 ^ 8) ∷ []
store16 big x = (x / 2 ^ 8 % 2 ^ 8) ∷ (x % 2 ^ 8) ∷ []

-- The eight bytes of a 64-bit store.
abbrev pub store64 : Host → ℕ → List ℕ
store64 little x = store32 little (x % 2 ^ 32) ++ store32 little (x / 2 ^ 32)
store64 big x = store32 big (x / 2 ^ 32) ++ store32 big (x % 2 ^ 32)

-- Fields in the order of the SDB format: most significant byte first, whatever the host.
unfoldable pub be16 : List ℕ → ℕ → ℕ
be16 r i = get_or r i 0 * 2 ^ 8 + get_or r (i + 1) 0

unfoldable pub be32 : List ℕ → ℕ → ℕ
be32 r i = word big (get_or r i 0) (get_or r (i + 1) 0) (get_or r (i + 2) 0) (get_or r (i + 3) 0)

unfoldable pub be64 : List ℕ → ℕ → ℕ
unfolding be32
be64 r i = be32 r i * 2 ^ 32 + be32 r (i + 4)
