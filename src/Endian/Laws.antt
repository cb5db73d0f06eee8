-- ===== src/Endian/Laws.antt =====
-- What the byte-order functions guarantee: they are their own inverses, and a field read through
-- them is the field of the SDB format, on either host.
use fpga_config_space.Base.{
  ap, ◌∙◌, ℕ, ◌+◌, ◌*◌, ◌/◌, ◌%◌, ◌^◌, ◌<◌, ◌≡◌, refl, List, get_or, arith,
}
use fpga_config_space.Endian.{
  Host, little, big, bswap32, htonl, htons, htonll, ntohll, word, load16, load32, load64, be16,
  be32, be64, store16, store32, store64,
}

-- Every element is a byte.
abbrev pub IsBytes : List ℕ → Type 0
IsBytes r = (i : ℕ) → get_or r i 0 < 256

pub htonl-lt : (h : Host) (x : ℕ) → x < 2 ^ 32 → htonl h x < 2 ^ 32
unfolding htonl
htonl-lt little x p = omega arith
htonl-lt big x p = p

-- On either host, swapping a 32-bit number twice gives it back.
pub htonl-htonl : (h : Host) (x : ℕ) → x < 2 ^ 32 → htonl h (htonl h x) ≡ x
unfolding htonl
htonl-htonl little x p = omega arith
htonl-htonl big x p = refl

htonll_little :
    (x : ℕ) → htonll little x ≡ bswap32 (x / 2 ^ 32 % 2 ^ 32) + bswap32 (x % 2 ^ 32) * 2 ^ 32
unfolding htonll
htonll_little x = refl

htonll_big : (x : ℕ) → htonll big x ≡ x
unfolding htonll
htonll_big x = refl

bswap32-lt : (x : ℕ) → bswap32 x < 2 ^ 32
unfolding bswap32
bswap32-lt x = omega arith

bswap32-bswap32 : (x : ℕ) → x < 2 ^ 32 → bswap32 (bswap32 x) ≡ x
unfolding bswap32
bswap32-bswap32 x p = omega arith

halves :
    (a b : ℕ)
    → a < 2 ^ 32
    → b < 2 ^ 32
    → ((a + b * 2 ^ 32) / 2 ^ 32 % 2 ^ 32 ≡ b) × ((a + b * 2 ^ 32) % 2 ^ 32 ≡ a)
halves a b p q = omega arith

pub htonll-lt : (h : Host) (x : ℕ) → x < 2 ^ 64 → htonll h x < 2 ^ 64
htonll-lt little x p =
    rw htonll_little (omega (arith, bswap32-lt (x / 2 ^ 32 % 2 ^ 32), bswap32-lt (x % 2 ^ 32)))
htonll-lt big x p = rw htonll_big p

-- On either host, `ntohll` undoes `htonll` on every 64-bit number.
pub ntohll-htonll : (h : Host) (x : ℕ) → x < 2 ^ 64 → ntohll h (htonll h x) ≡ x
unfolding ntohll
ntohll-htonll little x p =
    let hi = bswap32 (x / 2 ^ 32 % 2 ^ 32) in
    let lo = bswap32 (x % 2 ^ 32) in
    let parts = halves hi lo (bswap32-lt _) (bswap32-lt _) in
    rw
      (
        htonll_little,
        htonll_little,
        parts.0,
        parts.1,
        bswap32-bswap32 (x % 2 ^ 32) (omega arith),
        bswap32-bswap32 (x / 2 ^ 32 % 2 ^ 32) (omega arith),
      )
      (omega arith)
ntohll-htonll big x p = refl

word-lt : (a b c d : ℕ) → a < 256 → b < 256 → c < 256 → d < 256 → word little a b c d < 2 ^ 32
word-lt a b c d p q s t = omega arith

bswap32-word :
    (a b c d : ℕ)
    → a < 256
    → b < 256
    → c < 256
    → d < 256
    → bswap32 (word little a b c d) ≡ word big a b c d
unfolding bswap32
bswap32-word a b c d p q s t = omega arith

-- `ntohs` of a loaded 16-bit field is the big-endian field.
pub htons-load16 : (h : Host) (r : List ℕ) (i : ℕ) → IsBytes r → htons h (load16 h r i) ≡ be16 r i
unfolding htons load16 be16
htons-load16 little r i b = omega (arith, b i, b (i + 1))
htons-load16 big r i b = refl

-- `ntohl` of a loaded 32-bit field is the big-endian field.
pub htonl-load32 : (h : Host) (r : List ℕ) (i : ℕ) → IsBytes r → htonl h (load32 h r i) ≡ be32 r i
unfolding htonl load32 be32
htonl-load32 little r i b = bswap32-word _ _ _ _ (b i) (b (i + 1)) (b (i + 2)) (b (i + 3))
htonl-load32 big r i b = refl

load32-lt : (r : List ℕ) (i : ℕ) → IsBytes r → load32 little r i < 2 ^ 32
unfolding load32
load32-lt r i b = word-lt _ _ _ _ (b i) (b (i + 1)) (b (i + 2)) (b (i + 3))

load64_little :
    (r : List ℕ) (i : ℕ) → load64 little r i ≡ load32 little r i + load32 little r (i + 4) * 2 ^ 32
unfolding load64
load64_little r i = refl

bswap32-load32 : (r : List ℕ) (i : ℕ) → IsBytes r → bswap32 (load32 little r i) ≡ be32 r i
unfolding load32 be32
bswap32-load32 r i b = bswap32-word _ _ _ _ (b i) (b (i + 1)) (b (i + 2)) (b (i + 3))

be64_lem : (r : List ℕ) (i : ℕ) → be64 r i ≡ be32 r i * 2 ^ 32 + be32 r (i + 4)
unfolding be64
be64_lem r i = refl

load64_big : (r : List ℕ) (i : ℕ) → load64 big r i ≡ be64 r i
unfolding load64 be64 load32
load64_big r i = refl

-- On either host, `ntohll` of a loaded 64-bit field of bytes is the big-endian field.
pub ntohll-load64 : (h : Host) (r : List ℕ) (i : ℕ) → IsBytes r → ntohll h (load64 h r i) ≡ be64 r i
unfolding ntohll
ntohll-load64 little r i b =
    let parts =
      halves (load32 little r i) (load32 little r (i + 4)) (load32-lt r i b)
        (load32-lt r (i + 4) b) in
    rw
      (
        load64_little,
        htonll_little,
        parts.0,
        parts.1,
        bswap32-load32 r (i + 4) b,
        bswap32-load32 r i b,
        be64_lem,
      )
      (omega arith)
ntohll-load64 big r i b = rw (htonll_big, load64_big)

-- What a store leaves in memory is loaded again.
pub load16-store16 : (h : Host) (x : ℕ) → x < 2 ^ 16 → load16 h (store16 h x) 0 ≡ x
unfolding load16
load16-store16 little x p = omega arith
load16-store16 big x p = omega arith

pub load32-store32 : (h : Host) (x : ℕ) → x < 2 ^ 32 → load32 h (store32 h x) 0 ≡ x
unfolding load32
load32-store32 little x p = omega arith
load32-store32 big x p = omega arith

pub load64-store64 : (h : Host) (x : ℕ) → x < 2 ^ 64 → load64 h (store64 h x) 0 ≡ x
unfolding load64 load32
load64-store64 little x p = omega arith
load64-store64 big x p = omega arith

-- A field that is stored in network order is read back.
pub field64 : (h : Host) (x : ℕ) → x < 2 ^ 64 → ntohll h (load64 h (store64 h (htonll h x)) 0) ≡ x
field64 h x p =
    ap (ntohll h) (load64-store64 h (htonll h x) (htonll-lt h x p)) ∙ ntohll-htonll h x p

pub field32 : (h : Host) (x : ℕ) → x < 2 ^ 32 → htonl h (load32 h (store32 h (htonl h x)) 0) ≡ x
field32 h x p = ap (htonl h) (load32-store32 h (htonl h x) (htonl-lt h x p)) ∙ htonl-htonl h x p
