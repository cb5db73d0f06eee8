-- ===== src/Sdbfs/Registry/Magic.antt =====
-- A device that `sdbfs_dev_create` accepts is one whose first record the scan accepts.
use fpga_config_space.Base.{
  ℕ, suc, ◌^◌, ◌<◌, none, some, List, ◌∷◌, ◌++◌, Bool, true, false, not, ◌||◌, ◌==◌, ◌≡◌, ◌≢◌, refl,
  sym, ap, ◌∙◌, arith,
}
use native.Mathlib.Decide.{ℕ_discrete}
use fpga_config_space.Endian.{Host, little, big, htonl, load32, word, store32}
use fpga_config_space.Endian.Laws.{htonl-htonl, htonl-lt}
use fpga_config_space.Sdb.{sdb_magic, magic_of, convert_words}
use fpga_config_space.Sdbfs.{Fs}
use fpga_config_space.Sdbfs.Scan.Listing.{entry_at}
use fpga_config_space.Sdbfs.Registry.{
  Ptr, Registry, Creation, created, enotdir, crashed, read_magic, check_magic, accept, dev_create,
  link,
}

-- Storing a 32-bit number and loading it again.
load32-store32 :
    (h : Host) (x : ℕ) (rest : List ℕ) → x < 2 ^ 32 → load32 h (store32 h x ++ rest) 0 ≡ x
unfolding load32
load32-store32 little x rest p = omega arith
load32-store32 big x rest p = omega arith

word-lt : (h : Host) (a b c d : ℕ) → a < 256 → b < 256 → c < 256 → d < 256 → word h a b c d < 2 ^ 32
word-lt little a b c d p q r s = omega arith
word-lt big a b c d p q r s = omega arith

-- The magic number of a converted record is the word that was there, swapped twice.
magic_of-convert :
    (h : Host) (a b c d : ℕ) (rest : List ℕ)
    → a < 256
    → b < 256
    → c < 256
    → d < 256
    → magic_of h (convert_words h (a ∷ b ∷ c ∷ d ∷ rest)) ≡ word h a b c d
unfolding magic_of convert_words
magic_of-convert h a b c d rest p q r s =
    let small = word-lt h a b c d p q r s in
    ap (htonl h) (load32-store32 h (htonl h (word h a b c d)) _ (htonl-lt h _ small))
    ∙ htonl-htonl h _ small

-- The word at the entry point of a mapped device.
abbrev magic_at : Host → (ℕ → ℕ) → ℕ → ℕ
magic_at h memory i =
    word h (memory i) (memory (suc i)) (memory (suc (suc i))) (memory (suc (suc (suc i))))

magic_of-converted :
    (h : Host) (memory : ℕ → ℕ) (i : ℕ)
    → ((j : ℕ) → memory j < 256)
    → magic_of h (entry_at h true memory i) ≡ magic_at h memory i
unfolding entry_at
magic_of-converted h memory i b = magic_of-convert h _ _ _ _ _ (b _) (b _) (b _) (b _)

magic_of-plain :
    (h : Host) (memory : ℕ → ℕ) (i : ℕ)
    → magic_of h (entry_at h false memory i) ≡ htonl h (magic_at h memory i)
unfolding entry_at magic_of load32
magic_of-plain h memory i = refl

read_magic-mapped :
    (h : Host) (fs : Fs) (junk : List ℕ)
    → (fs.mapped || fs.zerobased) ≡ true
    → read_magic h fs junk ≡ some (magic_at h fs.memory fs.entrypoint)
unfolding read_magic load32
read_magic-mapped h fs junk m = rw m

-- What the creation of a mapped device has done, by its result.
abbrev pub Accepts : Host → Ptr → Fs → Registry → Creation → Type 0
Accepts h p fs reg (created fs' reg') =
    (magic_of h (entry_at h fs'.convert32 fs.memory fs.entrypoint) ≡ sdb_magic)
    × (fs' ≡ record fs { convert32 = fs'.convert32 })
    × (reg' ≡ link p reg)
Accepts h p fs reg enotdir =
    (conv : Bool) → magic_of h (entry_at h conv fs.memory fs.entrypoint) ≢ sdb_magic
Accepts h p fs reg crashed = ⊥

check_direct : (h : Host) (m : ℕ) → m ≡ sdb_magic → check_magic h m ≡ some (not (htonl h 1 == 1))
unfolding check_magic
check_direct h m e = rw e

check_swapped :
    (h : Host) (m : ℕ) → m ≢ sdb_magic → htonl h m ≡ sdb_magic → check_magic h m ≡ some false
unfolding check_magic
check_swapped h m ne e = rw e (ground arith)

check_neither : (h : Host) (m : ℕ) → m ≢ sdb_magic → htonl h m ≢ sdb_magic → check_magic h m ≡ none
unfolding check_magic
check_neither h m ne ne' = ground arith

htonl_big : (m : ℕ) → htonl big m ≡ m
unfolding htonl
htonl_big m = refl

module _ (p : Ptr) (fs : Fs) (reg : Registry) where
  accept_plain :
      (h : Host)
      → fs.convert32 ≡ false
      → htonl h (magic_at h fs.memory fs.entrypoint) ≡ sdb_magic
      → Accepts h p fs reg (accept p fs reg (some false))
  unfolding accept
  accept_plain h plain e = (
    ap (λ c. magic_of h (entry_at h c fs.memory fs.entrypoint)) plain
        ∙ magic_of-plain h fs.memory fs.entrypoint
        ∙ e,
    refl,
    refl,
  )

  accept_direct :
      (h : Host)
      → ((j : ℕ) → fs.memory j < 256)
      → fs.convert32 ≡ false
      → magic_at h fs.memory fs.entrypoint ≡ sdb_magic
      → Accepts h p fs reg (accept p fs reg (some (not (htonl h 1 == 1))))
  unfolding accept htonl
  accept_direct little b plain e =
      (magic_of-converted little fs.memory fs.entrypoint b ∙ e, refl, refl)
  accept_direct big b plain e = accept_plain big plain (htonl_big _ ∙ e)

  accept-none :
      (h : Host)
      → ((j : ℕ) → fs.memory j < 256)
      → magic_at h fs.memory fs.entrypoint ≢ sdb_magic
      → htonl h (magic_at h fs.memory fs.entrypoint) ≢ sdb_magic
      → Accepts h p fs reg (accept p fs reg none)
  unfolding accept
  accept-none h b ne ne' true e = ne (sym (magic_of-converted h fs.memory fs.entrypoint b) ∙ e)
  accept-none h b ne ne' false e = ne' (sym (magic_of-plain h fs.memory fs.entrypoint) ∙ e)

  accept-Accepts :
      (h : Host)
      → ((j : ℕ) → fs.memory j < 256)
      → fs.convert32 ≡ false
      → Accepts h p fs reg (accept p fs reg (check_magic h (magic_at h fs.memory fs.entrypoint)))
  accept-Accepts h b plain =
      let m = magic_at h fs.memory fs.entrypoint in
      elim (ℕ_discrete m sdb_magic) [
        | yes e ↦ rw (check_direct h m e) (accept_direct h b plain e)
        | no ne ↦ elim (ℕ_discrete (htonl h m) sdb_magic) [
          | yes e ↦ rw (check_swapped h m ne e) (accept_plain h plain e)
          | no ne' ↦ rw (check_neither h m ne ne') (accept-none h b ne ne')
        ]
      ]

  -- Creating a mapped device of which the flag for conversion is not set returns. It is accepted,
  -- in front of the list, exactly if the record at its entry point has the magic number with words
  -- taken as they lie or converted; and then the flag that it gets is one with which the scan
  -- finds the magic number.
  pub dev_create-Accepts :
      (h : Host) (junk : List ℕ)
      → (fs.mapped || fs.zerobased) ≡ true
      → ((j : ℕ) → fs.memory j < 256)
      → fs.convert32 ≡ false
      → Accepts h p fs reg (dev_create h p fs reg junk)
  unfolding dev_create
  dev_create-Accepts h junk direct b plain =
      rw (read_magic-mapped h fs junk direct, dev_create) (accept-Accepts h b plain)
