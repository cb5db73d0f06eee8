-- ===== src/Historic/Image/Scanned.antt =====
-- A generated firmware file is scanned to the devices that it was generated from.
use fpga_config_space.Base.{
  ℕ, ◌+◌, ◌-◌, ◌*◌, ◌%◌, ◌^◌, ◌<◌, ◌≤◌, List, [], ◌∷◌, ◌++◌, ◌≡◌, ◌≢◌, refl, sym, ap, subst, ◌∙◌,
  true, false, ltb, map, take, drop, length, copies, length-append, length-copies, copies-add,
  length-drop, take_front, drop_front, append_assoc, ltb→lt, Bool-cases, inl, inr, arith,
}
use fpga_config_space.Endian.{
  Host, little, big, bswap32, htons, htonll, ntohll, load64, load32, load16, htonl,
}
use fpga_config_space.Historic.Sdwb.{
  Wbd, sdwb_wbd_magic, sdwb_head_magic, sdwb_create_device, wbd_magic_of, wbd_of,
}
use fpga_config_space.Historic.Sdwb.RoundTrip.{
  IsSized, as_read, wbd_of-create, wbd_magic_of-create, length-create,
}
use fpga_config_space.Historic.Bus.{Answers, head_of}
use fpga_config_space.Historic.Bus.Scan.{IsTable, IsTabled}
use fpga_config_space.Historic.Image.{
  sdwb_create_header, sdwb_create_id, Entry, written, image, fake_read_cfg,
}

-- The descriptors fit their fields, and the names have up to 15 bytes.
pub data AreSized : List Entry → Type 0 where
  nil : AreSized []
  cons :
      (e : Entry) (es : List Entry)
      → IsSized e.wbd
      → length e.wbd.vendor_name ≤ 15
      → length e.wbd.device_name ≤ 15
      → AreSized es
      → AreSized (e ∷ es)

-- The devices as the bus driver reads them.
abbrev pub read_of : Host → List Entry → List Wbd
read_of h es = map (λ e. as_read h e.major e.minor e.wbd) es

-- A kernel with this firmware on the fake bus, that refuses nothing. A buffer holds `buf` before a read.
abbrev pub fake_bus : (wb_fw buf : List ℕ) → Answers
fake_bus wb_fw buf = record {
  read_cfg = fake_read_cfg wb_fw buf;
  kzalloc = λ addr. true;
  device_register = λ num. true;
}

fits_in : (p n size : ℕ) → p + n ≤ size → size < 2 ^ 64 → ltb size ((p + n) % 2 ^ 64) ≡ false
fits_in p n size le lt = elim (Bool-cases (ltb size ((p + n) % 2 ^ 64))) [
  | inl e ↦ absurd (omega (arith, ltb→lt size ((p + n) % 2 ^ 64) e, le, lt))
  | inr e ↦ e
]

-- A part of the file that is read.
read-part :
    (fw before part after buf : List ℕ) (p n : ℕ)
    → fw ≡ before ++ (part ++ after)
    → length before ≡ p
    → length part ≡ n
    → length fw < 2 ^ 64
    → fake_read_cfg fw buf p n ≡ part
unfolding fake_read_cfg
read-part fw before part after buf p n e b q lt =
    let size = ap length e ∙ length-append before (part ++ after) in
    let size' = length-append part after in
    rw (fits_in p n (length fw) (omega (arith, size, size', b, q)) lt) (
      ap (λ l. take n (drop p l)) e
      ∙ (ap (take n) (drop_front p before (part ++ after) b) ∙ take_front n part after q))

zeros-unused : (h : Host) → wbd_magic_of h (copies 80 0) ≢ htons h sdwb_wbd_magic
unfolding load16 htons
zeros-unused little e = absurd (omega (arith, e))
zeros-unused big e = absurd (omega (arith, e))

-- The devices of a file from an address on, and zeros for one more.
table :
    (h : Host) (fw before buf : List ℕ) (es : List Entry) (n p : ℕ)
    → fw ≡ before ++ (written h es ++ copies (80 + n) 0)
    → length before ≡ p
    → length fw < 2 ^ 64
    → AreSized es
    → IsTable h (fake_bus fw buf) p (read_of h es)
table h fw before buf [] n p e b lt s = IsTable.ends p (
    subst (λ r. wbd_magic_of h r ≢ htons h sdwb_wbd_magic)
      (sym (
        read-part fw before (copies 80 0) (copies n 0) buf p 80
          (e ∙ ap (λ l. before ++ l) (copies-add 80 n 0)) b (length-copies 80 0) lt))
      (zeros-unused h))
table h fw before buf (x ∷ es) n p e b lt (AreSized.cons _ _ s _ _ t) =
    let device = sdwb_create_device h x.major x.minor x.wbd in
    let behind = written h es ++ copies (80 + n) 0 in
    let e' : fw ≡ before ++ (device ++ behind) =
      e ∙ ap (λ l. before ++ l) (append_assoc device (written h es) (copies (80 + n) 0)) in
    let len = length-create h x.major x.minor x.wbd in
    let b' : length (before ++ device) ≡ (p + 80) % 2 ^ 64 = omega (
      arith,
      length-append before device,
      length-append before (device ++ behind),
      ap length e',
      length-append device behind,
      b,
      len,
      lt,
    ) in
    let part = read-part fw before device behind buf p 80 e' b len lt in
    subst (λ w. IsTable h (fake_bus fw buf) p (w ∷ read_of h es))
      (ap (wbd_of h) part ∙ wbd_of-create h x.major x.minor x.wbd s)
      (IsTable.next p (read_of h es)
        (ap (wbd_magic_of h) part ∙ wbd_magic_of-create h x.major x.minor x.wbd) refl
        (table h fw (before ++ device) buf es n ((p + 80) % 2 ^ 64)
          (e' ∙ sym (append_assoc before device behind)) b' lt t))

length-written : (h : Host) (es : List Entry) → length (written h es) ≡ 80 * length es
length-written h [] = omega arith
length-written h (e ∷ es) =
    let device = sdwb_create_device h e.major e.minor e.wbd in
    omega (
      arith,
      length-append device (written h es),
      length-create h e.major e.minor e.wbd,
      length-written h es,
    )

length-header : (h : Host) → length (sdwb_create_header h 32 64) ≡ 32
length-header little = refl
length-header big = refl

length-id :
    (h : Host) (memory : List ℕ) → length memory ≡ 32 → length (sdwb_create_id h memory) ≡ 32
length-id little memory e = omega (arith, length-drop 8 memory, e)
length-id big memory e = omega (arith, length-drop 8 memory, e)

-- The file is as long as the generator means it to be.
length-image :
    (h : Host) (memory : List ℕ) (es : List Entry)
    → length memory ≡ 32
    → 64 + 80 * length es ≤ 4 * 1024 * 1024
    → length (image h memory es) ≡ 4 * 1024 * 1024
unfolding image
length-image h memory es m le =
    let fill = 4 * 1024 * 1024 - (64 + 80 * length es) in
    omega (
      arith,
      le,
      length-append (sdwb_create_header h 32 64)
          (sdwb_create_id h memory ++ (written h es ++ copies fill 0)),
      length-append (sdwb_create_id h memory) (written h es ++ copies fill 0),
      length-append (written h es) (copies fill 0),
      length-header h,
      length-id h memory m,
      length-written h es,
      length-copies fill 0,
    )

header_magic : (h : Host) → load64 h (sdwb_create_header h 32 64) 0 ≡ ntohll h sdwb_head_magic
unfolding load64 load32 ntohll htonll htonl bswap32
header_magic little = refl
header_magic big = refl

header_address : (h : Host) → ntohll h (load64 h (sdwb_create_header h 32 64) 16) ≡ 64
unfolding load64 load32 ntohll htonll htonl bswap32
header_address little = refl
header_address big = refl

head_of-image :
    (h : Host) (memory buf : List ℕ) (es : List Entry)
    → length (image h memory es) < 2 ^ 64
    → head_of (fake_bus (image h memory es) buf) 0 ≡ sdwb_create_header h 32 64
unfolding image
head_of-image h memory buf es lt =
    read-part (image h memory es) [] (sdwb_create_header h 32 64) _ buf 0 32 refl refl
      (length-header h) lt

-- The bus of a generated file, with room for a descriptor of zeros behind the devices.
pub image-IsTabled :
    (h : Host) (memory buf : List ℕ) (es : List Entry)
    → length memory ≡ 32
    → AreSized es
    → 144 + 80 * length es ≤ 4 * 1024 * 1024
    → IsTabled h (fake_bus (image h memory es) buf) 0 (read_of h es)
unfolding image
image-IsTabled h memory buf es m s le =
    let fill = 4 * 1024 * 1024 - (64 + 80 * length es) in
    let size = length-image h memory es m (omega (arith, le)) in
    let head = head_of-image h memory buf es (omega (arith, size)) in
    let start = sdwb_create_header h 32 64 ++ sdwb_create_id h memory in
    let whole : image h memory es ≡ start ++ (written h es ++ copies (80 + (fill - 80)) 0) =
      sym (
        append_assoc (sdwb_create_header h 32 64) (sdwb_create_id h memory)
          (written h es ++ copies fill 0))
      ∙ ap (λ k. start ++ (written h es ++ copies k 0)) (omega (arith, le)) in
    let address = ap (λ r. ntohll h (load64 h r 16)) head ∙ header_address h in
    record {
      magic = ap (λ r. load64 h r 0) head ∙ header_magic h;
      table =
          subst (λ p. IsTable h (fake_bus (image h memory es) buf) p (read_of h es)) (sym address)
            (table h (image h memory es) start buf es (fill - 80) 64 whole
              (length-append (sdwb_create_header h 32 64) (sdwb_create_id h memory)
                ∙ omega (arith, length-header h, length-id h memory m))
              (omega (arith, size)) s);
    }
