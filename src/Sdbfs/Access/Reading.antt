-- ===== src/Sdbfs/Access/Reading.antt =====
-- Reading an open file of a mapped device: what one call delivers, and what the loop of
-- sdbfs/userspace/sdb-read.c delivers with it.
use fpga_config_space.Base.{
  ℕ, zero, suc, ◌+◌, ◌-◌, ◌^◌, ◌≤◌, ◌<◌, min, Option, none, some, List, [], ◌++◌, true, false, ◌≡◌,
  refl, ap, sym, ◌∙◌, arith, ◌==◌, if◌then◌else◌, window, window-add, take-fill, length-window,
  ℕ-cases, inl, inr, ap₂, take, ◌||◌, fill,
}
use fpga_config_space.Sdb.{Sdb}
use fpga_config_space.Sdbfs.{Fs}
use fpga_config_space.Sdbfs.Scan.{add64}
use fpga_config_space.Sdbfs.Access.{
  Transfer, moved, crashed, not_open, negative, widen, start_of, count_of, advance, transfer,
  access, fread,
}

-- A mapped device with an open file whose positions are in the range of an `int`, and whose bytes do
-- not run past the end of the address space.
pub record IsReadable (fs : Fs) : Type 0 where
  pub direct : fs.mapped ≡ true
  pub current : Sdb
  pub open_file : fs.currentp ≡ some current
  pub len_int : fs.f_len < 2 ^ 31
  pub inside : fs.read_offset ≤ fs.f_len
  pub no_wrap : fs.f_offset + fs.f_len < 2 ^ 64

count_of_lem :
    (fs : Fs) (offset count : ℕ)
    → fs.f_len < 2 ^ 31
    → offset ≤ fs.f_len
    → count < 2 ^ 31
    → count_of fs offset count ≡ min count (fs.f_len - offset)
unfolding count_of
count_of_lem fs offset count small inside int = ground arith

advance_lem :
    (fs : Fs) (offset n : ℕ)
    → offset + n < 2 ^ 31
    → advance offset n fs
      ≡ record fs { read_offset = if n == 0 then fs.read_offset else offset + n }
unfolding advance
advance_lem fs offset n small = ground arith

-- What a call delivers from position `at` on.
abbrev pub available : Fs → (at count : ℕ) → ℕ
available fs at count = min count (fs.f_len - at)

transfer_mapped :
    (fs : Fs) (at n : ℕ) (buf : List ℕ)
    → IsReadable fs
    → at + n ≤ fs.f_len
    → transfer fs.read fs at n buf
      ≡ moved n
          (fill (window fs.memory (fs.f_offset + at) n) buf)
          (record fs { read_offset = if n == 0 then fs.read_offset else at + n })
unfolding transfer
transfer_mapped fs at n buf r fits =
    let address : add64 fs.f_offset (widen at) ≡ fs.f_offset + at =
      ground (arith, r.no_wrap, r.len_int) in
    let plain : negative n ≡ false = ground (arith, r.len_int) in
    rw (advance_lem fs at n (omega (arith, r.len_int)), address, plain, r.direct)

start_of_lem :
    (fs : Fs) (offset : ℕ)
    → fs.read_offset < 2 ^ 32
    → start_of fs offset ≡ (if negative offset then fs.read_offset else offset)
unfolding start_of
start_of_lem fs offset small = ground arith

access_open :
    (fs : Fs) (d : Sdb) (offset count : ℕ) (buf : List ℕ)
    → fs.currentp ≡ some d
    → access fs.read fs offset count buf
      ≡ transfer fs.read fs (start_of fs offset) (count_of fs (start_of fs offset) count) buf
unfolding access
access_open fs d offset count buf e = rw e

-- On a mapped device with an open file whose length and positions fit an `int`: a read at
-- `offset`, or at the current position if that is negative, of a count that is not negative,
-- delivers the bytes of the file from there on, as many as are asked for or left, stores nothing
-- else, returns their number, and moves the position behind them if there are any.
pub fread-window :
    (fs : Fs) (offset count at : ℕ) (buf : List ℕ)
    → IsReadable fs
    → at ≡ (if negative offset then fs.read_offset else offset)
    → at ≤ fs.f_len
    → count < 2 ^ 31
    → let n = available fs at count in
      fread fs offset count buf
      ≡ moved n
          (fill (window fs.memory (fs.f_offset + at) n) buf)
          (record fs { read_offset = if n == 0 then fs.read_offset else at + n })
unfolding fread
fread-window fs offset count at buf r e inside int =
    let start = start_of_lem fs offset (omega (arith, r.inside, r.len_int)) ∙ sym e in
    let cut = count_of_lem fs at count r.len_int inside int in
    access_open fs r.current offset count buf r.open_file
    ∙ rw (start, cut) (transfer_mapped fs at (available fs at count) buf r (omega arith))

-- One round of the loop below: print what was read, and go on if it is something.
abbrev cat_step : (Fs → List ℕ → Option (List ℕ)) → Transfer → Option (List ℕ)
cat_step rest (moved ret buf fs) =
    if negative ret || (ret == 0)
    then some []
    else elim (rest fs buf) [ none ↦ none | some more ↦ some (take ret buf ++ more) ]
cat_step rest not_open = none
cat_step rest crashed = none

-- The loop of `do_cat_name` and `do_cat_id`, with a buffer of `size` bytes: it reads from the current
-- position until a read returns nothing, and prints what it got. `none`: no return, or no fuel.
unfoldable pub cat : ℕ → Fs → ℕ → List ℕ → Option (List ℕ)
cat zero fs size buf = none
cat (suc fuel) fs size buf =
    cat_step (λ fs' buf'. cat fuel fs' size buf') (fread fs (2 ^ 32 - 1) size buf)

cat_step_done :
    (rest : Fs → List ℕ → Option (List ℕ)) (buf : List ℕ) (fs : Fs)
    → cat_step rest (moved 0 buf fs) ≡ some []
cat_step_done rest buf fs = refl

cat_step_more :
    (rest : Fs → List ℕ → Option (List ℕ)) (f : ℕ → ℕ) (i n : ℕ) (buf more : List ℕ) (fs : Fs)
    → 0 < n
    → n < 2 ^ 31
    → rest fs (fill (window f i n) buf) ≡ some more
    → cat_step rest (moved n (fill (window f i n) buf) fs) ≡ some (window f i n ++ more)
cat_step_more rest f i n buf more fs pos int e =
    let go_on : (negative n || (n == 0)) ≡ false = ground arith in
    rw (go_on, e, take-fill n (window f i n) buf (length-window f i n))

-- The state behind a read of `n` bytes at the current position.
abbrev past : Fs → ℕ → Fs
past fs n = record fs { read_offset = fs.read_offset + n }

past-IsReadable :
    (fs : Fs) (n : ℕ) → IsReadable fs → n ≤ fs.f_len - fs.read_offset → IsReadable (past fs n)
past-IsReadable fs n r small = record {
  direct = r.direct;
  current = r.current;
  open_file = r.open_file;
  len_int = r.len_int;
  inside = omega (arith, r.inside);
  no_wrap = r.no_wrap;
}

fread_next :
    (fs : Fs) (size n : ℕ) (buf : List ℕ)
    → IsReadable fs
    → size < 2 ^ 31
    → n ≡ min size (fs.f_len - fs.read_offset)
    → fread fs (2 ^ 32 - 1) size buf
      ≡ moved n (fill (window fs.memory (fs.f_offset + fs.read_offset) n) buf) (past fs n)
fread_next fs size n buf r int e =
    fread-window fs (2 ^ 32 - 1) size fs.read_offset buf r refl r.inside int
    ∙ rw (← e) (
        ap
          (λ at.
            moved n (fill (window fs.memory (fs.f_offset + fs.read_offset) n) buf)
              (record fs { read_offset = at }))
          (ground arith))

cat_from :
    (fuel : ℕ) (fs : Fs) (size : ℕ) (buf : List ℕ)
    → IsReadable fs
    → 0 < size
    → size < 2 ^ 31
    → fs.f_len - fs.read_offset < fuel
    → cat fuel fs size buf
      ≡ some (window fs.memory (fs.f_offset + fs.read_offset) (fs.f_len - fs.read_offset))
unfolding cat
cat_from zero fs size buf r pos int enough = absurd (omega arith)
cat_from (suc fuel) fs size buf r pos int enough = elim (ℕ-cases (fs.f_len - fs.read_offset)) [
  | inl none_left ↦
      ap (cat_step (λ fs' buf'. cat fuel fs' size buf'))
        (fread_next fs size 0 buf r int (omega arith))
      ∙ rw none_left
  | inr (k, some_left) ↦
      let n = min size (fs.f_len - fs.read_offset) in
      let start = fs.f_offset + fs.read_offset in
      let buf' = fill (window fs.memory start n) buf in
      let left = fs.f_len - (fs.read_offset + n) in
      let more =
        cat_from fuel (past fs n) size buf' (past-IsReadable fs n r (omega arith)) pos int
          (omega arith) in
      let total : n + left ≡ fs.f_len - fs.read_offset = omega arith in
      let shift : fs.f_offset + (fs.read_offset + n) ≡ start + n = omega arith in
      ap (cat_step (λ fs' buf'. cat fuel fs' size buf')) (fread_next fs size n buf r int refl)
      ∙ cat_step_more (λ fs' buf'. cat fuel fs' size buf') fs.memory start n buf _ (past fs n)
          (omega arith) (omega arith) more
      ∙ ap some (
          ap (λ at. window fs.memory start n ++ window fs.memory at left) shift
          ∙ sym (window-add fs.memory start n left)
          ∙ ap (window fs.memory start) total)
]

-- On a mapped device with a file that was just opened and whose length fits an `int`, with fuel
-- for each byte and a buffer of at least one byte, the loop prints the whole file, from its offset
-- in the device to its last byte.
pub cat-file :
    (fuel : ℕ) (fs : Fs) (size : ℕ) (buf : List ℕ)
    → IsReadable fs
    → fs.read_offset ≡ 0
    → 0 < size
    → size < 2 ^ 31
    → fs.f_len < fuel
    → cat fuel fs size buf ≡ some (window fs.memory fs.f_offset fs.f_len)
cat-file fuel fs size buf r start pos int enough =
    let from : fs.f_offset + fs.read_offset ≡ fs.f_offset = omega arith in
    let all : fs.f_len - fs.read_offset ≡ fs.f_len = omega arith in
    cat_from fuel fs size buf r pos int (omega arith)
    ∙ ap₂ (λ a n. some (window fs.memory a n)) from all
