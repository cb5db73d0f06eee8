-- ===== src/Wishbone/Master.antt =====
-- The master character device of pcie-wb/wishbone.c: the user writes Etherbone records into a ring
-- buffer, they are executed in place, and the user reads the answers from where they stood.
pub mod Counters
pub mod Ring
pub mod Stored
pub mod Tests
use fpga_config_space.Base.{
  ℕ, zero, suc, ◌+◌, ◌-◌, ◌*◌, ◌/◌, ◌%◌, Option, none, some, ◌||◌, ◌^◌, List, [], ◌∷◌, ◌++◌, Bool,
  true, false, not, ◌&&◌, ◌==◌, ltb, if◌then◌else◌, bit_and, length, take, drop, window,
}
use fpga_config_space.Wishbone.{
  Operations, etherbone_bca, etherbone_rca, etherbone_rff, etherbone_cyc, etherbone_wca,
  etherbone_wff, eb_to_cpu, eb_from_cpu, copy_in,
}

abbrev pub ring_size : ℕ
ring_size = 8192

unfoldable pub ring_index : ℕ → ℕ
ring_index x = bit_and x (ring_size - 1)

unfoldable pub ring_pos : ℕ → ℕ
ring_pos x = bit_and x (ring_size * 2 - 1)

-- The bytes from `i` on, around the end of the buffer.
unfoldable pub ring_window : (ℕ → ℕ) → (i len : ℕ) → List ℕ
ring_window buf i len =
    let buf_len = ring_size - ring_index i in
    if ltb buf_len len
    then window buf (ring_index i) buf_len ++ window buf 0 (len - buf_len)
    else window buf (ring_index i) len

-- Bytes stored from `i` on, around the end of the buffer.
unfoldable pub ring_copy_in : (ℕ → ℕ) → (i : ℕ) → List ℕ → ℕ → ℕ
ring_copy_in buf i xs =
    let buf_len = ring_size - ring_index i in
    if ltb buf_len (length xs)
    then copy_in (copy_in buf (ring_index i) (take buf_len xs)) 0 (drop buf_len xs)
    else copy_in buf (ring_index i) xs

-- The states of a context.
pub data State : Type 0 where
  header idle cycle : State

-- struct etherbone_master_context
pub record Master (S : Type 0) : Type 0 where
  pub wishbone : S
  pub state : State
  pub sent : ℕ
  pub processed : ℕ
  pub received : ℕ
  pub buf : ℕ → ℕ

-- A call returns -EINTR, -EAGAIN, or what it moved.
pub data Reading (S : Type 0) : Type 0 where
  eintr : Reading S
  eagain : Master S → Reading S
  delivered : List ℕ → Master S → Reading S

pub data Writing (S : Type 0) : Type 0 where
  eintr : Writing S
  eagain : Master S → Writing S
  accepted : ℕ → Master S → Writing S
  out_of_fuel : Writing S

-- What the loop of etherbone_master_process works on: `i` is its index in the buffer.
pub record Work (S : Type 0) : Type 0 where
  pub wishbone : S
  pub state : State
  pub buf : ℕ → ℕ
  pub i : ℕ

-- The length of a record with `wcount` words to write and `rcount` to read.
unfoldable pub record_len : (wcount rcount : ℕ) → ℕ
record_len wcount rcount =
    (1 + wcount + rcount + (if ltb 0 wcount then 1 else 0) + (if ltb 0 rcount then 1 else 0)) * 4

-- The header of the answer.
unfoldable pub answer_flags : ℕ → ℕ
answer_flags flags =
    bit_and flags etherbone_cyc
    + (if bit_and flags etherbone_rff == 0 then 0 else etherbone_wff)
    + (if bit_and flags etherbone_bca == 0 then 0 else etherbone_wca)

module _ {S : Type 0} where
  -- RING_READ_LEN, RING_PROC_LEN and RING_WRITE_LEN, on unsigned differences.
  unfoldable pub ring_read_len : Master S → ℕ
  ring_read_len c = ring_pos ((c.processed + 2 ^ 32 - c.sent) % 2 ^ 32)

  unfoldable pub ring_proc_len : Master S → ℕ
  ring_proc_len c = ring_pos ((c.received + 2 ^ 32 - c.processed) % 2 ^ 32)

  unfoldable pub ring_write_len : Master S → ℕ
  ring_write_len c = ring_pos ((c.sent + ring_size + 2 ^ 32 - c.received) % 2 ^ 32)

  -- char_master_open: `fresh` is the memory, with the back end in it.
  unfoldable pub master_open : Master S → Master S
  master_open fresh = record fresh { state = header; sent = 0; processed = 0; received = 0 }

  -- char_master_aio_read
  unfoldable pub master_read : (interrupted nonblock : Bool) (iov_len : ℕ) → Master S → Reading S
  master_read interrupted nonblock iov_len c =
      let ring_len = ring_read_len c in
      let len = if ltb ring_len iov_len then ring_len else iov_len in
      let after = record c { sent = ring_pos ((c.sent + len) % 2 ^ 32) } in
      if iov_len == 0
      then delivered [] c
      else if interrupted
      then eintr
      else if (len == 0) && nonblock
      then eagain after
      else delivered (ring_window c.buf c.sent len) after

  -- char_master_poll: whether there is something to read, and room to write.
  unfoldable pub master_poll : Master S → Bool × Bool
  master_poll c = (not (ring_read_len c == 0), not (ring_write_len c == 0))

  -- The answer to the probe of the user.
  unfoldable pub probe : Master S → Master S
  probe c = record c {
    buf = copy_in c.buf 0 (0x4E ∷ 0x6F ∷ 0x12 ∷ 0x44 ∷ []);
    processed = 8;
    state = idle;
  }

  -- Storing a word in the buffer.
  abbrev pub put : (at value : ℕ) → Work S → Work S
  put at value w = record w { buf = copy_in w.buf at (eb_from_cpu value) }

  abbrev pub move : ℕ → Work S → Work S
  move words w = record w { i = ring_index (w.i + words * 4) }

  module _ (wops : Operations S) where
    -- The loops over the words to write: without `wca` each goes to the bus.
    unfoldable pub write_words : (wca : Bool) (increment count base : ℕ) → Work S → Work S
    write_words wca increment zero base w = w
    write_words true increment (suc count) base w =
        write_words true increment count base (move 1 (put w.i 0 w))
    write_words false increment (suc count) base w =
        let w' = move 1 (put w.i 0 w) in
        write_words false increment count ((base + increment) % 2 ^ 32)
          (record w' { wishbone = wops.write w'.wishbone base (eb_to_cpu w'.buf w'.i) })

    unfoldable pub process_writes : (flags wcount : ℕ) → Work S → Work S
    process_writes flags wcount w =
        let wff = bit_and flags etherbone_wff in
        let w' = move 1 (put w.i 0 w) in
        let done =
          write_words (not (bit_and flags etherbone_wca == 0)) (4 * (1 - wff / etherbone_wff))
            wcount (eb_to_cpu w'.buf w'.i) w' in
        if ltb 0 wcount then done else w

    -- A word of the bus, or of its configuration space.
    abbrev pub fetch : (rca : Bool) → S → ℕ → ℕ × S
    fetch true s addr = wops.read_cfg s addr
    fetch false s addr = wops.read s addr

    -- The loops over the addresses to read: the words read take their places.
    unfoldable pub read_words : (rca : Bool) (count : ℕ) → Work S → Work S
    read_words rca zero w = w
    read_words rca (suc count) w =
        let (value, s) = fetch rca w.wishbone (eb_to_cpu w.buf w.i) in
        read_words rca count (move 1 (put w.i value (record w { wishbone = s })))

    unfoldable pub process_reads : (flags rcount : ℕ) → Work S → Work S
    process_reads flags rcount w =
        let done = read_words (not (bit_and flags etherbone_rca == 0)) rcount (move 2 w) in
        if ltb 0 rcount then done else move 1 w

    -- The cycle line is raised before the first record of a cycle.
    unfoldable pub raise : State → Work S → Work S
    raise idle w = record w { wishbone = wops.cycle w.wishbone true; state = cycle }
    raise other w = w

    unfoldable pub lower : (flags : ℕ) → Work S → Work S
    lower flags w =
        if bit_and flags etherbone_cyc == 0
        then w
        else record w { wishbone = wops.cycle w.wishbone false; state = idle }

    -- One record: the body of the loop, behind the test of its length.
    unfoldable pub process_record : Work S → Work S
    process_record w =
        let flags = w.buf w.i in
        let be = w.buf (w.i + 1) in
        let wcount = w.buf (w.i + 2) in
        let rcount = w.buf (w.i + 3) in
        let raised = raise w.state w in
        let written =
          process_writes flags wcount
            (record raised { wishbone = wops.byteenable raised.wishbone be }) in
        let headed = record written {
          buf = copy_in written.buf written.i (answer_flags flags ∷ be ∷ rcount ∷ 0 ∷ []);
        } in
        lower flags (process_reads flags rcount headed)

    -- The loop: the bytes that are left, and the work done. `none` is no fuel.
    unfoldable pub process_records : (fuel left : ℕ) → Work S → Option (ℕ × Work S)
    process_records zero left w = none
    process_records (suc fuel) left w =
        let len = record_len (w.buf (w.i + 2)) (w.buf (w.i + 3)) in
        let rest = process_records fuel (left - len) (process_record w) in
        if ltb left 4 || ltb left len then some (left, w) else rest

    -- What the loop leaves goes back to the context.
    unfoldable pub finish : (size : ℕ) → Master S → Option (ℕ × Work S) → Option (Master S)
    finish size c none = none
    finish size c (some (left, w)) = some (record c {
      wishbone = w.wishbone;
      state = w.state;
      buf = w.buf;
      processed = ring_pos ((c.processed + size + 2 ^ 32 - left) % 2 ^ 32);
    })

    unfoldable pub process_from : (fuel : ℕ) → Master S → Option (Master S)
    process_from fuel c = finish (ring_proc_len c) c (
        process_records fuel (ring_proc_len c) (record {
          wishbone = c.wishbone;
          state = c.state;
          buf = c.buf;
          i = ring_index c.processed;
        }))

    -- etherbone_master_process
    unfoldable pub master_process : (fuel : ℕ) → State → Master S → Option (Master S)
    master_process fuel header c = if ltb c.received 8 then some c else process_from fuel (probe c)
    master_process fuel idle c = process_from fuel c
    master_process fuel cycle c = process_from fuel c

    -- The end of char_master_aio_write.
    unfoldable pub write_result : (nonblock : Bool) (len : ℕ) → Option (Master S) → Writing S
    write_result nonblock len none = out_of_fuel
    write_result nonblock len (some c) = if (len == 0) && nonblock then eagain c else accepted len c

    -- char_master_aio_write
    unfoldable pub master_write :
        (fuel : ℕ) (interrupted nonblock : Bool) → List ℕ → Master S → Writing S
    master_write fuel interrupted nonblock input c =
        let ring_len = ring_write_len c in
        let len = if ltb ring_len (length input) then ring_len else length input in
        let c' = record c {
          buf = ring_copy_in c.buf c.received (take len input);
          received = ring_pos ((c.received + len) % 2 ^ 32);
        } in
        if length input == 0
        then accepted 0 c
        else if interrupted
        then eintr
        else write_result nonblock len (master_process fuel c'.state c')

    -- char_master_release: the back end after it.
    unfoldable pub master_release : Master S → S
    master_release c = elim c.state [
      | header ↦ c.wishbone
      | idle ↦ c.wishbone
      | cycle ↦ wops.cycle c.wishbone false
    ]
