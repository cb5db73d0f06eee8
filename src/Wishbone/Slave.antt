-- ===== src/Wishbone/Slave.antt =====
-- The slave character device of pcie-wb/wishbone.c: requests of the hardware go out to the user as
-- Etherbone records, and the user writes records back that answer them.
pub mod Balance
pub mod Writes
pub mod Session
pub mod Tests
use fpga_config_space.Base.{
  ℕ, zero, suc, ◌+◌, ◌-◌, ◌*◌, ◌%◌, ◌^◌, Option, none, some, List, [], ◌∷◌, ◌++◌, Bool, true, false,
  not, ◌&&◌, ◌||◌, ◌==◌, ltb, leb, if◌then◌else◌, bit_and, length, drop, take, window,
}
use fpga_config_space.Wishbone.{
  Request, Operations, etherbone_bca, etherbone_rca, etherbone_cyc, etherbone_wca, etherbone_wff,
  wba_data, wba_err, eb_to_cpu, eb_from_cpu, copy_in,
}

-- struct etherbone_slave_context. `wishbone` is the state of the back end that the pointer leads to.
pub record Slave (S : Type 0) : Type 0 where
  pub wishbone : S
  pub pending_err : ℕ
  pub negotiated : Bool
  pub dat : ℕ
  pub rbuf_done : ℕ
  pub rbuf_end : ℕ
  pub rbuf : ℕ → ℕ
  pub wbuf_fill : ℕ
  pub wbuf : ℕ → ℕ

-- The record that announces a request.
unfoldable pub announce : Request → List ℕ
announce r =
    (if r.write
      then etherbone_bca ∷ r.mask ∷ 1 ∷ 0 ∷ (eb_from_cpu r.addr ++ eb_from_cpu r.dat)
      else etherbone_bca ∷ r.mask ∷ 0 ∷ 1 ∷ (eb_from_cpu wba_data ++ eb_from_cpu r.addr))
    ++ ((etherbone_cyc + etherbone_bca + etherbone_rca) ∷ 0xf ∷ 0 ∷ 1 ∷ [])
    ++ eb_from_cpu wba_err
    ++ eb_from_cpu 4

-- The header that answers the probe.
unfoldable pub is_probe_answer : (ℕ → ℕ) → Bool
is_probe_answer w =
    (w 0 == 0x4E) && (w 1 == 0x6F) && (bit_and (w 2) 0x7 == 0x6) && (bit_and (w 3) 0x44 == 0x44)

-- The length of the record in the buffer.
unfoldable pub record_len : (ℕ → ℕ) → ℕ
record_len w = ((if ltb 0 (w 2) then 1 else 0) + (if ltb 0 (w 3) then 1 else 0) + w 2 + w 3 + 1) * 4

-- How an operation ends.
pub data Opening (S : Type 0) : Type 0 where
  enomem : Opening S
  ebusy : Opening S
  opened : Slave S → Opening S

pub data Reading (S : Type 0) : Type 0 where
  eintr : Reading S
  eagain : Slave S → Reading S
  delivered : List ℕ → Slave S → Reading S

pub data Writing (S : Type 0) : Type 0 where
  eintr : Writing S
  eio : Slave S → Writing S
  written : ℕ → Slave S → Writing S
  out_of_fuel : Writing S

-- One round of the loop of a write: it leaves the loop by `break`, or goes on with what is left.
pub data Round (S : Type 0) : Type 0 where
  stop : Slave S → Round S
  go : List ℕ → Slave S → Round S

module _ {S : Type 0} where
  -- char_slave_open. `busy` says that `wishbone->slave` is set; `fresh` is the memory from kmalloc,
  -- with the back end in it.
  unfoldable pub slave_open : (allocated busy : Bool) → Slave S → Opening S
  slave_open allocated busy fresh =
      if not allocated
      then enomem
      else if busy
      then ebusy
      else opened (record fresh {
        pending_err = 0;
        negotiated = false;
        rbuf_done = 0;
        wbuf_fill = 0;
        rbuf = copy_in fresh.rbuf 0 (0x4E ∷ 0x6F ∷ 0x11 ∷ 0x44 ∷ 0 ∷ 0 ∷ 0 ∷ 0 ∷ []);
        rbuf_end = 8;
      })

  -- A request that was taken is announced.
  unfoldable pub announced : Slave S → Option Request × S → Slave S
  announced c (none, s) = record c { wishbone = s }
  announced c (some r, s) = record c {
    wishbone = s;
    pending_err = (c.pending_err + 1) % 2 ^ 32;
    rbuf_done = 0;
    rbuf = copy_in c.rbuf 0 (announce r);
    rbuf_end = length (announce r);
  }

  module _ (wops : Operations S) where
    -- etherbone_slave_out_process
    unfoldable pub slave_out_process : Slave S → Slave S
    slave_out_process c =
        if not (c.rbuf_done == c.rbuf_end) || not c.negotiated
        then c
        else announced c (wops.request c.wishbone)

    -- One word that the user writes, at an address of the configuration space: `false` is -EIO.
    unfoldable pub store_word : (base dat : ℕ) → Slave S → Bool × Slave S
    store_word base dat c =
        if base == wba_data
        then (true, record c { dat = dat })
        else if base == wba_err
        then if c.pending_err == 0 then (false, c) else (
          true,
          record c {
            pending_err = c.pending_err - 1;
            wishbone = wops.reply c.wishbone (bit_and dat 1) c.dat;
          },
        )
        else (false, c)

    -- The loop over the words of a record, from index `at` of the buffer on.
    unfoldable pub store_words : (wff : Bool) (count at base : ℕ) → Slave S → Bool × Slave S
    store_words wff zero at base c = (true, c)
    store_words wff (suc count) at base c =
        let next = store_word base (eb_to_cpu c.wbuf at) c in
        let rest =
          store_words wff count (at + 4) (if wff then base else (base + 4) % 2 ^ 32) next.1 in
        if next.0 then rest else next

    -- etherbone_slave_in_process
    unfoldable pub slave_in_process : Slave S → Bool × Slave S
    slave_in_process c =
        if not (c.wbuf 3 == 0)
        then (false, c)
        else if c.wbuf 2 == 0
        then (true, c)
        else if not (c.wbuf 1 == 0xf)
        then (false, c)
        else if bit_and (c.wbuf 0) etherbone_wca == 0
        then (false, c)
        else store_words (not (bit_and (c.wbuf 0) etherbone_wff == 0)) (c.wbuf 2) 8
            (eb_to_cpu c.wbuf 4) c

    -- The loop of char_slave_release.
    unfoldable pub reply_all : ℕ → S → S
    reply_all zero s = s
    reply_all (suc n) s = reply_all n (wops.reply s 1 0)

    -- char_slave_release: the back end after it, and whether it returns 0 rather than -EIO. The
    -- loop counts in an `int`, and the count of the context is unsigned.
    unfoldable pub slave_release : Slave S → Bool × S
    slave_release c = (
      c.pending_err == 0,
      if leb (2 ^ 31) c.pending_err then c.wishbone else reply_all c.pending_err c.wishbone,
    )

  -- The bytes that are copied out: as many as are asked for or there.
  unfoldable pub take_out : (nonblock : Bool) (iov_len : ℕ) → Slave S → Reading S
  take_out nonblock iov_len c =
      let buf_len = (c.rbuf_end + 2 ^ 32 - c.rbuf_done) % 2 ^ 32 in
      let len = if ltb iov_len buf_len then iov_len else buf_len in
      let after = record c { rbuf_done = (c.rbuf_done + len) % 2 ^ 32 } in
      if (len == 0) && nonblock
      then eagain after
      else delivered (window c.rbuf c.rbuf_done len) after

  unfoldable pub write_result : (size : ℕ) → Option (Bool × Slave S) → Writing S
  write_result size none = out_of_fuel
  write_result size (some (true, c)) = written size c
  write_result size (some (false, c)) = eio c

  -- `len` bytes of the input go to the buffer.
  unfoldable pub fill_in : (len : ℕ) → List ℕ → Slave S → Slave S
  fill_in len input c = record c {
    wbuf = copy_in c.wbuf c.wbuf_fill (take len input);
    wbuf_fill = c.wbuf_fill + len;
  }

  unfoldable pub negotiate : List ℕ → Slave S → Round S
  negotiate input c =
      if is_probe_answer c.wbuf
      then go input (record c { wbuf_fill = 0; negotiated = true })
      else stop c

  unfoldable pub processed : List ℕ → Bool × Slave S → Round S
  processed rest (true, c) = go rest c
  processed rest (false, c) = stop c

  module _ (wops : Operations S) where
    -- char_slave_aio_read
    unfoldable pub slave_read : (interrupted nonblock : Bool) (iov_len : ℕ) → Slave S → Reading S
    slave_read interrupted nonblock iov_len c =
        if iov_len == 0
        then delivered [] c
        else if interrupted
        then eintr
        else take_out nonblock iov_len (slave_out_process wops c)

    -- char_slave_poll: the context, and whether there is something to read.
    unfoldable pub slave_poll : Slave S → Slave S × Bool
    slave_poll c = let c' = slave_out_process wops c in (c', not (c'.rbuf_done == c'.rbuf_end))

    -- The rest of a record: all of it, or what the input has.
    unfoldable pub receive : List ℕ → Slave S → Round S
    receive input c =
        let buf_len = (record_len c.wbuf + 2 ^ 32 - c.wbuf_fill) % 2 ^ 32 in
        if ltb (length input) buf_len
        then go [] (fill_in (length input) input c)
        else processed (drop buf_len input)
            (slave_in_process wops (record (fill_in buf_len input c) { wbuf_fill = 0 }))

    -- The body of the loop of char_slave_aio_write.
    unfoldable pub round : List ℕ → Slave S → Round S
    round input c =
        if ltb c.wbuf_fill 4
        then (let buf_len = 4 - c.wbuf_fill in
            let len = if ltb (length input) buf_len then length input else buf_len in
            go (drop len input) (fill_in len input c))
        else if not c.negotiated
        then negotiate input c
        else receive input c

    -- The loop: whether all input was taken, and the context. `none` is no fuel.
    unfoldable pub feed : (fuel : ℕ) → List ℕ → Slave S → Option (Bool × Slave S)
    feed fuel [] c = some (true, c)
    feed zero (x ∷ xs) c = none
    feed (suc fuel) (x ∷ xs) c = elim (round (x ∷ xs) c) [
      | stop c' ↦ some (false, c')
      | go rest c' ↦ feed fuel rest c'
    ]

    -- char_slave_aio_write, of less than 4 GiB, which `outlen` has room for.
    unfoldable pub slave_write : (fuel : ℕ) (interrupted : Bool) → List ℕ → Slave S → Writing S
    slave_write fuel interrupted input c =
        if interrupted then eintr else write_result (length input) (feed fuel input c)
