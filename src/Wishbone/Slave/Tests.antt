-- ===== src/Wishbone/Slave/Tests.antt =====
-- A session on the slave device with a back end that has one read request waiting.
use fpga_config_space.Base.{
  ℕ, ◌==◌, none, some, List, [], ◌∷◌, Bool, true, false, if◌then◌else◌, ◌≡◌, refl, arith,
}
use fpga_config_space.Wishbone.{Request, Operations, copy_in}
use fpga_config_space.Wishbone.Slave.{
  Slave, Reading, Writing, delivered, written, slave_open, announce, announced, slave_out_process,
  reply_all, slave_release, take_out, is_probe_answer, fill_in, negotiate, slave_read, round, feed,
  write_result, slave_write,
}
use fpga_config_space.Wishbone.Slave.Balance.{Counted, counted, IsBalanced}
use fpga_config_space.Wishbone.Slave.Writes.{IsWritten, slave_write-IsWritten}
use fpga_config_space.Wishbone.Slave.Session.{
  Reaches, on_open, on_read, on_write, slave_release-answers,
}

abbrev waiting : Request
waiting = record { write = false; addr = 0x10; dat = 0; mask = 0xf }

-- The state says whether the request is still to be made.
abbrev one_request : Operations Bool
one_request = record {
  cycle = λ s on. s;
  byteenable = λ s mask. s;
  write = λ s addr dat. s;
  read = λ s addr. (0, s);
  read_cfg = λ s addr. (0, s);
  request = λ s. if s then (some waiting, false) else (none, s);
  reply = λ s err dat. s;
}

abbrev fresh : Slave (Counted Bool)
fresh = record {
  wishbone = record { state = true; asked = 0; answered = 0 };
  pending_err = 7;
  negotiated = true;
  dat = 0;
  rbuf_done = 3;
  rbuf_end = 5;
  rbuf = λ i. 0;
  wbuf_fill = 9;
  wbuf = λ i. 0;
}

-- The device after `open`, after the answer to the probe, and after the two reads.
abbrev at_start : Slave (Counted Bool)
at_start = record fresh {
  pending_err = 0;
  negotiated = false;
  rbuf_done = 0;
  rbuf_end = 8;
  rbuf = copy_in (λ i. 0) 0 (0x4E ∷ 0x6F ∷ 0x11 ∷ 0x44 ∷ 0 ∷ 0 ∷ 0 ∷ 0 ∷ []);
  wbuf_fill = 0;
}

abbrev answer : List ℕ
answer = 0x4E ∷ 0x6F ∷ 0x16 ∷ 0x44 ∷ 0 ∷ 0 ∷ 0 ∷ 0 ∷ []

abbrev balanced_start : IsBalanced at_start
balanced_start = record { count = refl; small = omega arith }

slave_write-IsWritten_example :
    IsWritten 8 (slave_write (counted one_request) 17 false answer at_start)
slave_write-IsWritten_example =
    slave_write-IsWritten one_request 17 false answer at_start balanced_start (omega arith)

-- The context that a call leaves.
abbrev after_write : Writing (Counted Bool) → Slave (Counted Bool)
after_write (written n c) = c
after_write other = fresh

abbrev after_read : Reading (Counted Bool) → Slave (Counted Bool)
after_read (delivered bytes c) = c
after_read other = fresh

abbrev negotiated_slave : Slave (Counted Bool)
negotiated_slave = after_write (slave_write (counted one_request) 17 false answer at_start)

abbrev probe_read : Slave (Counted Bool)
probe_read = after_read (slave_read (counted one_request) false false 8 negotiated_slave)

abbrev request_read : Slave (Counted Bool)
request_read = after_read (slave_read (counted one_request) false false 100 probe_read)

start-Reaches : Reaches one_request at_start
unfolding slave_open
start-Reaches = on_open true false fresh at_start refl refl

negotiated_slave-Reaches : Reaches one_request negotiated_slave
unfolding slave_write write_result feed round fill_in negotiate is_probe_answer copy_in
negotiated_slave-Reaches = on_write false answer 8 at_start negotiated_slave start-Reaches refl

probe_read-Reaches : Reaches one_request probe_read
unfolding slave_write write_result feed round fill_in negotiate is_probe_answer copy_in slave_read
    slave_out_process take_out
probe_read-Reaches =
    on_read false false 8 (0x4E ∷ 0x6F ∷ 0x11 ∷ 0x44 ∷ 0 ∷ 0 ∷ 0 ∷ 0 ∷ []) negotiated_slave
      probe_read negotiated_slave-Reaches (omega arith) refl

request_read-Reaches : Reaches one_request request_read
unfolding slave_write write_result feed round fill_in negotiate is_probe_answer copy_in slave_read
    slave_out_process take_out announced announce
request_read-Reaches =
    on_read false false 100
      (0x80 ∷ 0xf ∷ 0 ∷ 1 ∷ 0 ∷ 0 ∷ 0x80 ∷ 0 ∷ 0 ∷ 0 ∷ 0 ∷ 0x10 ∷ 0xc8 ∷ 0xf ∷ 0 ∷ 1 ∷ 0 ∷ 0 ∷ 0x80
        ∷ 4 ∷ 0 ∷ 0 ∷ 0 ∷ 4 ∷ [])
      probe_read request_read probe_read-Reaches (omega arith) refl

slave_release-answers_example :
    ((slave_release (counted one_request) request_read).1.asked
      ≡ (slave_release (counted one_request) request_read).1.answered)
    × ((slave_release (counted one_request) request_read).0
        ≡ (request_read.wishbone.asked == request_read.wishbone.answered))
slave_release-answers_example = slave_release-answers one_request request_read request_read-Reaches

-- The release has answered the one request, and reports the error.
released :
    slave_release (counted one_request) request_read
    ≡ (false, record { state = false; asked = 1; answered = 1 })
unfolding slave_write write_result feed round fill_in negotiate is_probe_answer copy_in slave_read
    slave_out_process take_out announced announce slave_release reply_all
released = refl
