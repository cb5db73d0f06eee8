-- ===== src/Wishbone/Slave/Session.antt =====
-- All that can happen to an open slave device, as a relation, up to its release.
use fpga_config_space.Base.{
  ℕ, zero, suc, ◌+◌, ◌*◌, ◌%◌, ◌^◌, ◌<◌, List, Bool, true, false, ◌==◌, ◌&&◌, ltb, leb,
  if◌then◌else◌, ◌≡◌, refl, subst, arith, length, Bool-cases, inl, inr, ◌+◌, ◌-◌,
}
use fpga_config_space.Wishbone.{Operations}
use fpga_config_space.Wishbone.Slave.{
  Slave, Opening, enomem, ebusy, opened, Reading, eintr, eagain, delivered, written, eio,
  slave_open, reply_all, slave_release, take_out, slave_read, slave_poll, slave_write,
}
use fpga_config_space.Wishbone.Slave.Balance.{
  Counted, counted, IsBalanced, slave_out_process-IsBalanced,
}
use fpga_config_space.Wishbone.Slave.Writes.{IsWritten, slave_write-IsWritten}

module _ {S : Type 0} (wops : Operations S) where
  -- The states of an open device: after `open` on a back end with no request unanswered, and after
  -- each call. A call that takes a request is made with fewer than 2^31 - 1 of them unanswered.
  pub data Reaches : Slave (Counted S) → Type 0 where
    on_open :
        (allocated busy : Bool) (fresh c : Slave (Counted S))
        → fresh.wishbone.asked ≡ fresh.wishbone.answered
        → slave_open allocated busy fresh ≡ opened c
        → Reaches c
    on_read :
        (interrupted nonblock : Bool) (size : ℕ) (bytes : List ℕ) (c c' : Slave (Counted S))
        → Reaches c
        → c.pending_err + 1 < 2 ^ 31
        → slave_read (counted wops) interrupted nonblock size c ≡ delivered bytes c'
        → Reaches c'
    on_nothing :
        (interrupted nonblock : Bool) (size : ℕ) (c c' : Slave (Counted S))
        → Reaches c
        → c.pending_err + 1 < 2 ^ 31
        → slave_read (counted wops) interrupted nonblock size c ≡ eagain c'
        → Reaches c'
    on_poll :
        (c : Slave (Counted S))
        → Reaches c
        → c.pending_err + 1 < 2 ^ 31
        → Reaches (slave_poll (counted wops) c).0
    on_write :
        (interrupted : Bool) (input : List ℕ) (n : ℕ) (c c' : Slave (Counted S))
        → Reaches c
        → slave_write (counted wops) (length input * 2 + 1) interrupted input c ≡ written n c'
        → Reaches c'
    on_error :
        (interrupted : Bool) (input : List ℕ) (c c' : Slave (Counted S))
        → Reaches c
        → slave_write (counted wops) (length input * 2 + 1) interrupted input c ≡ eio c'
        → Reaches c'

  abbrev IsOpened : Opening (Counted S) → Type 0
  IsOpened enomem = Unit {0}
  IsOpened ebusy = Unit {0}
  IsOpened (opened c) = IsBalanced c

  slave_open-IsOpened :
      (allocated busy : Bool) (fresh : Slave (Counted S))
      → fresh.wishbone.asked ≡ fresh.wishbone.answered
      → IsOpened (slave_open allocated busy fresh)
  unfolding slave_open
  slave_open-IsOpened false busy fresh e = tt
  slave_open-IsOpened true true fresh e = tt
  slave_open-IsOpened true false fresh e = record { count = omega (arith, e); small = omega arith }

  abbrev IsRead : Reading (Counted S) → Type 0
  IsRead eintr = Unit {0}
  IsRead (eagain c) = IsBalanced c
  IsRead (delivered bytes c) = IsBalanced c

  take_out-IsRead :
      (nonblock : Bool) (size : ℕ) (c : Slave (Counted S))
      → IsBalanced c
      → IsRead (take_out nonblock size c)
  unfolding take_out
  take_out-IsRead nonblock size c b =
      let buf_len = (c.rbuf_end + 2 ^ 32 - c.rbuf_done) % 2 ^ 32 in
      let len = if ltb size buf_len then size else buf_len in
      elim (Bool-cases ((len == 0) && nonblock)) [
        | inl e ↦ rw e (record { count = b.count; small = b.small })
        | inr e ↦ rw e (record { count = b.count; small = b.small })
      ]

  slave_read-IsRead :
      (interrupted nonblock : Bool) (size : ℕ) (c : Slave (Counted S))
      → IsBalanced c
      → c.pending_err + 1 < 2 ^ 31
      → IsRead (slave_read (counted wops) interrupted nonblock size c)
  unfolding slave_read
  slave_read-IsRead interrupted nonblock size c b room = elim (Bool-cases (size == 0)) [
    | inl e ↦ rw e b
    | inr e ↦ elim (Bool-cases interrupted) [
      | inl f ↦ rw (e, f) tt
      | inr f ↦
          rw (e, f) (take_out-IsRead nonblock size _ (slave_out_process-IsBalanced wops c b room))
    ]
  ]

  Reaches-IsBalanced : (c : Slave (Counted S)) → Reaches c → IsBalanced c
  unfolding slave_poll
  Reaches-IsBalanced _ (on_open a busy fresh c e o) =
      subst IsOpened o (slave_open-IsOpened a busy fresh e)
  Reaches-IsBalanced _ (on_read i n size bytes c0 c r room e) =
      subst IsRead e (slave_read-IsRead i n size c0 (Reaches-IsBalanced c0 r) room)
  Reaches-IsBalanced _ (on_nothing i n size c0 c r room e) =
      subst IsRead e (slave_read-IsRead i n size c0 (Reaches-IsBalanced c0 r) room)
  Reaches-IsBalanced _ (on_poll c0 r room) =
      slave_out_process-IsBalanced wops c0 (Reaches-IsBalanced c0 r) room
  Reaches-IsBalanced _ (on_write i input n c0 c r e) =
      (subst (IsWritten (length input)) e (
        slave_write-IsWritten wops (length input * 2 + 1) i input c0 (Reaches-IsBalanced c0 r)
          (omega arith))).1
  Reaches-IsBalanced _ (on_error i input c0 c r e) = subst (IsWritten (length input)) e (
      slave_write-IsWritten wops (length input * 2 + 1) i input c0 (Reaches-IsBalanced c0 r)
        (omega arith))

  reply_all-counted :
      (n : ℕ) (s : Counted S)
      → ((reply_all (counted wops) n s).answered ≡ s.answered + n)
        × ((reply_all (counted wops) n s).asked ≡ s.asked)
  unfolding reply_all
  reply_all-counted zero s = (omega arith, refl)
  reply_all-counted (suc n) s =
      let rest =
        reply_all-counted n
          (record s { state = wops.reply s.state 1 0; answered = suc s.answered }) in
      (omega (arith, rest.0), rest.1)

  -- Whatever the user reads and writes, in whatever order, as long as fewer than 2^31 - 1 requests are
  -- unanswered before each read and each poll: when the device is released, the back end has got
  -- exactly one reply for each request that was taken from it. The release reports an error exactly if
  -- a request was still unanswered before it.
  pub slave_release-answers :
      (c : Slave (Counted S))
      → Reaches c
      → ((slave_release (counted wops) c).1.asked ≡ (slave_release (counted wops) c).1.answered)
        × ((slave_release (counted wops) c).0 ≡ (c.wishbone.asked == c.wishbone.answered))
  unfolding slave_release
  slave_release-answers c r =
      let b = Reaches-IsBalanced c r in
      let all = reply_all-counted c.pending_err c.wishbone in
      let in_range : leb (2 ^ 31) c.pending_err ≡ false = ground (arith, b.small) in
      (rw in_range (omega (arith, all.0, all.1, b.count)), ground (arith, b.count))
