-- ===== src/Wishbone/Master/Ring.antt =====
-- Reads and writes of the master device on its ring buffer.
use fpga_config_space.Base.{
  ℕ, ◌+◌, ◌-◌, ◌%◌, ◌^◌, ◌≤◌, ◌<◌, Option, none, some, List, Bool, ◌&&◌, ◌==◌, ltb, if◌then◌else◌,
  ◌≡◌, refl, sym, subst, ◌∙◌, arith, length, min, take, Bool-cases, inl, inr, window, length-append,
  length-window, get_or, length-take, false, true, ◌⊎◌,
}
use fpga_config_space.Wishbone.{Operations}
use fpga_config_space.Wishbone.Master.{
  Master, Reading, Writing, eintr, eagain, delivered, accepted, out_of_fuel, ring_pos, ring_index,
  ring_window, ring_copy_in, ring_size, write_result, master_read, master_write, master_process,
}
use fpga_config_space.Wishbone.Master.Stored.{ring_copy_in-inside, ring_copy_in-outside}
use fpga_config_space.Wishbone.Master.Counters.{
  IsRing, IsProcessed, ring_pos_lem, ring_read_len_lem, ring_write_len_lem,
  master_process-IsProcessed,
}

length-ring_window : (buf : ℕ → ℕ) (i len : ℕ) → length (ring_window buf i len) ≡ len
unfolding ring_window
length-ring_window buf i len =
    let buf_len = ring_size - ring_index i in
    elim (Bool-cases (ltb buf_len len)) [
      | inl e ↦ rw e (
          length-append (window buf (ring_index i) buf_len) (window buf 0 (len - buf_len))
          ∙ ground (
            arith,
            e,
            length-window buf (ring_index i) buf_len,
            length-window buf 0 (len - buf_len),
          ))
      | inr e ↦ rw e (length-window buf (ring_index i) len)
    ]

-- The count of a transfer is the smaller of two.
shorter_of : (a b : ℕ) → (if ltb a b then a else b) ≡ min a b
shorter_of a b = ground arith

module _ {S : Type 0} where
  -- A read has moved `sent` on by what it delivered.
  abbrev pub IsRead : (s p r size : ℕ) → Reading S → Type 0
  IsRead s p r size eintr = Unit {0}
  IsRead s p r size (eagain c) = (min (p - s) size ≡ 0) × IsRing s p r c
  IsRead s p r size (delivered bytes c) =
      (length bytes ≡ min (p - s) size) × IsRing (s + length bytes) p r c

  sent_on :
      (s p r n : ℕ) (c : Master S)
      → IsRing s p r c
      → n ≤ p - s
      → IsRing (s + n) p r (record c { sent = ring_pos ((c.sent + n) % 2 ^ 32) })
  sent_on s p r n c k le = record {
    sent = ring_pos_lem _ ∙ omega (arith, k.sent, k.behind, k.ahead, k.room, le);
    processed = k.processed;
    received = k.received;
    behind = omega (arith, k.behind, le);
    ahead = k.ahead;
    room = omega (arith, k.room);
    fresh = k.fresh;
  }

  -- What a write has taken is received, and the records that are complete are processed.
  abbrev pub IsWritten : (s p r size : ℕ) → Writing S → Type 0
  IsWritten s p r size eintr = Unit {0}
  IsWritten s p r size out_of_fuel = ⊥
  IsWritten s p r size (eagain c) = (min (s + 8192 - r) size ≡ 0) × IsProcessed s p r (some c)
  IsWritten s p r size (accepted n c) =
      (n ≡ min (s + 8192 - r) size) × IsProcessed s p (r + n) (some c)

  write_result-IsWritten :
      (wops : Operations S) (s p r size n : ℕ) (nonblock : Bool) (o : Option (Master S))
      → n ≡ min (s + 8192 - r) size
      → IsProcessed s p (r + n) o
      → IsWritten s p r size (write_result wops nonblock n o)
  unfolding write_result
  write_result-IsWritten wops s p r size n nonblock none e d = absurd d
  write_result-IsWritten wops s p r size n nonblock (some c) e d =
      elim (Bool-cases ((n == 0) && nonblock)) [
        | inl f ↦
            let nothing : n ≡ 0 = ground (arith, f) in
            rw f (
              omega (arith, e, nothing),
              subst (λ m. IsProcessed s p m (some c)) (omega (arith, nothing)) d,
            )
        | inr f ↦ rw f (e, d)
      ]

  received_on :
      (s p r n : ℕ) (buf : ℕ → ℕ) (c : Master S)
      → IsRing s p r c
      → n ≤ s + 8192 - r
      → IsRing s p (r + n) (record c { buf = buf; received = ring_pos ((c.received + n) % 2 ^ 32) })
  received_on s p r n buf c k le = record {
    sent = k.sent;
    processed = k.processed;
    received = ring_pos_lem _ ∙ omega (arith, k.received, k.behind, k.ahead, k.room, le);
    behind = k.behind;
    ahead = omega (arith, k.ahead);
    room = omega (arith, le, k.behind, k.ahead, k.room);
    fresh = k.fresh;
  }

  delivered-IsRead :
      (s p r size n : ℕ) (nonblock : Bool) (c : Master S)
      → IsRing s p r c
      → n ≡ min (p - s) size
      → let after = record c { sent = ring_pos ((c.sent + n) % 2 ^ 32) } in
        IsRead s p r size (
          if (n == 0) && nonblock
          then eagain after
          else delivered (ring_window c.buf c.sent n) after)
  delivered-IsRead s p r size n nonblock c k e =
      let after = record c { sent = ring_pos ((c.sent + n) % 2 ^ 32) } in
      let moved = sent_on s p r n c k (omega (arith, e)) in
      elim (Bool-cases ((n == 0) && nonblock)) [
        | inl f ↦
            let nothing : n ≡ 0 = ground (arith, f) in
            rw f (
              omega (arith, e, nothing),
              subst (λ m. IsRing m p r after) (omega (arith, nothing)) moved,
            )
        | inr f ↦
            let all = length-ring_window c.buf c.sent n in
            rw f (all ∙ e, subst (λ m. IsRing (s + m) p r after) (sym all) moved)
      ]

  -- On a ring with `s` bytes sent, `p` processed and `r` received in all, a read delivers as many
  -- bytes as are processed and not yet sent, or as many as are asked for if those are fewer, counts
  -- them as sent, and changes no other counter.
  pub master_read-IsRead :
      (s p r size : ℕ) (interrupted nonblock : Bool) (c : Master S)
      → IsRing s p r c
      → IsRead s p r size (master_read interrupted nonblock size c)
  unfolding master_read
  master_read-IsRead s p r size interrupted nonblock c k = elim (Bool-cases (size == 0)) [
    | inl e ↦
        let nothing : size ≡ 0 = ground (arith, e) in
        rw e (omega (arith, nothing), subst (λ m. IsRing m p r c) (omega arith) k)
    | inr e ↦ elim (Bool-cases interrupted) [
      | inl f ↦ rw (e, f) tt
      | inr f ↦
          rw (e, f, ring_read_len_lem s p r c k, shorter_of (p - s) size)
            (delivered-IsRead s p r size _ nonblock c k refl)
    ]
  ]

  master_write-counts :
      (wops : Operations S) (s p r fuel : ℕ) (interrupted nonblock : Bool) (input : List ℕ)
      (c : Master S)
      → IsRing s p r c
      → 8192 < fuel
      → IsWritten s p r (length input) (master_write wops fuel interrupted nonblock input c)
  unfolding master_write
  master_write-counts wops s p r fuel interrupted nonblock input c k enough =
      let n = min (s + 8192 - r) (length input) in
      let buf = ring_copy_in c.buf c.received (take n input) in
      elim (Bool-cases (length input == 0)) [
        | inl e ↦
            let nothing : length input ≡ 0 = ground (arith, e) in
            rw e (
              omega (arith, nothing),
              (p, omega arith, subst (λ m. IsRing s p m c) (omega arith) k),
            )
        | inr e ↦ elim (Bool-cases interrupted) [
          | inl f ↦ rw (e, f) tt
          | inr f ↦
              rw (e, f, ring_write_len_lem s p r c k, shorter_of (s + 8192 - r) (length input))
                (write_result-IsWritten wops s p r (length input) n nonblock _ refl (
                  master_process-IsProcessed wops s p (r + n) fuel c.state _ refl
                    (received_on s p r n buf c k (omega arith)) enough))
        ]
      ]

  -- What is taken stands behind the bytes received before, and those that are not sent yet are as they
  -- were. A byte that is counted as number `j` stands at `j % 8192`.
  abbrev pub IsStored : (s r : ℕ) → List ℕ → (c c' : Master S) → Type 0
  IsStored s r taken c c' =
      ((j : ℕ) → j < length taken → c'.buf ((r + j) % 8192) ≡ get_or taken j 0)
      × ((j : ℕ) → s ≤ j → j < r → c'.buf (j % 8192) ≡ c.buf (j % 8192))

  -- The context with which a write of `n` bytes calls etherbone_master_process.
  abbrev pub stored : (n : ℕ) → List ℕ → Master S → Master S
  stored n input c = record c {
    buf = ring_copy_in c.buf c.received (take n input);
    received = ring_pos ((c.received + n) % 2 ^ 32);
  }

  stored-IsStored :
      (s p r n : ℕ) (input : List ℕ) (c : Master S)
      → IsRing s p r c
      → n ≤ s + 8192 - r
      → IsStored s r (take n input) c (stored n input c)
  stored-IsStored s p r n input c k le =
      let low : s ≤ r = omega (arith, k.behind, k.ahead) in
      let room : r + length (take n input) ≤ s + 8192 =
        omega (arith, le, k.room, length-take n input) in
      (
        ring_copy_in-inside c.buf s r c.received (take n input) k.received low room,
        ring_copy_in-outside c.buf s r c.received (take n input) k.received low room,
      )

  -- How a write starts: it stores what it takes, and has it processed.
  abbrev pub IsStarted :
      (wops : Operations S) (s r fuel : ℕ) (interrupted nonblock : Bool)
      → List ℕ
      → Master S
      → Type 0
  IsStarted wops s r fuel interrupted nonblock input c =
      let n = min (s + 8192 - r) (length input) in
      (c' : Master S) × IsStored s r (take n input) c c'
      × (c'.received ≡ (r + n) % 16384)
      × (master_write wops fuel interrupted nonblock input c
          ≡ write_result wops nonblock n (master_process wops fuel c'.state c'))

  master_write-IsStarted :
      (wops : Operations S) (s p r fuel : ℕ) (nonblock : Bool) (input : List ℕ) (c : Master S)
      → IsRing s p r c
      → 0 < length input
      → IsStarted wops s r fuel false nonblock input c
  unfolding master_write
  master_write-IsStarted wops s p r fuel nonblock input c k some_bytes =
      let n = min (s + 8192 - r) (length input) in
      let nonempty : (length input == 0) ≡ false = ground (arith, some_bytes) in
      (
        stored n input c,
        stored-IsStored s p r n input c k (omega arith),
        (received_on s p r n (stored n input c).buf c k (omega arith)).received,
        rw (nonempty, ring_write_len_lem s p r c k, shorter_of (s + 8192 - r) (length input)) refl,
      )

  -- A write to a ring with `s` bytes sent, `p` processed and `r` received in all. With fuel for a full
  -- buffer it returns, unless it is interrupted before it starts, and it takes as many bytes as the
  -- buffer has room for, or all if those are fewer. If there is something to write and it is not
  -- interrupted, these bytes then stand in the buffer behind those received before, and no byte that is
  -- not yet sent has changed, when etherbone_master_process is called; and the processing keeps the
  -- counters in their order.
  pub master_write-IsWritten :
      (wops : Operations S) (s p r fuel : ℕ) (interrupted nonblock : Bool) (input : List ℕ)
      (c : Master S)
      → IsRing s p r c
      → 8192 < fuel
      → ((interrupted ≡ true)
          ⊎ ((length input ≡ 0) ⊎ IsStarted wops s r fuel false nonblock input c))
        × IsWritten s p r (length input) (master_write wops fuel interrupted nonblock input c)
  master_write-IsWritten wops s p r fuel interrupted nonblock input c k enough = (
    elim (Bool-cases interrupted) [
      | inl on ↦ inl on
      | inr off ↦ elim (Bool-cases (length input == 0)) [
        | inl e ↦ inr (inl (ground (arith, e)))
        | inr e ↦
            inr
              (inr (master_write-IsStarted wops s p r fuel nonblock input c k (ground (arith, e))))
      ]
    ],
    master_write-counts wops s p r fuel interrupted nonblock input c k enough,
  )
