-- ===== src/Wishbone/Slave/Balance.antt =====
-- Every request that the slave device takes from the hardware is answered once.
use fpga_config_space.Base.{
  ℕ, zero, suc, ◌+◌, ◌^◌, ◌<◌, Option, none, some, Bool, true, false, not, ◌||◌, ◌==◌,
  if◌then◌else◌, bit_and, ◌≡◌, arith, Bool-cases, inl, inr,
}
use fpga_config_space.Wishbone.{Request, Operations, eb_to_cpu, wba_data, wba_err}
use fpga_config_space.Wishbone.Slave.{
  Slave, announced, slave_out_process, store_word, store_words, slave_in_process,
}

-- A back end with counters of the requests it has made, and of the replies that it was given.
pub record Counted (S : Type 0) : Type 0 where
  pub state : S
  pub asked : ℕ
  pub answered : ℕ

module _ {S : Type 0} where
  abbrev pub count_request : Counted S → Option Request × S → Option Request × Counted S
  count_request c (none, s) = (none, record c { state = s })
  count_request c (some r, s) = (some r, record c { state = s; asked = suc c.asked })

  abbrev pub keep : Counted S → ℕ × S → ℕ × Counted S
  keep c (x, s) = (x, record c { state = s })

  abbrev pub counted : Operations S → Operations (Counted S)
  counted wops = record {
    cycle = λ c on. record c { state = wops.cycle c.state on };
    byteenable = λ c mask. record c { state = wops.byteenable c.state mask };
    write = λ c addr dat. record c { state = wops.write c.state addr dat };
    read = λ c addr. keep c (wops.read c.state addr);
    read_cfg = λ c addr. keep c (wops.read_cfg c.state addr);
    request = λ c. count_request c (wops.request c.state);
    reply = λ c err dat. record c { state = wops.reply c.state err dat; answered = suc c.answered };
  }

  -- The requests that are not answered yet are the ones that the context counts.
  pub record IsBalanced (c : Slave (Counted S)) : Type 0 where
    pub count : c.wishbone.asked ≡ c.wishbone.answered + c.pending_err
    pub small : c.pending_err < 2 ^ 31

  -- The same while a record of the user is processed, which leaves the buffer as full as it is.
  pub record IsAnswering (fill : ℕ) (c : Slave (Counted S)) : Type 0 where
    pub count : c.wishbone.asked ≡ c.wishbone.answered + c.pending_err
    pub small : c.pending_err < 2 ^ 31
    pub filled : c.wbuf_fill ≡ fill

  either-IsAnswering :
      (fill : ℕ) (p : Bool) (x y : Bool × Slave (Counted S))
      → IsAnswering fill x.1
      → IsAnswering fill y.1
      → IsAnswering fill (if p then x else y).1
  either-IsAnswering fill true x y bx b' = bx
  either-IsAnswering fill false x y bx b' = b'

  module _ (wops : Operations S) where
    announced-IsBalanced :
        (c : Slave (Counted S)) (r : Option Request × S)
        → IsBalanced c
        → c.pending_err + 1 < 2 ^ 31
        → IsBalanced (announced c (count_request c.wishbone r))
    unfolding announced
    announced-IsBalanced c (none, s) b room = record { count = b.count; small = b.small }
    announced-IsBalanced c (some r, s) b room = record {
      count = omega (arith, b.count, room);
      small = omega (arith, room);
    }

    pub slave_out_process-IsBalanced :
        (c : Slave (Counted S))
        → IsBalanced c
        → c.pending_err + 1 < 2 ^ 31
        → IsBalanced (slave_out_process (counted wops) c)
    unfolding slave_out_process
    slave_out_process-IsBalanced c b room =
        elim (Bool-cases (not (c.rbuf_done == c.rbuf_end) || not c.negotiated)) [
          | inl e ↦ rw e b
          | inr e ↦ rw e (announced-IsBalanced c (wops.request c.wishbone.state) b room)
        ]

    store_word-IsAnswering :
        (fill base dat : ℕ) (c : Slave (Counted S))
        → IsAnswering fill c
        → IsAnswering fill (store_word (counted wops) base dat c).1
    unfolding store_word
    store_word-IsAnswering fill base dat c b = elim (Bool-cases (base == wba_data)) [
      | inl e ↦ rw e (record { count = b.count; small = b.small; filled = b.filled })
      | inr e ↦ elim (Bool-cases (base == wba_err)) [
        | inl f ↦ elim (Bool-cases (c.pending_err == 0)) [
          | inl g ↦ rw (e, f, g) b
          | inr g ↦
              rw (e, f, g)
                (record {
                  count = ground (arith, b.count, g);
                  small = omega (arith, b.small);
                  filled = b.filled;
                })
        ]
        | inr f ↦ rw (e, f) b
      ]
    ]

    store_words-IsAnswering :
        (fill : ℕ) (wff : Bool) (count at base : ℕ) (c : Slave (Counted S))
        → IsAnswering fill c
        → IsAnswering fill (store_words (counted wops) wff count at base c).1
    unfolding store_words
    store_words-IsAnswering fill wff zero at base c b = b
    store_words-IsAnswering fill wff (suc count) at base c b =
        let next = store_word (counted wops) base (eb_to_cpu c.wbuf at) c in
        let b' = store_word-IsAnswering fill base (eb_to_cpu c.wbuf at) c b in
        either-IsAnswering fill next.0 _ next
          (store_words-IsAnswering fill wff count (at + 4) _ next.1 b') b'

    pub slave_in_process-IsAnswering :
        (fill : ℕ) (c : Slave (Counted S))
        → IsAnswering fill c
        → IsAnswering fill (slave_in_process (counted wops) c).1
    unfolding slave_in_process
    slave_in_process-IsAnswering fill c b = elim (Bool-cases (c.wbuf 3 == 0)) [
      | inr e ↦ rw e b
      | inl e ↦ elim (Bool-cases (c.wbuf 2 == 0)) [
        | inl f ↦ rw (e, f) b
        | inr f ↦ elim (Bool-cases (c.wbuf 1 == 0xf)) [
          | inr g ↦ rw (e, f, g) b
          | inl g ↦ elim (Bool-cases (bit_and (c.wbuf 0) 0x04 == 0)) [
            | inl i ↦ rw (e, f, g, i) b
            | inr i ↦
                rw (e, f, g, i)
                  (store_words-IsAnswering fill _ (c.wbuf 2) 8 (eb_to_cpu c.wbuf 4) c b)
          ]
        ]
      ]
    ]
