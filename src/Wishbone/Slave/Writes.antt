-- ===== src/Wishbone/Slave/Writes.antt =====
-- A write to the slave device returns, and keeps the balance of requests and replies.
use fpga_config_space.Base.{
  ℕ, zero, suc, ◌+◌, ◌-◌, ◌*◌, ◌%◌, ◌^◌, ◌<◌, Option, none, some, List, [], ◌∷◌, Bool, true, false,
  not, ltb, if◌then◌else◌, ◌≡◌, refl, arith, length, length-drop, drop, Bool-cases, inl, inr,
}
use fpga_config_space.Wishbone.{Operations}
use fpga_config_space.Wishbone.Slave.{
  Slave, Writing, eintr, written, eio, out_of_fuel, Round, stop, go, slave_in_process, fill_in,
  negotiate, processed, is_probe_answer, record_len, receive, round, feed, write_result,
  slave_write,
}
use fpga_config_space.Wishbone.Slave.Balance.{
  Counted, counted, IsBalanced, IsAnswering, slave_in_process-IsAnswering,
}

module _ {S : Type 0} where
  -- What the loop has still to do: two rounds for a byte, and one for a header that is there.
  abbrev pub due : List ℕ → Slave S → ℕ
  due input c = length input * 2 + (if ltb c.wbuf_fill 4 then 0 else 1)

module _ {S : Type 0} where
  -- A round keeps the balance, and leaves less to do than `bound`.
  abbrev IsRound : ℕ → Round (Counted S) → Type 0
  IsRound bound (stop c) = IsBalanced c
  IsRound bound (go rest c) = IsBalanced c × (due rest c < bound)

  abbrev Finished : Option (Bool × Slave (Counted S)) → Type 0
  Finished none = ⊥
  Finished (some (ok, c)) = IsBalanced c

  -- A write returns, with the balance kept; and if it reports success, it took the whole input.
  abbrev pub IsWritten : (size : ℕ) → Writing (Counted S) → Type 0
  IsWritten size eintr = Unit {0}
  IsWritten size (eio c) = IsBalanced c
  IsWritten size (written n c) = (n ≡ size) × IsBalanced c
  IsWritten size out_of_fuel = ⊥

  either-IsRound :
      (bound : ℕ) (p : Bool) (x y : Round (Counted S))
      → IsRound bound x
      → IsRound bound y
      → IsRound bound (if p then x else y)
  either-IsRound bound true x y a b = a
  either-IsRound bound false x y a b = b

  fill_in-IsBalanced :
      (len : ℕ) (input : List ℕ) (c : Slave (Counted S))
      → IsBalanced c
      → IsBalanced (fill_in len input c)
  unfolding fill_in
  fill_in-IsBalanced len input c b = record { count = b.count; small = b.small }

  processed-IsRound :
      (bound : ℕ) (rest : List ℕ) (r : Bool × Slave (Counted S))
      → IsAnswering 0 r.1
      → length rest * 2 < bound
      → IsRound bound (processed rest r)
  unfolding processed
  processed-IsRound bound rest (true, c) b less =
      (record { count = b.count; small = b.small }, rw b.filled (omega (arith, less)))
  processed-IsRound bound rest (false, c) b less = record { count = b.count; small = b.small }

  negotiate-IsRound :
      (input : List ℕ) (c : Slave (Counted S))
      → IsBalanced c
      → IsRound (length input * 2 + 1) (negotiate input c)
  unfolding negotiate
  negotiate-IsRound input c b = elim (Bool-cases (is_probe_answer c.wbuf)) [
    | inl e ↦ rw e (record { count = b.count; small = b.small }, omega arith)
    | inr e ↦ rw e b
  ]

  module _ (wops : Operations S) where
    receive-IsRound :
        (x : ℕ) (xs : List ℕ) (c : Slave (Counted S))
        → IsBalanced c
        → IsRound (length (x ∷ xs) * 2 + 1) (receive (counted wops) (x ∷ xs) c)
    unfolding receive fill_in
    receive-IsRound x xs c b =
        let buf_len = (record_len c.wbuf + 2 ^ 32 - c.wbuf_fill) % 2 ^ 32 in
        let whole : Slave (Counted S) = record (fill_in buf_len (x ∷ xs) c) { wbuf_fill = 0 } in
        let bound = length (x ∷ xs) * 2 + 1 in
        let left : length (drop buf_len (x ∷ xs)) * 2 < bound =
          omega (arith, length-drop buf_len (x ∷ xs)) in
        let b' : IsAnswering 0 whole = record { count = b.count; small = b.small; filled = refl } in
        elim (Bool-cases (ltb (length (x ∷ xs)) buf_len)) [
          | inl e ↦ rw e (fill_in-IsBalanced _ (x ∷ xs) c b, ground arith)
          | inr e ↦ rw e (
              processed-IsRound bound (drop buf_len (x ∷ xs))
                (slave_in_process (counted wops) whole)
                (slave_in_process-IsAnswering wops 0 whole b') left)
        ]

    first_bytes :
        (x : ℕ) (xs : List ℕ) (c : Slave (Counted S))
        → ltb c.wbuf_fill 4 ≡ true
        → let buf_len = 4 - c.wbuf_fill in
          let len = if ltb (length (x ∷ xs)) buf_len then length (x ∷ xs) else buf_len in
          due (drop len (x ∷ xs)) (fill_in len (x ∷ xs) c) < length (x ∷ xs) * 2 + 0
    unfolding fill_in
    first_bytes x xs c e =
        let buf_len = 4 - c.wbuf_fill in
        let len = if ltb (length (x ∷ xs)) buf_len then length (x ∷ xs) else buf_len in
        ground (arith, length-drop len (x ∷ xs), e)

    round-IsRound :
        (x : ℕ) (xs : List ℕ) (c : Slave (Counted S))
        → IsBalanced c
        → IsRound (due (x ∷ xs) c) (round (counted wops) (x ∷ xs) c)
    unfolding round
    round-IsRound x xs c b = elim (Bool-cases (ltb c.wbuf_fill 4)) [
      | inl e ↦ rw e (fill_in-IsBalanced _ (x ∷ xs) c b, first_bytes x xs c e)
      | inr e ↦ rw e (
          either-IsRound (length (x ∷ xs) * 2 + 1) (not c.negotiated) (negotiate (x ∷ xs) c)
            (receive (counted wops) (x ∷ xs) c) (negotiate-IsRound (x ∷ xs) c b)
            (receive-IsRound x xs c b))
    ]

    next_round :
        (fuel bound : ℕ) (r : Round (Counted S))
        → IsRound bound r
        → bound < suc (suc fuel)
        → ((rest : List ℕ) (c : Slave (Counted S))
            → IsBalanced c
            → due rest c < suc fuel
            → Finished (feed (counted wops) fuel rest c))
        → Finished
            (elim r [ stop c ↦ some (false, c) | go rest c ↦ feed (counted wops) fuel rest c ])
    next_round fuel bound (stop c) r enough feeds = r
    next_round fuel bound (go rest c) r enough feeds = feeds rest c r.0 (omega (arith, r.1, enough))

    -- The loop returns, with the balance kept.
    feed-IsBalanced :
        (fuel : ℕ) (input : List ℕ) (c : Slave (Counted S))
        → IsBalanced c
        → due input c < suc fuel
        → Finished (feed (counted wops) fuel input c)
    unfolding feed
    feed-IsBalanced fuel [] c b enough = b
    feed-IsBalanced zero (x ∷ xs) c b enough = absurd (omega (arith, enough))
    feed-IsBalanced (suc fuel) (x ∷ xs) c b enough =
        next_round fuel (due (x ∷ xs) c) (round (counted wops) (x ∷ xs) c) (round-IsRound x xs c b)
          enough (λ rest c' b' less. feed-IsBalanced fuel rest c' b' less)

    write_result-IsWritten :
        (size : ℕ) (r : Option (Bool × Slave (Counted S)))
        → Finished r
        → IsWritten size (write_result size r)
    unfolding write_result
    write_result-IsWritten size none f = absurd f
    write_result-IsWritten size (some (true, c)) f = (refl, f)
    write_result-IsWritten size (some (false, c)) f = f

    -- With fuel for two rounds a byte and two more, a write to the slave device returns, unless it is
    -- interrupted before it starts; and whether it takes the input or fails, the requests that were
    -- taken from the back end are those that were replied to and those that the context counts. If it
    -- reports success, it reports the whole input.
    pub slave_write-IsWritten :
        (fuel : ℕ) (interrupted : Bool) (input : List ℕ) (c : Slave (Counted S))
        → IsBalanced c
        → length input * 2 + 1 < suc fuel
        → IsWritten (length input) (slave_write (counted wops) fuel interrupted input c)
    unfolding slave_write
    slave_write-IsWritten fuel true input c b enough = tt
    slave_write-IsWritten fuel false input c b enough =
        write_result-IsWritten (length input) (feed (counted wops) fuel input c)
          (feed-IsBalanced fuel input c b (ground (arith, enough)))
