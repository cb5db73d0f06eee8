-- ===== src/Wishbone/Master/Counters.antt =====
-- The counters of the ring buffer of the master device: `sent <= processed <= received`, and never
-- more between them than the buffer holds.
use fpga_config_space.Base.{
  ℕ, zero, suc, ◌+◌, ◌-◌, ◌%◌, ◌^◌, ◌≤◌, ◌<◌, Option, none, some, Bool, true, false, ◌||◌, ◌==◌,
  ltb, bit_and, ◌≡◌, refl, sym, ◌∙◌, subst, arith, Bool-cases, inl, inr,
}
use fpga_config_space.Base.Bits.{bit_and_ones}
use fpga_config_space.Wishbone.{Operations, etherbone_cyc, eb_to_cpu}
use fpga_config_space.Wishbone.Master.{
  Master, Work, State, header, idle, cycle, ring_pos, ring_read_len, ring_proc_len, ring_write_len,
  record_len, probe, put, move, write_words, process_writes, fetch, read_words, process_reads,
  raise, lower, process_record, process_records, finish, process_from, master_process,
}

pub ring_pos_lem : (x : ℕ) → ring_pos x ≡ x % 16384
unfolding ring_pos
ring_pos_lem x = bit_and_ones 14 x

record_len-pos : (wcount rcount : ℕ) → 4 ≤ record_len wcount rcount
unfolding record_len
record_len-pos wcount rcount = omega arith

shorter :
    (left wcount rcount fuel : ℕ)
    → (ltb left 4 || ltb left (record_len wcount rcount)) ≡ false
    → left < suc fuel
    → left - record_len wcount rcount < fuel
shorter left wcount rcount fuel e enough = ground (arith, e, enough, record_len-pos wcount rcount)

-- The probe has been answered.
abbrev IsLive : State → Type 0
IsLive header = ⊥
IsLive idle = Unit {0}
IsLive cycle = Unit {0}

module _ {S : Type 0} where
  -- The counters stand for the numbers of all bytes that were ever sent, processed and received.
  pub record IsRing (s p r : ℕ) (c : Master S) : Type 0 where
    pub sent : c.sent ≡ s % 16384
    pub processed : c.processed ≡ p % 16384
    pub received : c.received ≡ r % 16384
    pub behind : s ≤ p
    pub ahead : p ≤ r
    pub room : r ≤ s + 8192
    pub fresh : c.state ≡ header → p ≡ 0

  pub ring_read_len_lem : (s p r : ℕ) (c : Master S) → IsRing s p r c → ring_read_len c ≡ p - s
  unfolding ring_read_len
  ring_read_len_lem s p r c k =
      ring_pos_lem _ ∙ omega (arith, k.sent, k.processed, k.behind, k.ahead, k.room)

  pub ring_write_len_lem :
      (s p r : ℕ) (c : Master S) → IsRing s p r c → ring_write_len c ≡ s + 8192 - r
  unfolding ring_write_len
  ring_write_len_lem s p r c k =
      ring_pos_lem _ ∙ omega (arith, k.sent, k.received, k.behind, k.ahead, k.room)

  -- The loop ends, with no more left than there was.
  abbrev IsDone : ℕ → Option (ℕ × Work S) → Type 0
  IsDone size none = ⊥
  IsDone size (some (left, w)) = (left ≤ size) × IsLive w.state

  -- The records that are processed stay behind those that are received.
  abbrev pub IsProcessed : (s p r : ℕ) → Option (Master S) → Type 0
  IsProcessed s p r none = ⊥
  IsProcessed s p r (some c) = (p' : ℕ) × (p ≤ p') × IsRing s p' r c

  module _ (wops : Operations S) where
    write_words-state :
        (wca : Bool) (increment count base : ℕ) (w : Work S)
        → (write_words wops wca increment count base w).state ≡ w.state
    unfolding write_words
    write_words-state wca increment zero base w = refl
    write_words-state true increment (suc count) base w =
        write_words-state true increment count base (move 1 (put w.i 0 w))
    write_words-state false increment (suc count) base w =
        let w' = move 1 (put w.i 0 w) in
        write_words-state false increment count ((base + increment) % 2 ^ 32)
          (record w' { wishbone = wops.write w'.wishbone base (eb_to_cpu w'.buf w'.i) })

    read_words-state :
        (rca : Bool) (count : ℕ) (w : Work S) → (read_words wops rca count w).state ≡ w.state
    unfolding read_words
    read_words-state rca zero w = refl
    read_words-state rca (suc count) w =
        let (value, s) = fetch wops rca w.wishbone (eb_to_cpu w.buf w.i) in
        read_words-state rca count (move 1 (put w.i value (record w { wishbone = s })))

    process_writes-state :
        (flags wcount : ℕ) (w : Work S) → (process_writes wops flags wcount w).state ≡ w.state
    unfolding process_writes
    process_writes-state flags wcount w = elim (Bool-cases (ltb 0 wcount)) [
      | inl e ↦ rw e (write_words-state _ _ wcount _ (move 1 (put w.i 0 w)))
      | inr e ↦ rw e refl
    ]

    process_reads-state :
        (flags rcount : ℕ) (w : Work S) → (process_reads wops flags rcount w).state ≡ w.state
    unfolding process_reads
    process_reads-state flags rcount w = elim (Bool-cases (ltb 0 rcount)) [
      | inl e ↦ rw e (read_words-state _ rcount (move 2 w))
      | inr e ↦ rw e refl
    ]

    raise-IsLive : (t : State) (w : Work S) → w.state ≡ t → IsLive t → IsLive (raise wops t w).state
    unfolding raise
    raise-IsLive header w e live = absurd live
    raise-IsLive idle w e live = tt
    raise-IsLive cycle w e live = subst IsLive (sym e) tt

    lower-IsLive : (flags : ℕ) (w : Work S) → IsLive w.state → IsLive (lower wops flags w).state
    unfolding lower
    lower-IsLive flags w live = elim (Bool-cases (bit_and flags etherbone_cyc == 0)) [
      | inl e ↦ rw e live
      | inr e ↦ rw e tt
    ]

    process_record-IsLive : (w : Work S) → IsLive w.state → IsLive (process_record wops w).state
    unfolding process_record
    process_record-IsLive w live = lower-IsLive _ _ (
        subst IsLive (sym (process_reads-state _ _ _ ∙ process_writes-state _ _ _))
          (raise-IsLive w.state w refl live))

    process_records-IsDone :
        (fuel left size : ℕ) (w : Work S)
        → IsLive w.state
        → left ≤ size
        → left < fuel
        → IsDone size (process_records wops fuel left w)
    unfolding process_records
    process_records-IsDone zero left size w live le enough = absurd (omega (arith, enough))
    process_records-IsDone (suc fuel) left size w live le enough =
        let len = record_len (w.buf (w.i + 2)) (w.buf (w.i + 3)) in
        elim (Bool-cases (ltb left 4 || ltb left len)) [
          | inl e ↦ rw e (le, live)
          | inr e ↦ rw e (
              process_records-IsDone fuel (left - len) size (process_record wops w)
                (process_record-IsLive w live) (omega (arith, le)) (shorter left _ _ fuel e enough))
        ]

    probed : (s p r : ℕ) (o : Option (Master S)) → p ≡ 0 → IsProcessed s 8 r o → IsProcessed s p r o
    probed s p r none e d = d
    probed s p r (some c) e d = (d.0, omega (arith, e), d.2)

    finish-IsProcessed :
        (s p r : ℕ) (c : Master S) (o : Option (ℕ × Work S))
        → IsRing s p r c
        → IsDone (r - p) o
        → IsProcessed s p r (finish wops (r - p) c o)
    unfolding finish
    finish-IsProcessed s p r c none k d = absurd d
    finish-IsProcessed s p r c (some (left, w)) k d = (
      r - left,
      omega (arith, d.0, k.ahead),
      record {
        sent = k.sent;
        processed = ring_pos_lem _ ∙ omega (arith, d.0, k.processed, k.behind, k.ahead, k.room);
        received = k.received;
        behind = omega (arith, d.0, k.behind, k.ahead);
        ahead = omega arith;
        room = k.room;
        fresh = λ e. absurd (subst IsLive e d.1);
      },
    )

    ring_proc_len_lem : (s p r : ℕ) (c : Master S) → IsRing s p r c → ring_proc_len c ≡ r - p
    unfolding ring_proc_len
    ring_proc_len_lem s p r c k =
        ring_pos_lem _ ∙ omega (arith, k.processed, k.received, k.behind, k.ahead, k.room)

    process_from-IsProcessed :
        (s p r fuel : ℕ) (c : Master S)
        → IsRing s p r c
        → IsLive c.state
        → 8192 < fuel
        → IsProcessed s p r (process_from wops fuel c)
    unfolding process_from
    process_from-IsProcessed s p r fuel c k live enough = rw (ring_proc_len_lem s p r c k) (
        finish-IsProcessed s p r c _ k (
          process_records-IsDone fuel (r - p) (r - p) _ live (omega arith)
            (omega (arith, k.behind, k.room, enough))))

    probe-IsRing :
        (s p r : ℕ) (c : Master S)
        → IsRing s p r c
        → c.state ≡ header
        → ltb c.received 8 ≡ false
        → IsRing s 8 r (probe c)
    unfolding probe
    probe-IsRing s p r c k e enough =
        let none_yet : p ≡ 0 = k.fresh e in
        record {
          sent = k.sent;
          processed = refl;
          received = k.received;
          behind = omega (arith, none_yet, k.behind);
          ahead = ground (arith, none_yet, enough, k.received, k.behind, k.room);
          room = k.room;
          fresh = λ f. absurd (subst IsLive f tt);
        }

    pub master_process-IsProcessed :
        (s p r fuel : ℕ) (t : State) (c : Master S)
        → c.state ≡ t
        → IsRing s p r c
        → 8192 < fuel
        → IsProcessed s p r (master_process wops fuel t c)
    unfolding master_process probe
    master_process-IsProcessed s p r fuel header c e k enough =
        elim (Bool-cases (ltb c.received 8)) [
          | inl f ↦ rw f (p, omega arith, k)
          | inr f ↦ rw f (
              let done =
                process_from-IsProcessed s 8 r fuel (probe c) (probe-IsRing s p r c k e f) tt
                  enough in
              probed s p r _ (k.fresh e) done)
        ]
    master_process-IsProcessed s p r fuel idle c e k enough =
        process_from-IsProcessed s p r fuel c k (subst IsLive (sym e) tt) enough
    master_process-IsProcessed s p r fuel cycle c e k enough =
        process_from-IsProcessed s p r fuel c k (subst IsLive (sym e) tt) enough
