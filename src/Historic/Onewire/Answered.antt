-- ===== src/Historic/Onewire/Answered.antt =====
-- What the operations of the 1-wire driver return, and which devices it is for.
use fpga_config_space.Base.{
  ℕ, zero, suc, ◌+◌, ◌*◌, ◌%◌, ◌^◌, ◌<◌, ◌≡◌, refl, ap, ◌∙◌, Option, none, some, true, false, ◌&&◌,
  if◌then◌else◌, ◌==◌, bit_and, arith,
}
use fpga_config_space.Historic.Sdwb.{Wbd}
use fpga_config_space.Historic.Bus.{match_loop, wb_match_device}
use fpga_config_space.Historic.Onewire.{
  Io, OnewireDev, csr, cyc_mask, wait, sampled, wb_onewire_touch_bit, wb_onewire_reset,
  wb_onewire_id, wb_onewire_ids,
}

-- A master as the driver expects it: a cycle takes a number of reads, which see its flag set; a read
-- after it sees the flag cleared and the bit that was sampled, and changes nothing of these.
pub record IsMaster {ℓ} {S : Type ℓ} (io : Io S) (csr : ℕ) : Type ℓ where
  pub busy : S → ℕ
  pub bit : S → ℕ
  pub set : (s : S) (n : ℕ) → busy s ≡ suc n → (bit_and (io.readl csr s).0 cyc_mask == 0) ≡ false
  pub count : (s : S) (n : ℕ) → busy s ≡ suc n → busy (io.readl csr s).1 ≡ n
  pub cleared : (s : S) → busy s ≡ 0 → (bit_and (io.readl csr s).0 cyc_mask == 0) ≡ true
  pub idle : (s : S) → busy s ≡ 0 → busy (io.readl csr s).1 ≡ 0
  pub same : (s : S) → bit (io.readl csr s).1 ≡ bit s
  pub sample : (s : S) → busy s ≡ 0 → (io.readl csr s).0 % 2 ≡ bit s

module _ {ℓ} {S : Type ℓ} (io : Io S) (dev : OnewireDev) (master : IsMaster io (csr dev)) where
  open master use {busy, bit, set, count, cleared, idle, same, sample}

  -- The wait ends where the cycle does.
  Waited : S → Option S → Type ℓ
  Waited s o = (s' : S) × (o ≡ some s') × (busy s' ≡ 0) × (bit s' ≡ bit s)

  wait-Waited : (fuel n : ℕ) (s : S) → busy s ≡ n → n < fuel → Waited s (wait io dev fuel s)
  unfolding Waited wait
  wait-Waited zero n s e enough = absurd (omega (arith, enough))
  wait-Waited (suc fuel) zero s e enough =
      rw (cleared s e) ((io.readl (csr dev) s).1, refl, idle s e, same s)
  wait-Waited (suc fuel) (suc n) s e enough =
      let (s', run, done, bit_is) =
        wait-Waited fuel n (io.readl (csr dev) s).1 (count s n e) (omega (arith, enough)) in
      rw (set s n e) (s', run, done, bit_is ∙ same s)

  sampled-bit :
      (s : S) (o : Option S) → Waited s o → (s' : S) × (sampled io dev o ≡ some (bit s, s'))
  unfolding Waited
  sampled-bit s o (s', run, done, bit_is) = (
    (io.readl (csr dev) s').1,
    ap (sampled io dev) run
        ∙ ap (λ b. some (b, (io.readl (csr dev) s').1)) (sample s' done ∙ bit_is),
  )

  -- With fuel for each read that sees a cycle and one more, both operations end, and return the bit
  -- that the master has sampled in the cycle that they have started: touch_bit for the bit that it has
  -- written, and reset for a reset.
  pub wb_onewire-sampled :
      (fuel b : ℕ) (s : S)
      → let touched = io.writel (csr dev) (dev.port % 16 * 2 ^ 8 + 8 + b % 2) s in
        let was_reset = io.writel (csr dev) (dev.port % 16 * 2 ^ 8 + 8 + 2) s in
        busy touched < fuel
        → busy was_reset < fuel
        → ((s' : S) × (wb_onewire_touch_bit io dev fuel b s ≡ some (bit touched, s')))
          × ((s' : S) × (wb_onewire_reset io dev fuel s ≡ some (bit was_reset, s')))
  unfolding wb_onewire_touch_bit wb_onewire_reset
  wb_onewire-sampled fuel b s enough enough' =
      let touched = io.writel (csr dev) (dev.port % 16 * 2 ^ 8 + 8 + b % 2) s in
      let was_reset = io.writel (csr dev) (dev.port % 16 * 2 ^ 8 + 8 + 2) s in
      (
        sampled-bit touched (wait io dev fuel touched)
            (wait-Waited fuel (busy touched) touched refl enough),
        sampled-bit was_reset (wait io dev fuel was_reset)
            (wait-Waited fuel (busy was_reset) was_reset refl enough'),
      )

-- The table of the driver matches the devices of vendor 0 that are number 1, and no other.
pub wb_match_device-onewire :
    (wbd : Wbd)
    → wb_match_device (some wb_onewire_ids) wbd
      ≡ (if (0 == wbd.vendor) && (1 == wbd.device) then some wb_onewire_id else none)
unfolding wb_match_device match_loop
wb_match_device-onewire wbd = refl
