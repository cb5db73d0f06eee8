-- ===== src/Backends/Pcie/Ready.antt =====
-- Whatever is asked of the back end of pcie-wb/pcie_wb.c, and in whatever order: the driver knows
-- where the window is, and its lanes are those of one byte, half word or word.
use fpga_config_space.Base.{
  ℕ, ◌^◌, ◌<◌, List, [], ◌∷◌, Bool, true, false, ◌≡◌, ◌≢◌, refl, sym, ap, subst, ◌∙◌, ◌==◌,
  if◌then◌else◌, arith, bit_and, inl, inr,
}
use fpga_config_space.Endian.{Host}
use fpga_config_space.Backends.{control, Io}
use fpga_config_space.Backends.Lanes.{Lanes, IsAligned, byte, half, word, lanes_of, byteenable}
use fpga_config_space.Backends.Pcie.{
  PcieWbDev, window_offset_low, control_register_high, master_ctl_high, master_adr_low,
  master_dat_low, pcie_int_enable, wb_cycle, wb_write, wb_read, wb_read_cfg, wb_request, wb_reply,
  wb_ops, irq_handler, window_high,
}
use fpga_config_space.Backends.Pcie.Window.{
  Bridge, IsCached, moved, place-moved, wb_write-bus_write, wb_read-bus_read, at_address,
}

-- A call of one of the operations in `wb_ops`, or an interrupt.
pub data Call : Type 0 where
  cycle : Bool → Call
  enable : (be : ℕ) → Call
  write : (addr dat : ℕ) → Call
  read : (addr : ℕ) → Call
  read_cfg : (addr : ℕ) → Call
  request : Call
  reply : (err dat : ℕ) → Call
  interrupt : Call

-- The arguments are 32-bit words.
abbrev pub IsCall : Call → Type 0
IsCall (write addr dat) = (addr < 2 ^ 32) × (dat < 2 ^ 32)
IsCall (read addr) = addr < 2 ^ 32
IsCall other = Unit {0}

abbrev pub AreCalls : List Call → Type 0
AreCalls [] = Unit {0}
AreCalls (c ∷ cs) = IsCall c × AreCalls cs

abbrev pub IsLanes : Host → Lanes → Type 0
IsLanes h l = (width lane : ℕ) × IsAligned width lane × (l ≡ lanes_of h width lane)

if-IsLanes :
    (h : Host) (p : Bool) (x y : Lanes) → IsLanes h x → IsLanes h y → IsLanes h (if p then x else y)
if-IsLanes h true x y a b = a
if-IsLanes h false x y a b = b

byteenable-IsLanes :
    (h : Host) (be : ℕ) (old : Lanes) → IsLanes h old → IsLanes h (byteenable h be old)
unfolding byteenable
byteenable-IsLanes h be old k =
    if-IsLanes h (be == 0x1) _ _ (1, 0, byte (omega arith), refl)
      (if-IsLanes h (be == 0x2) _ _ (1, 1, byte (omega arith), refl)
        (if-IsLanes h (be == 0x4) _ _ (1, 2, byte (omega arith), refl)
          (if-IsLanes h (be == 0x8) _ _ (1, 3, byte (omega arith), refl)
            (if-IsLanes h (be == 0x3) _ _ (2, 0, half (inl refl), refl)
              (if-IsLanes h (be == 0xC) _ _ (2, 2, half (inr refl), refl)
                (if-IsLanes h (be == 0xF) _ _ (4, 0, word refl, refl) k))))))

module _ {H : Type 0} (io : Io H) (h : Host) where
  unfoldable pub perform : Call → PcieWbDev H → PcieWbDev H
  perform (cycle on) dev = (wb_ops io h).cycle dev on
  perform (enable be) dev = (wb_ops io h).byteenable dev be
  perform (write addr dat) dev = (wb_ops io h).write dev addr dat
  perform (read addr) dev = ((wb_ops io h).read dev addr).1
  perform (read_cfg addr) dev = ((wb_ops io h).read_cfg dev addr).1
  perform request dev = ((wb_ops io h).request dev).1
  perform (reply err dat) dev = (wb_ops io h).reply dev err dat
  perform interrupt dev = irq_handler io dev

  unfoldable pub perform_all : List Call → PcieWbDev H → PcieWbDev H
  perform_all [] dev = dev
  perform_all (c ∷ cs) dev = perform_all cs (perform c dev)

module _ {H : Type 0} (io : Io H) (b : Bridge io) (h : Host) where
  pub record IsReady (dev : PcieWbDev H) : Type 0 where
    pub cached : IsCached io b dev
    pub lanes : IsLanes h dev.lanes

  -- A write to another register of the control region.
  pub control-IsReady :
      (o v : ℕ) (dev : PcieWbDev H)
      → o ≢ window_offset_low
      → IsReady dev
      → IsReady (record dev { card = io.iowrite control 4 o v dev.card })
  control-IsReady o v dev ne k = record {
    cached = k.cached ∙ sym (b.stays o v dev.card ne);
    lanes = k.lanes;
  }

  control_read-IsReady :
      (o : ℕ) (dev : PcieWbDev H)
      → IsReady dev
      → IsReady (record dev { card = (io.ioread control 4 o dev.card).1 })
  control_read-IsReady o dev k = record {
    cached = k.cached ∙ sym (b.stays_control o dev.card);
    lanes = k.lanes;
  }

  pub pcie_int_enable-IsReady :
      (on : Bool) (dev : PcieWbDev H) → IsReady dev → IsReady (pcie_int_enable io on dev)
  unfolding pcie_int_enable
  pcie_int_enable-IsReady on dev k = control-IsReady control_register_high _ dev (omega arith) k

  -- The window stands where the driver put it, after an access on the bus.
  at_address-IsReady :
      (addr : ℕ) (dev : PcieWbDev H) (card : H)
      → b.place card ≡ bit_and addr window_high
      → IsReady dev
      → IsReady (at_address io b addr dev card)
  at_address-IsReady addr dev card e k = record { cached = sym e; lanes = k.lanes }

  wb_write-IsReady :
      (addr dat : ℕ) (dev : PcieWbDev H)
      → addr < 2 ^ 32
      → dat < 2 ^ 32
      → IsReady dev
      → IsReady (wb_write io dev addr dat)
  wb_write-IsReady addr dat dev la ld k =
      let (width, lane, al, e) = k.lanes in
      subst IsReady (sym (wb_write-bus_write io b h width lane addr dat dev k.cached al e la ld)) (
        at_address-IsReady addr dev _
          (b.stays_write width _ _ (moved io b addr dev.card) ∙ place-moved io b addr dev.card) k)

  wb_read-IsReady :
      (addr : ℕ) (dev : PcieWbDev H) → addr < 2 ^ 32 → IsReady dev → IsReady (wb_read io dev addr).1
  wb_read-IsReady addr dev la k =
      let (width, lane, al, e) = k.lanes in
      subst IsReady
        (sym (ap (λ r. r.1) (wb_read-bus_read io b h width lane addr dev k.cached al e la)))
        (at_address-IsReady addr dev _
          (b.stays_read width _ (moved io b addr dev.card) ∙ place-moved io b addr dev.card) k)

  if-IsReady :
      {A : Type 0} (p : Bool) (x y : A × PcieWbDev H)
      → IsReady x.1
      → IsReady y.1
      → IsReady (if p then x else y).1
  if-IsReady true x y a c = a
  if-IsReady false x y a c = c

  wb_read_cfg-IsReady :
      (addr : ℕ) (dev : PcieWbDev H) → IsReady dev → IsReady (wb_read_cfg io dev addr).1
  unfolding wb_read_cfg
  wb_read_cfg-IsReady addr dev k = if-IsReady (addr == 0) _ _ (control_read-IsReady _ dev k) (
      if-IsReady (addr == 4) _ _ (control_read-IsReady _ dev k) (
        if-IsReady (addr == 8) _ _ (control_read-IsReady _ dev k)
          (if-IsReady (addr == 12) _ _ (control_read-IsReady _ dev k) k)))

  wb_request-IsReady : (dev : PcieWbDev H) → IsReady dev → IsReady (wb_request io dev).1
  unfolding wb_request
  wb_request-IsReady dev k =
      let r =
        control_read-IsReady master_dat_low _
          (control_read-IsReady master_adr_low _ (control_read-IsReady master_ctl_high dev k)) in
      if-IsReady _ _ _ (pcie_int_enable-IsReady true _ r)
        (pcie_int_enable-IsReady true _ (control-IsReady master_ctl_high 1 _ (omega arith) r))

  wb_reply-IsReady :
      (err dat : ℕ) (dev : PcieWbDev H) → IsReady dev → IsReady (wb_reply io dev err dat)
  unfolding wb_reply
  wb_reply-IsReady err dat dev k =
      control-IsReady master_ctl_high _ _ (omega arith)
        (control-IsReady master_dat_low _ dev (omega arith) k)

  -- Each call keeps the driver ready.
  pub perform-IsReady :
      (c : Call) (dev : PcieWbDev H) → IsCall c → IsReady dev → IsReady (perform io h c dev)
  unfolding perform wb_cycle irq_handler
  perform-IsReady (cycle on) dev w k = control-IsReady control_register_high _ dev (omega arith) k
  perform-IsReady (enable be) dev w k = record {
    cached = k.cached;
    lanes = byteenable-IsLanes h be dev.lanes k.lanes;
  }
  perform-IsReady (write addr dat) dev (la, ld) k = wb_write-IsReady addr dat dev la ld k
  perform-IsReady (read addr) dev w k = wb_read-IsReady addr dev w k
  perform-IsReady (read_cfg addr) dev w k = wb_read_cfg-IsReady addr dev k
  perform-IsReady request dev w k = wb_request-IsReady dev k
  perform-IsReady (reply err dat) dev w k = wb_reply-IsReady err dat dev k
  perform-IsReady interrupt dev w k = pcie_int_enable-IsReady false dev k

  -- After any calls of the operations and any interrupts, in whatever order, the driver knows where
  -- the window into the bus is, and its lanes are those of one aligned byte, half word or word, when
  -- that was so before and the addresses and data are 32-bit words. The card makes an access through
  -- the window one on the bus, and only the register WINDOW_OFFSET_LOW moves the window.
  pub perform_all-IsReady :
      (cs : List Call) (dev : PcieWbDev H)
      → AreCalls cs
      → IsReady dev
      → IsReady (perform_all io h cs dev)
  unfolding perform_all
  perform_all-IsReady [] dev w k = k
  perform_all-IsReady (c ∷ cs) dev (w, ws) k =
      perform_all-IsReady cs (perform io h c dev) ws (perform-IsReady c dev w k)
