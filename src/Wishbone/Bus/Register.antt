-- ===== src/Wishbone/Bus/Register.antt =====
-- Registration as a whole: what it adds, that it takes back all of it on an error, and that
-- unregistering undoes it.
use fpga_config_space.Base.{
  ℕ, suc, ◌+◌, ◌^◌, ◌≤◌, ◌<◌, List, [], ◌∷◌, ◌++◌, Bool, true, false, not, ◌&&◌, ◌≡◌, ◌⊎◌, refl,
  sym, ap, subst, ◌∙◌, ◌==◌, arith, if◌then◌else◌, ◌==◌, length, length-append, inl, inr,
}
use fpga_config_space.Wishbone.Bus.{
  Globals, Entry, Bus, Gap, full, gap, Answers, removed, entry_at, find_gap, connect, without,
  remove_entry, register_at, register, unregister, enomem, set_link, linked, alone, poisoned,
}
use fpga_config_space.Wishbone.Bus.Gaps.{IsSorted, IsGap, find_gap-IsGap}

-- All calls of the kernel succeed.
abbrev pub all_accepted : Answers → Bool
all_accepted a = a.master_cdev && a.slave_cdev && a.master_device && a.slave_device

-- No device of the list is at an address.
abbrev pub is_new : ℕ → List Entry → Bool
is_new wb [] = true
is_new wb (e ∷ es) = not (e.wb == wb) && is_new wb es

without_first : (d : ℕ) (xs : List ℕ) → without d (d ∷ xs) ≡ xs
without_first d xs = ground arith

without_both : (d d' : ℕ) (xs : List ℕ) → without d' (without d (d ∷ d' ∷ xs)) ≡ xs
without_both d d' xs = ap (without d') (without_first d (d' ∷ xs)) ∙ without_first d' xs

remove_entry_new :
    (e : Entry) (before after : List Entry)
    → is_new e.wb (before ++ after) ≡ true
    → remove_entry e.wb (before ++ (e ∷ after)) ≡ before ++ after
remove_entry_new e [] after new = ground arith
remove_entry_new e (x ∷ before) after new = ground (arith, remove_entry_new e before after)

-- The fields of a device that is listed.
abbrev pub entry_of : (wb : ℕ) → List Entry → Entry
entry_of wb [] = record { wb = wb; master_dev = 0; slave_dev = 0 }
entry_of wb (e ∷ es) = if e.wb == wb then e else entry_of wb es

entry_of_new :
    (e : Entry) (before after : List Entry)
    → is_new e.wb (before ++ after) ≡ true
    → entry_of e.wb (before ++ (e ∷ after)) ≡ e
entry_of_new e [] after new = ground arith
entry_of_new e (x ∷ before) after new = ground (arith, entry_of_new e before after)

-- What `wishbone_unregister` leaves of the bus.
abbrev unlisted : Entry → Bus → Bus
unlisted e bus = record {
  devices = remove_entry e.wb bus.devices;
  cdevs = without e.master_dev (without e.slave_dev bus.cdevs);
  nodes = without e.master_dev (without e.slave_dev bus.nodes);
  link = set_link bus.link e.wb poisoned;
}

unregister_linked :
    (e : Entry) (bus : Bus) → bus.link e.wb ≡ linked → unregister e bus ≡ removed 0 (unlisted e bus)
unfolding unregister
unregister_linked e bus h = rw (h, unregister)

-- The bus after a failure: an error, and all that the kernel holds and that is listed is as before.
pub record Unchanged (bus : Bus) (result : ℕ × Bus) : Type 0 where
  pub error : result.0 ≡ enomem
  pub devices : result.1.devices ≡ bus.devices
  pub cdevs : result.1.cdevs ≡ bus.cdevs
  pub nodes : result.1.nodes ≡ bus.nodes

-- The bus after a success: the device stands between those with a lower and those with a higher
-- minor number.
pub record Connected (e : Entry) (before after : List Entry) (bus : Bus) (result : ℕ × Bus)
    : Type 0 where
  pub success : result.0 ≡ 0
  pub devices : result.1.devices ≡ before ++ (e ∷ after)
  pub cdevs : result.1.cdevs ≡ e.slave_dev ∷ e.master_dev ∷ bus.cdevs
  pub nodes : result.1.nodes ≡ e.slave_dev ∷ e.master_dev ∷ bus.nodes
  pub link : result.1.link e.wb ≡ linked

connect-Unchanged :
    (a : Answers) (e : Entry) (before after : List Entry) (bus : Bus)
    → all_accepted a ≡ false
    → Unchanged bus (connect a e before after bus)
unfolding connect
connect-Unchanged a e before after bus h = ground arith

connect-Connected :
    (a : Answers) (e : Entry) (before after : List Entry) (bus : Bus)
    → all_accepted a ≡ true
    → Connected e before after bus (connect a e before after bus)
unfolding connect
connect-Connected a e before after bus h = ground arith

module _ (g : Globals) where
  insert-IsSorted :
      (lo n : ℕ) (wb : ℕ) (before after : List Entry)
      → n < g.max_devices
      → IsSorted g lo n before
      → IsSorted g (suc n) g.max_devices after
      → IsSorted g lo g.max_devices (before ++ (entry_at g wb n ∷ after))
  insert-IsSorted lo n wb [] after lt sb sa = (n, sb, lt, refl, sa)
  insert-IsSorted lo n wb (e ∷ es) after lt (m, le, ltm, he, s) sa =
      (m, le, omega (arith, ltm, lt), he, insert-IsSorted (suc m) n wb es after lt s sa)

  -- The new device has the lowest free minor number.
  abbrev pub IsConnected : (wb : ℕ) → Bus → ℕ × Bus → Type 0
  IsConnected wb bus result =
      (before after : List Entry) × (bus.devices ≡ before ++ after)
      × IsSorted g 0 (length before) before
      × Connected (entry_at g wb (length before)) before after bus result
      × IsSorted g 0 g.max_devices result.1.devices

  pub sorted_length : (lo hi : ℕ) (es : List Entry) → IsSorted g lo hi es → length es + lo ≤ hi
  sorted_length lo hi [] s = omega (arith, s)
  sorted_length lo hi (e ∷ es) (n, le, lt, he, s) = omega (arith, le, sorted_length (suc n) hi es s)

  register_at-Unchanged :
      (a : Answers) (wb : ℕ) (bus : Bus) (r : Gap)
      → IsGap g 0 bus.devices r
      → (all_accepted a ≡ false) ⊎ (length bus.devices ≡ g.max_devices)
      → Unchanged bus (register_at g a wb r (record bus { link = set_link bus.link wb alone }))
  unfolding register_at
  register_at-Unchanged a wb bus full h why = record {
    error = refl;
    devices = refl;
    cdevs = refl;
    nodes = refl;
  }
  register_at-Unchanged a wb bus (gap n before after) h (inl refused) =
      let u =
        connect-Unchanged a (entry_at g wb n) before after
          (record bus { link = set_link bus.link wb alone }) refused in
      record { error = u.error; devices = u.devices; cdevs = u.cdevs; nodes = u.nodes }
  register_at-Unchanged a wb bus (gap n before after) h (inr none_free) = absurd (
      omega (
        arith,
        none_free,
        ap length h.0,
        length-append before after,
        h.1,
        h.2,
        sorted_length (suc n) g.max_devices after h.4,
      ))

  register_at-Connected :
      (a : Answers) (wb : ℕ) (bus bus' : Bus) (r : Gap)
      → all_accepted a ≡ true
      → length bus.devices < g.max_devices
      → IsGap g 0 bus.devices r
      → bus' ≡ record bus { link = set_link bus.link wb alone }
      → IsConnected wb bus (register_at g a wb r bus')
  unfolding register_at
  register_at-Connected a wb bus bus' full ok free h same = absurd (omega (arith, free, h))
  register_at-Connected a wb bus bus' (gap n before after) ok free h same =
      let result = connect a (entry_at g wb n) before after bus' in
      let n_is : length before ≡ n = omega (arith, h.1) in
      let c = connect-Connected a (entry_at g wb n) before after bus' ok in
      let c' : Connected (entry_at g wb n) before after bus result = record {
        success = c.success;
        devices = c.devices;
        cdevs =
            c.cdevs
            ∙ ap (λ b. (entry_at g wb n).slave_dev ∷ (entry_at g wb n).master_dev ∷ b.cdevs) same;
        nodes =
            c.nodes
            ∙ ap (λ b. (entry_at g wb n).slave_dev ∷ (entry_at g wb n).master_dev ∷ b.nodes) same;
        link = c.link;
      } in
      (
        before,
        after,
        h.0,
        subst (λ m. IsSorted g 0 m before) (sym n_is) h.3,
        subst (λ m. Connected (entry_at g wb m) before after bus result) (sym n_is) c',
        subst (IsSorted g 0 g.max_devices) (sym c.devices)
            (insert-IsSorted 0 n wb before after h.2 h.3 h.4),
      )

module _ (g : Globals) (masters : g.minor g.master_first + g.max_devices ≤ 2 ^ 20) where
  -- A free minor number is there and the kernel accepts every call: `wishbone_register` returns 0.
  -- The new device gets the lowest minor number that no listed device has, and stands in the list
  -- between those with a lower and those with a higher one.
  pub register-Connected :
      (a : Answers) (wb : ℕ) (bus : Bus)
      → IsSorted g 0 g.max_devices bus.devices
      → all_accepted a ≡ true
      → length bus.devices < g.max_devices
      → IsConnected g wb bus (register g a wb bus)
  unfolding register
  register-Connected a wb bus s ok free =
      register_at-Connected g a wb bus _ (find_gap g 0 bus.devices) ok free
        (find_gap-IsGap g masters 0 bus.devices (omega (arith, free)) s) refl

  -- If the kernel refuses any call, or no minor number is free, `wishbone_register` returns -ENOMEM,
  -- and the list and all that the kernel holds are as they were.
  pub register-Unchanged :
      (a : Answers) (wb : ℕ) (bus : Bus)
      → IsSorted g 0 g.max_devices bus.devices
      → 0 < g.max_devices
      → (all_accepted a ≡ false) ⊎ (length bus.devices ≡ g.max_devices)
      → Unchanged bus (register g a wb bus)
  unfolding register
  register-Unchanged a wb bus s some_device why =
      register_at-Unchanged g a wb bus (find_gap g 0 bus.devices)
        (find_gap-IsGap g masters 0 bus.devices some_device s) why

  -- There is a free minor number, and the kernel accepts every call. A device that was not listed
  -- and is registered, and then unregistered with the fields it got: both calls return 0, and
  -- the list and all that the kernel holds are as before.
  pub unregister-register :
      (a : Answers) (wb : ℕ) (bus : Bus)
      → IsSorted g 0 g.max_devices bus.devices
      → all_accepted a ≡ true
      → length bus.devices < g.max_devices
      → is_new wb bus.devices ≡ true
      → (e : Entry) × (after : Bus) × (entry_of wb (register g a wb bus).1.devices ≡ e)
        × ((register g a wb bus).0 ≡ 0)
        × (unregister e (register g a wb bus).1 ≡ removed 0 after)
        × (after.devices ≡ bus.devices)
        × (after.cdevs ≡ bus.cdevs)
        × (after.nodes ≡ bus.nodes)
  unregister-register a wb bus s ok free new =
      let done = register-Connected a wb bus s ok free in
      let e = entry_at g wb (length done.0) in
      let c = done.4 in
      let after = unlisted e (register g a wb bus).1 in
      (
        e,
        after,
        ap (entry_of wb) c.devices
            ∙ entry_of_new e done.0 done.1 (subst (λ l. is_new wb l ≡ true) done.2 new),
        c.success,
        unregister_linked e (register g a wb bus).1 c.link,
        ap (remove_entry wb) c.devices
            ∙ remove_entry_new e done.0 done.1 (subst (λ l. is_new wb l ≡ true) done.2 new)
            ∙ sym done.2,
        ap (λ l. without e.master_dev (without e.slave_dev l)) c.cdevs
            ∙ without_both e.slave_dev e.master_dev bus.cdevs,
        ap (λ l. without e.master_dev (without e.slave_dev l)) c.nodes
            ∙ without_both e.slave_dev e.master_dev bus.nodes,
      )
