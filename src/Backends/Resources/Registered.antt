-- ===== src/Backends/Resources/Registered.antt =====
-- The core of pcie-wb/wishbone.c fills the interface `Registration`.
use fpga_config_space.Base.{
  ℕ, ◌+◌, ◌^◌, ◌≤◌, ◌<◌, List, Option, none, some, true, false, ◌≡◌, ◌≢◌, ap, ◌∙◌, ◌⊎◌, ◌==◌, arith,
  inl, inr, Bool-cases, length,
}
use fpga_config_space.Backends.Resources.{Registration}
use fpga_config_space.Wishbone.Bus.{
  Globals, Entry, Bus, Answers, Removal, fault, removed, register, unregister,
}
use fpga_config_space.Wishbone.Bus.Gaps.{IsSorted}
use fpga_config_space.Wishbone.Bus.Register.{
  entry_of, is_new, all_accepted, register-Connected, register-Unchanged, unregister-register,
  sorted_length,
}

-- The list, the character devices and the entries of sysfs.
abbrev pub seen : Bus → List Entry × List ℕ × List ℕ
seen bus = (bus.devices, bus.cdevs, bus.nodes)

abbrev as_seen : List Entry → List ℕ → List ℕ → List Entry × List ℕ × List ℕ
as_seen d c n = (d, c, n)

same_view :
    (d d' : List Entry) (c c' n n' : List ℕ)
    → d ≡ d'
    → c ≡ c'
    → n ≡ n'
    → as_seen d c n ≡ as_seen d' c' n'
same_view d d' c c' n n' p q r = λ i. (p i, q i, r i)

abbrev remains : Removal → Option Bus
remains fault = none
remains (removed err bus) = some bus

module _ (g : Globals) (a : Answers) (wb : ℕ) where
  abbrev pub unlist : Bus → Option Bus
  unlist bus = remains (unregister (entry_of wb bus.devices) bus)

  -- The list is sorted and the device is not in it.
  abbrev pub IsOpenFor : Bus → Type 0
  IsOpenFor bus = IsSorted g 0 g.max_devices bus.devices × (is_new wb bus.devices ≡ true)

module _ (g : Globals) (masters : g.minor g.master_first + g.max_devices ≤ 2 ^ 20)
    (some_device : 0 < g.max_devices) (a : Answers) (wb : ℕ) where
  accepted_or_not :
      (bus : Bus)
      → IsSorted g 0 g.max_devices bus.devices
      → ((all_accepted a ≡ true) × (length bus.devices < g.max_devices))
        ⊎ ((all_accepted a ≡ false) ⊎ (length bus.devices ≡ g.max_devices))
  accepted_or_not bus s = elim (Bool-cases (all_accepted a)) [
    | inr refused ↦ inr (inl refused)
    | inl all_ok ↦ elim (Bool-cases (length bus.devices == g.max_devices)) [
      | inl e ↦ inr (inr (ground (arith, e)))
      | inr e ↦ inl (all_ok, ground (arith, sorted_length g 0 g.max_devices bus.devices s, e))
    ]
  ]

  pub refused_lem :
      (bus : Bus)
      → IsOpenFor g a wb bus
      → (register g a wb bus).0 ≢ 0
      → seen (register g a wb bus).1 ≡ seen bus
  refused_lem bus (s, new) ne = elim (accepted_or_not bus s) [
    | inl (all_ok, free) ↦
        absurd (ne (register-Connected g masters a wb bus s all_ok free).4.success)
    | inr why ↦
        let u = register-Unchanged g masters a wb bus s some_device why in
        same_view _ _ _ _ _ _ u.devices u.cdevs u.nodes
  ]

  pub undone_lem :
      (bus : Bus)
      → IsOpenFor g a wb bus
      → (register g a wb bus).0 ≡ 0
      → (after : Bus) × (unlist g a wb (register g a wb bus).1 ≡ some after)
        × (seen after ≡ seen bus)
  undone_lem bus (s, new) e = elim (accepted_or_not bus s) [
    | inl (all_ok, free) ↦
        let (entry, after, is, ok, gone, ds, cs, ns) =
          unregister-register g masters a wb bus s all_ok free new in
        (
          after,
          ap (λ x. remains (unregister x (register g a wb bus).1)) is ∙ ap remains gone,
          same_view _ _ _ _ _ _ ds cs ns,
        )
    | inr why ↦
        absurd (omega (arith, e, (register-Unchanged g masters a wb bus s some_device why).error))
  ]

  abbrev pub registration : Registration Bus (List Entry × List ℕ × List ℕ)
  registration = record {
    register = register g a wb;
    unregister = unlist g a wb;
    view = seen;
    IsFit = IsOpenFor g a wb;
    refused = refused_lem;
    undone = undone_lem;
  }
