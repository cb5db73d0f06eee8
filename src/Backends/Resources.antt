-- ===== src/Backends/Resources.antt =====
-- What a driver holds of the kernel, and the interface through which the drivers of the back ends
-- use `wishbone_register` and `wishbone_unregister`.
pub mod Registered
use mathlib.Core.Option.{map}
use fpga_config_space.Base.{
  ℕ, zero, ◌+◌, ◌*◌, List, [], ◌∷◌, Option, none, some, Bool, true, false, ◌≡◌, ◌≢◌, ◌==◌,
  if◌then◌else◌,
}

-- pci_enable_device, kmalloc, pci_set_master, pci_enable_msi, pci_intx(pdev, 0), request_irq,
-- request_mem_region and ioremap, the last two for a BAR.
pub data Resource : Type 0 where
  enabled memory master msi intx_off irq : Resource
  region mapping : (bar : ℕ) → Resource

abbrev pub code : Resource → ℕ
code enabled = 0
code memory = 1
code master = 2
code msi = 3
code intx_off = 4
code irq = 5
code (region bar) = 6 + 2 * bar
code (mapping bar) = 7 + 2 * bar

-- A call that gives a resource back. One that is not held stays away.
abbrev pub without : Resource → List Resource → List Resource
without r [] = []
without r (x ∷ xs) = if code x == code r then xs else x ∷ without r xs

abbrev pub eio : ℕ
eio = 5

abbrev pub enomem : ℕ
enomem = 12

-- The two calls of the Wishbone core on its state `B`, for one device. `view` is what they leave in
-- the kernel. A call of `unregister` that follows poisoned pointers returns none.
pub record Registration (B V : Type 0) : Type 1 where
  pub register : B → ℕ × B
  pub unregister : B → Option B
  pub view : B → V
  pub IsFit : B → Type 0
  pub refused : (b : B) → IsFit b → (register b).0 ≢ 0 → view (register b).1 ≡ view b
  pub undone :
      (b : B)
      → IsFit b
      → (register b).0 ≡ 0
      → (after : B) × (unregister (register b).1 ≡ some after) × (view after ≡ view b)

-- The resources that are held, the state of the Wishbone core, and the device with its card.
pub record Machine (D B : Type 0) : Type 0 where
  pub held : List Resource
  pub bus : B
  pub dev : D

module _ {D B : Type 0} where
  abbrev pub hold : Resource → Machine D B → Machine D B
  hold r m = record m { held = r ∷ m.held }

  abbrev pub release : Resource → Machine D B → Machine D B
  release r m = record m { held = without r m.held }

  abbrev pub destroy_bar : (bar : ℕ) → Machine D B → Machine D B
  destroy_bar bar m = release (region bar) (release (mapping bar) m)

-- wishbone_unregister
abbrev pub unregister : {D B V : Type 0} → Registration B V → Machine D B → Option (Machine D B)
unregister core m = map (λ b. record m { bus = b }) (core.unregister m.bus)
