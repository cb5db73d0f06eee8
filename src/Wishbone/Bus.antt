-- ===== src/Wishbone/Bus.antt =====
-- `wishbone_register` and `wishbone_unregister` of pcie-wb/wishbone.c: the list of back ends, sorted
-- by minor number, and what the kernel holds for them.
--
-- A device number is made and taken apart by macros of the kernel. The calls of the kernel that can
-- fail say so by a Boolean.
pub mod Gaps
pub mod Register
pub mod Tests
use fpga_config_space.Base.{
  ℕ, zero, suc, ◌+◌, ◌-◌, ◌%◌, ◌^◌, ◌<◌, List, [], ◌∷◌, ◌++◌, Bool, true, false, not, ◌≡◌, ◌==◌,
  if◌then◌else◌,
}

-- The module's parameter `max_devices`, the first device numbers of the masters and of the slaves,
-- and MKDEV, MAJOR and MINOR of the kernel.
pub record Globals : Type 0 where
  pub max_devices : ℕ
  pub master_first : ℕ
  pub slave_first : ℕ
  pub mkdev : ℕ → ℕ → ℕ
  pub major : ℕ → ℕ
  pub minor : ℕ → ℕ
  pub minor-mkdev : (a b : ℕ) → b < 2 ^ 20 → minor (mkdev a b) ≡ b

-- The fields of `struct wishbone` that registration fills; `wb` is its address.
pub record Entry : Type 0 where
  pub wb : ℕ
  pub master_dev : ℕ
  pub slave_dev : ℕ

-- The list head in a `struct wishbone`: alone, in the list, or removed with its pointers poisoned.
pub data Link : Type 0 where
  alone linked poisoned : Link

-- `devices` is `wishbone_list`. `cdevs` and `nodes` are the character devices and the entries of
-- sysfs that the kernel holds.
pub record Bus : Type 0 where
  pub devices : List Entry
  pub cdevs : List ℕ
  pub nodes : List ℕ
  pub link : ℕ → Link

-- What the two calls of `cdev_add` and of `device_create` answer.
pub record Answers : Type 0 where
  pub master_cdev : Bool
  pub slave_cdev : Bool
  pub master_device : Bool
  pub slave_device : Bool

-- Where the walk through the list stops: before the first device behind a gap, or out of minors.
pub data Gap : Type 0 where
  full : Gap
  gap : (devoff : ℕ) → (before after : List Entry) → Gap

abbrev pub behind : Entry → Gap → Gap
behind e full = full
behind e (gap devoff before after) = gap devoff (e ∷ before) after

-- cdev_del and device_destroy: one of the objects goes.
abbrev pub without : ℕ → List ℕ → List ℕ
without d [] = []
without d (x ∷ xs) = if x == d then xs else x ∷ without d xs

abbrev pub set_link : (ℕ → Link) → ℕ → Link → ℕ → Link
set_link link wb l i = if i == wb then l else link i

abbrev pub enomem : ℕ
enomem = 12

abbrev pub einval : ℕ
einval = 22

-- The device number that is `devoff` minors behind the first.
abbrev pub dev_at : Globals → (first devoff : ℕ) → ℕ
dev_at g first devoff = g.mkdev (g.major first) ((g.minor first + devoff) % 2 ^ 32)

abbrev pub entry_at : Globals → (wb devoff : ℕ) → Entry
entry_at g wb devoff = record {
  wb = wb;
  master_dev = dev_at g g.master_first devoff;
  slave_dev = dev_at g g.slave_first devoff;
}

-- The labels at the end of `wishbone_register`: each undoes one call, and goes on to the next.
abbrev pub fail_master_cdev : Entry → Bus → ℕ × Bus
fail_master_cdev e b = (enomem, record b { cdevs = without e.master_dev b.cdevs })

abbrev pub fail_slave_cdev : Entry → Bus → ℕ × Bus
fail_slave_cdev e b = fail_master_cdev e (record b { cdevs = without e.slave_dev b.cdevs })

abbrev pub fail_master_sys : Entry → Bus → ℕ × Bus
fail_master_sys e b = fail_slave_cdev e (record b { nodes = without e.master_dev b.nodes })

-- The calls of the kernel. 0, or an error.
unfoldable pub connect : Answers → Entry → (before after : List Entry) → Bus → ℕ × Bus
connect a e before after bus =
    let b1 = record bus { cdevs = e.master_dev ∷ bus.cdevs } in
    let b2 = record b1 { cdevs = e.slave_dev ∷ b1.cdevs } in
    let b3 = record b2 { nodes = e.master_dev ∷ b2.nodes } in
    let b4 = record b3 { nodes = e.slave_dev ∷ b3.nodes } in
    if not a.master_cdev
    then (enomem, bus)
    else if not a.slave_cdev
    then fail_master_cdev e b1
    else if not a.master_device
    then fail_slave_cdev e b2
    else if not a.slave_device
    then fail_master_sys e b3
    else (0, record b4 { devices = before ++ (e ∷ after); link = set_link b4.link e.wb linked })

-- The loop of `wishbone_register`.
unfoldable pub find_gap : Globals → (devoff : ℕ) → List Entry → Gap
find_gap g devoff [] = gap devoff [] []
find_gap g devoff (e ∷ es) =
    let rest = behind e (find_gap g (suc devoff) es) in
    if not (e.master_dev == dev_at g g.master_first devoff)
    then gap devoff [] (e ∷ es)
    else if devoff == (g.max_devices + (2 ^ 32 - 1)) % 2 ^ 32
    then full
    else rest

unfoldable pub register_at : Globals → Answers → (wb : ℕ) → Gap → Bus → ℕ × Bus
register_at g a wb full bus = (enomem, bus)
register_at g a wb (gap devoff before after) bus = connect a (entry_at g wb devoff) before after bus

-- wishbone_register, of a device that is not listed: the list head of one that is would be overwritten.
unfoldable pub register : Globals → Answers → (wb : ℕ) → Bus → ℕ × Bus
register g a wb bus =
    let b = record bus { link = set_link bus.link wb alone } in
    register_at g a wb (find_gap g 0 b.devices) b

-- list_del
abbrev pub remove_entry : (wb : ℕ) → List Entry → List Entry
remove_entry wb [] = []
remove_entry wb (e ∷ es) = if e.wb == wb then es else e ∷ remove_entry wb es

-- How `wishbone_unregister` ends: it writes through poisoned pointers, or returns 0 or -EINVAL.
pub data Removal : Type 0 where
  fault : Removal
  removed : ℕ → Bus → Removal

-- wishbone_unregister, on the fields of a device.
unfoldable pub unregister : Entry → Bus → Removal
unregister e bus = elim (bus.link e.wb) [
  | alone ↦ removed einval bus
  | poisoned ↦ fault
  | linked ↦ removed 0 (record {
    devices = remove_entry e.wb bus.devices;
    cdevs = without e.master_dev (without e.slave_dev bus.cdevs);
    nodes = without e.master_dev (without e.slave_dev bus.nodes);
    link = set_link bus.link e.wb poisoned;
  })
]
