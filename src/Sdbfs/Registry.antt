-- ===== src/Sdbfs/Registry.antt =====
-- The list of devices of sdbfs/lib/glue.c, `sdbfs_list`, linked through the `next` fields of the
-- devices, and the functions on it: `sdbfs_dev_create`, `sdbfs_dev_destroy`, `sdbfs_dev_find`.
pub mod Chain
pub mod Destroy
pub mod Find
pub mod Magic
pub mod Tests
use fpga_config_space.Base.{
  ℕ, zero, suc, ◌^◌, ◌%◌, Option, none, some, List, Bool, true, false, not, ◌||◌, ◌==◌,
  if◌then◌else◌, bytes_eq, update, window, [], ◌∷◌,
}
use fpga_config_space.Endian.{Host, htonl, load32}
use fpga_config_space.Sdb.{sdb_magic}
use fpga_config_space.Sdbfs.{Fs}

-- The address of a device; 0 is the null pointer.
abbrev pub Ptr : Type 0
Ptr = ℕ

-- `head` is `sdbfs_list`; `next` and `name` are the fields of the device at an address.
pub record Registry : Type 0 where
  pub head : Ptr
  pub next : Ptr → Ptr
  pub name : Ptr → Option (List ℕ)

-- The magic number at the entry point, as the processor reads it. A driver that stores less than
-- four bytes leaves what the variable held before, `junk`. `none`: the read method is null.
unfoldable pub read_magic : Host → Fs → List ℕ → Option ℕ
read_magic h fs junk =
    if fs.mapped || fs.zerobased
    then some (load32 h (window fs.memory fs.entrypoint 4) 0)
    else elim fs.read [
      | none ↦ none
      | some read ↦ some (load32 h (read (fs.entrypoint % 2 ^ 32) 4 junk).1 0)
    ]

pub data Creation : Type 0 where
  created : Fs → Registry → Creation
  enotdir : Creation
  crashed : Creation

-- fs->next = sdbfs_list; sdbfs_list = fs;
unfoldable pub link : Ptr → Registry → Registry
link p reg = record reg { next = update reg.next p reg.head; head = p }

-- The test of the magic number: `some true` if words are to be converted, `none` for -ENOTDIR.
unfoldable pub check_magic : Host → ℕ → Option Bool
check_magic h magic =
    if magic == sdb_magic
    then some (not (htonl h 1 == 1))
    else if htonl h magic == sdb_magic
    then some false
    else none

unfoldable pub accept : Ptr → Fs → Registry → Option Bool → Creation
accept p fs reg none = enotdir
accept p fs reg (some true) = created (record fs { convert32 = true }) (link p reg)
accept p fs reg (some false) = created fs (link p reg)

unfoldable pub dev_create : Host → Ptr → Fs → Registry → List ℕ → Creation
dev_create h p fs reg junk = elim (read_magic h fs junk) [
  | none ↦ crashed
  | some magic ↦ accept p fs reg (check_magic h magic)
]

-- A pointer to a pointer: to `sdbfs_list`, or to the `next` field of a device.
pub data Slot : Type 0 where
  list_head : Slot
  next_of : Ptr → Slot

unfoldable pub deref : Registry → Slot → Ptr
deref reg list_head = reg.head
deref reg (next_of p) = reg.next p

unfoldable pub assign : Registry → Slot → Ptr → Registry
assign reg list_head q = record reg { head = q }
assign reg (next_of p) q = record reg { next = update reg.next p q }

-- A loop returns, or its fuel runs out.
pub data Run {ℓ} (A : Type ℓ) : Type ℓ where
  done : A → Run A
  out_of_fuel : Run A

-- for (p = &sdbfs_list; *p && *p != fs; p = &(*p)->next)
unfoldable pub find_slot : ℕ → Registry → Slot → Ptr → Run Slot
find_slot zero reg p fs = out_of_fuel
find_slot (suc fuel) reg p fs =
    let rest = find_slot fuel reg (next_of (deref reg p)) fs in
    if (deref reg p == 0) || (deref reg p == fs) then done p else rest

-- `false` is -ENOENT.
unfoldable pub remove_at : Registry → Ptr → Run Slot → Run (Bool × Registry)
remove_at reg fs out_of_fuel = out_of_fuel
remove_at reg fs (done p) =
    if deref reg p == 0 then done (false, reg) else done (true, assign reg p (reg.next fs))

unfoldable pub dev_destroy : ℕ → Registry → Ptr → Run (Bool × Registry)
dev_destroy fuel reg fs = remove_at reg fs (find_slot fuel reg list_head fs)

-- strcmp(l->name, name): `none` if the name of the device is null.
unfoldable pub named : Registry → Ptr → List ℕ → Option Bool
named reg p name = elim (reg.name p) [ none ↦ none | some n ↦ some (bytes_eq n name) ]

-- for (l = sdbfs_list; l && strcmp(l->name, name); l = l->next). The result `none` is a null name
-- on the way; 0 is the null pointer.
unfoldable pub find_from : ℕ → Registry → Ptr → List ℕ → Run (Option Ptr)
find_from zero reg l name = out_of_fuel
find_from (suc fuel) reg l name =
    let rest = find_from fuel reg (reg.next l) name in
    if l == 0 then done (some 0) else elim (named reg l name) [
      | none ↦ done none
      | some true ↦ done (some l)
      | some false ↦ rest
    ]

unfoldable pub dev_find : ℕ → Registry → List ℕ → Run (Option Ptr)
dev_find fuel reg name = find_from fuel reg reg.head name
