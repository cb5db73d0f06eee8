-- ===== src/Kernel/File.antt =====
-- sdbfs/kernel/sdbfs-file.c: reading a file, from devices as sdbfs/kernel/sdb-iomem.c and
-- sdbfs/kernel/sdb-fakedev.c have them.
pub mod Repeats
pub mod Clients
use fpga_config_space.Base.{
  ℕ, zero, suc, ◌+◌, ◌-◌, ◌%◌, ◌^◌, List, [], ◌++◌, Option, none, some, Bool, not, if◌then◌else◌,
  ◌==◌, ltb, take, drop, length, min,
}
use fpga_config_space.Endian.{Host, ntohll, load64}
use fpga_config_space.Sdb.{Sdb}

-- `read` of a device: an error, or the bytes that it has put into the buffer.
pub data Got : Type 0 where
  failed : (err : ℕ) → Got
  got : (bytes : List ℕ) → Got

abbrev pub efault : ℕ
efault = 14

abbrev pub einval : ℕ
einval = 22

-- How sdbfs_read ends: an error, or a count with the position of the file; and what has been copied to
-- the user, which only a count of bytes tells of.
pub data Result : Type 0 where
  error : (err : ℕ) → Result
  delivered : (done : ℕ) (copied : List ℕ) (offp : ℕ) → Result

-- What a device is asked for, and whether copy_to_user takes a number of bytes at a place.
pub record Reader : Type 0 where
  pub read : (begin count : ℕ) → Got
  pub copy_to_user : (done n : ℕ) → Bool

-- addr_first and addr_last with be64_to_cpu.
abbrev pub file_start : Host → Sdb → ℕ
file_start h r = ntohll h (load64 h r 0x08)

abbrev pub file_size : Host → Sdb → ℕ
file_size h r = (ntohll h (load64 h r 0x10) + 1 + 2 ^ 64 - file_start h r) % 2 ^ 64

-- A read fails: what has been done is returned, and the position stays.
abbrev pub fail_read : (err offp done : ℕ) → List ℕ → Result
fail_read err offp done copied = if not (done == 0) then delivered done copied offp else error err

-- The rest of a round: copy_to_user, and whether the read was a partial one.
abbrev pub copied_then :
    Reader → (n offp done : ℕ) (copied bytes : List ℕ) → Option Result → Option Result
copied_then r n offp done copied bytes others =
    if not (r.copy_to_user done (length bytes))
    then some (error efault)
    else if not (length bytes == n)
    then some (delivered (done + length bytes) (copied ++ bytes) (offp + (done + length bytes)))
    else others

-- The loop, on fuel. None is a loop that has not ended. `at` is where the device is read.
unfoldable pub read_loop : Reader → (fuel at total offp done : ℕ) → List ℕ → Option Result
read_loop r zero at total offp done copied = none
read_loop r (suc fuel) at total offp done copied =
    let round : Option Result = elim (r.read at (min 16 total)) [
      | failed err ↦ some (fail_read err offp done copied)
      | got bytes ↦
          copied_then r (min 16 total) offp done copied bytes
            (read_loop r fuel at total offp (done + length bytes) (copied ++ bytes))
    ] in
    if not (ltb done total) then some (delivered done copied (offp + done)) else round

-- What is left of the file, where more is asked for.
abbrev pub clipped : (size offp asked : ℕ) → ℕ
clipped size offp asked = if ltb size ((offp + asked) % 2 ^ 64) then size - offp else asked

-- sdbfs_read.
unfoldable pub sdbfs_read : Host → Reader → (fuel : ℕ) → Sdb → (asked offp : ℕ) → Option Result
sdbfs_read h r fuel rec asked offp =
    let size = file_size h rec in
    let at = (file_start h rec + offp) % 2 ^ 32 in
    let run = read_loop r fuel at (clipped size offp asked) offp 0 [] in
    if ltb size offp then some (delivered 0 [] offp) else run
