-- ===== src/Sdbfs.antt =====
-- The state of libsdbfs, `struct sdbfs` of sdbfs/lib/libsdbfs.h, and what its functions read.
--
-- Words of the machine are their bit patterns: an `unsigned long` is a number below 2^64 and an
-- `int` a number below 2^32. `drvdata`, `blocksize`, `datalen` and `erase` are left out: no
-- function of the library reads them.
pub mod Registry
pub mod Scan
pub mod Open
pub mod Access
pub mod Tests
use fpga_config_space.Base.{ℕ, ◌+◌, Option, none, some, List, Bool}
use fpga_config_space.Sdb.{Sdb}

-- SDBFS_DEPTH
abbrev pub max_depth : ℕ
max_depth = 4

-- A driver's method: from the offset, the count and the buffer, the result and the buffer after.
abbrev pub Method : Type 0
Method = ℕ → ℕ → List ℕ → ℕ × List ℕ

-- `mapped` says that `data` is not null, and `memory i` is the byte at `data + i`. `name` and
-- `read` may be null. `currentp` is the record that the pointer leads to: the library assigns it
-- whenever it fills `current_record`, so the two never differ where one points to the other.
pub record Fs : Type 0 where
  pub name : Option (List ℕ)
  pub entrypoint : ℕ
  pub convert32 : Bool
  pub zerobased : Bool
  pub mapped : Bool
  pub memory : ℕ → ℕ
  pub read : Option Method
  pub write : Option Method
  pub currentp : Option Sdb
  pub current_record : Sdb
  pub f_len : ℕ
  pub f_offset : ℕ
  pub read_offset : ℕ
  pub base : ℕ → ℕ
  pub this : ℕ → ℕ
  pub nleft : ℕ → ℕ
  pub depth : ℕ
