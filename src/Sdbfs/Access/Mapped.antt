-- ===== src/Sdbfs/Access/Mapped.antt =====
-- What `sdbfs_fwrite` of sdbfs/lib/access.c does on a mapped device.
use fpga_config_space.Base.{ℕ, Option, none, some, List, true, ◌≡◌, ap, arith}
use fpga_config_space.Sdb.{Sdb}
use fpga_config_space.Sdbfs.{Fs, Method}
use fpga_config_space.Sdbfs.Access.{
  Transfer, not_open, transfer, access, fread, fwrite, start_of, count_of,
}

transfer_either :
    (m m' : Option Method) (fs : Fs) (offset count : ℕ) (buf : List ℕ)
    → fs.mapped ≡ true
    → transfer m fs offset count buf ≡ transfer m' fs offset count buf
unfolding transfer
transfer_either m m' fs offset count buf e = ground arith

-- An open file takes the transfer, a closed one -ENOENT.
abbrev choose : Option Sdb → Transfer → Transfer
choose c t = elim c [ none ↦ not_open | some d ↦ t ]

-- On a mapped device `sdbfs_fwrite` is `sdbfs_fread`: it stores nothing in the device, and it
-- overwrites the buffer that it should have written out.
pub fwrite-fread :
    (fs : Fs) (offset count : ℕ) (buf : List ℕ)
    → fs.mapped ≡ true
    → fwrite fs offset count buf ≡ fread fs offset count buf
unfolding fwrite fread access
fwrite-fread fs offset count buf e =
    let start = start_of fs offset in
    ap (choose fs.currentp)
      (transfer_either fs.write fs.read fs start (count_of fs start count) buf e)
