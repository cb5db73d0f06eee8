-- ===== src/Kernel/Mount/Tests.antt =====
-- A mount of a device by its name, and reads from one.
use fpga_config_space.Base.{
  ℕ, ◌+◌, List, [], ◌∷◌, ◌++◌, none, some, true, false, take, drop, copies, inl, ◌≡◌, refl, arith,
}
use fpga_config_space.Endian.{big, htonl, htonll, ntohll, load32, load64}
use fpga_config_space.Sdb.{Sdb}
use fpga_config_space.Kernel.Devices.{
  Dev, Devices, sdbfs_get_by_name, sdbfs_register_device, sdbfs_unregister_device,
}
use fpga_config_space.Kernel.Devices.Named.{
  Call, register, unregister, perform_all, sdbfs_get_by_name-perform_all,
}
use fpga_config_space.Kernel.Mount.{Answers, no_memory, sdbfs_fill_super}
use fpga_config_space.Kernel.Mount.Balance.{IsMounted, sdbfs_fill_super-IsMounted}
use fpga_config_space.Kernel.File.{delivered, file_start, file_size, sdbfs_read}
use fpga_config_space.Kernel.File.Repeats.{IsRepeated, sdbfs_read-IsRepeated}
use fpga_config_space.Kernel.File.Clients.{memory_reader, sdbmem_read, sdbfs_read-sdbmem_read}

abbrev flash : Dev
flash = record { id = 1; name = 0x66 ∷ []; entrypoint = 0; size = 256 }

abbrev rom : Dev
rom = record { id = 2; name = 0x72 ∷ []; entrypoint = 0; size = 64 }

abbrev calls : List Call
calls = register flash ∷ register rom ∷ register flash ∷ unregister rom ∷ []

abbrev start : Devices
start = record { devlist = []; gets = 0; puts = 0 }

sdbfs_get_by_name-perform_all_example :
    sdbfs_get_by_name (λ d. true) (0x66 ∷ []) (perform_all calls start)
    ≡ (some flash, record (perform_all calls start) { gets = (perform_all calls start).gets + 1 })
unfolding sdbfs_register_device sdbfs_unregister_device
sdbfs_get_by_name-perform_all_example =
    sdbfs_get_by_name-perform_all (λ d. true) calls flash (inl refl) refl

abbrev no_root : Answers
no_root = record {
  live = λ d. true;
  magic = λ d. 0x5344422d;
  iget_locked = no_memory;
  d_make_root = true;
}

abbrev one_device : Devices
one_device = record { devlist = flash ∷ []; gets = 3; puts = 2 }

sdbfs_fill_super-IsMounted_example : IsMounted one_device (
    sdbfs_fill_super big no_root
      (record { fixendian = false; read = λ o. none })
      (0x66 ∷ [])
      (record { s_fs_info = none; s_root = false; fixendian = false })
      one_device)
sdbfs_fill_super-IsMounted_example =
    sdbfs_fill_super-IsMounted big no_root (record { fixendian = false; read = λ o. none }) false
      false (0x66 ∷ []) one_device

-- A file of 40 bytes behind its record.
abbrev file_record : Sdb
file_record = copies 15 0 ++ (64 ∷ []) ++ (copies 7 0 ++ (103 ∷ copies 40 0))

abbrev memory : List ℕ
memory = file_record ++ (copies 20 1 ++ copies 20 2)

file_is : (file_start big file_record ≡ 64) × (file_size big file_record ≡ 40)
unfolding ntohll htonll htonl load64 load32
file_is = (refl, refl)

-- 32 bytes are copied where 20 are asked for: the first 16 twice.
sdbfs_read-IsRepeated_example :
    IsRepeated 20 0 (copies 16 1) (sdbfs_read big (memory_reader memory) 21 file_record 20 0)
unfolding ntohll htonll htonl load64 load32 sdbmem_read
sdbfs_read-IsRepeated_example =
    sdbfs_read-IsRepeated big (memory_reader memory) 21 file_record 20 0 (copies 16 1) (omega arith)
      (omega arith) refl refl (λ done n. refl) (omega arith)

sdbfs_read-sdbmem_read_example :
    sdbfs_read big (memory_reader memory) 9 file_record 8 16
    ≡ some (delivered 8 (take 8 (drop (64 + 16) memory)) (16 + 8))
unfolding ntohll htonll htonl load64 load32
sdbfs_read-sdbmem_read_example =
    sdbfs_read-sdbmem_read big memory 9 file_record 8 16 (omega arith) (omega arith) (omega arith)
      (omega arith) (omega arith) (omega arith)
