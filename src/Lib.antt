-- ===== src/Lib.antt =====
-- Verification of the tools around the Self-Describing Bus (SDB): the library that scans and reads
-- SDB images, the programs that write them and take them apart, the character devices of the
-- Wishbone core with its back ends, and the historic bus driver that came before SDB.
--
-- The parts of the program, and the files that model them:
--
-- - Endian: byte order. `htonl` and `htons` of the C library for a processor of either order,
--   `htonll` and `ntohll` of sdbfs/lib/libsdbfs.h, and loads of a field from memory.
-- - Sdb: the format of sdbfs/include/linux/sdb.h. A record is its 64 bytes in memory; a field is a
--   load at the offset that the structure gives it.
-- - Sdbfs: `struct sdbfs` of sdbfs/lib/libsdbfs.h as the record `Fs`. Memory that is mapped is a
--   function from addresses to bytes, and the methods of a driver are functions that the record
--   holds. `drvdata`, `blocksize`, `datalen` and `erase` are read by no function of the library.
-- - Sdbfs/Scan: `sdbfs_readentry`, `scan_newdir` and `sdbfs_scan` of sdbfs/lib/glue.c. The labels
--   and gotos of `sdbfs_scan` are functions: `enter` from `scan` on, `next_entry` from the `while`
--   loop on, `out` at its label. Scan/Whole has the loop of `do_list` in
--   sdbfs/userspace/sdb-read.c, Scan/Listing the recursive description that it is compared with.
-- - Sdbfs/Open: `__open`, `sdbfs_open_name`, `sdbfs_open_id`, `sdbfs_close`, `sdbfs_find_name` and
--   `sdbfs_find_id` of sdbfs/lib/glue.c.
-- - Sdbfs/Access: sdbfs/lib/access.c. Access/Reading has the loop of `do_cat_name` and `do_cat_id`.
-- - Sdbfs/Registry: `sdbfs_list` of sdbfs/lib/glue.c with `sdbfs_dev_create`, `sdbfs_dev_destroy`
--   and `sdbfs_dev_find`. The `next` fields are a function from pointers to pointers, so the walk
--   through the pointer to a pointer and the store through it are the ones of the source.
-- - Read: `list_device`, `do_list` and `do_read` of sdbfs/userspace/sdb-read.c. What is printed is a
--   list of `Line`. Read/Listed compares the loop with the tables that Scan/Listing describes.
-- - Gensdbfs: `SDB_ALIGN` and `alloc_storage` of sdbfs/userspace/gensdbfs.c, on the tree of
--   `struct sdbf` of sdbfs/userspace/gensdbfs.h.
-- - Gensdbfs/Image: `write_sdb` of sdbfs/userspace/gensdbfs.c and the end of its main. The output is
--   bytes and a position, of Base/Files; what fopen and fread find is the record `Sources`. Image/Whole
--   composes it with `alloc_storage`.
-- - Wishbone: the back end of pcie-wb/wishbone.h, `struct wishbone_operations`, as functions on a
--   state of its own, which is a parameter.
-- - Wishbone/Slave: the slave character device of pcie-wb/wishbone.c: `char_slave_open`,
--   `char_slave_release`, `char_slave_aio_read`, `char_slave_aio_write`, `char_slave_poll` with
--   `etherbone_slave_out_process` and `etherbone_slave_in_process`. The data of a call is one list
--   of bytes, whatever pieces it comes in. Slave/Session has the order of calls as a relation.
-- - Wishbone/Master: the master character device of pcie-wb/wishbone.c: `char_master_open`,
--   `char_master_release`, `char_master_aio_read`, `char_master_aio_write` and `char_master_poll` on
--   the ring buffer, with `etherbone_master_process`. Master/Counters is about its counters.
-- - Wishbone/Bus: `wishbone_register` and `wishbone_unregister` of pcie-wb/wishbone.c: the list of
--   back ends, sorted by minor number, and what the kernel holds for them.
-- - Wishbone/Init: `wishbone_init` and `wishbone_exit` of pcie-wb/wishbone.c.
-- - Wishbone/Iovec: the copies `compat_memcpy_fromiovecend` and `compat_memcpy_toiovecend` of
--   pcie-wb/wishbone.c between a buffer and the pieces of a user's data.
-- - Backends: a card behind `Io`, its registers as functions on a state that is a parameter. Lanes
--   has `wb_byteenable`, which the PCIe and SPEC drivers share.
-- - Backends/Pcie, Backends/Spec, Backends/Vme: the operations of pcie-wb/pcie_wb.c,
--   pcie-wb/spec_wb.c and vme-wb/vme_wb_external.c as an `Operations` of Wishbone. What a card does
--   with an access is a hypothesis: the records `Bridge` and `BigEndianBridge`, the
--   latter for a little-endian processor.
-- - Backends/Resources: what a driver holds of the kernel, and the interface `Registration` through
--   which the modules Probe of the three drivers use Wishbone/Bus, which fills it in
--   Resources/Registered. Each label of `probe` is a function; what the kernel answers is an
--   argument. A state in Probe is what is held, the state of the core, and the device.
-- - Kernel: the directories of the kernel file system, `sdbfs_read_whole_dir`, `sdbfs_readdir` and
--   `sdbfs_lookup` of sdbfs/kernel/sdbfs-inode.c. A device gives the 64 bytes of a record, or none if
--   its `read` does not give all of them; `filldir` is the number of entries it takes.
-- - Kernel/Devices: the list of devices of sdbfs/kernel/sdbfs-client.c. A device is its name and an
--   identity; `gets` and `puts` count the calls that take and give back a module.
-- - Kernel/File: `sdbfs_read` of sdbfs/kernel/sdbfs-file.c, on a `Reader`; File/Clients has the reads
--   of sdbfs/kernel/sdb-iomem.c and sdbfs/kernel/sdb-fakedev.c.
-- - Kernel/Loading: the loading and unloading of the modules sdbfs/kernel/sdb-iomem.c and
--   sdbfs/kernel/sdb-fakedev.c, on counters of what they take from the kernel and give back.
-- - Kernel/Mount: `sdbfs_fill_super` and `sdbfs_kill_sb` of sdbfs/kernel/sdbfs-core.c, `sdbfs_iget` of
--   sdbfs/kernel/sdbfs-inode.c. What the kernel answers is the record `Answers`.
-- - Gensdbfs/Reading: `scan_inputdir`, `scan_config` and `prepare_dir` of sdbfs/userspace/gensdbfs.c
--   with the functions that fill a record. What opendir, readdir and stat find is a tree, `Input`, on
--   which the functions recur; what sscanf makes of a line is the record `Formats`. The first slot of
--   a directory stands apart from the others, which are a list in the order in which they are filled;
--   whether they are within the slots that calloc gives is a function of the names, `runs_over`.
-- - Extract: `create_file` of sdbfs/userspace/sdb-extract.c and the loop that calls it. RoundTrip takes
--   the record that gensdbfs writes to it, and Written a whole image.
-- - Historic: the bus of historic/driver/wishbone.c with the descriptors of
--   historic/driver/include/linux/sdwb.h (Sdwb, Bus), and the firmware file of
--   historic/driver/fw/wb_cfggen.c on the fake bus of historic/driver/fake_wb_bus.c (Image). What
--   the kernel answers is the record `Answers`.
-- - Historic/Onewire: the driver of historic/driver/wb_1wire.c on the registers of its device.
-- - Base: lists, Booleans and bits that these share.
--
-- Open, Access and the tools use a device only through the state that Scan leaves: `currentp` is
-- the record of the last scan, `base` and `depth` give the addresses that it is relative to.
--
-- Numbers are natural numbers with the wrap-around of the C type written out. An `int` that can be
-- negative is its 32-bit pattern. Loops that the source does not bound have fuel: the search and
-- the listing need one round for each entry of the tables (and one more to see the end), the
-- registry one for each device, the loop that prints a file and the kernel's read of a file one for
-- each byte (the latter one more), a write to the slave device two for each byte and two more, one to
-- the master device one for each byte of the ring buffer and one more, the scan of a historic bus one
-- for each descriptor and one more, the wait for a 1-wire master one for each read that finds it busy
-- and one more. A result that says that a loop returns gives that bound as a hypothesis.
--
-- Not modelled: the main functions of the tools, but for their loops, since they read options, open
-- and print; the fake converters of the historic driver, which only print; pcie-wb/wishbone-serial.c
-- and vme-wb/vme_wb_inkernel.c, which pass requests on or do nothing; and the initialisation of the
-- other modules, which calls the kernel only. Mutexes, memory barriers and messages have no effect on
-- a state here; ioremap_nocache is taken to succeed, since no driver looks at its answer. Following a
-- null pointer, and a negative count for `memcpy`, are results of their own.
pub mod Base
pub mod Endian
pub mod Sdb
pub mod Sdbfs
pub mod Gensdbfs
pub mod Wishbone
pub mod Backends
pub mod Extract
pub mod Historic
pub mod Kernel
pub mod Read
