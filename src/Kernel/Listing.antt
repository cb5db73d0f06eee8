-- ===== src/Kernel/Listing.antt =====
-- What sdbfs_readdir of sdbfs/kernel/sdbfs-inode.c gives, in pieces of any size.
use fpga_config_space.Base.{ℕ, ◌+◌, List, ◌∷◌, map, take, drop, length}
use fpga_config_space.Kernel.{Inode, Dirent, dot, dotdot, dirent}

-- The whole directory.
abbrev pub listing : (self parent : ℕ) → Inode → List Dirent
listing self parent inode = dot self ∷ dotdot parent ∷ map (dirent inode.base_sdb) inode.files

-- The entries from a position on, as many as there is room for, and the position behind them.
abbrev pub part : (room pos : ℕ) → List Dirent → List Dirent × ℕ
part room pos es = (take room (drop pos es), pos + length (take room (drop pos es)))

abbrev ended : (pos : ℕ) → List Dirent → List Dirent × ℕ
ended pos es = (es, pos + length es)
