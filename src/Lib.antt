-- ===== src/Lib.antt =====
-- A verification library for compcache: the compressed block device zram, its allocator xvmalloc, and
-- the user-space tools beside them. Paths are from the repository's root.
--
-- The parts, from the bottom up:
--
-- - Block: the block header of sub-projects/allocators/xvmalloc-kmod (xvmalloc_int.h, xvmalloc.c), with
--   its flags, its back reference, and the two functions that map a size to a free list.
-- - Pool: `struct xv_pool`, its 508 free lists and its two-level bitmap, with `find_block`,
--   `insert_block`, `remove_block_head` and `remove_block`. Pool.Bitmap has the invariant `IsIndexed`, the
--   agreement of bitmaps and lists, on which the proofs about the allocator stand.
-- - Xvmalloc: `grow_pool`, `xv_create_pool`, `xv_malloc`, `xv_free` and the size queries of xvmalloc.c.
--   Xvmalloc.Layout has a page as the list of its blocks, and what `xv_malloc` and `xv_free` make of it.
-- - Table: `struct zram`, `struct table` and `struct zram_stats` of zram_drv.h, with
--   `page_zero_filled` and `zram_free_page` of zram_drv.c. Table.Count has the invariant `IsCounted`, the
--   agreement of the counters of pages with the table.
-- - Device: `zram_set_disksize`, `zram_init_device` and `zram_reset_device` of zram_drv.c.
-- - Request and Write: the handlers `zram_discard`, `zram_read` and `zram_write`, a page at a time. They
--   call the allocator for the objects and `zram_free_page` for the entries.
-- - Handler: `valid_io_request`, `zram_make_request` and `zram_slot_free_notify`, which dispatch to
--   the handlers.
-- - Driver: `create_device`, `destroy_device`, `zram_init` and `zram_exit`, with what the kernel holds of
--   each device.
-- - Sysfs: the attributes of zram_sysfs.c.
-- - Lifetime: the steps that block layer and sysfs make with one device, as a relation, the states that are
--   reached, and the invariant `IsConsistent` of the counters over all of them.
-- - HashTable: sub-projects/lib, hashtable.c over the linked lists of list.h.
-- - SimParse: sub-projects/alloc_stress/simprofile/libsimparse.c, the replay of allocation profiles.
-- - SrParse: sub-projects/swap_replay/sr_parse, libsr_parse.c with the callbacks of sr_data_histo.c.
-- - Zsmalloc: sub-projects/allocators/zsmalloc-kmod, zsmalloc_int.h and zsmalloc.c: the size classes
--   (Zsmalloc.Classes), the lists of their fullness groups (Zsmalloc.Groups), the allocation of zspages
--   (Zsmalloc.Zspage) and the functions on objects (Zsmalloc.Objects).
-- - Scale: zram_scale, the variant of the driver with a counter per CPU: the counters, the table entries,
--   and the loops of the handlers in zram_drv.c, with `zram_get_stat` of zram_sysfs.c. Scale.Disk has a
--   device with its initialisation and its reset, Scale.Handlers the requests, Scale.Sysfs the
--   attributes, Scale.Cpus the buffers of each CPU with the notifier of CPU events, and Scale.Driver the
--   devices of the module from its loading to its unloading. Scale.Lifetime has the steps of one device.
-- - Vswap: sub-projects/vswap/virtio_vswap.c, the block device that offers swap requests to the host.
-- - Fstats: sub-projects/fstats/fstats.c, the sizes to which the pages of a file compress.
-- - GenProfile: sub-projects/alloc_stress/genprofile/randgen.c, which prints the profiles that SimParse
--   replays; GenProfile.Known is knownsizes.c beside it.
-- - SrRelay: sub-projects/swap_replay/sr_relay, which records the swap requests that SrParse replays.
-- - Common: the shared names, Boolean tests, word arithmetic, lists, bitmaps and error codes.
--
-- A definition has the name of the C function that it models; a long function is split, and each
-- part says which lines it is. An access outside the table or a `BUG_ON` is `none`, and so is the
-- division by zero of SrParse; a class size of zsmalloc is not 0, and in SimParse an index outside
-- the table is a cell of its own. An error code is a value of `Code`; what the kernel's allocators
-- answer is an argument (`fresh`, `Memory`, `Answers`), so that every failure path can be taken. A
-- page is a number, and NULL is 0.
--
-- The choices: PAGE_SIZE is 4096 and BITS_PER_LONG is 64. Fields are natural numbers, and each operation
-- that can wrap around is written with its modulus. A bitmap word is its bits. The two flag bits of a
-- header are read by their place values. The mapped memory of a page is a function from offsets to block
-- headers, kept apart from the bytes of the objects: headers do not overlap each other, and no object
-- is written over a header. Loops over tables, segments, lists and bit positions are structural
-- recursion on what is left. The search of a hash chain has fuel; the theorem about it holds for any fuel
-- but 0, since the item is the first of its chain. `init_zspage` goes over at most `max_zspage_order`
-- pages, the number that a zspage can have. The loop of knownsizes runs on fuel, and its theorem gives
-- the fuel for each file.
--
-- Not modelled: locks and interrupt contexts (each function that holds the lock is one step), the
-- mapping of pages (`kmap_atomic`), log messages, printing and parsing of numbers, and the bytes of
-- file I/O. LZO is the kernel's: its two functions are the parameter `Lzo`, and that decompression
-- undoes compression is the hypothesis `IsLossless`. Of zsmalloc the kernel's lists, its page frame
-- numbers, the addresses of mapped pages and `reset_page_mapcount` are the parameter `Kernel`, and that the
-- lists are those of <linux/list.h> is the hypothesis `IsLinked`. A callback of libsimparse is what it
-- returns at each call.
-- In zram_scale a read of a counter is one step, without the sequence locks of u64_stats_sync.h, and a
-- disk has less than 2^32 pages. LZO, zlib and malloc of fstats are parameters, and so are the answers of
-- the kernel and of the host to virtio_vswap; fstats is built without csnappy, and its times are left
-- out. Of randgen and knownsizes the numbers of `rand` are a parameter, with RAND_MAX = 2^31 - 1; of
-- sr_relay LZO, MD5 and the relay channel. The other allocators (TLSF, dlmalloc, the user-space versions
-- of xvmalloc), the collector and the printing of swap_replay, and the test programs are left out.
pub mod Common
pub mod Block
pub mod Pool
pub mod Xvmalloc
pub mod Table
pub mod Device
pub mod Request
pub mod Write
pub mod Handler
pub mod Driver
pub mod Sysfs
pub mod Lifetime
pub mod HashTable
pub mod SimParse
pub mod SrParse
pub mod Zsmalloc
pub mod Scale
pub mod Vswap
pub mod Fstats
pub mod GenProfile
pub mod SrRelay
