-- ===== src/Lib.antt =====
-- The kernel of ReddyOS: page allocator, page tables, memory areas, kernel heap, file system and
-- descriptors, scheduler, clocks, first stack of a process, frame buffer, printing, C functions,
-- services for uACPI.
--
-- The kernel (`src/`, `headers/`) boots from the Limine protocol. The page allocator
-- (`src/memory/pmm.c`) hands out the physical pages of the boot loader's memory map; the kernel
-- heap (`src/memory/heap.c`) takes pages from it, maps them one behind the other and keeps a list
-- of blocks; the page tables (`src/memory/vmm.c`) take their tables from the same allocator and
-- lie in the same memory. A process keeps its areas (`src/memory/vma.c`) in a search tree on the
-- heap; `mmap` and `munmap` make and remove them. The virtual file system (`src/filesystem/vfs/`)
-- finds nodes by path, and the descriptors of a process (`src/filesystem/fd/fd.c`) name the open
-- files behind them. The scheduler (`src/scheduler/`) goes round a list of threads; a process
-- starts with a stack that `src/scheduler/process.c` lays out. The clocks (`src/time/`) register
-- themselves in a list on the heap; the uACPI library calls back into `src/acpi/uacpi_kernel.c`
-- for locks, events and deferred work.
--
-- Files and code:
--   Base            shared names; Base/Lists, Base/Order, Base/Tests, Base/Int, Base/Bits are lemmas
--                   on lists, orders, decided tests, integers and the bits of a number;
--                   Base/Outcome is a result that may be a panic or want more fuel.
--   Memory/Page     64-bit arithmetic and `headers/kernel_common/helpers_extra.h`.
--   Memory/Store    the words of memory as the kernel sees them: `phys_to_virt` and `virt_to_phys`
--                   of `src/memory/vmm.c`.
--   Memory/Pmm      `src/memory/pmm.c`: `Pmm` is its three variables and memory, `alloc_page`,
--                   `free_page` and `fill` are `pmm_alloc_page`, `pmm_free_page` and `pmm_fill`, the
--                   latter split into a round (`visit`) and its inner loop (`fill_pages`).
--                   FreeList, Regions and Visit, Fill, Alloc, Usable and Handed hold the proofs; Owned says
--                   which pages are the allocator's and which its callers'.
--   Memory/Vmm      `src/memory/vmm.c`, `headers/memory/vmm.h`: the tables as words of the same
--                   memory. `get_next` is a test that may fill the entry (`fill_entry`) and a reading
--                   (`next_table`). Entries (the bits of an entry), Walk (one level), Mapping
--                   (`vmm_map`, `vmm_unmap`), Space (`paging_create_address_space`) are proofs.
--   Memory/Heap     `src/memory/heap.c`: `Heap` is its two variables, the block headers and bytes.
--   Memory/BsTree   the calls of the search trees of `bstree.h`, with their laws, as an interface.
--   Memory/Vma      `src/memory/vma.c`, `headers/memory/vma.h`, `src/syscalls/memory/memory.c`: `Vm` is
--                   the areas by address, the tree, and the addresses that the heap has yet to give.
--                   Search (`vma_find`, `vma_overlaps`), Gap (`scan`), Mapping (`mmap_region`),
--                   Unmapping, Ranges and Munmap (`munmap_region`) are proofs.
--   Time/Calendar, Time/Timespec    `headers/time/helpers_time.h`.
--   Time/Clocks     `src/time/clocks.c`, `headers/time/clocks.h`; Registry and Reading are proofs.
--   Time/PmTimer    `src/time/clocks/pm_timer.c`.
--   Time/Rtc        `src/time/clocks/rtc.c`; Decode and Steady are proofs.
--   Acpi/Sync       mutexes, spinlocks and events of `src/acpi/uacpi_kernel.c`.
--   Acpi/WorkQueue  its queue of deferred work; Fifo holds the proofs.
--   Filesystem/Vfs  the search of nodes and `vfs_open` of `src/filesystem/vfs/vfs.c`, with the nodes of
--                   `headers/filesystem/vfs/`; Path (how a path is cut into names) and Lookup (what the names lead to)
--                   are proofs.
--   Filesystem/File reading, writing, seeking and `vfs_stat` of the same file; Seek is a proof.
--   Filesystem/Mount  `src/filesystem/vfs/mount.c`.
--   Filesystem/Fd   `src/filesystem/fd/fd.c`: the search for a free place (`insert_slot`, proved in
--                   Slots), closing (Descriptors) and opening (Opening).
--   Filesystem/Calls  `src/syscalls/fs/fs.c`.
--   Process         `setup_process_stack` of `src/scheduler/process.c`, and
--                   `headers/scheduler/process_stack.h`, on bytes by address. Words and Strings hold
--                   the lemmas on what is pushed, Layout says what the stack looks like, Vector what a
--                   program reads from it. Growth has `grow_user_stack` with its proof.
--   Scheduler       `src/scheduler/scheduler.c`: the choice of the next thread; Rounds and Adding are
--                   proofs.
--   Framebuffer     `src/framebuffer/fb.c`, `headers/framebuffer/fb.h`; Access is a proof.
--   Terminal        `src/kernel_common/terminal.c`, `src/kernel_common/c_generic/itoa.c`: what is sent or
--                   stored, as a list; Printing is a proof.
--   CGeneric/Mem    `src/kernel_common/c_generic/gcc_mem.c`.
--   CGeneric/Str    `strlen` of `src/kernel_common/c_generic/string.c`.
--   the Tests modules hold runs, in Memory, Memory/Heap, Memory/Vma, Memory/Vmm, Filesystem, Scheduler,
--                   Process, Framebuffer, Terminal, Time, Acpi and CGeneric.
--
-- Integers are natural numbers with the wrap-around written out; the seconds of a timespec are
-- unbounded integers. Pointers are numbers and NULL is 0.
--
-- Parameters: the memory map and the offset of the physical map (answers of the boot loader), the
-- calls of the page allocator and of `map_page` in the heap, the values that a clock, the CMOS or
-- a lock word shows at each reading, what a work handler schedules, the answers of the heap to the
-- file table (granted or refused, one after the other), what the functions of a node answer, and
-- the mode bits of `abi-bits/stat.h` and the error numbers of `abi-bits/errno.h`. The pages that a
-- caller of the allocator holds are those outside its list and its map. The search tree of the
-- areas, from a library outside the repository, is a record of its calls and of what they do to
-- the nodes in order; lists in order are an instance. Whether a file's node has a `vma_fault` is a
-- function.
--
-- Fuel: `fill` runs for the entries of the map and two rounds more, since each round ends an entry
-- or the quota; the search of `kmalloc` runs for any number above that of the blocks. The waiting
-- loops of the real-time clock, the spinlock, the work queue and `strlen` run for a given number
-- of rounds. The walk of a path runs for one round more than it has bytes;
-- the search for a free place runs for two rounds, since the longer array has one; the search for
-- the last thread runs for as many rounds as there are threads. The loop of `vma_overlaps` runs
-- for as many rounds as there are areas; that of `vma_cleanup` ends within as many as there are
-- pages, or never.
--
-- Not modelled: `paging_destroy_address_space`, `vma_fault_handler`, the file systems behind the
-- nodes (tarfs, devfs), the ELF loader, the rest of the creation of threads and processes, the
-- change of stacks, the other system calls, interrupt controllers, the set-up of the frame buffer
-- and its pages in a process, the debug build of the heap with guard pages, the caches of
-- translations, and what only prints or sets up hardware.
pub mod Base
pub mod Acpi
pub mod Memory
pub mod Process
pub mod Framebuffer
pub mod Terminal
pub mod Time
pub mod CGeneric
pub mod Filesystem
pub mod Scheduler
