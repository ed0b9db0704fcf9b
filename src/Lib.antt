-- ===== src/Lib.antt =====
-- efiks-os: a small RISC-V operating system in Rust. This library models its parts that hold logic of
-- their own: the filesystem and the tool that makes its images, the kernel heap, physical memory, page
-- tables and address spaces, tasks and their scheduler, system calls, the loader, and the locks.
--
-- The parts, and how they interact. System calls (kernel/src/syscall.rs) act on the files of a task,
-- on its memory and on the other tasks (kernel/src/task). The loader (kernel/src/exec/elf.rs) fills a
-- new address space out of a file. A file is an inode of a filesystem with an offset (vfs/src). The
-- kernel finds the filesystem of a path among its mounts (kernel/src/vfs). The filesystem vsfs
-- (vsfs/src) keeps superblock, bitmaps, inode table and data blocks on a block device, which it reads
-- and writes by sectors. Tasks own an address space (kernel/src/mm): regions, page tables, and counted
-- physical frames. The scheduler (kernel/src/sched) picks the task that runs on a core and wakes those
-- that sleep. Kernel data stands behind the locks of ksync/src and is allocated by kmalloc/src.
--
-- The modules:
--   Prelude         numbers, lists, results and bits that the others share
--   Vfs             vfs/src/lib.rs: block devices, open files and their errors (Device, File);
--                   kernel/src/vfs/mod.rs: the table of mounts (Mounts); the disk in memory of the
--                   tests of vsfs/src/lib.rs (Memory)
--   Vsfs            vsfs/src/lib.rs: Layout is the structures and their bytes, Blocks is data_block,
--                   read and write, Bitmap is the two bitmaps, Inodes is the inode table, the cache
--                   and the lookup, Create is create_file with its roll-backs, open, create and
--                   initialize
--   Kmalloc         kmalloc/src: align_up, new, alloc, dealloc
--   Mm              kernel/src/mm: Frames is frame_allocator.rs, Pages is page.rs, Regions is the
--                   region list of mod.rs with brk and the decision of handle_page_fault
--   Sv39            kernel/src/arch/riscv/mmu/sv39: addresses and page table entries; Table is
--                   page_table.rs, with modules for the entries that it makes (Entries, Leaf), the walk
--                   (Walk), the steps of mapping a page (Create, Descend, Stored, Map) and CopyOnWrite
--   AddressSpace    kernel/src/mm/mod.rs: page faults, mapping of pages, stacks and free over the page
--                   tables, frames, counts and regions (Fault is about handle_page_fault)
--   Task            kernel/src/task/file_table.rs (FileTable); kernel/src/sched (Sched);
--                   kernel/src/task/task.rs: exit, wait and reaping (Life, with their interleavings in
--                   Wakeup) and the initial stack (Stack)
--   Syscall         kernel/src/syscall.rs and kernel/src/mm/addr: user memory (Syscall), Files, Vectors
--                   (readv and writev), Dispatch, Laws
--   Exec            kernel/src/exec/elf.rs: read_exact_at (Exec, ReadExact), Headers, Load
--   VsfsTool        vsfs/src/bin/vsfs-tool.rs: Names, Json, Allocate, Image with the bitmaps (Marks,
--                   Bitmaps)
--   Ksync           ksync/src: RwLock and SpinLock
--
-- How state is modelled. A block device is a record of two functions over a hidden state, which every
-- operation takes and returns; the laws of a device that works are the record IsReliable. Results are
-- ok, err with the error of the source, or panic. A write that fails returns the disk as it is then.
-- Memory of the heap is the headers and the back offsets by address. The inode cache and the reference
-- counts are association lists. A thread that runs between two critical sections of read_inode is a
-- function on the cache. The locks are step relations over single atomic accesses, and so are a task
-- that waits and its children that exit on other harts. The page tables are a function of the address
-- of a table and an index, reached at a base that the model leaves out. The files that system calls
-- use are a record of operations over a hidden state, as are the tasks, and the memory manager for the
-- loader.
--
-- Bounds and fuel. Words are natural numbers with their wrap-around or overflow check written out, and
-- debug assertions and overflows are panics, as in the debug build. Where page tables are reached
-- through the direct mapping, its base and the check of its addition are left out, and so is the
-- assertion of physical_address in the walks, which read the bits of entries that were made of
-- physical addresses. The loops of read and write take the remaining bytes as fuel, each round moves
-- at least one; the loop of alloc takes the size of the heap, each block has at least a header. Where
-- the fuel would run out the model panics, and the theorems exclude that. The kernel heap's panic on
-- exhaustion is the error out_of_memory. The bytes of a structure on the disk are its fields in the
-- order of repr(C). Bytes are natural numbers; the layout is that of the little-endian 64-bit target.
-- The loop of read_exact_at has the length of the buffer as fuel, the one that copies a segment its
-- size, the one over the arguments of spawn as many pointers as fit the address space; the walks of
-- fork and of traverse_free have the three levels of tables.
--
-- Not modelled: device drivers, traps, boot with its early mappings and context switches (hardware),
-- console and logging, programs in Zig, the command line of the tool and its reading of directories. The
-- slabs of the task table and the page faults of the kernel on user memory are left to further modules.
-- Memory ordering is taken as sequential consistency, and the flushes of the TLB are left out.
pub mod Prelude
pub mod Vfs
pub mod Vsfs
pub mod VsfsTool
pub mod Kmalloc
pub mod Mm
pub mod Sv39
pub mod AddressSpace
pub mod Ksync
pub mod Task
pub mod Syscall
pub mod Exec
