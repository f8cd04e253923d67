-- ===== src/Lib.antt =====
-- tiny-riscv-os: a teaching kernel for RISC-V with paging, copy on write, a timer-driven
-- scheduler and a small FAT32 file system. This library models its core and proves what makes it
-- correct.
--
-- Buddy (arch/riscv/kernel/mm.c): the state of the buddy allocator is a record of the size and
-- the two arrays, which are functions from the index. buddy_alloc and buddy_free are the
-- source's loops: descend and climb_loop, ascend and merge_loop. Buddy/Tree is the
-- specification, a tree of blocks with no array in it; Buddy/Region says which indices lie below
-- a node; Buddy/Rep how the array stands for a tree; Buddy/Alloc, Buddy/Descend, Buddy/Free and
-- Buddy/Ascend that the loops do to the array what the specification does to the tree;
-- Buddy/Grant, Buddy/Complete, Buddy/Return and Buddy/RoundTrip what the specification does in
-- terms of pages; Buddy/Power and Buddy/Round treat the rounding of a request; Buddy/State joins
-- these, and Buddy/Pages and Buddy/DoubleFree state the results.
-- Mm (arch/riscv/kernel/mm.c): frames by address, reference counts, alloc_pages, kalloc and
-- their inverses. Mm/Counts and Mm/Address hold the proofs.
-- BuddyInit (arch/riscv/kernel/mm.c): buddy_init, with the address of _ekernel as a parameter.
-- BuddyInit/Fill treats the loop that fills bitmap, BuddyInit/Reserve the frames of the kernel.
-- Sched (arch/riscv/kernel/proc.c): task[0] is idle, and the other tasks are a list; a pointer
-- to a task is its index. schedule, do_timer and switch_to are functions of the state.
-- Sched/Scan treats the search for the next task, Sched/Choice the whole of schedule,
-- Sched/Round and Sched/Fair a round of timer ticks.
-- Rand (lib/rand.c): the generator, and the priorities that task_init draws.
-- Bytes (lib/string.c): the functions on memory, byte by byte.
-- Vm (arch/riscv/kernel/vm.c): page tables as 64-bit words in memory, with the pages of
-- Mm.kalloc, and the list of areas. Vm/Entry, Vm/Mapping, Vm/Remap and Vm/Area hold the proofs.
-- Boot (arch/riscv/kernel/vm.c, arch/riscv/kernel/mm.c): setup_vm, setup_vm_final, kfreerange
-- and mm_init. Boot/Direct holds the proof on the early page table.
-- PageFault (arch/riscv/kernel/vm.c): do_page_fault, with the exception code and the address as
-- arguments. PageFault/Copy holds the proof on copy on write, PageFault/Fresh that on a new
-- page, PageFault/Permitted that on the tests.
-- WordMemory (lib/string.c, include/elf.h): memcpy of single bytes and the loads of smaller
-- numbers on a memory of 64-bit words.
-- Fork (arch/riscv/kernel/proc.c): do_fork. Parent and Child are what do_fork reads and sets of
-- the two tasks. Fork/Page holds the proof on one page, Fork/Areas that on the areas and the
-- registers.
-- Load, Start (arch/riscv/kernel/proc.c): load_elf and task_init. Load/Areas and Start/Tasks
-- hold the proofs; Start/Kernel joins task_init with schedule and do_timer, as start_kernel in
-- init/main.c does.
-- Fat32 (fs/fat32.c): the position in an open file and the names of files; what a sector holds
-- is a parameter. Fat32/Seek and Fat32/Name hold the proofs.
-- FatIo (fs/fat32.c): fat32_read and fat32_write on a map from sector numbers to bytes.
-- FatIo/Layout says what the contents of a file are, from the layout of a volume alone, and
-- FatIo/Chain gives them as the loops go through them; FatIo/Sectors and FatIo/Read hold the
-- proofs on reading, FatIo/WriteSectors, FatIo/WriteClusters, FatIo/Kept and FatIo/Write those
-- on writing.
-- Partition (fs/mbr.c, fs/fat32.c): the partition table and the header of a volume.
-- Partition/Last holds the proof.
-- Virtio (fs/virtio.c): the driver of the block device. The device is a parameter, with its own
-- steps; Virtio/Registers reads the writes to its registers, and Virtio/Command says what it
-- promises to a driver that has set it up. Virtio/Poll and Virtio/Sector hold the proofs on one
-- request, Virtio/Init that on the start. They give what FatIo assumes of the block device: a
-- sector holds what was last written to it.
-- Vfs, FileOpen (fs/vfs.c, fs/fs.c, fs/fat32.c): the standard streams, the table of open files,
-- file_open and fat32_open_file. The console is the list of the characters put so far, and the
-- list of the keys to come.
-- Syscall (arch/riscv/kernel/syscall.c, arch/riscv/kernel/trap.c): the system calls and their
-- dispatch, on the saved registers, the open files and the machine. Syscall/Files, Syscall/Open,
-- Syscall/Status, Syscall/Contents and Syscall/Console hold the proofs. do_fork, do_page_fault
-- and do_timer are parameters of the dispatch.
-- Result: how a call ends, apart from its value, shared by the modules on files, system calls,
-- faults and tasks.
-- Printk (lib/printk.c): isspace and strtol. Printk/Number and Printk/Ends hold the proofs.
-- Printer, Format (lib/printk.c): print_dec_int and vprintfmt. What is put is a list of
-- characters; a va_list is the list of its slots. A result other than ok is a missing argument,
-- a store past a buffer, a count that no int holds, or fuel that ran out.
-- Printf (user/printf.c): the copy of lib/printk.c in the user program, and printf.
-- Shell (user/main.c): the shell, with the system calls as a record of operations on a world of
-- their own. Shell/Commands has parse_cmd and Shell/Lines the loop of main; Shell/Words,
-- Shell/Atoi, Shell/Echo, Shell/Moves, Shell/Edit and Shell/Editing hold the proofs.
-- Prelude: shared names, arrays, powers of two, and the laws of & and | at variables.
--
-- Words: addresses and counts are 64-bit words, and sums and differences are taken modulo 2^64
-- where they can leave that range. Inside the loops of the allocator the index and the node size
-- stay at most twice the number of frames.
-- Bounds: what stands behind an array of the source is not known, so that an access there has no
-- result. fat32_table_buf has 128 entries and fat32_buf 16 entries of a directory, line_buf has
-- 128 characters, and to_print must fit the free bytes of the kernel stack, which are a field of
-- the machine. The number that vprintfmt returns is an int; its widths and precisions are
-- integers.
-- Fuel: the walk down the tree halves the node size and gets as much fuel as there are frames,
-- plus one; the walks up get the index as fuel, since a parent's index is smaller; schedule gets
-- two rounds, since the second finds a task if there is one. A result none would say that the
-- fuel ran out; in do_mmap it also says that the kernel halts in Err. create_mapping gets one
-- round for each page of the range and two more. fat32_read and fat32_write need as many rounds
-- as the file has clusters, and the theorems ask for as many as it has bytes; buddy_init needs
-- one for each frame that it reserves and one more. do_fork needs one round for each page of the
-- largest area and one more. The loop that waits for the block device, and those of the shell,
-- take their fuel from the caller; the theorems say from which number on it is enough.
-- Not modelled: assembly, the stubs of the system calls and the calls of SBI, which are inline
-- assembly; device registers that are only read; the loops of dummy and test, which only print;
-- and the log output, which the Makefile turns on: every call of Log puts a line on the console.
-- What do_fork, do_page_fault and load_elf do is not joined to the dispatch of the traps, and
-- setup_vm_final has no theorem on whole ranges of pages.
pub mod Prelude
pub mod Buddy
pub mod Mm
pub mod BuddyInit
pub mod Sched
pub mod Rand
pub mod Bytes
pub mod Vm
pub mod WordMemory
pub mod PageFault
pub mod Fork
pub mod Load
pub mod Start
pub mod Fat32
pub mod FatIo
pub mod Partition
pub mod Printk
pub mod Printer
pub mod Format
pub mod Printf
pub mod Result
pub mod Vfs
pub mod FileOpen
pub mod Syscall
pub mod Virtio
pub mod Shell
pub mod Boot
