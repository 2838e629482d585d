-- ===== src/Lib.antt =====
-- Verification of the linda kernel: a 32-bit x86 kernel for one processor, written in C.
--
-- The parts and how they meet. mm/memory.c keeps the free physical pages, mm/vmmgr.c the table of the
-- kernel's virtual pages, mm/mmap.c the page directories, with tables from mm/vmmgr.c, and mm/kmalloc.c a
-- heap of chunks in pages of that table. kernel/process.c sets up processes, with stacks from mm/vmmgr.c,
-- under a lock of kernel/spinlock.c, kernel/scheduler.c gives them the processor, which the clock of
-- drivers/timer.c takes from them. fs/buf.c queues requests for the disk of drivers/ide.c.
-- arch/x86/trap.c calls the handlers of interrupts, among them kernel/syscall.c, which reads its
-- arguments from the memory of a process, and drivers/kbd.c, which writes characters with
-- drivers/console.c. lib/kprintf.c formats text for the console. All of them use the macros of
-- include/arch/x86/mach.h and the routines of lib/string.c.
--
-- Which file models which part:
--   Base      the names of the libraries, Boolean tests, lists, signed integers, and `Outcome`: a result,
--             a panic (lib/kprintf.c: panic does not return), a loop out of fuel, or a write beyond the end
--             of a buffer on the stack.
--   Mach      include/arch/x86/mach.h, memlayout.h: P2V, V2P, PDX, PTX, PGROUNDUP, PGROUNDDOWN, SEG,
--             SEG16 and SETGATE under their names in small letters; Registers is lgdt and lidt of
--             include/arch/x86/generic.h, Ints the int of 32 bits.
--   Mm.Vmmgr  mm/vmmgr.c: kvmlist is a list, an operation takes it and gives it back.
--   Mm.Memory mm/memory.c: mem_map is a record, the stack of pages a function of the int header.
--   Mm.Kmalloc  mm/kmalloc.c: kmem_list is the list in the order of its next pointers; a pointer to a
--             chunk is the chunk's address. Extent says what a good heap is, Shape, Replace and Grow that
--             the list operations keep it, Take, Alloc, FirstFit and Free are about kmalloc and kmfree.
--   Mm.Mmap   mm/mmap.c: a directory is the address of its page in the memory of words. Walk is the walk
--             of the processor, Entry and NewTable are the two writes of mmap_do_map, Map and Update put
--             them together, Leftover is about the second loop of kmap_init, Share about umap_init.
--   Mm.Kmap   kmap_init of mm/mmap.c: Directory is about its page tables, Pages about the kernel's pages,
--             Init about the whole, with kvm_init behind it.
--   Mm.Boot   the calls of kern_bootstrap (init/bootstrap.c) that set up memory, in their order.
--   Mm.Segments  segment_init of mm/mmap.c.
--   Kernel.Init  uinitproc_setup of kernel/process.c and uvm_init of mm/mmap.c; Frame is about the first
--             frame, Copy about its program.
--   Loader    init/bootloader/loader.c; Segment is about read_segment.
--   Kernel.Scheduler  kernel/scheduler.c, drivers/timer.c, forkret of kernel/process.c, switch_to_kvm and
--             switch_to_uvm of mm/mmap.c. `scheduler_step` is one round of the loop of scheduler; the
--             contexts on the stacks are the places at which their code goes on. Steps, Clock, Safety,
--             Progress and RoundRobin are about the steps, the interrupts, all runs and the order.
--   Kernel.Spinlock, Kernel.Process, Kernel.Syscall, Kernel.Trap  the files of these names in kernel/ and
--             arch/x86/, the last with drivers/pic.c; Kernel.Syscall.Print is syscall and
--             kernel/sysapi.c.
--   Drivers.Console, Drivers.Kbd  drivers/console.c, drivers/kbd.c with the tables of kbd.h.
--   Kprintf   lib/kprintf.c: `number` and simple_strtoul on lists of characters; Spec, Convert and Format
--             are vsprintf, by its parts, and kprintf on the console, with its buffer of 1024
--             characters, Panic is panic, Clean is about number. Kprintf.Boot is init_glb_mboot and the first messages of
--             init/bootstrap.c, Texts is about their characters, Messages about the calls.
--   Fs.Buf    fs/buf.c: the queue of requests; Queue is about adding, Remove about leaving it.
--   Drivers.Ide  drivers/ide.c: the port writes of ide_execute and its lock, with buf_read and buf_write
--             of fs/buf.c, which end in it; Handler is ide_handler and ide_init, Served what the handler
--             does.
--   Kernel.Trap.Boot  the calls of register_trap_handler in kbd_init, timer_setup, syscall_init, ide_init
--             and kmap_init, in the order of kern_bootstrap (init/bootstrap.c).
--   Str       lib/string.c on a memory of bytes: Blocks and Strings are about blocks and strings, Search
--             about strchr, strrchr and strstr, Tokens and Cut about strspn, strpbrk and strtok.
--   Ctype     lib/ctypes.c and the macros of include/kernel/ctype.h.
--
-- Numbers. A uint_t is a number below 2^32 whose wrap-around is written out (add32, sub32); an int that
-- can be negative is a ℤ, and the widths and precisions of lib/kprintf.c wrap around like an int
-- (Mach.Ints). Masks by powers of two are quotients and remainders.
--
-- Loops. A loop over an array or a list recurs on it. The loop of kmalloc, which may come back to a
-- block, and the one of phy_mem_init, which counts down addresses, recur on fuel: one round for each
-- chunk, two for each page and two more, and one more than the pages of the address space, are enough.
-- The walk over the queue of the disk takes one round for each request. The wait for the drive takes fuel
-- above the number of reads until the drive is ready. The loop of vsprintf takes one round more than the
-- format has characters. The first loop of kmap_init takes one round more than the pages that it maps,
-- the second two rounds more than the pages that it pops, and the loops over the list of mmap.c take
-- fuel. The loader takes fuel above the sectors of a segment. The loops of lib/string.c that only a zero
-- byte ends take fuel above the length of the string. A spin lock needs one exchange.
--
-- Parameters. The memory map of the boot loader, the end of the kernel that the linker sets, the
-- addresses of forkret and trapret, the table of handlers that vectors.py generates, the bytes of a
-- process, what the ports of the keyboard and the status of the drive give, what the heap gives to
-- buf_read and ide_init, the addresses of the static arrays of mm/mmap.c and of idt, the disk, the program
-- of the first process, the functions at other addresses than that of print, and the words behind the
-- table of system calls.
--
-- Not modelled: most messages of the other parts, dump_process and show_memory_map among them; the
-- assembler files and the registers of the processor, but for the interrupt flag and cr3; what a process
-- computes; what %n of a process's string writes. That the two calls of mmap_do_map in uvm_init,
-- which take blocks from the heap, leave the directories in order is not proved.
pub mod Base
pub mod Mach
pub mod Kernel
pub mod Mm
pub mod Loader
pub mod Drivers
pub mod Str
pub mod Ctype
pub mod Kprintf
pub mod Fs
