-- ===== src/Lib.antt =====
-- A model of the evos kernel and the theorems about it.
--
-- evos is a small 32-bit x86 kernel in C. Its parts, from the bottom: string routines and the
-- text screen; the tables of segments (gdt) and interrupts (idt, isr) that the processor reads; a
-- bitset and an ordered array; the frame allocator, which keeps a bitset of physical frames; the
-- kernel heap, which keeps an ordered array of its holes, sorted by size, over blocks that carry
-- a header and a footer in memory, and which grows by mapping pages; kmalloc, which hands out
-- addresses one after the other until the heap exists and then calls the heap; paging, which takes
-- frames from the frame allocator and tables from kmalloc; the memory map of the boot loader;
-- printk, which formats with vsprintf and writes to the screen; tasks, each with a directory of
-- pages; the timer, the system calls, and what a panic or a page fault shows, with the names of the
-- functions on the stack, which the start finds among the sections of the kernel's image. A tick of
-- the timer switches the task. A user program prints by formatting into a buffer of its own and a
-- system call, which writes the buffer to the screen.
--
-- Which file is about which source file:
--   Base               shared: tests on numbers, outcomes of code (ok, panic, fault), C arrays as
--                      lists, unsigned words, binary digits, byte memory, digits of a number
--   Memory             src/string.c: memset and memcpy
--   Str                src/string.c: strlen, strcmp, skip_atoi and append_number; Str/Format/Text and
--                      Str/Vsprintf/Items say what a number and a format print, apart from the code
--   Bitset             src/datastructs/bitset.c
--   OrderedArray       src/datastructs/ordered_array.c
--   Frame              src/mm/frame.c: frame_alloc and frame_free on a bitset
--   Heap               src/kheap.c; Heap/Search is find_hole, Heap/Grow is expand and the branch
--                      of heap_alloc for a heap without a hole that fits, Heap/Alloc is the rest
--                      of heap_alloc, Heap/Free is heap_free with its two merges,
--                      Heap/RoundTrip one after the other
--   Kmalloc            src/kmalloc.c
--   Paging             src/mm/paging.h and paging.c: page_alloc, page_free, get_page; Paging/Access
--                      is memory through the page tables and the copies through the cloning buffer,
--                      Paging/Clone is clone_table and clone_directory, Paging/Init is init_paging,
--                      Paging/Identity the second loop of init_paging,
--                      Paging/Early is the interface of the allocator, filled by Kmalloc
--   MemoryMap          src/mm/mem.c
--   Printk             src/printk.c, over Str/Vsprintf, which is vsprintf of src/string.c
--   Registers          src/isr.h: the saved registers
--   Task               src/task/task.h and task.c: the table of tasks and its two searches
--                      (Task/Table), the turns of the tasks (Task/Turns), task_create and task_switch
--                      (Task/Laws), and the pages of a new task (Task/Kept, Task/Buffer, Task/Stack,
--                      Task/Cloned)
--   Timer              src/timer.c
--   Syscall            src/syscall.c
--   Backtrace          src/panic.c: backtrace_lookup and print_stack_trace; Backtrace/Sections is
--                      init_panic_backtrace
--   Panic              src/panic.c: __panic; Panic/PageFault is page_fault_handler of
--                      src/mm/paging.c
--   Startup            src/main.c: __kmain up to the point where it enables interrupts, with what
--                      init_gdt, init_idt and init_syscalls do besides filling their tables, and
--                      timer_callback of src/timer.c
--   Usermode           src/usermode/: printf and write
--   Gdt                src/gdt.c
--   Idt                src/idt.c and src/isr.c
--   Monitor            src/monitor.c
-- In each, the file of that name has the definitions, its Laws (or the files named for what they
-- prove) the theorems, and Examples the runs at concrete inputs.
--
-- How the state corresponds. Static variables and structs are records with the source's fields,
-- and an operation takes the record and returns the new one. The heap's blocks stand in a memory
-- of bytes, a function from addresses; the slots of the ordered array and the words of the bitset
-- are lists. A pointer is its address, a null function pointer is none. A 32-bit word is a number
-- below 2 ^ 32, and each operation that can wrap is written with its modulus; a signed value is
-- the word that stands for it. panic, and an assert that fails, is the outcome panic: the machine
-- halts. An access outside an array is the outcome fault, and so are a division by zero and the
-- use of a null pointer. Bytes that go to ports and calls of registered handlers are lists of
-- events; what the handler of a request does, and whether it returns, is an argument of
-- irq_common_handler, since the handler of a tick ends in the task switch and does not come back. In Paging the tables and directories are stores by address, and a page pointer is a
-- table with an index; `ram` holds the bytes of each physical frame, apart from the tables, and
-- virtual addresses are translated by the tables of the current directory. A translation that
-- fails is a panic, since the page fault handler panics; the same holds for the bytes that a system
-- call reads, which are a function from the addresses that are mapped.
--
-- Bounds and fuel. A loop with a counter is recursion on the rounds that are left. The loop of
-- append_number has no counter: it runs on fuel 64, the size of its buffer, which is enough since
-- a 32-bit value has at most 32 digits and the width is cut to 64. The loop that maps pages in
-- expand runs for the pages between the two sizes. Calls that C makes through a pointer are
-- arguments: the comparison of the ordered array, and the mapping of a page in the heap's expand.
-- The loop of vsprintf runs on the length of the format and one more, since each round takes at
-- least a char; the walk over the memory map on the length of the map and one more, since each
-- entry has at least the four bytes of its size; the second loop of init_paging, whose bound
-- moves, on the number of pages of the address space. The walk over a stack has no bound of its
-- own: the fuel is an argument, and more than the number of frames is enough. The second loop of
-- init_paging is finished after 1025 rounds where the memory in use ends within the first 4 MiB.
-- A C string in memory is read up to its zero: 8 bytes at most for a comparison with a text of
-- seven, and 4096 for a name that printk shows, which is all that its buffer holds.
--
-- Interfaces. The paging code takes kmalloc_ap as a parameter with the laws IsAllocator of
-- Paging/Laws, and Paging/Early shows that kmalloc before the heap exists fulfils them. The heap
-- takes the mapping of pages, and kmalloc the address of a page, as parameters.
--
-- What is not modelled: the assembly (boot.s, gdt_asm.s, idt_asm.s, the port instructions, the end
-- of task_switch, the writes to control registers, the halt), which the C code only calls;
-- src/multiboot.h but for the fields that are read, since it comes from the boot loader's
-- specification; kmain before the change of stacks, and __kmain after interrupts are enabled, which
-- calls the test of the heap and creates the two user programs, written in assembly. Interrupts are
-- calls of the handlers, one after the other: nothing here runs between two steps of other code.
-- kmalloc with the heap in place, whose growth calls the paging code again, stands in Paging as the
-- parameter kmalloc_ap. What init_mem and init_paging print is left out, and so is the line "Clone!"
-- that clone_directory prints for each table it copies.
pub mod Base
pub mod OrderedArray
pub mod Memory
pub mod Bitset
pub mod Frame
pub mod Heap
pub mod Kmalloc
pub mod Paging
pub mod MemoryMap
pub mod Str
pub mod Monitor
pub mod Printk
pub mod Registers
pub mod Gdt
pub mod Idt
pub mod Timer
pub mod Syscall
pub mod Task
pub mod Backtrace
pub mod Panic
pub mod Startup
pub mod Usermode
