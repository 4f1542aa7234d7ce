-- ===== src/Lib.antt =====
-- The verification library of hexos, a small kernel for i386 with a C library of its own.
--
-- The program's parts and how they interact. The boot code sets up the descriptor tables
-- (kernel/arch/i386/gdt.c, idt.c, isr.c), the terminal (kernel/arch/i386/tty.c), the page allocator
-- (kernel/kernel/mem.c) and the heap over its pages (kernel/kernel/heap.c). Interrupts reach the handlers
-- through isr.c: the timer's tick (kernel/kernel/clock.c) wakes processes and switches between them
-- (kernel/kernel/process.c, mutex.c), over intrusive lists (kernel/kernel/list.c); the keyboard
-- (kernel/kernel/ps2keyboard.c) sends characters to the shell (kernel/kernel/shell.c), which writes to the
-- terminal. The string functions (libc/string) serve all of them.
--
-- Files:
-- - Base: tests on numbers, lists by index, machine words with their wrap-around, `int`, and the bits of
--   `&`, `|` and masks as arithmetic.
-- - Kernel/List: list.c. The memory is a function from addresses to nodes and to list heads (`Store`);
--   `push_head`, `push_tail`, `push_priority`, `pop_head`, `pop_tail` and `remove` are the functions of
--   those names behind `list_`. Seg says what a well-formed list is; Push, Pop, Remove and Priority what
--   each function does to one. The loop of `list_push_priority` runs on fuel, the list's length.
-- - Kernel/Heap: heap.c. A block is its header and its bytes by offset; `add_block`, `get_nid`, `alloc`,
--   `alloc_blocks` and `free_blocks` are kheap_add_block, kheap_get_nid, kalloc and kfree. The search of
--   kalloc runs on fuel: two rounds over the cells are enough on a well-formed block, and on other blocks
--   it may not end, which is the outcome `hang`. Heap/Pages is main_heap_init over Kernel/Mem,
--   whose words the blocks are written to.
-- - Kernel/Mem: the bitmap allocator of mem.c, over the words of the memory that it hands out;
--   `alloc_page` is memory_alloc_page, `free_page` is memory_free_page. Its loops are bounded.
--   Mem/Paging is paging_init, with the fields of an entry by their place in its word; Mem/Map is
--   mem_check_avail over the bytes of the boot loader's map, on fuel, more than the map's entries.
-- - Kernel/Process, Kernel/Process/Mutex: process.c and mutex.c. `switch` is process_switch; the interrupts
--   during which the processor waits are a list of handlers. `wakeup_all` runs on fuel, more than the
--   processes that wait.
-- - Kernel/Clock, Kernel/Rtc: clock.c and rtc.c; the clock chip is a parameter, as are the ports of
--   clock_init (Clock/SetUp).
-- - Kernel/Keyboard, Kernel/Shell: the scancode maps and handler of ps2keyboard.c, and the line editor of
--   shell.c with the choice of the command. Shell/Commands is what shell_runcmd does for each over the
--   file system (`Files`), with the text printed so far; the loops of `ls` and `cat` run on fuel, more
--   than the entries, and than the blocks of 2048 bytes.
-- - Kernel/Vfs: vfs.c; the callbacks of a node are optional functions on a state.
-- - Kernel/Iso: kernel/kernel/fs/iso9660.c over one flat memory; the heap and the block device are a
--   parameter (`Services`). Records reads the structures of iso9660.h at an address; Search has
--   `readdir`, `finddir` and `entry_to_node_mini`, Volume `recreate`, `init_volume` and `read`. The loops
--   over records run on fuel, one more than the records and their end.
-- - Kernel/Ata: kernel/kernel/io/ata.c and kernel/kernel/blockdevice.c, with the loops of clock_wait and
--   mutex_lock that the driver waits in. The ports are a parameter, and so is `resume`, what the rest of
--   the machine does while the process of a call waits. Fuel bounds the rounds of every wait: 32 are
--   enough for the timeout of two seconds. Ata/Drive says what a packet drive answers in each phase of
--   a command, for the reading of blocks.
-- - Kernel/Pci: kernel/kernel/io/pci.c, over ports that are a parameter.
-- - Arch/Tty: tty.c and vga.h; the buffer is a function from the cell to its entry.
-- - Arch/Tables: gdt.c, idt.c and the installation of gates in isr.c; the stubs are given by addresses.
-- - Arch/Irq: the interrupt controller's functions in isr.c, over ports that are a parameter.
-- - Arch/Serial: the serial line in kernel/arch/i386/io.c. Its waits run on fuel, more than the reads of
--   the status for which the line may be busy.
-- - Kernel/Timer: kernel/kernel/timer.c and sound.c. The wait runs on fuel; the interrupts that come during
--   it are the counts that it reads.
-- - Arch/Fault: fault_handler in isr.c, over the scheduler.
-- - Libc/Memory: memcpy, memmove, memset, memcmp, strlen, strcmp and strcpy over a flat memory of bytes;
--   the string functions run on fuel, more than the length of the string.
-- - Libc/Number: libc/stdlib/itoa.c and printf_hex of libc/stdio/printf.c. The loop of itoa runs on fuel;
--   31 digits are enough for every int.
-- - Libc/Printf: libc/stdio/printf.c, as the text that it prints. Its loop runs on fuel, one more than the
--   format's length; the growth of the power of ten in printf_int takes at most 12 rounds.
--
-- Not modelled: assembly and inline assembly, the start in kernel.c, which only calls the rest, and what
-- the disk driver prints.
pub mod Base
pub mod Kernel
pub mod Arch
pub mod Libc
