-- ===== src/Lib.antt =====
-- EchoOS, a kernel for LoongArch: a model of its memory management, its string and memory
-- primitives, its scheduler and the creation of tasks, its file system and formatted output,
-- its interrupts, keyboard, shell and editor, the sequences of its screen, and the boot
-- parameters, with the theorems that make them correct.
--
-- How the parts interact. The buddy allocator of kernel/mm/buddy.c, which serves malloc, takes
-- the nodes of its tree from the system heap; the system heap keeps a bitmap with one bit for
-- each byte, which kernel/mm/bitmap.c searches and paints. `fork` takes the structure of a new
-- task from the system heap as well, and puts it into the table that `schedule` chooses from.
-- The primitives of kernel/utils serve realloc and calloc. An interrupt of the keyboard goes
-- through trap_entry, trap_handler and kbd_irq to the editor and the shell; a command of the
-- shell then works on the file system or on the tasks.
--
-- Which file models which part, with the names of the functions kept:
--
--   Base.antt: numbers, tests, lists and `Exec`, the outcome of running C code: a value,
--     undefined behaviour (`fault`), or fuel that ran out (`timeout`).
--   Mm/Bitmap.antt: kernel/mm/bitmap.c. A map is the list of its bytes; a bit index is a
--     number, and an index that is negative in C, or past the map, is a fault.
--   Mm/SysHeap.antt: kernel/mm/sys_heap.c and kernel/mm/kmalloc.c. The statics `bitmap` and
--     `last` and the memory are the record `SysHeap`; the address of the array is a parameter.
--   Mm/SysHeap/Session.antt: the calls of a client of the system heap as a step relation,
--     against a list of blocks.
--   Mm/DeadBeef.antt: the canary of kernel/mm/mm.c.
--   Mm/Buddy.antt: kernel/mm/buddy.c and kernel/mm/malloc.c (`free` is `mfree`). The nodes are
--     a tree as a data type, each with the address that `kmalloc` gave.
--   Utils/Memory.antt, Utils/Strings.antt: kernel/utils/memory.c and kernel/utils/string.c over
--     a memory of bytes.
--   Sched/Task.antt: include/sched/sched.h. The table of tasks; a pointer to a task is the
--     number of its slot.
--   Sched/InitTask.antt: INIT_TASK of include/sched/sched.h, and the table that the kernel
--     starts with.
--   Sched/Schedule.antt: kernel/sched/sched.c. `schedule` with its two loops, the clock, and
--     the wait queues, where a sleeper that stops in the middle of `sleep_on` is two functions,
--     before and after.
--   Sched/Fork.antt: kernel/sched/fork.c.
--   Entry.antt: the end of kernel/entry.c, and `do_signal` of kernel/sched/signal.c.
--   Utils/Split.antt: `split` of kernel/utils/string.c on texts.
--   Fs.antt, Fs/Paths.antt: kernel/fs/fs.c. The structures are kept by address; a search, its
--     loop and its test are functions by clauses on the list of 16 pointers.
--   Drivers/KbdMap.antt, Drivers/Kbd.antt: kernel/drivers/kbdmap.c and kbd.c. An interrupt is a
--     function of the bytes that the controller has ready to what the handlers get.
--   BootParam.antt: kernel/boot/boot_param.c, over memory, and the table of kernel/mm/mm.c.
--   Sysio/Print.antt: `printint`, `printptr` and `printf` of kernel/sysio/io.c, as functions to
--     the text that is printed.
--
--   Utils/MemMap.antt: `print_memmap` of kernel/utils/memory.c.
--   Drivers/Ansi.antt: include/drivers/ansi.h and kernel/drivers/ansi.c. A sequence is the list
--     of the bytes that are sent.
--   Arch/Csr.antt: include/arch/loongarch.h. The control registers are a function from their
--     numbers to words.
--   Trap/Frame.antt: `trap_entry` of kernel/trap/trap.c, as a list of instructions over
--     registers and words of memory.
--   Trap.antt, Trap/Init.antt: the rest of kernel/trap, over a state with the tasks, the
--     keyboard, the shell and the editor; what is written to the controllers is returned.
--   Shell.antt, Shell/Console.antt, Shell/Clock.antt, Shell/Listing.antt, Shell/Command.antt,
--     Shell/Loop.antt: kernel/shell/shell.c, the ring of the line, `handle_cmd` with its
--     commands, and the loop of `entry_shell`, where the keys of each round, and those for vim,
--     are lists of events.
--   App/Vim.antt, App/Vim/Session.antt: kernel/app/vim.c. The places of `file_copy` are a list;
--     the interrupts while `vim_entry` waits are a list of events.
--
-- Below these, a module is named for what it proves, and a module Tests has runs on small
-- inputs.
--
-- Fuel. A round of a search over a map of n bytes needs 8 n + 2 steps (`round_trip`), which the
-- theorems show to be enough. The search of the buddy tree has 19, one more than the greatest
-- order. The loop for the order of a request has 32: it ends or overflows within 31. The loop
-- of `schedule` is given its fuel by the caller; two rounds are enough when every priority is
-- above 0, and no number is enough when every priority and every slice is 0. The loops over
-- strings, over the pages of an area and over the headers of the boot parameters are given
-- their fuel by the caller, too, and each theorem names how much is enough.
--
-- Numbers. A `long` of a task is an integer without bounds, and the int `c` of `schedule` holds
-- any counter. A pointer is a number without a bound; the words of 32 and 64 bits of memalign,
-- verify_area, copy_mem and of signals keep their wrap-around.
--
-- Not modelled: the assembly of switch_to. Of a switch the model has the slot; a handler that
-- switches ends there as `switched`, without what it would do after a return, and the rest of
-- `sleep_on` is a function of its own; what the hardware does with the registers of its
-- controllers; the banner of print_info; kernel/app/game.c and draw.c, which hold data and the
-- text of programs in a language that nothing reads. Segment limits and page tables, which the
-- repository declares without a definition, are the record `Paging`.
pub mod Base
pub mod Mm
pub mod Utils
pub mod Sched
pub mod Entry
pub mod Sysio
pub mod Fs
pub mod Drivers
pub mod BootParam
pub mod Shell
pub mod App
pub mod Arch
pub mod Trap
