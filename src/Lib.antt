-- ===== src/Lib.antt =====
-- Kernel-C, a small x86_64 kernel in C: its memory allocators, file system, keyboard, clock,
-- timer, text screen, tasks, the start of programs, its system calls, its own start and the way it
-- turns the machine off.
--
-- The parts of the program and the files that model them. Names in quotes are the source's.
--
-- = malloc/malloc.c, the kernel's allocator: Heap.antt (block headers, the globals, pointer and size
--   arithmetic) and Kmalloc.antt with its children (one function for each of the file's). Pointers are
--   numbers, NULL is 0, and a store maps an address to the block header that stands there, so writes
--   through `prev` and `next` alias as they do in C. Payload bytes are a second map: the model does not
--   let a write to a payload change a header. `size_t` and pointer arithmetic wrap at 2^64. Walks along
--   the list take fuel; the theorems give one more round than there are blocks. A heap that the code
--   built is described by the list of its blocks (`IsHeap`), which lie end to end from `_heap_start` on.
--   `realloc` is Kmalloc/Realloc.antt. The printing of the statistics is not modelled.
-- = malloc/user_malloc.c: Umalloc.antt, over the same headers and stores; its functions have the prefix
--   `user_` here. Umalloc/Same.antt compares its steps with those of the kernel's allocator.
-- = libc/string.c: CString.antt, over a memory of bytes; loops up to a NUL take fuel.
-- = fat16/fs.c over ramdisk/ramdisk.c: Fs.antt (table, chains, reading and writing), Fs/Table.antt (the
--   entries, directories, removal) and Fs/Files.antt (files by name). Loops along a chain take fuel:
--   16385 rounds end every one that frees, and a write needs one per cluster.
-- = vga/vga.c: Vga.antt, the cells of the buffer, the cursor and the writes to the cursor's ports.
-- = keyboard/keyboard.c and keyboard/keyboard.h: Keyboard.antt, with the scancode tables in
--   Keyboard/Table.antt. The scancode that the port yields is an argument of the handler.
-- = time/clock/clock.c, time/clock/rtc.c and time/timer.c: Clock.antt. The registers of the real-time
--   clock are arguments.
-- = multitask/multitask.c: Multitask.antt (the tasks, the ring, creation and the choice of the next task)
--   and Multitask/Zombies.antt (zombies, removal, `task_list`, `task_stop`, `task_exit`,
--   `task_is_alive`). The `task_t`s are a map from addresses, apart from the bytes of the two heaps,
--   which `malloc` and `user_malloc` of Kmalloc.antt and Umalloc.antt manage. The processor's interrupt
--   flag is part of the state, and each function is one step, also where the source lets interrupts in
--   between. A pid counts up without a bound, where the
--   `int` of the source overflows after 2^31 tasks. Walks round the ring and along the zombie list take fuel;
--   one round more than there are tasks is enough. Multitask/Dispatch.antt is `isr_timer_dispatch` of
--   time/timer.c, which joins the counters of Clock.antt to the scheduler.
-- = syscall/syscall.c and tasks/tasks.c: Loader.antt, a program of /bin loaded and started as a task, from
--   the file system and both allocators to the ring, and the decimal text of a number. The fuel goes to
--   every loop that is called; eleven rounds are enough for the digits.
-- = power/poweroff.c and power/reboot.c: Power.antt (the ACPI tables) and Power/Off.antt (the writes).
--   Physical memory is a map from addresses to bytes, at the same virtual addresses, and sums of
--   addresses do not wrap. The loops there run over counted places and need no fuel; the last scan of
--   the FADT and the scan of the DSDT are given one round for each byte of the table.
-- = syscall/syscall.c and syscall/syscall.h, the system calls: Syscall.antt (the state that the calls
--   share, the registers, the arguments as the handler casts them, the memory of the caller),
--   Syscall/Handler.antt (`syscall_handler`) and Syscall/Wrappers.antt (what the wrappers put into the
--   registers). A call returns a value, or ends in the loops of `hlt` that the source ends in.
-- = kernel.c: Boot.antt, `load_app_to_fs` and `kmain`. What the hardware yields, the images of the
--   programs and the addresses that the linker knows are arguments.
-- = idt.c: Idt.antt, the interrupt descriptor table.
-- = portio/portio.c and pic.c: Port.antt, port writes as a list in order.
-- = Prelude.antt: shared names, tests on numbers, the C words, arrays as lists.
--
-- Interrupts: each function that the source runs with interrupts off, or inside a handler, is one step.
-- A C `char` is its byte. The handler of system calls checks no pointer of its caller. In the model the
-- memory that a call reads and writes for its caller is the payload bytes of the two heaps, by address,
-- so the theorems on such calls are about pointers into payloads. What the source does with a pointer to
-- anything else (the header of a block, a task, the file system, the screen), which it would read or
-- overwrite, is not modelled.
-- Not modelled are the functions that are compiled for debugging only, which print (in kernel.c, and
-- `print_kmalloc_stats` of malloc/malloc.c), and the assembly, with the programs written in it.
pub mod Prelude
pub mod CString
pub mod Heap
pub mod Kmalloc
pub mod Umalloc
pub mod Fs
pub mod Port
pub mod Keyboard
pub mod Clock
pub mod Vga
pub mod Multitask
pub mod Power
pub mod Loader
pub mod Idt
pub mod Syscall
pub mod Boot
