-- ===== src/Lib.antt =====
-- A model of the ToastOS kernel.
--
-- The kernel boots from Limine, takes over the physical memory, and runs tasks, some of them in
-- ring 3, under a preemptive scheduler; a shell on a framebuffer console drives it. The model
-- follows the C files part by part.
--
-- Prelude has what the parts share: tests and machine words, arrays as lists, bits, integers.
-- Irq is the interrupt lock of kernel/multitasking/task.c (lock_schedule, unlock_schedule), which
-- the task table takes and the scheduler nests.
-- Pmm is kernel/mmu/pmm.c, the bitmap of page frames; Pmm.Init is init_pmm, a run over the memory
-- map that the boot loader gives; Pmm.Bitmap, Pmm.Frames, Pmm.Alloc, Pmm.Reserve, Pmm.Placing and
-- Pmm.Counted have the proofs.
-- TaskTable is kernel/multitasking/taskTable.c. Timer is the clock of kernel/drivers/timer.c.
-- Tasks is kernel/multitasking/task.c with pidTable.c on the task table: State the data, Links the
-- code of its linked lists, Queues the ready queue, the sleepers and the waiters of a semaphore,
-- Sched switching, sleeping and the tick, Sync semaphores, Pids the pids, Life creation, killing,
-- the end of a task (Life.Exit) and reaping. One store of TCBs by address is shared by all queues, as the code shares the next fields.
-- Vmm is kernel/mmu/vmm.c over a memory of frames, with Vmm.Users the part on the user half:
-- Vmm.Entries has the bits of an entry, Vmm.Tables the tables as a tree and the map that they stand
-- for, Vmm.Paths, Vmm.Grow and Vmm.Leaves what a write does to both, Vmm.Mapping, Vmm.Translate,
-- Vmm.Unmap, Vmm.Contexts and Vmm.Ranges the theorems. Heap is kernel/mmu/heap.c, the break under
-- dlmalloc, which takes its frames from Pmm and maps them with Vmm.
-- Vmm.Kernel is the theorem on init_vmm, with Vmm.Copied and Vmm.Filling for its two halves.
-- Launch is the creation of kernel and user tasks in kernel/multitasking/task.c, over Tasks and Vmm,
-- and the first tasks; Launch.First is what init_multitasking leaves on the ready queue.
-- Boot is `_start` of kernel/kernel.c, the initialisers in their order; Boot.Space is what it leaves of
-- the memory.
-- Syscall is kernel/syscalls/syscall.c over Vmm, Tasks and Stdio. Idt is kernel/idt/idt.c.
-- Shell is the line editor and the history of kernel/shell/tsh.c over Console, Shell.Args the words
-- of a line, the table of commands and the pid argument. Shell.Commands, Shell.TaskCommands (with
-- kernel/shell/task_shell.c) and Shell.Info are the commands, as the calls of putstr and printf that
-- they make (Shell.Printing), and Shell.Session is the loop of init_shell over a machine with tasks,
-- page tables and a heap. Shell.Line, Shell.Read, Shell.Words, Shell.Pids, Shell.Reports and
-- Shell.Killing have the proofs.
-- Serial is kernel/serial.c, the debug output, as a list of port accesses; Serial.Writes and Serial.Hex
-- have the proofs. Rtc.Calendar and Rtc.Read are the proofs on kernel/drivers/rtc.c.
-- Video is kernel/framebuffer.c and kernel/font.c, Video.Pixels, Video.GlyphBits and Video.Glyphs
-- what the screen shows.
-- Bytes is kernel/mmu/memory.c and kernel/stdlib/string.c, Stdio is printf of kernel/stdlib/stdio.c,
-- Console is kernel/shell/console.c, Keyboard is kernel/drivers/kb.c, Rtc is
-- kernel/drivers/rtc.c, Gdt is kernel/gdt/gdt.c.
--
-- Conventions. Pointers, bytes and words are natural numbers, with the wrap-around of 8, 32 and 64
-- bits written out; NULL is 0. A call that yields memory is an argument, the address that kmalloc
-- returns or whether it returns one. A function of the scheduler goes from its call to the end of
-- the critical section in which the next task runs on; which interrupts come while no task can run
-- is an argument, idle. The stack pointers that a switch saves and loads are left out.
--
-- Bounds. A walk over a queue has as many rounds as an argument says, and its theorem asks for as
-- many as the queue has tasks. The digits of a number have 64 rounds, one for each of its bits. A
-- walk to the end of a text has a round for each character. The loops of
-- sys_sbrk have a round for each page between the old and the new end, fb_draw_rect one for each row and each pixel of a row, sys_write one for each byte,
-- and readline one for each key.
--
-- Not modelled. The translation cache and the processor's registers, init_syscall among them; the test
-- commands of the shell that its table leaves out; the debug prints of the scheduler and the heap.
-- The assembly stubs and the port accesses behind inb and outb are the machine's, and dlmalloc.c and
-- limine.h are other projects' code.
pub mod Prelude
pub mod Irq
pub mod Pmm
pub mod TaskTable
pub mod Timer
pub mod Tasks
pub mod Bytes
pub mod Stdio
pub mod Console
pub mod Keyboard
pub mod Rtc
pub mod Gdt
pub mod Syscall
pub mod Shell
pub mod Boot
pub mod Idt
pub mod Serial
pub mod Video
pub mod Heap
pub mod Vmm
pub mod Launch
