-- ===== src/Lib.antt =====
-- A verification library for the TP2_SO kernel, a small preemptive kernel for 64-bit PCs.
--
-- The parts and how they interact:
--   * Process/Pcb.antt: the PCB, the process table and the scheduler's variables
--     (Kernel/include/process.h, Kernel/c/process/process.c). A `PCB *` is the index of its slot in
--     `process_table` and NULL is `none`; a static array of structures is a function from indices,
--     written with `update`.
--   * Scheduler.antt and its children: Kernel/c/scheduler/scheduler.c. The run queue is the initial
--     part of the array `run_queue`, of length `queue_size`; `scheduler_add`, `scheduler_remove` and
--     `scheduler_next_ready` keep their names. Scheduler/Switch.antt is the timer tick and the yield,
--     `scheduler_tick` and `scheduler_yield_impl`, with the memory manager that frees a zombie's
--     stack as a parameter.
--   * Process/Control.antt and its children: the functions of Kernel/c/process/process.c that find,
--     block and unblock a process or change its priority; a change of priority goes through the run
--     queue (Scheduler/Requeue.antt).
--   * Process/Listing.antt: `process_ps` of the same file, with the list that it leaves in the
--     caller's buffer as its result.
--   * Prelude/Ring.antt: a circular array as the list of what it holds, which the queues of the
--     waiting, the pipes and the keyboard share.
--   * WaitQueue.antt: the circular queue of waiting PIDs that Kernel/c/semaphore/semaphore.c and
--     Kernel/c/pipe/pipe.c both keep, against the list of those who wait (WaitQueue/Fifo.antt,
--     WaitQueue/Removal.antt).
--   * Semaphore.antt and its children: Kernel/c/semaphore/semaphore.c. The operations act on the
--     processes and `sem_table` together, as they block and wake processes. An operation that would
--     spin for ever on a lock has the result `none`.
--   * Pipe.antt and its children: Kernel/c/pipe/pipe.c; Pipe.antt reads and writes, Pipe/Ends.antt
--     opens and closes. The circular buffer is compared with the list of its bytes
--     (Pipe/Content.antt).
--   * Fd.antt and Fd/Lifetime.antt: the descriptor table of Kernel/c/pipe/fd.c, whose reference
--     counts open and close the ends of the pipes.
--   * Allocator.antt: the memory manager as the rest of the kernel sees it
--     (Kernel/include/memoryManager.h), a record of operations and laws.
--   * Memory/FirstFit.antt and its children: Kernel/c/memoryManager/memoryManagerFF.c, the linked
--     list of blocks as a list in the order of `next`; Memory/FirstFit/Interface.antt fills the
--     interface.
--   * Memory/Buddy.antt and its children: Kernel/c/memoryManager/memoryManagerBuddy.c, the free lists
--     as lists of addresses and the headers as a function of the address.
--   * Keyboard.antt and its children: the variables of Kernel/c/drivers/keyboardDriver.c, the ring of
--     typed characters (Keyboard/Buffer.antt), the line that the terminal collects
--     (Keyboard/Line.antt), and the scancode tables of Kernel/include/defs.h with the snapshot of the
--     registers (Keyboard/Tables.antt). Fd/Terminal.antt is what Kernel/c/pipe/fd.c does with a
--     descriptor of the terminal.
--   * Kernel.antt and its children: the variables of all these parts together, over any memory
--     manager. Kernel/Creation.antt and Kernel/Lifecycle.antt are `process_create`, `process_exit`,
--     `process_kill`, `process_waitpid` and their helpers in Kernel/c/process/process.c;
--     Kernel/Files.antt is `fd_read` and `fd_write`, Kernel/Keys.antt `handlePressedKey`, and
--     Kernel/Calls.antt the system calls of Kernel/c/syscall/syscallDispatcher.c that do more than
--     pass their arguments on. What the cleanup of a process leaves of the others is the relation
--     `Kept` of Process/Control/Kept.antt, which Semaphore/Cleanup/Kept.antt, Pipe/Ends/Kept.antt and
--     Fd/Kept.antt carry through each part.
--   * Number.antt and its children: numbers as text, `num_to_str` of Userland/c/shell/userlib.c,
--     `satoi` and `is_valid_uint` of Userland/c/tests/test_util.c, `uintToBase` of
--     Kernel/c/lib/naiveConsole.c and `intToHexa` of the keyboard driver.
--   * Shell.antt and its children: `parse_args` and `parse_pipe` of Userland/c/shell/userlib.c and
--     the loops of Userland/c/commands/wc.c and filter.c over the results of their reads.
--   * Prelude.antt: Boolean tests, lists and tables that all parts share.
--
-- Bounds: numbers are natural numbers. The sizes of the memory manager and the ticks wrap at 2^64,
-- as do the PIDs and the values of `satoi`, and the waiting time at 2^32, where the code relies on
-- it or can reach it. Loops over arrays and lists are structural recursion, so no fuel is needed:
-- the passes of `scheduler_next_ready` are bounded by the length of the queue as in the code, and as
-- many processes are woken as wait. The value of a semaphore is an integer without the overflow at
-- the ends of 64 bits, against which the code does not guard. The loops over the digits of a number
-- run on fuel of 64 rounds, enough for 64 bits in any base. `size_to_order` has one round for each
-- of the 20 orders, the joining of buddies one for each order above the block's, and the walk of the
-- buddy allocator one for each byte of the heap.
--
-- Of the memory that a process gets, stacks are a function from addresses to 64-bit words, and the
-- blocks with the arguments one from addresses to bytes, in which pointers and strings can overlap;
-- that a stack and a block with arguments do not overlap is left to the memory manager. A release of
-- a pointer that belongs to no block is a parameter of first fit, of which nothing is known, and the
-- interface promises nothing for it.
--
-- Not modelled: the system calls that only pass their arguments on; the shell and the user
-- programs but for the conversion of numbers and the parts in Shell.antt; the assembly files (the
-- stack pointer that a switch returns, the address of `process_trampoline`, the scancode and the
-- saved registers are arguments), the video, sound and clock drivers, the boot loader and the host
-- tools.
pub mod Prelude
pub mod Allocator
pub mod Fd
pub mod Kernel
pub mod Keyboard
pub mod Memory
pub mod Number
pub mod Pipe
pub mod Process
pub mod Scheduler
pub mod Semaphore
pub mod Shell
pub mod WaitQueue
