-- ===== src/Kernel/Tests.antt =====
-- The theorems on the whole kernel at a kernel of four processes.
use tp2_so_nuevo.Prelude.{
  ℕ, zero, suc, ◌+◌, ◌≤◌, ◌≡◌, ◌≢◌, refl, true, false, List, [], ◌∷◌, Option, none, some, arith,
  ltb, ◌==◌, if◌then◌else◌, update, pos, negsuc, codes,
}
use tp2_so_nuevo.Prelude.Search.{first_index}
use tp2_so_nuevo.Allocator.{Allocator}
use tp2_so_nuevo.Process.Pcb.{Pcb, Procs, blank, ready, blocked, running, zombie, is_zombie}
use tp2_so_nuevo.Process.Control.{process_get}
use tp2_so_nuevo.Process.Control.Lookup.{PidsDiffer, process_get_self}
use tp2_so_nuevo.Scheduler.Switch.{scheduler_yield_impl}
use tp2_so_nuevo.Scheduler.Switch.Memory.{BothGranted}
use tp2_so_nuevo.Memory.FirstFit.Interface.{IsHeap, first_fit_allocator}
use tp2_so_nuevo.Semaphore.{Semaphore, initial_sem}
use tp2_so_nuevo.Semaphore.Balance.{AllBalanced}
use tp2_so_nuevo.Pipe.Ends.{zero_pipe, pipe_open}
use tp2_so_nuevo.Pipe.Ends.Naming.{pipe_open_first}
use tp2_so_nuevo.Fd.{Fd, Fds, fd_terminal, fd_none}
use tp2_so_nuevo.Keyboard.{Keyboard}
use tp2_so_nuevo.Kernel.{Kernel, machine_of, with_machine, with_procs}
use tp2_so_nuevo.Kernel.Lifecycle.{
  clean_sems, with_retval, process_exit, process_kill, process_waitpid,
}
use tp2_so_nuevo.Kernel.Lifecycle.Parent.{ParentGoesOn}
use tp2_so_nuevo.Kernel.Lifecycle.Exit.{released, Ended, process_exit-Ended}
use tp2_so_nuevo.Kernel.Lifecycle.Kill.{Killed, process_kill-Killed}
use tp2_so_nuevo.Kernel.Lifecycle.Wait.{Reclaimed, Waits, process_waitpid_lem, process_waitpid_late}
use tp2_so_nuevo.Kernel.Creation.{process_create, copy_args, free_slot}
use tp2_so_nuevo.Kernel.Creation.Arguments.{Copied, copy_args-Copied}
use tp2_so_nuevo.Kernel.Creation.Fresh.{PidsGiven}
use tp2_so_nuevo.Kernel.Creation.Created.{
  InOrder, process_create-InOrder, Created, process_create-Created,
}
use tp2_so_nuevo.Kernel.Calls.{sys_pipe}
use tp2_so_nuevo.Kernel.Calls.Descriptors.{sys_pipe_leaks}

-- The shell waits for its child, which runs; a third process is READY.
abbrev shell : Pcb
shell = record blank { pid = 1; state = blocked; waiting_for = 2; rsp = 0x700000; foreground = 1 }

abbrev child : Pcb
child = record blank {
  pid = 2;
  state = running;
  parent_pid = 1;
  fd_out = some 1;
  stack_base = 0x600018;
}

abbrev worker : Pcb
worker = record blank { pid = 3; state = ready; parent_pid = 1 }

abbrev table : ℕ → Pcb
table i = if i == 0 then shell else if i == 1 then child else if i == 2 then worker else blank

abbrev procs : Procs
procs = record {
  table = table;
  next_pid = 3;
  current = some 1;
  run_queue = 0 ∷ 1 ∷ 2 ∷ [];
  queue_idx = 0;
  idle = none;
  force_switch = false;
  ticks = 0;
}

-- Nobody holds it and nobody waits.
abbrev mutex : Semaphore
mutex = record initial_sem { name = codes "m"; value = pos 1; open_count = 1 }

abbrev sems : ℕ → Semaphore
sems zero = mutex
sems (suc i) = initial_sem

abbrev keyboard : Keyboard
keyboard = record {
  buff = λ _. 0;
  buff_size = 0;
  start_index = 0;
  end_index = 0;
  shift = false;
  caps = false;
  ctrl = false;
  registers_buff = [];
  bool_registers = false;
  waiting = none;
  tty_mode = 1;
  tty_line = [];
  tty_line_ready = false;
  tty_eof = false;
}

abbrev fds : ℕ → Fd
fds i = record { kind = if ltb i 2 then fd_terminal else fd_none; pipe = none; refcount = 2 }

abbrev mm : Allocator
mm = first_fit_allocator (λ _ h. h) 0x600000 0x610000

abbrev kernel : Kernel mm
kernel = record {
  procs = procs;
  heap =
      record { addr = 0x600000; size = 4096; is_free = false; is_kernel = true }
      ∷ record { addr = 0x601018; size = 0xefd0; is_free = true; is_kernel = false }
      ∷ [];
  words = λ _. 0;
  bytes = λ _. 0;
  sems = sems;
  pipes = λ _. zero_pipe;
  fds = fds;
  keyboard = keyboard;
  screen = [];
}

sems-AllBalanced : AllBalanced sems
sems-AllBalanced zero = (refl, λ used. ((omega arith, omega arith, refl), refl, tt))
sems-AllBalanced (suc i) = (refl, λ used. absurd (omega arith))

table-PidsDiffer : PidsDiffer table
table-PidsDiffer i j hi hj ui uj e = ground arith

kernel-IsHeap : IsHeap 0x600000 0x610000 kernel.heap
kernel-IsHeap = record {
  end = omega arith;
  tiles = (omega arith, (omega arith, omega arith));
  coalesced = ((λ free. ground arith), ((λ free. tt), tt));
}

process_exit-Ended_example :
    (k' : Kernel mm) × (process_exit mm (pos 7) kernel ≡ some k')
    × Ended mm 1 (pos 7) kernel k'
    × ((k1 : Kernel mm) × (clean_sems mm 2 (λ s. s) (with_retval mm 1 (pos 7) kernel) ≡ some k1)
        × ((j : ℕ)
            → 1 ≢ j
            → process_get 1 table ≡ some j
            → ParentGoesOn mm 2 (pos 7) j kernel (released mm 1 2 k1) k'))
process_exit-Ended_example = process_exit-Ended mm 1 (pos 7) kernel refl sems-AllBalanced

worker_found : process_get 3 table ≡ some 2
worker_found = process_get_self table 2 table-PidsDiffer (omega arith) refl (omega arith)

process_kill-Killed_example :
    (k' : Kernel mm) × (process_kill mm 3 kernel ≡ some k')
    × Killed mm 2 kernel k'
    × (BothGranted mm (kernel.procs.table 2) kernel.heap
        → IsHeap 0x600000 0x610000 kernel.heap
        → IsHeap 0x600000 0x610000 k'.heap)
    × (PidsDiffer table → process_get 3 k'.procs.table ≡ none)
process_kill-Killed_example =
    process_kill-Killed mm 3 2 kernel worker_found refl refl sems-AllBalanced

process_waitpid_lem_example :
    ((i : ℕ)
      → process_get 3 table ≡ some i
      → is_zombie (table i).state ≡ true
      → let (r, k') = process_waitpid mm 3 kernel in
        (r ≡ (table i).retval)
        × Reclaimed mm i kernel k'
        × (PidsDiffer table → process_waitpid mm 3 k' ≡ (negsuc 0, k')))
    × ((i : ℕ)
        → process_get 3 table ≡ some i
        → is_zombie (table i).state ≡ false
        → let (r, k') = process_waitpid mm 3 kernel in
          (r ≡ pos 0)
          × ((c : ℕ) → some 1 ≡ some c → Waits mm c 3 kernel k')
          × (kernel.procs.current ≡ none
              → k' ≡ with_procs mm kernel (record procs { force_switch = true })))
    × (process_get 3 table ≡ none → process_waitpid mm 3 kernel ≡ (negsuc 0, kernel))
process_waitpid_lem_example = process_waitpid_lem mm 3 kernel

-- The child has exited.
abbrev after_exit : Kernel mm
after_exit = record kernel {
  procs = record procs { table = update table 1 (record child { state = zombie; retval = pos 7 }) };
}

process_waitpid_late_example :
    let k' = with_machine mm after_exit (scheduler_yield_impl mm 77 (machine_of mm after_exit)).1 in
    process_waitpid mm 2 k' ≡ (negsuc 0, k')
process_waitpid_late_example =
    process_waitpid_late mm 77 1 2 after_exit refl (omega arith) refl
      (λ i j hi hj ui uj e. ground arith) (omega arith) (omega arith) refl

given : PidsGiven procs
given = record { differ = table-PidsDiffer; below = λ i lt used. ground arith }

process_create-InOrder_example :
    InOrder mm 0x400000 (process_create mm 0x400000 (some (codes "cat")) 0x500000 0 none 1 kernel).1
process_create-InOrder_example =
    process_create-InOrder mm 0x400000 (some (codes "cat")) 0x500000 0 none 1 kernel
      (given, kernel-IsHeap) (omega arith)

-- A memory manager that only hands out.
abbrev bump : Allocator
bump = record {
  Heap = ℕ;
  malloc_kernel = λ size h. (some h, h + size);
  free = λ ptr h. h;
  IsValid = λ h. 0x600000 ≤ h;
  IsGranted = λ ptr h. Unit;
  malloc_kernel-IsValid = λ size h v. omega arith;
  malloc_kernel-IsGranted = λ size h ptr e. tt;
  malloc_kernel-keeps = λ size h refused ptr g. tt;
  free-IsValid = λ ptr h g v. v;
}

abbrev bump_kernel : Kernel bump
bump_kernel = record {
  procs = procs;
  heap = 0x600000;
  words = λ _. 0;
  bytes = λ _. 0;
  sems = sems;
  pipes = λ _. zero_pipe;
  fds = fds;
  keyboard = keyboard;
  screen = [];
}

free_3 : free_slot table ≡ some 3
unfolding first_index
free_3 = refl

process_create-Created_example :
    let (r, k') = process_create bump 0x400000 (some (codes "cat")) 0x500000 0 none 1 bump_kernel in
    (r ≡ pos 4)
    × Created bump 0x400000 (some (codes "cat")) 0x500000 0 0 1 3 0x600000 bump_kernel k'
process_create-Created_example =
    process_create-Created bump 0x400000 (some (codes "cat")) 0x500000 1 3 0x600000 0x601000
      bump_kernel given (omega arith) free_3 refl

abbrev argv : ℕ → Option (List ℕ)
argv i = if i == 0 then some (codes "cat") else none

copy_args-Copied_example :
    Copied 0x600000 argv 0 2 0x600018 (λ _. 9) (copy_args 0x600000 argv 0 2 0x600018 (λ _. 9))
copy_args-Copied_example = copy_args-Copied 2 0 0x600000 argv 0x600018 (λ _. 9) (omega arith)

-- All descriptors are the terminal's.
abbrev full_fds : Fds
full_fds = record {
  pipes = record { procs = procs; pipes = λ _. zero_pipe };
  fds = λ _. record { kind = fd_terminal; pipe = none; refcount = 1 };
}

first_pipe : (pipe_open none full_fds.pipes).0 ≡ some 0
first_pipe = pipe_open_first full_fds.pipes refl

sys_pipe_leaks_example :
    let (r, st') = sys_pipe full_fds in
    let p = st'.pipes.pipes 0 in
    (r ≡ none) × (p.in_use ≡ true) × (p.open_read ≡ 0) × (p.open_write ≡ 0)
sys_pipe_leaks_example = sys_pipe_leaks 0 full_fds (λ j lt. refl) first_pipe
