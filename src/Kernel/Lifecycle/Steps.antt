-- ===== src/Kernel/Lifecycle/Steps.antt =====
-- The steps that the end of a process is made of.
use tp2_so_nuevo.Prelude.{ℕ, ◌≡◌, refl, Option, none, some}
use tp2_so_nuevo.Allocator.{Allocator}
use tp2_so_nuevo.Process.Pcb.{Pcb, set_slot}
use tp2_so_nuevo.Process.Control.Kept.{
  Kept, KeptProcs, KeptProcs-refl, KeptProcs-trans, set_slot_mono,
}
use tp2_so_nuevo.Semaphore.Balance.{AllBalanced}
use tp2_so_nuevo.Semaphore.Cleanup.Balance.{sem_cleanup_for_process-AllBalanced}
use tp2_so_nuevo.Semaphore.Cleanup.Kept.{sem_cleanup-KeptProcs}
use tp2_so_nuevo.Pipe.Ends.Kept.{pipe_cleanup_procs}
use tp2_so_nuevo.Fd.{Fds}
use tp2_so_nuevo.Fd.Kept.{fd_incref-KeptProcs, fd_decref-KeptProcs}
use tp2_so_nuevo.Kernel.{Kernel, sems_of, with_sems, pipes_of, fds_of, with_fds}
use tp2_so_nuevo.Kernel.Lifecycle.{drop_fd, take_fd, process_release_fds, leave_queues, clean_sems}

pub drop_fd-KeptProcs :
    (o : Option ℕ) (st : Fds) → KeptProcs st.pipes.procs (drop_fd o st).pipes.procs
drop_fd-KeptProcs none st = KeptProcs-refl st.pipes.procs
drop_fd-KeptProcs (some fd) st = fd_decref-KeptProcs fd st

pub take_fd-KeptProcs :
    (o : Option ℕ) (st : Fds) → KeptProcs st.pipes.procs (take_fd o st).pipes.procs
take_fd-KeptProcs none st = KeptProcs-refl st.pipes.procs
take_fd-KeptProcs (some fd) st = fd_incref-KeptProcs fd st

-- A process without descriptors.
abbrev pub shut : Pcb → Pcb
shut p = record p { fd_in = none; fd_out = none }

pub shut_mono : (p q : Pcb) → Kept p q → Kept (shut p) (shut q)
shut_mono p q k = record {
  pid = k.pid;
  name = k.name;
  entry = k.entry;
  priority = k.priority;
  remaining_quanta = k.remaining_quanta;
  foreground = k.foreground;
  argc = k.argc;
  retval = k.retval;
  rsp = k.rsp;
  stack_base = k.stack_base;
  argv = k.argv;
  parent_pid = k.parent_pid;
  waiting_for = k.waiting_for;
  fd_in = refl;
  fd_out = refl;
  state = k.state;
}

module _ (mm : Allocator) where
  pub release_fds-KeptProcs :
      (i : ℕ) (k : Kernel mm)
      → KeptProcs (set_slot k.procs i (shut (k.procs.table i))) (process_release_fds mm i k).procs
  unfolding process_release_fds
  release_fds-KeptProcs i k =
      let first = drop_fd (k.procs.table i).fd_in (fds_of mm k) in
      let one = drop_fd-KeptProcs (k.procs.table i).fd_in (fds_of mm k) in
      let k1 = with_fds mm k first in
      let two = drop_fd-KeptProcs (k1.procs.table i).fd_out (fds_of mm k1) in
      let second = drop_fd (k1.procs.table i).fd_out (fds_of mm k1) in
      let both = KeptProcs-trans k.procs first.pipes.procs second.pipes.procs one two in
      set_slot_mono i (shut (k.procs.table i)) (shut (second.pipes.procs.table i)) k.procs
        second.pipes.procs both
        (shut_mono (k.procs.table i) (second.pipes.procs.table i) (both.slots i))

  pub leave_queues_procs : (i pid : ℕ) (k : Kernel mm) → (leave_queues mm i pid k).procs ≡ k.procs
  unfolding leave_queues
  leave_queues_procs i pid k = pipe_cleanup_procs pid (pipes_of mm k)

  -- The semaphores are cleaned up, and the rest follows.
  pub clean_sems_ends :
      (pid : ℕ) (rest : Kernel mm → Kernel mm) (k : Kernel mm)
      → AllBalanced k.sems
      → (k1 : Kernel mm) × (clean_sems mm pid rest k ≡ some (rest k1))
        × AllBalanced k1.sems
        × KeptProcs k.procs k1.procs
        × (k1.heap ≡ k.heap)
        × (clean_sems mm pid (λ s. s) k ≡ some k1)
  unfolding clean_sems
  clean_sems_ends pid rest k all =
      let (st, e, all') = sem_cleanup_for_process-AllBalanced pid (sems_of mm k) all in
      (
        with_sems mm k st,
        rw (e, clean_sems) refl,
        all',
        sem_cleanup-KeptProcs pid (sems_of mm k) st e,
        refl,
        rw (e, clean_sems) refl,
      )

  -- Descriptors and queues have nothing to do with the heap, the memory and the semaphores.
  pub release_fds_rest :
      (i : ℕ) (k : Kernel mm)
      → ((process_release_fds mm i k).heap ≡ k.heap)
        × ((process_release_fds mm i k).sems ≡ k.sems)
        × ((process_release_fds mm i k).words ≡ k.words)
  unfolding process_release_fds
  release_fds_rest i k = (refl, refl, refl)

  pub leave_queues_rest :
      (i pid : ℕ) (k : Kernel mm)
      → ((leave_queues mm i pid k).heap ≡ k.heap) × ((leave_queues mm i pid k).sems ≡ k.sems)
  unfolding leave_queues
  leave_queues_rest i pid k = (refl, refl)
