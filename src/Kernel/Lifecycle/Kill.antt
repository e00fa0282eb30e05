-- ===== src/Kernel/Lifecycle/Kill.antt =====
-- `process_kill` of another process, and of the current one.
use tp2_so_nuevo.Prelude.{
  ℕ, ◌≡◌, ◌≢◌, refl, sym, ap, ap₂, subst, ◌∙◌, false, none, some, is_same, update_same,
  update_other, negsuc,
}
use tp2_so_nuevo.Allocator.{Allocator}
use tp2_so_nuevo.Process.Pcb.{Pcb, free, is_free, is_zombie}
use tp2_so_nuevo.Process.Control.{process_get}
use tp2_so_nuevo.Process.Control.Lookup.{PidsDiffer, SameName, process_get_found, process_get_gone}
use tp2_so_nuevo.Process.Control.Kept.{Kept, KeptProcs, Kept-is_free}
use tp2_so_nuevo.Scheduler.{scheduler_remove, position}
use tp2_so_nuevo.Scheduler.Queue.{remove-table}
use tp2_so_nuevo.Scheduler.Requeue.{scheduler_remove-gone}
use tp2_so_nuevo.Scheduler.Switch.{free_unless_null}
use tp2_so_nuevo.Scheduler.Switch.Memory.{BothGranted, free_both-IsValid}
use tp2_so_nuevo.Scheduler.Switch.Waiting.{Once}
use tp2_so_nuevo.Semaphore.Balance.{AllBalanced}
use tp2_so_nuevo.Kernel.{Kernel, with_procs}
use tp2_so_nuevo.Kernel.Lifecycle.{
  process_release_fds, wake_parent, leave_queues, kill_other, kill_rest, kill_slot, with_retval,
  process_kill,
}
use tp2_so_nuevo.Kernel.Lifecycle.Steps.{
  shut, release_fds-KeptProcs, leave_queues_procs, clean_sems_ends, release_fds_rest,
  leave_queues_rest,
}
use tp2_so_nuevo.Kernel.Lifecycle.Waking.{
  Owned, Kept-Owned, Owned-trans, wake_parent-Owned, wake_parent-SameRest, wake_parent-is_free,
}

SameName-trans : (p q r : Pcb) → SameName p q → SameName q r → SameName p r
SameName-trans p q r a b = (b.0 ∙ a.0, b.1 ∙ a.1)

Kept-SameName : (p q : Pcb) → Kept p q → SameName p q
Kept-SameName p q k = (k.pid, Kept-is_free p q k)

module _ (mm : Allocator) where
  -- Slot `i` was given back with what it owned.
  pub record Killed (i : ℕ) (k k' : Kernel mm) : Type 0 where
    pub slot : (k'.procs.table i).state ≡ free
    pub pid : (k'.procs.table i).pid ≡ 0
    pub no_stack : (k'.procs.table i).stack_base ≡ 0
    pub no_arguments : (k'.procs.table i).argv ≡ 0
    pub freed :
        k'.heap
        ≡ free_unless_null mm
            (k.procs.table i).argv
            (free_unless_null mm (k.procs.table i).stack_base k.heap)
    pub balanced : AllBalanced k'.sems
    pub dequeued : Once i k.procs.run_queue → position i k'.procs.run_queue ≡ none
    pub others : (j : ℕ) → i ≢ j → SameName (k.procs.table j) (k'.procs.table j)

  -- The slot is taken from the queue and emptied.
  kill_other-Killed : (i : ℕ) (k : Kernel mm) → AllBalanced k.sems → Killed i k (kill_other mm i k)
  unfolding kill_other
  kill_other-Killed i k all =
      let s = scheduler_remove i k.procs in
      let k1 = with_procs mm k s in
      let k2 = process_release_fds mm i k1 in
      let (heap, sems, _) = release_fds_rest mm i k1 in
      let kept = release_fds-KeptProcs mm i k1 in
      let p = k2.procs.table i in
      let q = record p { stack_base = 0; argv = 0; state = free; pid = 0 } in
      let at = update_same k2.procs.table i q in
      let before : s.table ≡ k.procs.table = remove-table i k.procs in
      let own : Owned (shut (k.procs.table i)) p =
        subst (λ r. Owned r p)
          (update_same s.table i (shut (s.table i)) ∙ ap (λ (t : ℕ → Pcb). shut (t i)) before)
          (Kept-Owned _ _ (kept.slots i)) in
      record {
        slot = ap {A = Pcb} (λ r. r.state) at;
        pid = ap {A = Pcb} (λ r. r.pid) at;
        no_stack = ap {A = Pcb} (λ r. r.stack_base) at;
        no_arguments = ap {A = Pcb} (λ r. r.argv) at;
        freed =
            ap₂ (λ a b. free_unless_null mm a (free_unless_null mm b k2.heap)) own.argv
              own.stack_base
            ∙ ap
                (λ h.
                  free_unless_null mm (k.procs.table i).argv
                    (free_unless_null mm (k.procs.table i).stack_base h))
                heap;
        balanced = subst AllBalanced (sym sems) all;
        dequeued = λ once. ap (position i) kept.run_queue ∙ scheduler_remove-gone i k.procs once;
        others = λ j ne.
            subst (SameName (k.procs.table j)) (sym (update_other k2.procs.table i j q ne)) (
              subst (λ r. SameName r (k2.procs.table j))
                (update_other s.table i j (shut (s.table i)) ne ∙ ap (λ (t : ℕ → Pcb). t j) before)
                (Kept-SameName _ _ (kept.slots j)));
      }

  -- What came before the kill proper left the slot's memory, the queue and the other names.
  Killed-before :
      (i : ℕ) (k k2 k' : Kernel mm)
      → Owned (k.procs.table i) (record (k2.procs.table i) { retval = (k.procs.table i).retval })
      → k2.heap ≡ k.heap
      → k2.procs.run_queue ≡ k.procs.run_queue
      → ((j : ℕ) → i ≢ j → SameName (k.procs.table j) (k2.procs.table j))
      → Killed i k2 k'
      → Killed i k k'
  Killed-before i k k2 k' own heap queue names h = record {
    slot = h.slot;
    pid = h.pid;
    no_stack = h.no_stack;
    no_arguments = h.no_arguments;
    freed =
        h.freed
        ∙ ap₂ (λ a b. free_unless_null mm a (free_unless_null mm b k2.heap)) own.argv own.stack_base
        ∙ ap
            (λ g.
              free_unless_null mm (k.procs.table i).argv
                (free_unless_null mm (k.procs.table i).stack_base g))
            heap;
    balanced = h.balanced;
    dequeued = λ once. h.dequeued (subst (Once i) (sym queue) once);
    others = λ j ne.
        SameName-trans (k.procs.table j) (k2.procs.table j) (k'.procs.table j) (names j ne)
          (h.others j ne);
  }

  kill_rest-Killed :
      (i pid : ℕ) (k k1 : Kernel mm)
      → AllBalanced k1.sems
      → KeptProcs (with_retval mm i (negsuc 0) k).procs k1.procs
      → k1.heap ≡ k.heap
      → is_same k.procs.current i ≡ false
      → Killed i k (kill_rest mm i pid k1)
  unfolding kill_rest
  kill_rest-Killed i pid k k1 all kept heap other =
      let l = leave_queues mm i pid k1 in
      let parent = (l.procs.table i).parent_pid in
      let k2 = wake_parent mm pid (negsuc 0) parent l in
      let same = wake_parent-SameRest mm pid parent (negsuc 0) l in
      let (heap1, sems1) = leave_queues_rest mm i pid k1 in
      let s = (with_retval mm i (negsuc 0) k).procs in
      let p = record (k.procs.table i) { retval = negsuc 0 } in
      let kept' = subst (KeptProcs s) (sym (leave_queues_procs mm i pid k1)) kept in
      let own =
        Owned-trans _ _ _ (Kept-Owned _ _ (kept'.slots i))
          (wake_parent-Owned mm pid parent (negsuc 0) l i) in
      let own' : Owned p (k2.procs.table i) =
        subst (λ r. Owned r (k2.procs.table i)) (update_same k.procs.table i p) own in
      let not_me : is_same k2.procs.current i ≡ false =
        ap (λ c. is_same c i) (same.current ∙ kept'.current) ∙ other in
      rw not_me (
        Killed-before i k k2 (kill_other mm i k2)
          (record {
            pid = own'.pid;
            retval = refl;
            stack_base = own'.stack_base;
            argv = own'.argv;
            fd_in = own'.fd_in;
            fd_out = own'.fd_out;
          })
          (same.heap ∙ heap1 ∙ heap) (same.run_queue ∙ kept'.run_queue)
          (λ j ne.
            subst (λ r. SameName r (k2.procs.table j)) (update_other k.procs.table i j p ne)
              (SameName-trans (s.table j) (l.procs.table j) (k2.procs.table j)
                (Kept-SameName _ _ (kept'.slots j))
                (
                  (wake_parent-Owned mm pid parent (negsuc 0) l j).pid,
                  wake_parent-is_free mm pid parent (negsuc 0) l j,
                )))
          (kill_other-Killed i k2 (subst AllBalanced (sym (same.sems ∙ sems1)) all)))

  -- With the semaphores balanced and their locks free, the kill of a process that lives and is not
  -- the current one ends: it has left the run queue, if it stood there once, its stack and its
  -- arguments are freed, its slot is empty and its PID finds nothing, where no two processes in
  -- use had the same; the semaphores stay balanced, and a valid heap valid, if stack and arguments
  -- are NULL or were handed out.
  pub process_kill-Killed :
      (pid i : ℕ) (k : Kernel mm)
      → process_get pid k.procs.table ≡ some i
      → is_zombie (k.procs.table i).state ≡ false
      → is_same k.procs.current i ≡ false
      → AllBalanced k.sems
      → (k' : Kernel mm) × (process_kill mm pid k ≡ some k')
        × Killed i k k'
        × (BothGranted mm (k.procs.table i) k.heap → mm.IsValid k.heap → mm.IsValid k'.heap)
        × (PidsDiffer k.procs.table → process_get pid k'.procs.table ≡ none)
  unfolding process_kill kill_slot
  process_kill-Killed pid i k found alive other all =
      let (lt, name, used) = process_get_found pid k.procs.table i found in
      let (k1, e, all1, kept, heap, _) =
        clean_sems_ends mm pid (kill_rest mm i pid) (with_retval mm i (negsuc 0) k) all in
      let killed = kill_rest-Killed i pid k k1 all1 kept heap other in
      (
        kill_rest mm i pid k1,
        rw (found, used, alive, kill_slot) e,
        killed,
        λ granted valid.
            subst mm.IsValid (sym killed.freed)
              (free_both-IsValid mm (k.procs.table i) k.heap granted valid),
        λ differ.
            ap (λ n. process_get n (kill_rest mm i pid k1).procs.table) (sym name)
            ∙ process_get_gone i k.procs.table (kill_rest mm i pid k1).procs.table differ lt used
                (ap is_free killed.slot) killed.others,
      )
