-- ===== src/Kernel/Lifecycle/Exit.antt =====
-- `process_exit`.
use tp2_so_nuevo.Prelude.{
  ℕ, ◌≡◌, ◌≢◌, refl, sym, ap, subst, ◌∙◌, true, some, update, update_same, update_other, ℤ,
}
use tp2_so_nuevo.Allocator.{Allocator}
use tp2_so_nuevo.Process.Pcb.{Pcb, Procs, zombie, set_slot}
use tp2_so_nuevo.Process.Control.{process_get}
use tp2_so_nuevo.Process.Control.Lookup.{process_get-update}
use tp2_so_nuevo.Process.Control.Kept.{
  Kept, KeptProcs, KeptProcs-trans, set_slot_mono, Kept-process_get,
}
use tp2_so_nuevo.Semaphore.Balance.{AllBalanced}
use tp2_so_nuevo.Kernel.{Kernel, with_procs}
use tp2_so_nuevo.Kernel.Lifecycle.{
  process_release_fds, wake_parent, leave_queues, clean_sems, exit_rest, exit_from, with_retval,
  process_exit,
}
use tp2_so_nuevo.Kernel.Lifecycle.Steps.{
  shut, shut_mono, release_fds-KeptProcs, leave_queues_procs, clean_sems_ends, release_fds_rest,
  leave_queues_rest,
}
use tp2_so_nuevo.Kernel.Lifecycle.Waking.{
  Owned, Owned-trans, Kept-Owned, wake_parent-Answered, wake_parent-Owned, wake_parent-SameRest,
}
use tp2_so_nuevo.Kernel.Lifecycle.Parent.{ParentGoesOn, Answered-GoesOn, GoesOn-ext}

-- The PCB that ends with this value, its descriptors closed.
abbrev pub ended : ℤ → Pcb → Pcb
ended retval p = shut (record p { retval = retval })

zombie-Owned : (p q : Pcb) → Owned p q → Owned p (record q { state = zombie })
zombie-Owned p q o = record {
  pid = o.pid;
  retval = o.retval;
  stack_base = o.stack_base;
  argv = o.argv;
  fd_in = o.fd_in;
  fd_out = o.fd_out;
}

module _ (mm : Allocator) where
  -- The slot of a process that has ended, but still runs.
  pub record Ended (c : ℕ) (retval : ℤ) (k k' : Kernel mm) : Type 0 where
    pub dead : (k'.procs.table c).state ≡ zombie
    pub owned : Owned (ended retval (k.procs.table c)) (k'.procs.table c)
    pub switches : k'.procs.force_switch ≡ true
    pub current : k'.procs.current ≡ k.procs.current
    pub heap : k'.heap ≡ k.heap
    pub balanced : AllBalanced k'.sems

  -- The processes with slot `c` ended, and nothing else done.
  abbrev pub base : ℕ → ℤ → Kernel mm → Procs
  base c retval k = let s = (with_retval mm c retval k).procs in set_slot s c (shut (s.table c))

  pub base_self :
      (c : ℕ) (retval : ℤ) (k : Kernel mm)
      → (base c retval k).table c ≡ ended retval (k.procs.table c)
  base_self c retval k =
      let s = (with_retval mm c retval k).procs in
      update_same s.table c (shut (s.table c))
      ∙ ap {A = Pcb} shut
          (update_same k.procs.table c (record (k.procs.table c) { retval = retval }))

  pub base_other :
      (c j : ℕ) (retval : ℤ) (k : Kernel mm) → c ≢ j → (base c retval k).table j ≡ k.procs.table j
  base_other c j retval k ne =
      let s = (with_retval mm c retval k).procs in
      update_other s.table c j (shut (s.table c)) ne
      ∙ update_other k.procs.table c j (record (k.procs.table c) { retval = retval }) ne

  pub process_get-base :
      (pid c : ℕ) (retval : ℤ) (k : Kernel mm)
      → process_get pid (base c retval k).table ≡ process_get pid k.procs.table
  process_get-base pid c retval k =
      let s = (with_retval mm c retval k).procs in
      process_get-update pid s.table c (shut (s.table c)) refl refl
      ∙ process_get-update pid k.procs.table c (record (k.procs.table c) { retval = retval }) refl
          refl

  -- Once the queues and descriptors of slot `c` are released.
  abbrev pub released : ℕ → ℕ → Kernel mm → Kernel mm
  released c pid k = process_release_fds mm c (leave_queues mm c pid k)

  released-KeptProcs :
      (c pid : ℕ) (retval : ℤ) (k k1 : Kernel mm)
      → KeptProcs (with_retval mm c retval k).procs k1.procs
      → KeptProcs (base c retval k) (process_release_fds mm c (leave_queues mm c pid k1)).procs
  released-KeptProcs c pid retval k k1 kept =
      let s = (with_retval mm c retval k).procs in
      let l = leave_queues mm c pid k1 in
      let kept' = subst (KeptProcs s) (sym (leave_queues_procs mm c pid k1)) kept in
      KeptProcs-trans _ _ _
        (set_slot_mono c (shut (s.table c)) (shut (l.procs.table c)) s l.procs kept'
          (shut_mono (s.table c) (l.procs.table c) (kept'.slots c)))
        (release_fds-KeptProcs mm c l)

  -- Slot `c` becomes a zombie, and asks for a switch.
  abbrev retired : ℕ → Kernel mm → Kernel mm
  retired c k =
      with_procs mm k (record (set_slot k.procs c (record (k.procs.table c) { state = zombie })) {
        force_switch = true;
      })

  exit_rest-Ended :
      (c pid : ℕ) (retval : ℤ) (k k1 : Kernel mm)
      → AllBalanced k1.sems
      → KeptProcs (with_retval mm c retval k).procs k1.procs
      → k1.heap ≡ k.heap
      → Ended c retval k (exit_rest mm c pid retval k1)
  unfolding exit_rest
  exit_rest-Ended c pid retval k k1 all kept heap =
      let l = leave_queues mm c pid k1 in
      let k2 = process_release_fds mm c l in
      let parent = (k2.procs.table c).parent_pid in
      let k3 = wake_parent mm pid retval parent k2 in
      let same = wake_parent-SameRest mm pid parent retval k2 in
      let (heap2, sems2, _) = release_fds_rest mm c l in
      let (heap1, sems1) = leave_queues_rest mm c pid k1 in
      let kept' = released-KeptProcs c pid retval k k1 kept in
      let at = update_same k3.procs.table c (record (k3.procs.table c) { state = zombie }) in
      let owned =
        Owned-trans _ _ _ (Kept-Owned _ _ (kept'.slots c))
          (wake_parent-Owned mm pid parent retval k2 c) in
      record {
        dead = ap {A = Pcb} (λ p. p.state) at;
        owned =
            subst
              (λ p.
                Owned p (update k3.procs.table c (record (k3.procs.table c) { state = zombie }) c))
              (base_self c retval k)
              (subst (Owned ((base c retval k).table c)) (sym at) (zombie-Owned _ _ owned));
        switches = refl;
        current = same.current ∙ kept'.current;
        heap = same.heap ∙ heap2 ∙ heap1 ∙ heap;
        balanced = subst AllBalanced (sym (same.sems ∙ sems2 ∙ sems1)) all;
      }

  exit_rest-GoesOn :
      (c pid j : ℕ) (retval : ℤ) (k k1 : Kernel mm)
      → KeptProcs (with_retval mm c retval k).procs k1.procs
      → process_get (k.procs.table c).parent_pid k.procs.table ≡ some j
      → c ≢ j
      → ParentGoesOn mm pid retval j k (released c pid k1) (exit_rest mm c pid retval k1)
  unfolding exit_rest
  exit_rest-GoesOn c pid j retval k k1 kept found ne =
      let l = leave_queues mm c pid k1 in
      let k2 = process_release_fds mm c l in
      let parent = (k2.procs.table c).parent_pid in
      let k3 = wake_parent mm pid retval parent k2 in
      let kept' = released-KeptProcs c pid retval k k1 kept in
      let who : parent ≡ (k.procs.table c).parent_pid =
        (kept'.slots c).parent_pid ∙ ap {A = Pcb} (λ p. p.parent_pid) (base_self c retval k) in
      let found' : process_get parent k2.procs.table ≡ some j =
        Kept-process_get parent (base c retval k).table k2.procs.table kept'.slots
        ∙ process_get-base parent c retval k
        ∙ ap (λ n. process_get n k.procs.table) who
        ∙ found in
      let a = wake_parent-Answered mm pid parent j retval k2 found' in
      let b =
        Answered-GoesOn mm pid retval j k k2 k3
          (subst (λ p. Kept p (k2.procs.table j)) (base_other c j retval k ne) (kept'.slots j)) a in
      let other =
        update_other k3.procs.table c j (record (k3.procs.table c) { state = zombie }) ne in
      GoesOn-ext mm pid retval j k k2 k3 (retired c k3) other refl b

  -- With the semaphores balanced and their locks free, an exit of the current process ends: it is
  -- a zombie with its return value, without descriptors, still with its stack, and asks for a
  -- switch; the semaphores stay balanced. Its parent, where that is another process in use, waits
  -- for it no more. If the parent noted its PID and is still BLOCKED when the semaphores, queues
  -- and descriptors of the process are released, it becomes READY, with the value in RAX and no
  -- PID noted; if the releases had woken it before, it stays as they left it, READY.
  pub process_exit-Ended :
      (c : ℕ) (retval : ℤ) (k : Kernel mm)
      → k.procs.current ≡ some c
      → AllBalanced k.sems
      → (k' : Kernel mm) × (process_exit mm retval k ≡ some k')
        × Ended c retval k k'
        × ((k1 : Kernel mm) × (clean_sems mm
                (k.procs.table c).pid
                (λ s. s)
                (with_retval mm c retval k)
              ≡ some k1)
            × ((j : ℕ)
                → c ≢ j
                → process_get (k.procs.table c).parent_pid k.procs.table ≡ some j
                → ParentGoesOn mm
                    (k.procs.table c).pid
                    retval
                    j
                    k
                    (released c (k.procs.table c).pid k1)
                    k'))
  unfolding process_exit exit_from
  process_exit-Ended c retval k cur all =
      let pid = (k.procs.table c).pid in
      let (k1, e, all1, kept, heap, cleaned) =
        clean_sems_ends mm pid (exit_rest mm c pid retval) (with_retval mm c retval k) all in
      (
        exit_rest mm c pid retval k1,
        subst (λ o. exit_from mm o retval k ≡ some (exit_rest mm c pid retval k1)) (sym cur) e,
        exit_rest-Ended c pid retval k k1 all1 kept heap,
        (k1, cleaned, λ j ne found. exit_rest-GoesOn c pid j retval k k1 kept found ne),
      )
