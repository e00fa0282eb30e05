-- ===== src/Kernel/Lifecycle/Wait.antt =====
-- `process_waitpid`.
use tp2_so_nuevo.Prelude.{
  ℕ, ◌<◌, ◌≡◌, refl, sym, ap, subst, true, false, none, some, arith, length, get_or, update,
  update_same, update_other, pos, negsuc,
}
use tp2_so_nuevo.Allocator.{Allocator}
use tp2_so_nuevo.Process.Pcb.{
  Pcb, free, blocked, is_free, is_zombie, is_ready, max_processes, set_slot,
}
use tp2_so_nuevo.Process.Control.{process_get}
use tp2_so_nuevo.Process.Control.Lookup.{PidsDiffer, process_get_found, process_get_gone}
use tp2_so_nuevo.Scheduler.Switch.{free_unless_null, scheduler_yield_impl}
use tp2_so_nuevo.Scheduler.Switch.Memory.{
  BothGranted, free_both-IsValid, scheduler_yield_impl-Reaped,
}
use tp2_so_nuevo.Scheduler.Switch.Names.{scheduler_yield_impl-Named}
use tp2_so_nuevo.Kernel.{Kernel, machine_of, with_machine, with_procs}
use tp2_so_nuevo.Kernel.Lifecycle.{reclaim, wait_for, waitpid_slot, process_waitpid}

module _ (mm : Allocator) where
  -- The zombie in slot `i` is gone.
  pub record Reclaimed (i : ℕ) (k k' : Kernel mm) : Type 0 where
    pub slot : (k'.procs.table i).state ≡ free
    pub no_stack : (k'.procs.table i).stack_base ≡ 0
    pub no_arguments : (k'.procs.table i).argv ≡ 0
    pub freed :
        k'.heap
        ≡ free_unless_null mm
            (k.procs.table i).argv
            (free_unless_null mm (k.procs.table i).stack_base k.heap)
    pub valid : BothGranted mm (k.procs.table i) k.heap → mm.IsValid k.heap → mm.IsValid k'.heap
    pub rest : k' ≡ record k { heap = k'.heap; procs = set_slot k.procs i (k'.procs.table i) }
    pub unknown : PidsDiffer k.procs.table → process_get (k.procs.table i).pid k'.procs.table ≡ none

  -- The process in slot `c` waits for this PID.
  pub record Waits (c pid : ℕ) (k k' : Kernel mm) : Type 0 where
    pub stops : (k'.procs.table c).state ≡ blocked
    pub waits_for : (k'.procs.table c).waiting_for ≡ pid
    pub switches : k'.procs.force_switch ≡ true
    pub rest :
        k'
        ≡ with_procs mm k (record (set_slot k.procs c (k'.procs.table c)) { force_switch = true })

  reclaim-Reclaimed :
      (i : ℕ) (k : Kernel mm)
      → i < max_processes
      → is_free (k.procs.table i).state ≡ false
      → Reclaimed i k (reclaim mm i k)
  unfolding reclaim
  reclaim-Reclaimed i k lt used =
      let p = k.procs.table i in
      let q = record p { stack_base = 0; argv = 0; rsp = 0; state = free; pid = 0 } in
      let at = update_same k.procs.table i q in
      record {
        slot = ap {A = Pcb} (λ r. r.state) at;
        no_stack = ap {A = Pcb} (λ r. r.stack_base) at;
        no_arguments = ap {A = Pcb} (λ r. r.argv) at;
        freed = refl;
        valid = λ granted v. free_both-IsValid mm p k.heap granted v;
        rest =
            ap {A = Pcb} (λ r. record (reclaim mm i k) { procs = set_slot k.procs i r }) (sym at);
        unknown = λ differ.
            process_get_gone i k.procs.table (update k.procs.table i q) differ lt used
              (ap {A = Pcb} (λ r. is_free r.state) at)
              (λ j ne.
                let e = update_other k.procs.table i j q ne in
                (ap {A = Pcb} (λ r. r.pid) e, ap {A = Pcb} (λ r. is_free r.state) e));
      }

  wait_for-Waits :
      (c pid : ℕ) (k : Kernel mm) → Waits c pid k (with_procs mm k (wait_for pid (some c) k.procs))
  unfolding wait_for
  wait_for-Waits c pid k =
      let p = record (k.procs.table c) { state = blocked; waiting_for = pid } in
      let at = update_same k.procs.table c p in
      record {
        stops = ap {A = Pcb} (λ r. r.state) at;
        waits_for = ap {A = Pcb} (λ r. r.waiting_for) at;
        switches = refl;
        rest =
            ap {A = Pcb}
              (λ q. with_procs mm k (record (set_slot k.procs c q) { force_switch = true }))
              (sym at);
      }

  unknown_pid :
      (pid : ℕ) (k : Kernel mm)
      → process_get pid k.procs.table ≡ none
      → process_waitpid mm pid k ≡ (negsuc 0, k)
  unfolding process_waitpid waitpid_slot
  unknown_pid pid k unknown = rw unknown refl

  -- A zombie gives its return value; its stack and its arguments are freed, its slot is empty, and
  -- no other slot and nothing else changes; a valid heap stays valid, if these two are NULL or were
  -- handed out; where no two processes in use had one PID, a second wait for it gives -1 and
  -- changes nothing. A live process gives 0: the current process, if there is one, is BLOCKED and
  -- notes the PID, a switch is asked for, and nothing else changes. An unknown PID gives -1 and
  -- changes nothing.
  pub process_waitpid_lem :
      (pid : ℕ) (k : Kernel mm)
      → ((i : ℕ)
          → process_get pid k.procs.table ≡ some i
          → is_zombie (k.procs.table i).state ≡ true
          → let (r, k') = process_waitpid mm pid k in
            (r ≡ (k.procs.table i).retval)
            × Reclaimed i k k'
            × (PidsDiffer k.procs.table → process_waitpid mm pid k' ≡ (negsuc 0, k')))
        × ((i : ℕ)
            → process_get pid k.procs.table ≡ some i
            → is_zombie (k.procs.table i).state ≡ false
            → let (r, k') = process_waitpid mm pid k in
              (r ≡ pos 0)
              × ((c : ℕ) → k.procs.current ≡ some c → Waits c pid k k')
              × (k.procs.current ≡ none
                  → k' ≡ with_procs mm k (record k.procs { force_switch = true })))
        × (process_get pid k.procs.table ≡ none → process_waitpid mm pid k ≡ (negsuc 0, k))
  unfolding process_waitpid waitpid_slot wait_for
  process_waitpid_lem pid k = (
    λ i found dead.
        let (lt, name, used) = process_get_found pid k.procs.table i found in
        let gone = reclaim-Reclaimed i k lt used in
        rw (found, dead, waitpid_slot)
          (
            refl,
            gone,
            λ differ. unknown_pid pid (reclaim mm i k) (
                subst (λ n. process_get n (reclaim mm i k).procs.table ≡ none) name
                  (gone.unknown differ)),
          ),
    λ i found alive.
        rw (found, alive, waitpid_slot)
          (
            refl,
            λ c cur.
                subst (λ o. Waits c pid k (with_procs mm k (wait_for pid o k.procs))) (sym cur)
                  (wait_for-Waits c pid k),
            λ nobody. ap (λ o. with_procs mm k (wait_for pid o k.procs)) nobody,
          ),
    λ unknown. unknown_pid pid k unknown,
  )

  -- Once the current process, a zombie, has yielded to somebody READY of the run queue, its slot
  -- is empty and its return value lost: a wait for its PID gives -1. The cursor is inside the
  -- queue, and no two processes in use have one PID.
  pub process_waitpid_late :
      (rsp c i : ℕ) (k : Kernel mm)
      → k.procs.current ≡ some c
      → c < max_processes
      → is_zombie (k.procs.table c).state ≡ true
      → PidsDiffer k.procs.table
      → k.procs.queue_idx < length k.procs.run_queue
      → i < length k.procs.run_queue
      → is_ready (k.procs.table (get_or k.procs.run_queue i 0)).state ≡ true
      → let k' = with_machine mm k (scheduler_yield_impl mm rsp (machine_of mm k)).1 in
        process_waitpid mm (k.procs.table c).pid k' ≡ (negsuc 0, k')
  process_waitpid_late rsp c i k cur lt dead differ idx inside r =
      let m = machine_of mm k in
      let m' = (scheduler_yield_impl mm rsp m).1 in
      let used : is_free (k.procs.table c).state ≡ false = ground arith in
      unknown_pid (k.procs.table c).pid (with_machine mm k m') (
        process_get_gone c k.procs.table m'.procs.table differ lt used
          (scheduler_yield_impl-Reaped mm rsp c i m cur dead idx inside r).slot
          (scheduler_yield_impl-Named mm rsp c i m cur dead idx inside r))
