-- ===== src/Process/Control/Nice.antt =====
-- `process_nice` and the order of the run queue.
use tp2_so_nuevo.Prelude.{
  ℕ, ◌≤◌, ◌≡◌, refl, sym, ap, subst, ◌∙◌, false, some, arith, length, is_same, remove_at, update,
  update_same,
}
use tp2_so_nuevo.Process.Pcb.{Pcb, Procs, is_zombie, max_processes, min_priority, max_priority}
use tp2_so_nuevo.Scheduler.{position}
use tp2_so_nuevo.Scheduler.Queue.{IsSorted, Placed}
use tp2_so_nuevo.Scheduler.Switch.Waiting.{Once}
use tp2_so_nuevo.Scheduler.Requeue.{Once-position, requeue-IsSorted, requeue-Placed}
use tp2_so_nuevo.Process.Control.Lookup.{process_get_found}
use tp2_so_nuevo.Process.Control.{process_get, clamp_priority, nice_slot, process_nice}

clamp_priority-bounds :
    (prio : ℕ) → (min_priority ≤ clamp_priority prio) × (clamp_priority prio ≤ max_priority)
unfolding clamp_priority
clamp_priority-bounds prio = ground arith

-- After the priority of a process is changed, it lies between 1 and 5, the process has that many
-- quanta and no time waited, and the other processes are as before. The run queue, where the process
-- stood once, is in order of falling priority again: the process stands behind those of its own or a
-- higher priority and before the lower ones, which are the queue without it. The process is not a
-- zombie and not the idle process, and the queue is no longer than its array.
pub process_nice-IsSorted :
    (pid i prio : ℕ) (s : Procs)
    → process_get pid s.table ≡ some i
    → is_zombie (s.table i).state ≡ false
    → Once i s.run_queue
    → IsSorted s.table s.run_queue
    → length s.run_queue ≤ max_processes
    → is_same s.idle i ≡ false
    → let s' = process_nice pid prio s in
      let p = s'.table i in
      IsSorted s'.table s'.run_queue
      × ((k : ℕ) × (position i s.run_queue ≡ some k)
          × Placed s'.table i (remove_at k s.run_queue) s'.run_queue)
      × ((1 ≤ p.priority)
          × (p.priority ≤ 5)
          × (p.remaining_quanta ≡ p.priority)
          × (p.wait_ticks ≡ 0))
      × (s'.table ≡ update s.table i p)
unfolding process_nice nice_slot
process_nice-IsSorted pid i prio s found z o h room idle =
    let (inside, same, f) = process_get_found pid s.table i found in
    let (k, at) = Once-position i s.run_queue o in
    let p : Pcb = record (s.table i) {
      priority = clamp_priority prio;
      wait_ticks = 0;
      remaining_quanta = clamp_priority prio;
    } in
    let (t, sorted) = requeue-IsSorted i k p s at o h in
    let e = ap (λ g. g i) t ∙ update_same s.table i p in
    let b = clamp_priority-bounds prio in
    rw (found, f, z)
      (
        sorted,
        (k, at, requeue-Placed i k p s at o h room idle),
        subst
            (λ q.
              (1 ≤ q.priority)
              × (q.priority ≤ 5)
              × (q.remaining_quanta ≡ q.priority)
              × (q.wait_ticks ≡ 0))
            (sym e) (b.0, b.1, refl, refl),
        t ∙ ap (update s.table i) (sym e),
      )
