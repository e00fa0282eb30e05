-- ===== src/Scheduler/Switch/Names.antt =====
-- A switch away from a zombie and the names of the other processes.
use tp2_so_nuevo.Prelude.{
  ℕ, ◌<◌, ◌≡◌, ◌≢◌, sym, ap, ap₂, subst, ◌∙◌, Bool, true, false, some, arith, length, get_or,
  update, update_same, update_other, ℕ_discrete,
}
use tp2_so_nuevo.Allocator.{Allocator}
use tp2_so_nuevo.Process.Pcb.{
  ProcessState, Pcb, Procs, running, is_free, is_ready, is_zombie, set_slot,
}
use tp2_so_nuevo.Process.Control.Lookup.{SameName}
use tp2_so_nuevo.Scheduler.{scheduler_remove, scheduler_next_ready}
use tp2_so_nuevo.Scheduler.Queue.{remove-table}
use tp2_so_nuevo.Scheduler.Selection.{scheduler_next_ready-Chosen}
use tp2_so_nuevo.Scheduler.Switch.{
  give_up, release_slot, run_next, Machine, yield_from, reap, reap_current, switch_to, pick_next,
  scheduler_yield_impl,
}

-- All slots but `c` keep their PIDs, and whether they are in use.
abbrev pub OthersNamed : ℕ → (ℕ → Pcb) → (ℕ → Pcb) → Type 0
OthersNamed c t u = (j : ℕ) → c ≢ j → SameName (t j) (u j)

module _ (mm : Allocator) where
  -- The next process is in use, and starts to run.
  run_next-Named :
      (c n : ℕ) (t : ℕ → Pcb) (s : Procs)
      → c ≢ n
      → is_ready (t n).state ≡ true
      → ((j : ℕ) → c ≢ j → s.table j ≡ t j)
      → OthersNamed c t (run_next n s).table
  unfolding run_next
  run_next-Named c n t s ne r same j other =
      let p = record (s.table n) { wait_ticks = 0; state = running } in
      elim (ℕ_discrete n j) [
        | yes e ↦
            let used : is_free (t n).state ≡ false = ground arith in
            subst (λ k. SameName (t k) (update s.table n p k)) e
              (subst (SameName (t n)) (sym (update_same s.table n p))
                (ap {A = Pcb} (λ q. q.pid) (same n ne), sym used))
        | no ne' ↦
            let e = update_other s.table n j p ne' ∙ same j other in
            (ap {A = Pcb} (λ q. q.pid) e, ap {A = Pcb} (λ q. is_free q.state) e)
      ]

  reap_others :
      (c : ℕ) (m : Machine mm)
      → is_zombie (m.procs.table c).state ≡ true
      → (j : ℕ) → c ≢ j
      → (reap mm c m).procs.table j ≡ m.procs.table j
  unfolding reap release_slot
  reap_others c m dead j ne =
      let s = scheduler_remove c m.procs in
      rw dead (update_other s.table c j _ ne ∙ ap (λ (t : ℕ → Pcb). t j) (remove-table c m.procs))

  switch_to-Named :
      (may : ProcessState → Bool) (rsp c n : ℕ) (m : Machine mm)
      → m.procs.current ≡ some c
      → is_zombie (m.procs.table c).state ≡ true
      → c ≢ n
      → is_ready (m.procs.table n).state ≡ true
      → OthersNamed c m.procs.table (switch_to mm may rsp (some n) m).1.procs.table
  unfolding switch_to
  switch_to-Named may rsp c n m at dead ne r =
      subst (λ cur. OthersNamed c m.procs.table (run_next n (reap_current mm cur m).procs).table)
        (sym at) (run_next-Named c n m.procs.table (reap mm c m).procs ne r (reap_others c m dead))

  live_is_not_dead : (p : Pcb) → is_ready p.state ≡ true → is_zombie p.state ≡ true → ⊥
  live_is_not_dead p r dead = ground arith

  pick_next-Named :
      (may : ProcessState → Bool) (rsp c i : ℕ) (m : Machine mm)
      → m.procs.current ≡ some c
      → is_zombie (m.procs.table c).state ≡ true
      → m.procs.queue_idx < length m.procs.run_queue
      → i < length m.procs.run_queue
      → is_ready (m.procs.table (get_or m.procs.run_queue i 0)).state ≡ true
      → OthersNamed c m.procs.table (pick_next mm may rsp m).1.procs.table
  unfolding pick_next
  pick_next-Named may rsp c i m at dead lt inside r =
      let (n, chosen, p) = scheduler_next_ready-Chosen m.procs i lt inside r in
      let ne : c ≢ n = λ e.
        live_is_not_dead (m.procs.table n) p.is_ready_now
          (ap (λ k. is_zombie (m.procs.table k).state) (sym e) ∙ dead) in
      let moved = record m.procs { queue_idx = (scheduler_next_ready m.procs).1.queue_idx } in
      subst (λ (r : ℕ × Machine mm). OthersNamed c m.procs.table r.1.procs.table)
        (sym (
          ap₂ (λ next (s : Procs). switch_to mm may rsp next (record m { procs = s })) chosen
            p.rest))
        (switch_to-Named may rsp c n (record m { procs = moved }) at dead ne p.is_ready_now)

  give_up_dead : (p : Pcb) → is_zombie p.state ≡ true → is_zombie (give_up p).state ≡ true
  unfolding give_up
  give_up_dead p dead = ground arith

  yield_from-Named :
      (rsp c i : ℕ) (m : Machine mm)
      → m.procs.current ≡ some c
      → is_zombie (m.procs.table c).state ≡ true
      → m.procs.queue_idx < length m.procs.run_queue
      → i < length m.procs.run_queue
      → is_ready (m.procs.table (get_or m.procs.run_queue i 0)).state ≡ true
      → OthersNamed c m.procs.table (yield_from mm (some c) rsp m).1.procs.table
  unfolding yield_from
  yield_from-Named rsp c i m at dead lt inside r j ne =
      let p = give_up (record (m.procs.table c) { rsp = rsp }) in
      let s = set_slot m.procs c p in
      let k = get_or m.procs.run_queue i 0 in
      let other : c ≢ k = λ e.
        live_is_not_dead (m.procs.table k) r
          (ap (λ d. is_zombie (m.procs.table d).state) (sym e) ∙ dead) in
      subst (λ q. SameName q ((pick_next mm is_ready rsp (record m { procs = s })).1.procs.table j))
        (update_other m.procs.table c j p ne)
        (pick_next-Named is_ready rsp c i (record m { procs = s }) at
          (ap (λ q. is_zombie q.state) (update_same m.procs.table c p)
            ∙ give_up_dead (record (m.procs.table c) { rsp = rsp }) dead)
          lt inside (ap (λ q. is_ready q.state) (update_other m.procs.table c k p other) ∙ r) j ne)

  -- A yield away from a zombie, where somebody of the run queue is READY, leaves the PIDs of the
  -- others.
  pub scheduler_yield_impl-Named :
      (rsp c i : ℕ) (m : Machine mm)
      → m.procs.current ≡ some c
      → is_zombie (m.procs.table c).state ≡ true
      → m.procs.queue_idx < length m.procs.run_queue
      → i < length m.procs.run_queue
      → is_ready (m.procs.table (get_or m.procs.run_queue i 0)).state ≡ true
      → OthersNamed c m.procs.table (scheduler_yield_impl mm rsp m).1.procs.table
  unfolding scheduler_yield_impl
  scheduler_yield_impl-Named rsp c i m at dead lt inside r =
      subst (λ cur. OthersNamed c m.procs.table (yield_from mm cur rsp m).1.procs.table) (sym at)
        (yield_from-Named rsp c i m at dead lt inside r)
