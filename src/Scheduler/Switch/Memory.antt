-- ===== src/Scheduler/Switch/Memory.antt =====
-- What a context switch frees.
use tp2_so_nuevo.Prelude.{
  ℕ, ◌<◌, ◌≡◌, ◌≢◌, sym, ap, ap₂, ◌∙◌, subst, Bool, true, false, some, get_or, ◌==◌, arith,
  Bool-cases, inl, inr, ◌⊎◌, length, ==_refl, ==_of_ne, update_same, update_other,
}
use tp2_so_nuevo.Allocator.{Allocator}
use tp2_so_nuevo.Process.Pcb.{ProcessState, is_ready, is_zombie, is_free, Pcb, Procs, set_slot}
use tp2_so_nuevo.Scheduler.{scheduler_next_ready}
use tp2_so_nuevo.Scheduler.Selection.{scheduler_next_ready-Chosen}
use tp2_so_nuevo.Scheduler.Switch.{
  free_unless_null, give_up, release_slot, run_next, Machine, yield_from, reap, reap_current,
  switch_to, pick_next, scheduler_yield_impl,
}

module _ (mm : Allocator) where
  -- NULL, or a pointer that was handed out.
  abbrev pub MayFree : ℕ → mm.Heap → Type 0
  MayFree ptr h = (ptr ≡ 0) ⊎ mm.IsGranted ptr h

  pub free_unless_null-IsValid :
      (ptr : ℕ) (h : mm.Heap)
      → MayFree ptr h
      → mm.IsValid h
      → mm.IsValid (free_unless_null mm ptr h)
  free_unless_null-IsValid ptr h may v = elim (Bool-cases (ptr == 0)) [
    | inl null ↦ rw null v
    | inr given ↦ rw given (elim may [
      | inl zero_ptr ↦ absurd (ground arith)
      | inr granted ↦ mm.free-IsValid ptr h granted v
    ])
  ]

  -- The stack and the arguments of a process: each is NULL or was handed out, the arguments also
  -- once the stack is freed.
  abbrev pub BothGranted : Pcb → mm.Heap → Type 0
  BothGranted p h = MayFree p.stack_base h × MayFree p.argv (free_unless_null mm p.stack_base h)

  pub free_both-IsValid :
      (p : Pcb) (h : mm.Heap)
      → BothGranted p h
      → mm.IsValid h
      → mm.IsValid (free_unless_null mm p.argv (free_unless_null mm p.stack_base h))
  free_both-IsValid p h (stack, args) v =
      free_unless_null-IsValid p.argv (free_unless_null mm p.stack_base h) args
        (free_unless_null-IsValid p.stack_base h stack v)

  -- What is left of a zombie that had this stack, these arguments and this heap.
  pub record Reaped (c stack argv : ℕ) (heap : mm.Heap) (after : Machine mm) : Type 0 where
    pub slot : is_free (after.procs.table c).state ≡ true
    pub pid : (after.procs.table c).pid ≡ 0
    pub no_stack : (after.procs.table c).stack_base ≡ 0
    pub no_arguments : (after.procs.table c).argv ≡ 0
    pub freed : after.heap ≡ free_unless_null mm argv (free_unless_null mm stack heap)

  abbrev OfZombie : ℕ → Machine mm → Machine mm → Type 0
  OfZombie c m = Reaped c (m.procs.table c).stack_base (m.procs.table c).argv m.heap

  run_next-Reaped :
      (c n : ℕ) (m : Machine mm)
      → is_zombie (m.procs.table c).state ≡ true
      → n ≢ c
      → OfZombie c m (record (reap mm c m) { procs = run_next n (reap mm c m).procs })
  unfolding reap release_slot run_next
  run_next-Reaped c n m dead ne =
      let other : (n == c) ≡ false = ==_of_ne n c ne in
      record {
        slot = rw (dead, other, ==_refl c);
        pid = rw (dead, other, ==_refl c);
        no_stack = rw (dead, other, ==_refl c);
        no_arguments = rw (dead, other, ==_refl c);
        freed = rw dead;
      }

  switch_to-Reaped :
      (may : ProcessState → Bool) (rsp c n : ℕ) (m : Machine mm)
      → m.procs.current ≡ some c
      → is_zombie (m.procs.table c).state ≡ true
      → n ≢ c
      → OfZombie c m (switch_to mm may rsp (some n) m).1
  unfolding switch_to
  switch_to-Reaped may rsp c n m at dead ne =
      subst
        (λ cur.
          OfZombie c m
            (record (reap_current mm cur m) { procs = run_next n (reap_current mm cur m).procs }))
        (sym at) (run_next-Reaped c n m dead ne)

  live_is_not_dead : (p : Pcb) → is_ready p.state ≡ true → is_zombie p.state ≡ true → ⊥
  live_is_not_dead p r dead = ground arith

  pick_next-Reaped :
      (may : ProcessState → Bool) (rsp c i : ℕ) (m : Machine mm)
      → m.procs.current ≡ some c
      → is_zombie (m.procs.table c).state ≡ true
      → m.procs.queue_idx < length m.procs.run_queue
      → i < length m.procs.run_queue
      → is_ready (m.procs.table (get_or m.procs.run_queue i 0)).state ≡ true
      → OfZombie c m (pick_next mm may rsp m).1
  unfolding pick_next
  pick_next-Reaped may rsp c i m at dead lt inside r =
      let (n, chosen, p) = scheduler_next_ready-Chosen m.procs i lt inside r in
      let ne : n ≢ c = λ e.
        live_is_not_dead (m.procs.table n) p.is_ready_now
          (ap (λ k. is_zombie (m.procs.table k).state) e ∙ dead) in
      let moved = record m.procs { queue_idx = (scheduler_next_ready m.procs).1.queue_idx } in
      subst (λ r. OfZombie c m r.1)
        (sym (
          ap₂ (λ next (s : Procs). switch_to mm may rsp next (record m { procs = s })) chosen
            p.rest))
        (switch_to-Reaped may rsp c n (record m { procs = moved }) at dead ne)

  give_up_dead : (p : Pcb) → is_zombie p.state ≡ true → is_zombie (give_up p).state ≡ true
  unfolding give_up
  give_up_dead p dead = ground arith

  yielded-Reaped :
      (rsp c i : ℕ) (m : Machine mm)
      → m.procs.current ≡ some c
      → is_zombie (m.procs.table c).state ≡ true
      → m.procs.queue_idx < length m.procs.run_queue
      → i < length m.procs.run_queue
      → is_ready (m.procs.table (get_or m.procs.run_queue i 0)).state ≡ true
      → OfZombie c m (yield_from mm (some c) rsp m).1
  unfolding yield_from give_up
  yielded-Reaped rsp c i m at dead lt inside r =
      let p = give_up (record (m.procs.table c) { rsp = rsp }) in
      let s = set_slot m.procs c p in
      let k = get_or m.procs.run_queue i 0 in
      let other : c ≢ k = λ e.
        live_is_not_dead (m.procs.table k) r
          (ap (λ d. is_zombie (m.procs.table d).state) (sym e) ∙ dead) in
      subst
        (λ q.
          Reaped c q.stack_base q.argv m.heap
            (pick_next mm is_ready rsp (record m { procs = s })).1)
        (update_same m.procs.table c p)
        (pick_next-Reaped is_ready rsp c i (record m { procs = s }) at
          (ap (λ q. is_zombie q.state) (update_same m.procs.table c p)
            ∙ give_up_dead (record (m.procs.table c) { rsp = rsp }) dead)
          lt inside (ap (λ q. is_ready q.state) (update_other m.procs.table c k p other) ∙ r))

  -- When the current process is a zombie and somebody of the run queue is READY, a yield frees its
  -- stack and its arguments and empties its slot.
  pub scheduler_yield_impl-Reaped :
      (rsp c i : ℕ) (m : Machine mm)
      → m.procs.current ≡ some c
      → is_zombie (m.procs.table c).state ≡ true
      → m.procs.queue_idx < length m.procs.run_queue
      → i < length m.procs.run_queue
      → is_ready (m.procs.table (get_or m.procs.run_queue i 0)).state ≡ true
      → Reaped c
          (m.procs.table c).stack_base
          (m.procs.table c).argv
          m.heap
          (scheduler_yield_impl mm rsp m).1
  unfolding scheduler_yield_impl
  scheduler_yield_impl-Reaped rsp c i m at dead lt inside r =
      subst (λ cur. OfZombie c m (yield_from mm cur rsp m).1) (sym at)
        (yielded-Reaped rsp c i m at dead lt inside r)
