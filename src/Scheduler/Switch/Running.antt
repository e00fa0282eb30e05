-- ===== src/Scheduler/Switch/Running.antt =====
-- Who has the CPU after a tick or a yield, and for how long.
use tp2_so_nuevo.Prelude.{
  ℕ, ◌≡◌, refl, ◌∙◌, Bool, true, false, List, [], ◌∷◌, Option, none, some, arith, Bool-cases, inl,
  inr,
}
use tp2_so_nuevo.Allocator.{Allocator}
use tp2_so_nuevo.Process.Pcb.{ProcessState, is_ready, is_running, is_zombie, Pcb, Procs, set_slot}
use tp2_so_nuevo.Scheduler.{scheduler_next_ready}
use tp2_so_nuevo.Scheduler.Queue.{remove-table}
use tp2_so_nuevo.Scheduler.Switch.{
  age, age_one, older, spend, give_up, release_slot, run_next, may_stay_tick, stay, Machine,
  tick_from, yield_from, reap, reap_current, stay_current, switch_to, pick_next, count_tick,
  interrupt, scheduler_tick, scheduler_yield_impl,
}

-- Only the current process is RUNNING.
abbrev pub OneRunning : Procs → Type 0
OneRunning s = (i : ℕ) → is_running (s.table i).state ≡ true → s.current ≡ some i

abbrev NoneRunning : (ℕ → Pcb) → Type 0
NoneRunning table = (i : ℕ) → is_running (table i).state ≡ false

-- Aging changes nobody's state, and nothing of the current process.
pub age-state :
    (cur : Option ℕ) (q : List ℕ) (table : ℕ → Pcb) (i : ℕ)
    → (age cur q table i).state ≡ (table i).state
unfolding age age_one older
age-state cur [] table i = refl
age-state cur (x ∷ xs) table i = age-state cur xs _ i ∙ ground arith

pub age_current : (c : ℕ) (q : List ℕ) (table : ℕ → Pcb) → age (some c) q table c ≡ table c
unfolding age age_one
age_current c [] table = refl
age_current c (x ∷ xs) table = age_current c xs _ ∙ ground arith

-- The choice changes the cursor alone.
pub next_ready_rest :
    (s : Procs)
    → (scheduler_next_ready s).1 ≡ record s { queue_idx = (scheduler_next_ready s).1.queue_idx }
unfolding scheduler_next_ready
next_ready_rest s = ground arith

run_next-OneRunning : (n : ℕ) (s : Procs) → NoneRunning s.table → OneRunning (run_next n s)
unfolding run_next
run_next-OneRunning n s nobody i e = ground (arith, nobody i)

set-NoneRunning :
    (s : Procs) (c : ℕ) (p : Pcb)
    → is_running p.state ≡ false
    → ((i : ℕ) → is_running (s.table i).state ≡ true → s.current ≡ some i)
    → s.current ≡ some c
    → NoneRunning (set_slot s c p).table
set-NoneRunning s c p idle one at i = ground (arith, one i)

none_current : (s : Procs) → OneRunning s → s.current ≡ none → NoneRunning s.table
none_current s one nobody i = ground (arith, one i)

spend_stops : (p : Pcb) → (spend p).1 ≡ false → is_running (spend p).0.state ≡ false
unfolding spend
spend_stops p e = ground arith

give_up_stops : (p : Pcb) → is_running (give_up p).state ≡ false
unfolding give_up
give_up_stops p = ground arith

count_tick-OneRunning : (s : Procs) → OneRunning s → OneRunning (count_tick s)
unfolding count_tick
count_tick-OneRunning s one i e = one i (rw (← age-state s.current s.run_queue s.table i) e)

module _ (mm : Allocator) where
  reap-NoneRunning :
      (c : ℕ) (m : Machine mm) → NoneRunning m.procs.table → NoneRunning (reap mm c m).procs.table
  unfolding reap release_slot
  reap-NoneRunning c m nobody i = elim (Bool-cases (is_zombie (m.procs.table c).state)) [
    | inl dead ↦ rw (dead, remove-table c m.procs) (ground (arith, nobody i))
    | inr alive ↦ rw alive (nobody i)
  ]

  reap_current-NoneRunning :
      (cur : Option ℕ) (m : Machine mm)
      → NoneRunning m.procs.table
      → NoneRunning (reap_current mm cur m).procs.table
  reap_current-NoneRunning none m nobody = nobody
  reap_current-NoneRunning (some c) m nobody = reap-NoneRunning c m nobody

  stay_current-OneRunning :
      (may : ProcessState → Bool) (cur : Option ℕ) (s : Procs)
      → s.current ≡ cur
      → NoneRunning s.table
      → OneRunning (stay_current mm may cur s)
  unfolding stay
  stay_current-OneRunning may none s at nobody i e = ground (arith, nobody i)
  stay_current-OneRunning may (some c) s at nobody i e = elim (Bool-cases (may (s.table c).state)) [
    | inl on ↦ let e' = rw on at e in rw on (ground (arith, nobody i, at, e'))
    | inr off ↦ let e' = rw off at e in ground (arith, nobody i, e')
  ]

  switch_to-OneRunning :
      (may : ProcessState → Bool) (rsp : ℕ) (next : Option ℕ) (m : Machine mm)
      → NoneRunning m.procs.table
      → OneRunning (switch_to mm may rsp next m).1.procs
  unfolding switch_to
  switch_to-OneRunning may rsp none m nobody =
      stay_current-OneRunning may m.procs.current m.procs refl nobody
  switch_to-OneRunning may rsp (some n) m nobody =
      run_next-OneRunning n (reap_current mm m.procs.current m).procs
        (reap_current-NoneRunning m.procs.current m nobody)

  pick_next-OneRunning :
      (may : ProcessState → Bool) (rsp : ℕ) (m : Machine mm)
      → NoneRunning m.procs.table
      → OneRunning (pick_next mm may rsp m).1.procs
  unfolding pick_next
  pick_next-OneRunning may rsp m nobody =
      switch_to-OneRunning may rsp (scheduler_next_ready m.procs).0
        (record m { procs = (scheduler_next_ready m.procs).1 }) (rw next_ready_rest nobody)

  interrupt-OneRunning :
      (rsp c : ℕ) (m : Machine mm)
      → m.procs.current ≡ some c
      → OneRunning m.procs
      → OneRunning (interrupt mm rsp c m).1.procs
  unfolding interrupt
  interrupt-OneRunning rsp c m at one =
      let p = record (m.procs.table c) { rsp = rsp } in
      elim (Bool-cases (spend p).1) [
        | inl keeps ↦ rw keeps (λ i e. ground (arith, one i))
        | inr stops ↦ rw stops (
            pick_next-OneRunning may_stay_tick rsp
              (record m { procs = set_slot m.procs c (spend p).0 })
              (set-NoneRunning m.procs c (spend p).0 (spend_stops p stops) one at))
      ]

  tick_from-OneRunning :
      (cur : Option ℕ) (rsp : ℕ) (m : Machine mm)
      → m.procs.current ≡ cur
      → OneRunning m.procs
      → OneRunning (tick_from mm cur rsp m).1.procs
  unfolding tick_from
  tick_from-OneRunning none rsp m at one =
      pick_next-OneRunning may_stay_tick rsp m (none_current m.procs one at)
  tick_from-OneRunning (some c) rsp m at one = interrupt-OneRunning rsp c m at one

  yield_from-OneRunning :
      (cur : Option ℕ) (rsp : ℕ) (m : Machine mm)
      → m.procs.current ≡ cur
      → OneRunning m.procs
      → OneRunning (yield_from mm cur rsp m).1.procs
  unfolding yield_from
  yield_from-OneRunning none rsp m at one =
      pick_next-OneRunning is_ready rsp m (none_current m.procs one at)
  yield_from-OneRunning (some c) rsp m at one =
      let p = record (m.procs.table c) { rsp = rsp } in
      pick_next-OneRunning is_ready rsp (record m { procs = set_slot m.procs c (give_up p) })
        (set-NoneRunning m.procs c (give_up p) (give_up_stops p) one at)

  -- If only the current process is RUNNING, so it is after a tick and after a yield.
  pub switch-OneRunning :
      (rsp : ℕ) (m : Machine mm)
      → OneRunning m.procs
      → OneRunning (scheduler_tick mm rsp m).1.procs
        × OneRunning (scheduler_yield_impl mm rsp m).1.procs
  unfolding scheduler_tick scheduler_yield_impl
  switch-OneRunning rsp m one = (
    tick_from-OneRunning m.procs.current rsp (record m { procs = count_tick m.procs })
        (unfold count_tick in refl) (count_tick-OneRunning m.procs one),
    yield_from-OneRunning m.procs.current rsp m refl one,
  )
