-- ===== src/Scheduler/Switch/Waiting.antt =====
-- How long a READY process waits: what a tick changes for it.
use tp2_so_nuevo.Prelude.{
  ℕ, ◌≡◌, ◌≢◌, ◌⊎◌, refl, sym, ap, ◌∙◌, subst, Bool, true, false, not, ◌&&◌, List, [], ◌∷◌, Option,
  none, some, is_same, arith, Bool-cases, inl, inr, ==_refl, ==_of_ne, update_other,
}
use tp2_so_nuevo.Allocator.{Allocator}
use tp2_so_nuevo.Process.Pcb.{ProcessState, is_ready, is_zombie, Pcb, Procs, set_slot}
use tp2_so_nuevo.Scheduler.{position, scheduler_next_ready}
use tp2_so_nuevo.Scheduler.Switch.{
  older, age_one, age, spend, release_slot, run_next, may_stay_tick, stay, Machine, tick_from, reap,
  reap_current, stay_current, switch_to, pick_next, count_tick, interrupt, scheduler_tick,
}
use tp2_so_nuevo.Scheduler.Switch.Running.{next_ready_rest}
use tp2_so_nuevo.Scheduler.Queue.{remove-table}

-- The process stands in the list exactly once.
abbrev pub Once : ℕ → List ℕ → Type 0
Once x [] = ⊥
Once x (y ∷ ys) = ((x ≡ y) × (position x ys ≡ none)) ⊎ ((x ≢ y) × Once x ys)

age_one_other :
    (cur : Option ℕ) (x y : ℕ) (table : ℕ → Pcb) → y ≢ x → age_one cur y table x ≡ table x
unfolding age_one
age_one_other cur x y table ne =
    elim (Bool-cases (not (is_same cur y) && is_ready (table y).state)) [
      | inl waits ↦ rw (waits, ==_of_ne y x ne)
      | inr stays ↦ rw stays
    ]

age_one_self :
    (cur : Option ℕ) (x : ℕ) (table : ℕ → Pcb)
    → is_same cur x ≡ false
    → is_ready (table x).state ≡ true
    → age_one cur x table x ≡ older (table x)
unfolding age_one
age_one_self cur x table off r = simp (off, r, ==_refl x)

age_absent :
    (cur : Option ℕ) (x : ℕ) (q : List ℕ) (table : ℕ → Pcb)
    → position x q ≡ none
    → age cur q table x ≡ table x
unfolding age position
age_absent cur x [] table e = refl
age_absent cur x (y ∷ ys) table e =
    let ne : y ≢ x = ground arith in
    age_absent cur x ys (age_one cur y table) (ground arith) ∙ age_one_other cur x y table ne

age-Once :
    (cur : Option ℕ) (x : ℕ) (q : List ℕ) (table : ℕ → Pcb)
    → Once x q
    → is_same cur x ≡ false
    → is_ready (table x).state ≡ true
    → age cur q table x ≡ older (table x)
unfolding age
age-Once cur x [] table o off r = absurd o
age-Once cur x (y ∷ ys) table (inl (same, gone)) off r =
    age_absent cur x ys (age_one cur y table) gone
    ∙ subst (λ z. age_one cur z table x ≡ older (table x)) same (age_one_self cur x table off r)
age-Once cur x (y ∷ ys) table (inr (ne, o)) off r =
    let same : age_one cur y table x ≡ table x = age_one_other cur x y table (λ e. ne (sym e)) in
    age-Once cur x ys (age_one cur y table) o off (ap (λ p. is_ready p.state) same ∙ r)
    ∙ ap older same

run_next_other : (n x : ℕ) (s : Procs) → n ≢ x → (run_next n s).table x ≡ s.table x
unfolding run_next
run_next_other n x s ne = rw (==_of_ne n x ne)

module _ (mm : Allocator) where
  reap_other : (c x : ℕ) (m : Machine mm) → c ≢ x → (reap mm c m).procs.table x ≡ m.procs.table x
  unfolding reap release_slot
  reap_other c x m ne = elim (Bool-cases (is_zombie (m.procs.table c).state)) [
    | inl dead ↦ rw (dead, remove-table c m.procs, ==_of_ne c x ne)
    | inr alive ↦ rw alive
  ]

  reap_current_other :
      (cur : Option ℕ) (x : ℕ) (m : Machine mm)
      → is_same cur x ≡ false
      → (reap_current mm cur m).procs.table x ≡ m.procs.table x
  reap_current_other none x m off = refl
  reap_current_other (some c) x m off = reap_other c x m (ground arith)

  stay_current_other :
      (may : ProcessState → Bool) (cur : Option ℕ) (x : ℕ) (s : Procs)
      → is_same cur x ≡ false
      → (stay_current mm may cur s).table x ≡ s.table x
  unfolding stay
  stay_current_other may none x s off = refl
  stay_current_other may (some c) x s off = elim (Bool-cases (may (s.table c).state)) [
    | inl on ↦ rw (on, off)
    | inr no_turn ↦ rw no_turn
  ]

  -- A context switch changes only the process that leaves the CPU and the one that gets it.
  switch_to_other :
      (may : ProcessState → Bool) (rsp : ℕ) (next : Option ℕ) (m : Machine mm) (x : ℕ)
      → is_same m.procs.current x ≡ false
      → is_same (switch_to mm may rsp next m).1.procs.current x ≡ false
      → (switch_to mm may rsp next m).1.procs.table x ≡ m.procs.table x
  unfolding switch_to
  switch_to_other may rsp none m x off out = stay_current_other may m.procs.current x m.procs off
  switch_to_other may rsp (some n) m x off out =
      run_next_other n x (reap_current mm m.procs.current m).procs (unfold run_next in ground arith)
      ∙ reap_current_other m.procs.current x m off

  pick_next_other :
      (may : ProcessState → Bool) (rsp : ℕ) (m : Machine mm) (x : ℕ)
      → is_same m.procs.current x ≡ false
      → is_same (pick_next mm may rsp m).1.procs.current x ≡ false
      → (pick_next mm may rsp m).1.procs.table x ≡ m.procs.table x
  unfolding pick_next
  pick_next_other may rsp m x off out =
      let s = (scheduler_next_ready m.procs).1 in
      switch_to_other may rsp (scheduler_next_ready m.procs).0 (record m { procs = s }) x
        (rw next_ready_rest off) out
      ∙ ap (λ (r : Procs). r.table x) (next_ready_rest m.procs)

  interrupt_other :
      (rsp c : ℕ) (m : Machine mm) (x : ℕ)
      → c ≢ x
      → is_same m.procs.current x ≡ false
      → is_same (interrupt mm rsp c m).1.procs.current x ≡ false
      → (interrupt mm rsp c m).1.procs.table x ≡ m.procs.table x
  unfolding interrupt
  interrupt_other rsp c m x ne off out =
      let p = record (m.procs.table c) { rsp = rsp } in
      elim (Bool-cases (spend p).1) [
        | inl keeps ↦ rw (keeps, ==_of_ne c x ne)
        | inr stops ↦ rw stops (
            pick_next_other may_stay_tick rsp (record m { procs = set_slot m.procs c (spend p).0 })
              x off (rw stops at out)
            ∙ update_other m.procs.table c x (spend p).0 ne)
      ]

  tick_from_other :
      (cur : Option ℕ) (rsp : ℕ) (m : Machine mm) (x : ℕ)
      → is_same cur x ≡ false
      → is_same m.procs.current x ≡ false
      → is_same (tick_from mm cur rsp m).1.procs.current x ≡ false
      → (tick_from mm cur rsp m).1.procs.table x ≡ m.procs.table x
  unfolding tick_from
  tick_from_other none rsp m x off off' out = pick_next_other may_stay_tick rsp m x off' out
  tick_from_other (some c) rsp m x off off' out = interrupt_other rsp c m x (ground arith) off' out

  -- A READY process that stands in the run queue once, and has the CPU neither before nor after a
  -- tick, waits one tick longer, and nothing else of it changes.
  pub scheduler_tick_waits :
      (rsp : ℕ) (m : Machine mm) (x : ℕ)
      → Once x m.procs.run_queue
      → is_ready (m.procs.table x).state ≡ true
      → is_same m.procs.current x ≡ false
      → is_same (scheduler_tick mm rsp m).1.procs.current x ≡ false
      → (scheduler_tick mm rsp m).1.procs.table x ≡ older (m.procs.table x)
  unfolding scheduler_tick
  scheduler_tick_waits rsp m x o r off out =
      tick_from_other m.procs.current rsp (record m { procs = count_tick m.procs }) x off
        (unfold count_tick in off) out
      ∙ unfold count_tick in age-Once m.procs.current x m.procs.run_queue m.procs.table o off r
