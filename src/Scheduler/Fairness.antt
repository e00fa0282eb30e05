-- ===== src/Scheduler/Fairness.antt =====
-- Who waits for how long: turns among equals, and the limit of aging.
use native.Mathlib.Nat.{mod-lt}
use tp2_so_nuevo.Prelude.{
  ℕ, ◌+◌, ◌%◌, ◌≤◌, ◌<◌, ◌≡◌, ◌≢◌, inl, inr, sym, ap, ◌∙◌, ◌==◌, true, false, Option, none, some,
  arith, length, get_or, Option-cases, absurd_test,
}
use tp2_so_nuevo.Process.Pcb.{Pcb, Procs, is_ready}
use tp2_so_nuevo.Scheduler.{
  aging_bonus, eff, highest_eff, scan, first_pass, second_pass, choose, scheduler_next_ready,
}
use tp2_so_nuevo.Scheduler.Selection.{scheduler_next_ready-Chosen}
use tp2_so_nuevo.Scheduler.Selection.Scan.{scan_all_fail, scan_next}
use tp2_so_nuevo.Scheduler.Selection.Highest.{highest_eff-Attains, highest_eff-none}
use tp2_so_nuevo.Scheduler.Selection.Pick.{second_pass_of, round_none_cursor, choose_second}

-- Whatever the wait, a background process of priority 1 is not chosen while a foreground process
-- of priority 5 is READY.
pub scheduler_next_ready_starves :
    (s : Procs) (i j : ℕ)
    → s.queue_idx < length s.run_queue
    → i < length s.run_queue
    → is_ready (s.table (get_or s.run_queue i 0)).state ≡ true
    → (s.table (get_or s.run_queue i 0)).priority ≡ 5
    → 0 < (s.table (get_or s.run_queue i 0)).foreground
    → (s.table (get_or s.run_queue j 0)).priority ≡ 1
    → (s.table (get_or s.run_queue j 0)).foreground ≡ 0
    → (scheduler_next_ready s).0 ≢ some (get_or s.run_queue j 0)
unfolding eff aging_bonus
scheduler_next_ready_starves s i j lt inside ready five fg one bg e =
    let (c, chosen, p) = scheduler_next_ready-Chosen s i lt inside ready in
    let same : c ≡ get_or s.run_queue j 0 = cc in
    let above = p.best i inside ready in starved (rw same at above)
  where
    starved : eff (s.table (get_or s.run_queue i 0)) ≤ eff (s.table (get_or s.run_queue j 0)) → ⊥
    starved le = ground arith

-- All processes of the queue are READY, in the background and of one effective priority.
abbrev pub AreEven : Procs → ℕ → Type 0
AreEven s e =
    (i : ℕ)
    → i < length s.run_queue
    → (is_ready (s.table (get_or s.run_queue i 0)).state ≡ true)
      × ((s.table (get_or s.run_queue i 0)).foreground ≡ 0)
      × (eff (s.table (get_or s.run_queue i 0)) ≡ e)

highest_eff_even :
    (s : Procs) (e : ℕ)
    → 0 < length s.run_queue
    → AreEven s e
    → highest_eff s.table none s.run_queue ≡ some e
highest_eff_even s e filled even = elim (Option-cases (highest_eff s.table none s.run_queue)) [
  | inl absent ↦
      absurd_test (highest_eff-none s.table s.run_queue absent 0 filled) (even 0 filled).0
  | inr (h, found) ↦
      let (i, inside, _, top) = highest_eff-Attains s.table h s.run_queue found in
      found ∙ ap some (sym top ∙ (even i inside).2)
]

background_fails :
    (table : ℕ → Pcb) (h c : ℕ) → (table c).foreground ≡ 0 → first_pass table h c ≡ false
unfolding first_pass
background_fails table h c bg = ground arith

-- Where all processes of the queue are READY, in the background and of one effective priority, the
-- choice is the one after the cursor, going round: they take turns.
pub scheduler_next_ready_round_robin :
    (s : Procs) (e : ℕ)
    → s.queue_idx < length s.run_queue
    → AreEven s e
    → let next = (s.queue_idx + 1) % length s.run_queue in
      scheduler_next_ready s ≡ (some (get_or s.run_queue next 0), record s { queue_idx = next })
unfolding scheduler_next_ready
scheduler_next_ready_round_robin s e lt even =
    let filled : 0 < length s.run_queue = omega arith in
    let some_queued : (length s.run_queue == 0) ≡ false = ground arith in
    let next = (s.queue_idx + 1) % length s.run_queue in
    let fails =
      scan_all_fail (first_pass s.table e) s.run_queue (length s.run_queue) s.queue_idx filled
        (λ j lt'. background_fails s.table e (get_or s.run_queue j 0) (even j lt').1) in
    let back = round_none_cursor (first_pass s.table e) s.run_queue s.queue_idx lt fails in
    let (r, _, top) = even next (mod-lt (s.queue_idx + 1) filled) in
    let hit =
      scan_next (second_pass s.table e) s.run_queue (length s.run_queue) s.queue_idx filled
        (second_pass_of s.table e (get_or s.run_queue next 0) r top) in
    rw (some_queued, highest_eff_even s e filled even, scheduler_next_ready)
      (chosen next fails back hit)
  where
    chosen :
        (next : ℕ)
        → (scan (first_pass s.table e) s.run_queue (length s.run_queue) s.queue_idx).0 ≡ none
        → (scan (first_pass s.table e) s.run_queue (length s.run_queue) s.queue_idx).1 ≡ s.queue_idx
        → scan (second_pass s.table e) s.run_queue (length s.run_queue) s.queue_idx
          ≡ (some (get_or s.run_queue next 0), next)
        → ◌≡◌ {A = Option ℕ × Procs}
            (
              (choose s.table e s.run_queue s.queue_idx s.idle).0,
              record s { queue_idx = (choose s.table e s.run_queue s.queue_idx s.idle).1 },
            )
            (some (get_or s.run_queue next 0), record s { queue_idx = next })
    chosen next fails back hit =
        let hit' = rw (← back) at hit in
        rw (
          choose_second s.table e s.run_queue s.queue_idx s.idle (get_or s.run_queue next 0) fails
              (ap (λ t. t.0) hit'),
          ap (λ t. t.1) hit',
        )
