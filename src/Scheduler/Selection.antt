-- ===== src/Scheduler/Selection.antt =====
-- `scheduler_next_ready`: which process it chooses.
pub mod Scan
pub mod Highest
pub mod Pick
use tp2_so_nuevo.Prelude.{
  ℕ, zero, suc, ◌≤◌, ◌<◌, ◌≡◌, inl, inr, refl, ◌∙◌, ◌==◌, true, false, none, some, arith, length,
  get_or, Bool-cases, Option-cases, absurd_test,
}
use tp2_so_nuevo.Process.Pcb.{Procs, is_ready}
use tp2_so_nuevo.Scheduler.{eff, highest_eff, scheduler_next_ready}
use Highest.{highest_eff-le, highest_eff-Attains, highest_eff-none}
use Pick.{choose-Picks}

-- What the choice leaves alone: all but the cursor.
pub record Chosen (s : Procs) (c : ℕ) (s' : Procs) : Type 0 where
  pub rest : s' ≡ record s { queue_idx = s'.queue_idx }
  pub inside : s'.queue_idx < length s.run_queue
  pub holds : get_or s.run_queue s'.queue_idx 0 ≡ c
  pub is_ready_now : is_ready (s.table c).state ≡ true
  pub best :
      (i : ℕ)
      → i < length s.run_queue
      → is_ready (s.table (get_or s.run_queue i 0)).state ≡ true
      → eff (s.table (get_or s.run_queue i 0)) ≤ eff (s.table c)
  pub foreground_first :
      (i : ℕ)
      → i < length s.run_queue
      → is_ready (s.table (get_or s.run_queue i 0)).state ≡ true
      → 0 < (s.table (get_or s.run_queue i 0)).foreground
      → eff (s.table (get_or s.run_queue i 0)) ≡ eff (s.table c)
      → 0 < (s.table c).foreground

-- The cursor stands inside the queue, unless that is empty.
abbrev pub CursorInside : Procs → Type 0
CursorInside s = 0 < length s.run_queue → s.queue_idx < length s.run_queue

-- If a process of the run queue is READY and the cursor is inside the queue, the choice is a READY
-- process of the queue with the highest effective priority, in the foreground if any such process
-- is; only the cursor changes, and it comes to stand on the chosen process.
pub scheduler_next_ready-Chosen :
    (s : Procs) (i : ℕ)
    → s.queue_idx < length s.run_queue
    → i < length s.run_queue
    → is_ready (s.table (get_or s.run_queue i 0)).state ≡ true
    → (c : ℕ) × ((scheduler_next_ready s).0 ≡ some c) × Chosen s c (scheduler_next_ready s).1
unfolding scheduler_next_ready
scheduler_next_ready-Chosen s i lt inside ready =
    elim (Option-cases (highest_eff s.table none s.run_queue)) [
      | inl e ↦ absurd_test (highest_eff-none s.table s.run_queue e i inside) ready
      | inr (h, e) ↦
          let some_queued : (length s.run_queue == 0) ≡ false = ground arith in
          let (c, chosen, p) =
            choose-Picks s.table h s.run_queue s.queue_idx s.idle lt
              (highest_eff-Attains s.table h s.run_queue e) in
          rw (some_queued, e, scheduler_next_ready)
            (
              c,
              chosen,
              record {
                rest = refl;
                inside = p.inside;
                holds = p.holds;
                is_ready_now = p.is_ready_now;
                best = λ k kin r. rw p.priority (highest_eff-le s.table h s.run_queue e k kin r);
                foreground_first = λ k kin r f top. p.foreground_first k kin r f (top ∙ p.priority);
              },
            )
    ]

-- If no process of the run queue is READY, the choice is the idle process, or NULL if there is none,
-- and nothing changes.
pub scheduler_next_ready_idle :
    (s : Procs)
    → ((i : ℕ) → i < length s.run_queue → is_ready (s.table (get_or s.run_queue i 0)).state ≡ false)
    → scheduler_next_ready s ≡ (s.idle, s)
unfolding scheduler_next_ready
scheduler_next_ready_idle s nobody = elim (Bool-cases (length s.run_queue == 0)) [
  | inl empty ↦ rw empty
  | inr filled ↦ elim (Option-cases (highest_eff s.table none s.run_queue)) [
    | inl e ↦ rw (filled, e, scheduler_next_ready)
    | inr (h, e) ↦
        let (i, inside, ready, _) = highest_eff-Attains s.table h s.run_queue e in
        absurd_test (nobody i inside) ready
  ]
]
