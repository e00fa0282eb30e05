-- ===== src/Scheduler/Cursor.antt =====
-- The cursor of the run queue while processes are added and removed.
use tp2_so_nuevo.Prelude.{
  ℕ, zero, suc, ◌-◌, ◌≤◌, ◌<◌, ◌≡◌, refl, ap, false, List, [], ◌∷◌, none, some, ◌≢◌, arith, is_same,
  length, get_or, insert_at, remove_at, ==_refl,
}
use tp2_so_nuevo.Prelude.Lists.{
  length-insert_at, length-remove_at, get_or-insert_at_lt, get_or-insert_at_ge, get_or-remove_at_lt,
  get_or-remove_at_ge,
}
use native.Mathlib.Numerals.{add-one}
use tp2_so_nuevo.Process.Pcb.{Pcb, Procs, max_processes}
use tp2_so_nuevo.Scheduler.{insert_pos, scheduler_add, position, removed_idx, scheduler_remove}
use tp2_so_nuevo.Scheduler.Queue.{insert_pos-le-length, position-lt-length}

-- The cursor stays on the process that it stands on when another is added.
pub scheduler_add_cursor :
    (p : ℕ) (s : Procs)
    → s.queue_idx < length s.run_queue
    → get_or (scheduler_add p s).run_queue (scheduler_add p s).queue_idx 0
      ≡ get_or s.run_queue s.queue_idx 0
unfolding scheduler_add
scheduler_add_cursor p s h = ground (
  arith,
  insert_pos-le-length s.table (s.table p).priority s.run_queue,
  length-insert_at (insert_pos s.table (s.table p).priority s.run_queue) p s.run_queue,
  get_or-insert_at_lt (insert_pos s.table (s.table p).priority s.run_queue) s.queue_idx p 0
      s.run_queue,
  get_or-insert_at_ge (insert_pos s.table (s.table p).priority s.run_queue) s.queue_idx p 0
      s.run_queue,
  add-one s.queue_idx,
)

-- Nor does it move to another process when one that it does not stand on is removed, and it stays
-- inside the queue.
pub scheduler_remove_cursor :
    (p i : ℕ) (s : Procs)
    → position p s.run_queue ≡ some i
    → i ≢ s.queue_idx
    → s.queue_idx < length s.run_queue
    → let s' = scheduler_remove p s in
      (s'.queue_idx < length s'.run_queue)
      × (get_or s'.run_queue s'.queue_idx 0 ≡ get_or s.run_queue s.queue_idx 0)
unfolding scheduler_remove removed_idx
scheduler_remove_cursor p i s e ne h = ground (
  arith,
  position-lt-length p s.run_queue i,
  length-remove_at i s.run_queue,
  get_or-remove_at_lt i s.queue_idx 0 s.run_queue,
  get_or-remove_at_ge i (s.queue_idx - 1) 0 s.run_queue,
)

position-insert_at :
    (table : ℕ → Pcb) (prio p : ℕ) (q : List ℕ)
    → position p q ≡ none
    → position p (insert_at (insert_pos table prio q) p q) ≡ some (insert_pos table prio q)
unfolding position insert_pos
position-insert_at table prio p [] e = ground arith
position-insert_at table prio p (x ∷ xs) e =
    ground (arith, position-insert_at table prio p xs, ==_refl p)

remove_at-insert_at : (i p : ℕ) (q : List ℕ) → i ≤ length q → remove_at i (insert_at i p q) ≡ q
remove_at-insert_at zero p q h = refl
remove_at-insert_at (suc i) p [] h = elim h [ ]
remove_at-insert_at (suc i) p (x ∷ xs) h = ap (◌∷◌ x) (remove_at-insert_at i p xs (omega arith))

-- Adding a process that is not queued and removing it again gives back queue and cursor.
pub scheduler_remove-add :
    (p : ℕ) (s : Procs)
    → position p s.run_queue ≡ none
    → s.queue_idx < length s.run_queue
    → length s.run_queue < max_processes
    → is_same s.idle p ≡ false
    → scheduler_remove p (scheduler_add p s) ≡ s
unfolding scheduler_add scheduler_remove removed_idx
scheduler_remove-add p s e h room other = ground (
  arith,
  insert_pos-le-length s.table (s.table p).priority s.run_queue,
  position-insert_at s.table (s.table p).priority p s.run_queue,
  remove_at-insert_at (insert_pos s.table (s.table p).priority s.run_queue) p s.run_queue,
  length-insert_at (insert_pos s.table (s.table p).priority s.run_queue) p s.run_queue,
)
