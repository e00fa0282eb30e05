-- ===== src/Scheduler/Queue.antt =====
-- `scheduler_add` and `scheduler_remove`: the order of the run queue.
use tp2_so_nuevo.Prelude.{
  ℕ, zero, suc, ◌≤◌, ◌<◌, ◌≡◌, refl, ap, subst, false, List, [], ◌∷◌, some, inl, inr, arith, ltb,
  leb, is_same, length, get_or, insert_at, remove_at, All, ◌++◌, Bool-cases, Option-cases,
}
use tp2_so_nuevo.Process.Pcb.{Pcb, Procs, max_processes}
use tp2_so_nuevo.Scheduler.{insert_pos, scheduler_add, position, scheduler_remove}

-- No process of the list stands above the priority.
abbrev pub AtMost : (ℕ → Pcb) → ℕ → List ℕ → Type 0
AtMost table prio [] = Unit
AtMost table prio (x ∷ xs) = ((table x).priority ≤ prio) × AtMost table prio xs

-- Priorities fall along the queue.
abbrev pub IsSorted : (ℕ → Pcb) → List ℕ → Type 0
IsSorted table [] = Unit
IsSorted table (x ∷ xs) = AtMost table (table x).priority xs × IsSorted table xs

AtMost-mono : (table : ℕ → Pcb) (a b : ℕ) (q : List ℕ) → a ≤ b → AtMost table a q → AtMost table b q
AtMost-mono table a b [] h m = tt
AtMost-mono table a b (x ∷ xs) h m = (omega arith, AtMost-mono table a b xs h m.1)

AtMost-insert_at :
    (table : ℕ → Pcb) (prio p i : ℕ) (q : List ℕ)
    → (table p).priority ≤ prio
    → AtMost table prio q
    → AtMost table prio (insert_at i p q)
AtMost-insert_at table prio p zero q h m = (h, m)
AtMost-insert_at table prio p (suc i) [] h m = (h, tt)
AtMost-insert_at table prio p (suc i) (x ∷ xs) h m = (m.0, AtMost-insert_at table prio p i xs h m.1)

AtMost-remove_at :
    (table : ℕ → Pcb) (prio i : ℕ) (q : List ℕ)
    → AtMost table prio q
    → AtMost table prio (remove_at i q)
AtMost-remove_at table prio i [] m = tt
AtMost-remove_at table prio zero (x ∷ xs) m = m.1
AtMost-remove_at table prio (suc i) (x ∷ xs) m = (m.0, AtMost-remove_at table prio i xs m.1)

insert-IsSorted :
    (table : ℕ → Pcb) (p : ℕ) (q : List ℕ)
    → IsSorted table q
    → IsSorted table (insert_at (insert_pos table (table p).priority q) p q)
unfolding insert_pos
insert-IsSorted table p [] s = (tt, tt)
insert-IsSorted table p (x ∷ xs) s = elim (Bool-cases (ltb (table x).priority (table p).priority)) [
  | inl below ↦ rw below (
    (ground arith, AtMost-mono table (table x).priority (table p).priority xs (ground arith) s.0),
    s,
  )
  | inr above ↦
      rw above (AtMost-insert_at table _ p _ xs (ground arith) s.0, insert-IsSorted table p xs s.1)
]

pub remove-IsSorted :
    (table : ℕ → Pcb) (i : ℕ) (q : List ℕ) → IsSorted table q → IsSorted table (remove_at i q)
remove-IsSorted table i [] s = tt
remove-IsSorted table zero (x ∷ xs) s = s.1
remove-IsSorted table (suc i) (x ∷ xs) s =
    (AtMost-remove_at table _ i xs s.0, remove-IsSorted table i xs s.1)

pub insert_pos-le-length :
    (table : ℕ → Pcb) (prio : ℕ) (q : List ℕ) → insert_pos table prio q ≤ length q
unfolding insert_pos
insert_pos-le-length table prio [] = omega arith
insert_pos-le-length table prio (x ∷ xs) = ground (arith, insert_pos-le-length table prio xs)

pub position-lt-length : (p : ℕ) (q : List ℕ) (i : ℕ) → position p q ≡ some i → i < length q
unfolding position
position-lt-length p [] i e = cc
position-lt-length p (x ∷ xs) zero e = omega arith
position-lt-length p (x ∷ xs) (suc i) e = ground (arith, position-lt-length p xs i)

pub position-get : (p : ℕ) (q : List ℕ) (i : ℕ) → position p q ≡ some i → get_or q i 0 ≡ p
unfolding position
position-get p [] i e = cc
position-get p (x ∷ xs) zero e = ground arith
position-get p (x ∷ xs) (suc i) e = ground (arith, position-get p xs i)

pub add-table : (p : ℕ) (s : Procs) → (scheduler_add p s).table ≡ s.table
unfolding scheduler_add
add-table p s = ground arith

pub remove-table : (p : ℕ) (s : Procs) → (scheduler_remove p s).table ≡ s.table
unfolding scheduler_remove
remove-table p s = ground arith

pub scheduler_add-IsSorted :
    (p : ℕ) (s : Procs)
    → IsSorted s.table s.run_queue
    → IsSorted (scheduler_add p s).table (scheduler_add p s).run_queue
unfolding scheduler_add
scheduler_add-IsSorted p s h = elim (Bool-cases (leb max_processes (length s.run_queue))) [
  | inl full ↦ rw full h
  | inr room ↦ rw room (elim (Bool-cases (is_same s.idle p)) [
    | inl same ↦ rw same h
    | inr other ↦ rw other (insert-IsSorted s.table p s.run_queue h)
  ])
]

scheduler_remove-IsSorted :
    (p : ℕ) (s : Procs)
    → IsSorted s.table s.run_queue
    → IsSorted (scheduler_remove p s).table (scheduler_remove p s).run_queue
unfolding scheduler_remove
scheduler_remove-IsSorted p s h = elim (Option-cases (position p s.run_queue)) [
  | inl missing ↦ rw (missing, scheduler_remove) h
  | inr (i, found) ↦ rw (found, scheduler_remove) (remove-IsSorted s.table i s.run_queue h)
]

-- Adding and removing a process keep the run queue in order of falling priority.
pub queue-IsSorted :
    (p : ℕ) (s : Procs)
    → IsSorted s.table s.run_queue
    → IsSorted s.table (scheduler_add p s).run_queue
      × IsSorted s.table (scheduler_remove p s).run_queue
queue-IsSorted p s h = (
  subst (λ t. IsSorted t (scheduler_add p s).run_queue) (add-table p s)
      (scheduler_add-IsSorted p s h),
  subst (λ t. IsSorted t (scheduler_remove p s).run_queue) (remove-table p s)
      (scheduler_remove-IsSorted p s h),
)

-- `r` is the queue `q` with `p` behind all of its own or a higher priority, before all lower ones.
abbrev pub Placed : (ℕ → Pcb) → ℕ → List ℕ → List ℕ → Type 0
Placed table p q r =
    (front : List ℕ) × (back : List ℕ) × (q ≡ front ++ back)
    × (r ≡ front ++ p ∷ back)
    × All (λ x. (table p).priority ≤ (table x).priority) front
    × All (λ x. (table x).priority < (table p).priority) back

AtMost-lower :
    (table : ℕ → Pcb) (a b : ℕ) (q : List ℕ)
    → a < b
    → AtMost table a q
    → All (λ x. (table x).priority < b) q
AtMost-lower table a b [] h m = tt
AtMost-lower table a b (x ∷ xs) h m = (omega arith, AtMost-lower table a b xs h m.1)

insert-Placed :
    (table : ℕ → Pcb) (p : ℕ) (q : List ℕ)
    → IsSorted table q
    → Placed table p q (insert_at (insert_pos table (table p).priority q) p q)
unfolding insert_pos
insert-Placed table p [] h = ([], [], refl, refl, tt, tt)
insert-Placed table p (x ∷ xs) h = elim (Bool-cases (ltb (table x).priority (table p).priority)) [
  | inl below ↦
      rw below
        ([], x ∷ xs, refl, refl, tt, (ground arith, AtMost-lower table _ _ xs (ground arith) h.0))
  | inr above ↦
      let (front, back, e, f, a, b) = insert-Placed table p xs h.1 in
      rw above (x ∷ front, back, ap (◌∷◌ x) e, ap (◌∷◌ x) f, (ground arith, a), b)
]

-- A process that is added to a sorted queue with room, and is not the idle process, stands behind
-- those of its own or a higher priority and before the lower ones, and nothing else of the queue
-- changes.
pub scheduler_add-Placed :
    (p : ℕ) (s : Procs)
    → IsSorted s.table s.run_queue
    → length s.run_queue < max_processes
    → is_same s.idle p ≡ false
    → Placed s.table p s.run_queue (scheduler_add p s).run_queue
unfolding scheduler_add
scheduler_add-Placed p s h room other =
    let fits : leb max_processes (length s.run_queue) ≡ false = ground arith in
    rw (fits, other) (insert-Placed s.table p s.run_queue h)

pub add-next_pid : (p : ℕ) (s : Procs) → (scheduler_add p s).next_pid ≡ s.next_pid
unfolding scheduler_add
add-next_pid p s = elim (Bool-cases (leb max_processes (length s.run_queue))) [
  | inl full ↦ rw full refl
  | inr room ↦ elim (Bool-cases (is_same s.idle p)) [
    | inl idle ↦ rw (room, idle) refl
    | inr other ↦ rw (room, other) refl
  ]
]
