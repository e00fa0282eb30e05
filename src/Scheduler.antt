-- ===== src/Scheduler.antt =====
-- Kernel/c/scheduler/scheduler.c: the run queue and the choice of the next process.
pub mod Queue
pub mod Cursor
pub mod Selection
pub mod Fairness
pub mod Switch
pub mod Requeue
mod Tests
use tp2_so_nuevo.Prelude.{
  ℕ, zero, suc, ◌+◌, ◌-◌, ◌/◌, ◌%◌, Bool, ◌&&◌, List, [], ◌∷◌, Option, none, some, ltb, leb, ◌==◌,
  if◌then◌else◌, is_same, length, get_or, insert_at, remove_at,
}
use tp2_so_nuevo.Process.Pcb.{Pcb, Procs, max_processes, is_ready}

abbrev pub aging_interval : ℕ
aging_interval = 50

abbrev pub max_aging_bonus : ℕ
max_aging_bonus = 4

pub aging_bonus : Pcb → ℕ
aging_bonus p =
    let b = p.wait_ticks / aging_interval in if ltb max_aging_bonus b then max_aging_bonus else b

-- The first place whose process has a lower priority, or the end of the queue.
pub insert_pos : (ℕ → Pcb) → ℕ → List ℕ → ℕ
insert_pos table prio [] = 0
insert_pos table prio (x ∷ xs) =
    if ltb (table x).priority prio then 0 else suc (insert_pos table prio xs)

pub scheduler_add : ℕ → Procs → Procs
scheduler_add p s =
    if leb max_processes (length s.run_queue)
    then s
    else if is_same s.idle p
    then s
    else let pos = insert_pos s.table (s.table p).priority s.run_queue in
      let queue = insert_at pos p s.run_queue in
      record s {
        run_queue = queue;
        queue_idx =
            if leb pos s.queue_idx && ltb 1 (length queue) then s.queue_idx + 1 else s.queue_idx;
      }

-- The place of a process in the queue.
pub position : ℕ → List ℕ → Option ℕ
position p [] = none
position p (x ∷ xs) =
    if p == x then some 0 else (elim (position p xs) [ none ↦ none | some i ↦ some (suc i) ])

pub removed_idx : ℕ → ℕ → ℕ → ℕ
removed_idx i size idx =
    if leb size idx && ltb 0 size then size - 1 else if ltb i idx then idx - 1 else idx

pub scheduler_remove : ℕ → Procs → Procs
scheduler_remove p s = elim (position p s.run_queue) [
  | none ↦ s
  | some i ↦
      let queue = remove_at i s.run_queue in
      record s { run_queue = queue; queue_idx = removed_idx i (length queue) s.queue_idx }
]

abbrev pub foreground_bonus : Pcb → ℕ
foreground_bonus p = if p.foreground == 0 then 0 else 1

-- Effective priority.
pub eff : Pcb → ℕ
eff p = p.priority + foreground_bonus p + aging_bonus p

-- `none` is the start value -1.
abbrev pub raise : Option ℕ → ℕ → Option ℕ
raise none e = some e
raise (some h) e = if ltb h e then some e else some h

pub highest_eff : (ℕ → Pcb) → Option ℕ → List ℕ → Option ℕ
highest_eff table h [] = h
highest_eff table h (x ∷ xs) =
    highest_eff table (if is_ready (table x).state then raise h (eff (table x)) else h) xs

-- At most `n` steps round the queue, each to the next place, until the test passes.
pub scan : (ℕ → Bool) → List ℕ → ℕ → ℕ → Option ℕ × ℕ
scan test queue zero idx = (none, idx)
scan test queue (suc n) idx =
    let idx' = (idx + 1) % length queue in
    let c = get_or queue idx' 0 in
    let rest = scan test queue n idx' in if test c then (some c, idx') else rest

pub first_pass : (ℕ → Pcb) → ℕ → ℕ → Bool
first_pass table h c =
    let p = table c in
    is_ready p.state && (ltb 0 p.foreground && (p.priority + 1 + aging_bonus p == h))

pub second_pass : (ℕ → Pcb) → ℕ → ℕ → Bool
second_pass table h c = let p = table c in is_ready p.state && (eff p == h)

-- The process that is chosen, and where the cursor stops.
pub choose : (ℕ → Pcb) → ℕ → List ℕ → ℕ → Option ℕ → Option ℕ × ℕ
choose table h queue idx idle =
    let (a, idx') = scan (first_pass table h) queue (length queue) idx in
    let (b, idx'') = scan (second_pass table h) queue (length queue) idx' in
    elim a [
      | some c ↦ (some c, idx')
      | none ↦ elim b [ some c ↦ (some c, idx'') | none ↦ (idle, idx'') ]
    ]

pub scheduler_next_ready : Procs → Option ℕ × Procs
scheduler_next_ready s =
    if length s.run_queue == 0 then (s.idle, s) else elim (highest_eff s.table none s.run_queue) [
      | none ↦ (s.idle, s)
      | some h ↦
          let (c, idx) = choose s.table h s.run_queue s.queue_idx s.idle in
          (c, record s { queue_idx = idx })
    ]
