-- ===== src/Scheduler/Tests.antt =====
-- Runs of the run queue, and its theorems at concrete states.
use tp2_so_nuevo.Prelude.{
  ℕ, zero, suc, ◌<◌, ◌≡◌, ◌≢◌, refl, false, [], ◌∷◌, none, some, arith, ◌==◌, if◌then◌else◌, length,
  get_or,
}
use tp2_so_nuevo.Process.Pcb.{Pcb, Procs, blank, ready, blocked, is_ready}
use tp2_so_nuevo.Scheduler.{
  insert_pos, scheduler_add, scheduler_remove, eff, aging_bonus, highest_eff, scan, first_pass,
  second_pass, choose, scheduler_next_ready,
}
use tp2_so_nuevo.Scheduler.Queue.{IsSorted, Placed, queue-IsSorted, scheduler_add-Placed}
use tp2_so_nuevo.Scheduler.Selection.{Chosen, scheduler_next_ready-Chosen}
use tp2_so_nuevo.Scheduler.Fairness.{AreEven, scheduler_next_ready_starves}

abbrev shell : Pcb
shell = record blank { pid = 2; priority = 5; state = ready; foreground = 1; remaining_quanta = 5 }

abbrev worker : ℕ → ℕ → Pcb
worker pid prio = record blank {
  pid = pid;
  priority = prio;
  state = ready;
  remaining_quanta = prio;
}

-- Slot 0 is idle, 1 the shell, 2 and 3 workers of priority 3, 4 one of priority 1, 5 one not queued.
abbrev table : ℕ → Pcb
table i =
    if i == 1
    then shell
    else if i == 2
    then worker 3 3
    else if i == 3
    then worker 4 3
    else if i == 4
    then record (worker 5 1) { wait_ticks = 1000 }
    else if i == 5
    then worker 6 3
    else record blank { pid = 1; priority = 1; state = ready }

abbrev state : Procs
state = record {
  table = table;
  next_pid = 6;
  current = none;
  run_queue = 1 ∷ 2 ∷ 3 ∷ 4 ∷ [];
  queue_idx = 2;
  idle = some 0;
  force_switch = false;
  ticks = 0;
}

abbrev workers : Procs
workers = record state { run_queue = 2 ∷ 3 ∷ 5 ∷ [] }

abbrev asleep : Procs
asleep = record state { table = λ i. record (table i) { state = blocked } }

add_runs : (scheduler_add 5 state).run_queue ≡ 1 ∷ 2 ∷ 3 ∷ 5 ∷ 4 ∷ []
unfolding scheduler_add insert_pos
add_runs = refl

next_runs : (scheduler_next_ready state).0 ≡ some 1
unfolding scheduler_next_ready highest_eff eff aging_bonus choose scan first_pass second_pass
next_runs = refl

sorted : IsSorted state.table state.run_queue
sorted = omega arith

queue-IsSorted_example :
    IsSorted state.table (scheduler_add 5 state).run_queue
    × IsSorted state.table (scheduler_remove 5 state).run_queue
queue-IsSorted_example = queue-IsSorted 5 state sorted

scheduler_add-Placed_example : Placed table 5 (1 ∷ 2 ∷ 3 ∷ 4 ∷ []) (scheduler_add 5 state).run_queue
scheduler_add-Placed_example = scheduler_add-Placed 5 state sorted (omega arith) refl

scheduler_next_ready-Chosen_example :
    (c : ℕ) × ((scheduler_next_ready state).0 ≡ some c)
    × Chosen state c (scheduler_next_ready state).1
scheduler_next_ready-Chosen_example =
    scheduler_next_ready-Chosen state 2 (omega arith) (omega arith) refl

all_asleep :
    (i : ℕ)
    → i < length asleep.run_queue
    → is_ready (asleep.table (get_or asleep.run_queue i 0)).state ≡ false
all_asleep i lt = refl

scheduler_next_ready_starves_example : (scheduler_next_ready state).0 ≢ some 4
scheduler_next_ready_starves_example =
    scheduler_next_ready_starves state 0 3 (omega arith) (omega arith) refl refl (omega arith) refl
      refl

workers-AreEven : AreEven workers 3
unfolding eff aging_bonus
workers-AreEven zero lt = (refl, refl, refl)
workers-AreEven (suc zero) lt = (refl, refl, refl)
workers-AreEven (suc (suc zero)) lt = (refl, refl, refl)
workers-AreEven (suc (suc (suc i))) lt = absurd (omega arith)
