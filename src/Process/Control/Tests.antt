-- ===== src/Process/Control/Tests.antt =====
-- The theorems on the process table at a table of two processes.
use tp2_so_nuevo.Prelude.{
  ℕ, ◌≤◌, ◌≡◌, refl, false, [], ◌∷◌, none, some, inr, arith, ◌==◌, remove_at, if◌then◌else◌, update,
}
use tp2_so_nuevo.Process.Pcb.{Pcb, Procs, blank, ready, running}
use tp2_so_nuevo.Process.Control.{process_get, process_nice}
use tp2_so_nuevo.Process.Control.Lookup.{PidsDiffer, process_get_self}
use tp2_so_nuevo.Process.Control.Nice.{process_nice-IsSorted}
use tp2_so_nuevo.Scheduler.{position}
use tp2_so_nuevo.Scheduler.Queue.{IsSorted, Placed}
use tp2_so_nuevo.Scheduler.Requeue.{Once-single}

abbrev shell : Pcb
shell = record blank {
  pid = 2;
  priority = 5;
  state = running;
  remaining_quanta = 5;
  foreground = 1;
}

abbrev worker : Pcb
worker = record blank { pid = 3; priority = 3; state = ready; remaining_quanta = 2; wait_ticks = 7 }

abbrev table : ℕ → Pcb
table i = if i == 0 then shell else if i == 1 then worker else blank

abbrev state : Procs
state = record {
  table = table;
  next_pid = 3;
  current = some 0;
  run_queue = 0 ∷ 1 ∷ [];
  queue_idx = 0;
  idle = none;
  force_switch = false;
  ticks = 0;
}

table-PidsDiffer : PidsDiffer table
table-PidsDiffer i j hi hj ui uj e = ground arith

worker_found : process_get 3 table ≡ some 1
worker_found = process_get_self table 1 table-PidsDiffer (omega arith) refl (omega arith)

process_nice-IsSorted_example :
    let s' = process_nice 3 9 state in
    let p = s'.table 1 in
    IsSorted s'.table s'.run_queue
    × ((k : ℕ) × (position 1 state.run_queue ≡ some k)
        × Placed s'.table 1 (remove_at k state.run_queue) s'.run_queue)
    × ((1 ≤ p.priority) × (p.priority ≤ 5) × (p.remaining_quanta ≡ p.priority) × (p.wait_ticks ≡ 0))
    × (s'.table ≡ update table 1 p)
process_nice-IsSorted_example =
    process_nice-IsSorted 3 1 9 state worker_found refl (inr (omega arith, Once-single 1))
      (omega arith) (omega arith) refl
