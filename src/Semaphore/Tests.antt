-- ===== src/Semaphore/Tests.antt =====
-- Runs of the semaphores, and their theorems at concrete states.
use tp2_so_nuevo.Prelude.{
  update, ℕ, zero, suc, ◌<◌, ◌≡◌, refl, false, [], ◌∷◌, none, some, arith, ◌==◌, if◌then◌else◌, ℤ,
  pos, negsuc, replicate,
}
use tp2_so_nuevo.Prelude.Search.{first_index}
use tp2_so_nuevo.Process.Pcb.{Pcb, Procs, blank, blocked, running, max_processes}
use tp2_so_nuevo.Process.Control.Lookup.{PidsDiffer, process_get_self}
use tp2_so_nuevo.WaitQueue.Fifo.{waiting}
use tp2_so_nuevo.WaitQueue.Removal.{member}
use tp2_so_nuevo.Semaphore.{
  Semaphore, Sems, initial_sem, find_sem, sem_str_eq, sem_open, open_slot, sem_wait, sem_post,
}
use tp2_so_nuevo.Semaphore.Balance.{AllBalanced}
use tp2_so_nuevo.Semaphore.Waiting.{sem_wait-AllBalanced, sem_post-AllBalanced}
use tp2_so_nuevo.Semaphore.Handover.{Handed, sem_post-Handed}
use tp2_so_nuevo.Semaphore.Names.{NamesFit, sem_open_long}
use tp2_so_nuevo.Semaphore.Cleanup.{sem_cleanup_for_process}
use tp2_so_nuevo.Semaphore.Cleanup.Balance.{sem_cleanup_for_process-AllBalanced}

-- Slot 0 runs, slot 1 waits for the semaphore.
abbrev table : ℕ → Pcb
table i =
    if i == 0
    then record blank { pid = 2; priority = 3; state = running }
    else if i == 1
    then record blank { pid = 3; priority = 3; state = blocked }
    else blank

abbrev procs : Procs
procs = record {
  table = table;
  next_pid = 3;
  current = some 0;
  run_queue = 0 ∷ 1 ∷ [];
  queue_idx = 0;
  idle = none;
  force_switch = false;
  ticks = 0;
}

abbrev mutex : Semaphore
mutex = record {
  name = 109 ∷ [];
  value = negsuc 0;
  queue = record { slots = λ _. 3; head = 0; tail = 1; count = 1 };
  open_count = 2;
  lock = false;
}

abbrev sems : ℕ → Semaphore
sems zero = mutex
sems (suc i) = initial_sem

abbrev state : Sems
state = record { procs = procs; sems = sems }

state-AllBalanced : AllBalanced state.sems
state-AllBalanced zero = (refl, λ used. ((omega arith, omega arith, refl), refl, (refl, tt)))
state-AllBalanced (suc i) = (refl, λ used. absurd (omega arith))

room : (i : ℕ) → (state.sems i).queue.count < max_processes
room zero = omega arith
room (suc i) = omega arith

out : (i : ℕ) → member 2 (waiting (state.sems i).queue) ≡ false
out zero = refl
out (suc i) = refl

fit : NamesFit state.sems
fit zero = omega arith
fit (suc i) = omega arith

opens : (sem_open (some (110 ∷ [])) 1 state).0 ≡ 1
unfolding sem_open open_slot find_sem sem_str_eq first_index
opens = refl

found : find_sem (109 ∷ []) state.sems ≡ some 0
unfolding find_sem sem_str_eq first_index
found = refl

sem_post-AllBalanced_example :
    (r : ℤ) × (st' : Sems) × (sem_post (some (109 ∷ [])) state ≡ some (r, st'))
    × AllBalanced st'.sems
sem_post-AllBalanced_example = sem_post-AllBalanced (some (109 ∷ [])) state state-AllBalanced

sem_wait-AllBalanced_example :
    (r : ℤ) × (st' : Sems) × (sem_wait (some (109 ∷ [])) state ≡ some (r, st'))
    × AllBalanced st'.sems
sem_wait-AllBalanced_example =
    sem_wait-AllBalanced (some (109 ∷ [])) 0 state state-AllBalanced refl room out

sem_cleanup_for_process-AllBalanced_example :
    (st' : Sems) × (sem_cleanup_for_process 3 state ≡ some st') × AllBalanced st'.sems
sem_cleanup_for_process-AllBalanced_example =
    sem_cleanup_for_process-AllBalanced 3 state state-AllBalanced

table-PidsDiffer : PidsDiffer table
table-PidsDiffer i j hi hj ui uj e = ground arith

sem_post-Handed_example :
    (st' : Sems) × (sem_post (some (109 ∷ [])) state ≡ some (pos 0, st')) × Handed 0 1 [] st'
sem_post-Handed_example =
    sem_post-Handed (109 ∷ []) 0 1 3 [] state found refl refl refl
      (process_get_self table 1 table-PidsDiffer (omega arith) refl (omega arith)) refl refl

sem_open_long_example :
    let (r, st') = sem_open (some (replicate 40 97)) 1 state in
    (r ≡ 1)
    × ((k : ℕ) × (k < 32)
        × ((state.sems k).open_count ≡ 0)
        × ((st'.sems k).name ≡ replicate 31 97)
        × ((st'.sems k).open_count ≡ 1)
        × ((st'.sems k).value ≡ pos 1)
        × (st'.sems ≡ update state.sems k (st'.sems k)))
    × (sem_wait (some (replicate 40 97)) st' ≡ some (negsuc 0, st'))
sem_open_long_example =
    sem_open_long (replicate 40 97) 1 1 state fit (omega arith) (omega arith) refl
