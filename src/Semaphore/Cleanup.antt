-- ===== src/Semaphore/Cleanup.antt =====
-- `sem_close`, and `sem_cleanup_for_process` for a process that dies.
pub mod Balance
pub mod Kept
use tp2_so_nuevo.Prelude.{
  ℕ, zero, suc, ◌-◌, Bool, false, List, [], ◌∷◌, Option, none, some, ltb, leb, ◌==◌, if◌then◌else◌,
  update, ℤ, pos, negsuc, succ_int,
}
use tp2_so_nuevo.Process.Pcb.{Procs, set_slot}
use tp2_so_nuevo.Process.Control.{process_get, with_process}
use tp2_so_nuevo.WaitQueue.{emptied, queue_remove_pid}
use tp2_so_nuevo.Semaphore.{
  Semaphore, Sems, max_sems, sem_lock, sem_unlock, hold, register, release, find_sem,
}

-- The reference that the dying process has to the semaphore is given back.
pub return_ref : Bool → Semaphore → Semaphore
return_ref has s =
    if has
    then record s { open_count = if ltb 0 s.open_count then s.open_count - 1 else s.open_count }
    else s

pub return_bit : ℕ → Bool → ℕ → Procs → Procs
return_bit i has k s = if has then register i false k s else s

-- The critical section on semaphore `i`, for the process with this PID in slot `k`.
pub cleanup_locked : ℕ → ℕ → ℕ → Sems → Sems
cleanup_locked pid k i st =
    let (was_queued, q) = queue_remove_pid (st.sems i).queue pid in
    let has = (st.procs.table k).opened_sems i in
    let s = return_ref has (record (st.sems i) { queue = q }) in
    let procs = return_bit i has k st.procs in
    if was_queued
    then record {
      procs = hold i false k procs;
      sems = update st.sems i (sem_unlock (record s { value = succ_int s.value }));
    }
    else if (procs.table k).held_sems i
    then release i s (record st { procs = hold i false k procs })
    else record { procs = procs; sems = update st.sems i (sem_unlock s) }

pub cleanup_one : ℕ → ℕ → ℕ → Sems → Option Sems
cleanup_one pid k i st =
    if leb (st.sems i).open_count 0
    then some st
    else elim (sem_lock i st) [ none ↦ none | some st' ↦ some (cleanup_locked pid k i st') ]

-- The loop over the table, from semaphore `i` on.
pub cleanup_from : ℕ → ℕ → ℕ → ℕ → Sems → Option Sems
cleanup_from pid k i zero st = some st
cleanup_from pid k i (suc n) st = elim (cleanup_one pid k i st) [
  | none ↦ none
  | some st' ↦ cleanup_from pid k (suc i) n st'
]

abbrev pub forget_bits : ℕ → Sems → Sems
forget_bits k st = record st {
  procs =
      set_slot st.procs k
        (record (st.procs.table k) { held_sems = λ _. false; opened_sems = λ _. false });
}

abbrev pub forgotten : ℕ → Option Sems → Option Sems
forgotten k none = none
forgotten k (some st) = some (forget_bits k st)

abbrev pub cleanup_slot : ℕ → Option ℕ → Sems → Option Sems
cleanup_slot pid none st = some st
cleanup_slot pid (some k) st = forgotten k (cleanup_from pid k 0 max_sems st)

pub sem_cleanup_for_process : ℕ → Sems → Option Sems
sem_cleanup_for_process pid st = cleanup_slot pid (process_get pid st.procs.table) st

-- One user less; the last one frees the slot, whoever still waits.
pub closed : Semaphore → Semaphore
closed s =
    let n = s.open_count - 1 in
    if leb n 0
    then record s { open_count = 0; name = []; queue = emptied s.queue }
    else record s { open_count = n }

abbrev pub close_found : Option ℕ → Sems → ℤ × Sems
close_found none st = (negsuc 0, st)
close_found (some i) st = (
  pos 0,
  record {
    procs = with_process st.procs.current (λ k s. register i false k (hold i false k s)) st.procs;
    sems = update st.sems i (closed (st.sems i));
  },
)

pub sem_close : Option (List ℕ) → Sems → ℤ × Sems
sem_close none st = (negsuc 0, st)
sem_close (some name) st = close_found (find_sem name st.sems) st
