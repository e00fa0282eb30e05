-- ===== src/Semaphore.antt =====
-- Kernel/c/semaphore/semaphore.c. A `Semaphore *` is its index in `sem_table`, a name is the list of
-- its characters before the NUL, and a NULL name is `none`. An operation that would spin on a lock
-- for ever has no result.
pub mod Balance
pub mod Waiting
pub mod Names
pub mod Handover
pub mod Cleanup
mod Tests
use tp2_so_nuevo.Prelude.{
  ℕ, zero, suc, ◌+◌, ◌-◌, Bool, true, false, ◌&&◌, List, [], ◌∷◌, Option, none, some, ltb, leb,
  ◌==◌, if◌then◌else◌, update, first_index, ℤ, pos, negsuc, succ_int, pred_int, is_negative,
  is_nonpositive, to_signed, take,
}
use tp2_so_nuevo.Process.Pcb.{Procs, max_processes, set_slot}
use tp2_so_nuevo.Process.Control.{process_get, with_process, process_block, process_unblock}
use tp2_so_nuevo.WaitQueue.{WaitQueue, emptied, enqueue, queue_pop}

abbrev pub max_sems : ℕ
max_sems = 32

abbrev pub sem_name_len : ℕ
sem_name_len = 32

pub record Semaphore : Type 0 where
  pub name : List ℕ
  pub value : ℤ
  pub queue : WaitQueue
  pub open_count : ℕ
  pub lock : Bool

-- The processes and `sem_table`.
pub record Sems : Type 0 where
  pub procs : Procs
  pub sems : ℕ → Semaphore

abbrev pub put : ℕ → Semaphore → Sems → Sems
put i s st = record st { sems = update st.sems i s }

pub sem_str_eq : List ℕ → List ℕ → Bool
sem_str_eq [] [] = true
sem_str_eq [] (y ∷ ys) = false
sem_str_eq (x ∷ xs) [] = false
sem_str_eq (x ∷ xs) (y ∷ ys) = let rest = sem_str_eq xs ys in if x == y then rest else false

-- What fits before the NUL.
pub sem_str_copy : List ℕ → ℕ → List ℕ
sem_str_copy src size = take (size - 1) src

abbrev pub is_named : List ℕ → (ℕ → Semaphore) → ℕ → Bool
is_named name sems i = ltb 0 (sems i).open_count && sem_str_eq (sems i).name name

pub find_sem : List ℕ → (ℕ → Semaphore) → Option ℕ
find_sem name sems = first_index (is_named name sems) 0 max_sems

pub queue_push : WaitQueue → ℕ → WaitQueue
queue_push q pid = if leb max_processes q.count then q else enqueue q pid

-- The lock is held from here on; where somebody holds it, the loop never ends.
pub sem_lock : ℕ → Sems → Option Sems
sem_lock i st =
    if (st.sems i).lock then none else some (put i (record (st.sems i) { lock = true }) st)

abbrev pub sem_unlock : Semaphore → Semaphore
sem_unlock s = record s { lock = false }

-- A semaphore as `sem_init` leaves it.
abbrev pub initial_sem : Semaphore
initial_sem = record {
  name = [];
  value = pos 0;
  queue = record { slots = λ _. 0; head = 0; tail = 0; count = 0 };
  open_count = 0;
  lock = false;
}

pub sem_init : Sems → Sems
sem_init st = record st { sems = λ i. if ltb i max_sems then initial_sem else st.sems i }

-- The bit of a semaphore in the PCB of slot `k`.
pub hold : ℕ → Bool → ℕ → Procs → Procs
hold i b k s = set_slot s k (record (s.table k) { held_sems = update (s.table k).held_sems i b })

pub register : ℕ → Bool → ℕ → Procs → Procs
register i b k s =
    set_slot s k (record (s.table k) { opened_sems = update (s.table k).opened_sems i b })

-- The slot that a new semaphore takes.
abbrev pub opened : List ℕ → ℕ → Semaphore → Semaphore
opened name v s = record {
  name = sem_str_copy name sem_name_len;
  value = to_signed v;
  queue = emptied s.queue;
  open_count = 1;
  lock = false;
}

abbrev pub registered : ℕ → Sems → ℕ × Sems
registered i st =
    (1, record st { procs = with_process st.procs.current (register i true) st.procs })

-- First the semaphore of that name, then a slot that nobody has open.
pub open_slot : List ℕ → ℕ → Option ℕ → Option ℕ → Sems → ℕ × Sems
open_slot name v (some i) unused st =
    registered i (put i (record (st.sems i) { open_count = (st.sems i).open_count + 1 }) st)
open_slot name v none (some i) st = registered i (put i (opened name v (st.sems i)) st)
open_slot name v none none st = (0, st)

pub sem_open : Option (List ℕ) → ℕ → Sems → ℕ × Sems
sem_open none v st = (0, st)
sem_open (some name) v st =
    let unused = first_index (λ i. (st.sems i).open_count == 0) 0 max_sems in
    open_slot name v (find_sem name st.sems) unused st

-- No resource: the current process waits in the queue.
pub wait_blocked : ℕ → Option ℕ → Semaphore → Sems → ℤ × Sems
wait_blocked i none s st = (negsuc 0, put i (sem_unlock s) st)
wait_blocked i (some c) s st =
    let pid = (st.procs.table c).pid in
    (
      pos 0,
      record {
        procs = process_block pid st.procs;
        sems = update st.sems i (sem_unlock (record s { queue = queue_push s.queue pid }));
      },
    )

pub wait_locked : ℕ → Sems → ℤ × Sems
wait_locked i st =
    let s = record (st.sems i) { value = pred_int (st.sems i).value } in
    if is_negative s.value then wait_blocked i st.procs.current s st else (
      pos 0,
      record {
        procs = with_process st.procs.current (hold i true) st.procs;
        sems = update st.sems i (sem_unlock s);
      },
    )

-- The critical section on the semaphore that was found.
abbrev pub on_found : (ℕ → Sems → ℤ × Sems) → Option ℕ → Sems → Option (ℤ × Sems)
on_found f none st = some (negsuc 0, st)
on_found f (some i) st = elim (sem_lock i st) [ none ↦ none | some st' ↦ some (f i st') ]

pub sem_wait : Option (List ℕ) → Sems → Option (ℤ × Sems)
sem_wait none st = some (negsuc 0, st)
sem_wait (some name) st = on_found wait_locked (find_sem name st.sems) st

-- The resource goes to the process that waits longest.
pub hand_over : ℕ → Semaphore → Sems → Sems
hand_over i s st =
    let (pid, q) = queue_pop s.queue in
    let procs = with_process (process_get pid st.procs.table) (hold i true) st.procs in
    record {
      procs = process_unblock pid procs;
      sems = update st.sems i (sem_unlock (record s { queue = q }));
    }

-- `value++`, and somebody who waits gets the resource.
pub release : ℕ → Semaphore → Sems → Sems
release i s st =
    let s' = record s { value = succ_int s.value } in
    if is_nonpositive s'.value && ltb 0 s'.queue.count
    then hand_over i s' st
    else put i (sem_unlock s') st

pub post_locked : ℕ → Sems → ℤ × Sems
post_locked i st =
    let procs = with_process st.procs.current (hold i false) st.procs in
    (pos 0, release i (st.sems i) (record st { procs = procs }))

pub sem_post : Option (List ℕ) → Sems → Option (ℤ × Sems)
sem_post none st = some (negsuc 0, st)
sem_post (some name) st = on_found post_locked (find_sem name st.sems) st
