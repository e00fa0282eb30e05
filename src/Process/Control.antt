-- ===== src/Process/Control.antt =====
-- Kernel/c/process/process.c: finding a process by its PID, blocking and unblocking it, and its
-- priority.
pub mod Lookup
pub mod Blocking
pub mod Nice
pub mod Kept
mod Tests
use tp2_so_nuevo.Prelude.{
  ℕ, Bool, true, false, not, ◌&&◌, ◌||◌, Option, none, some, ltb, ◌==◌, if◌then◌else◌, is_same,
  first_index,
}
use tp2_so_nuevo.Process.Pcb.{
  Pcb, Procs, ready, blocked, is_free, is_zombie, is_blocked, max_processes, min_priority,
  max_priority, set_slot,
}
use tp2_so_nuevo.Scheduler.{scheduler_remove, scheduler_add}

abbrev pub has_pid : (ℕ → Pcb) → ℕ → ℕ → Bool
has_pid table pid i = ((table i).pid == pid) && not (is_free (table i).state)

pub process_get : ℕ → (ℕ → Pcb) → Option ℕ
process_get pid table = if pid == 0 then none else first_index (has_pid table pid) 0 max_processes

-- What a function does after `process_get`, with NULL an early return.
abbrev pub with_process : Option ℕ → (ℕ → Procs → Procs) → Procs → Procs
with_process none f s = s
with_process (some i) f s = f i s

pub block_slot : ℕ → Procs → Procs
block_slot i s =
    let p = s.table i in
    if is_free p.state || is_zombie p.state
    then s
    else if is_blocked p.state
    then s
    else record (set_slot s i (record p { state = blocked })) {
      force_switch = if is_same s.current i then true else s.force_switch;
    }

pub process_block : ℕ → Procs → Procs
process_block pid s = with_process (process_get pid s.table) block_slot s

-- A process above the running one asks for a switch.
abbrev pub boosts : Option ℕ → ℕ → (ℕ → Pcb) → Bool
boosts none i table = false
boosts (some c) i table = ltb (table c).priority (table i).priority

pub unblock_slot : ℕ → Procs → Procs
unblock_slot i s =
    let p = s.table i in
    if not (is_blocked p.state)
    then s
    else record (set_slot s i (record p { state = ready; wait_ticks = 0 })) {
      force_switch = if boosts s.current i s.table then true else s.force_switch;
    }

pub process_unblock : ℕ → Procs → Procs
process_unblock pid s = with_process (process_get pid s.table) unblock_slot s

pub clamp_priority : ℕ → ℕ
clamp_priority prio =
    if ltb prio min_priority
    then min_priority
    else if ltb max_priority prio
    then max_priority
    else prio

pub nice_slot : ℕ → ℕ → Procs → Procs
nice_slot prio i s =
    let p = s.table i in
    let s' = set_slot s i (record p {
      priority = clamp_priority prio;
      wait_ticks = 0;
      remaining_quanta = clamp_priority prio;
    }) in
    if is_free p.state || is_zombie p.state then s' else scheduler_add i (scheduler_remove i s')

pub process_nice : ℕ → ℕ → Procs → Procs
process_nice pid prio s = with_process (process_get pid s.table) (nice_slot prio) s
