-- ===== src/Kernel/Lifecycle.antt =====
-- Kernel/c/process/process.c: the end of a process, by itself or by another, the waiting for it, and
-- the redirection of a child's descriptors.
pub mod Steps
pub mod Waking
pub mod Parent
pub mod Exit
pub mod Kill
pub mod Wait
use tp2_so_nuevo.Prelude.{
  ℕ, zero, suc, ◌+◌, ◌*◌, Bool, true, false, ◌&&◌, ◌||◌, ◌∷◌, Option, none, some, ltb, ◌==◌,
  if◌then◌else◌, is_same, update, ==_refl, ==→≡, ==_of_ne, ℤ, pos, negsuc, to_word,
}
use tp2_so_nuevo.Allocator.{Allocator}
use tp2_so_nuevo.Process.Pcb.{
  Pcb, Procs, free, ready, blocked, zombie, is_free, is_blocked, is_zombie, max_processes, set_slot,
}
use tp2_so_nuevo.Process.Control.{process_get}
use tp2_so_nuevo.Scheduler.{scheduler_remove}
use tp2_so_nuevo.Scheduler.Switch.{free_unless_null}
use tp2_so_nuevo.Semaphore.Cleanup.{sem_cleanup_for_process}
use tp2_so_nuevo.Pipe.Ends.{pipe_cleanup_for_process}
use tp2_so_nuevo.Fd.{Fds, fd_incref, fd_decref}
use tp2_so_nuevo.Keyboard.{kbd_clear_waiting}
use tp2_so_nuevo.Kernel.{
  Kernel, sems_of, with_sems, pipes_of, with_pipes, fds_of, with_fds, with_procs,
}

-- A descriptor below 0 has nothing to close or to open.
abbrev pub drop_fd : Option ℕ → Fds → Fds
drop_fd none st = st
drop_fd (some fd) st = fd_decref fd st

abbrev pub take_fd : Option ℕ → Fds → Fds
take_fd none st = st
take_fd (some fd) st = fd_incref fd st

-- `parent->rsp[14]`, the RAX that the parent resumes with.
abbrev pub saved_rax : Pcb → ℕ
saved_rax p = p.rsp + 14 * 8

-- The process in the foreground with the highest PID among slot `i` and the `n - 1` slots behind it,
-- from the slot and PID found so far, and how many are in the foreground.
pub newest_foreground : (ℕ → Pcb) → ℕ → ℕ → Option ℕ → ℕ → ℕ → Option ℕ × ℕ × ℕ
newest_foreground table i zero target pid count = (target, pid, count)
newest_foreground table i (suc n) target pid count =
    let p = table i in
    let skipped = newest_foreground table (suc i) n target pid count in
    let newer = newest_foreground table (suc i) n (some i) p.pid (count + 1) in
    let older = newest_foreground table (suc i) n target pid (count + 1) in
    if is_free p.state || p.foreground == 0 then skipped else if ltb pid p.pid then newer else older

abbrev pub is_found : Option ℕ → Bool
is_found none = false
is_found (some i) = true

-- The current process waits for a process that is alive.
pub wait_for : ℕ → Option ℕ → Procs → Procs
wait_for pid none s = record s { force_switch = true }
wait_for pid (some c) s =
    record (set_slot s c (record (s.table c) { state = blocked; waiting_for = pid })) {
      force_switch = true;
    }

module _ (mm : Allocator) where
  pub process_release_fds : ℕ → Kernel mm → Kernel mm
  process_release_fds i k =
      let k1 = with_fds mm k (drop_fd (k.procs.table i).fd_in (fds_of mm k)) in
      let k2 = with_fds mm k1 (drop_fd (k1.procs.table i).fd_out (fds_of mm k1)) in
      with_procs mm k2
        (set_slot k2.procs i (record (k2.procs.table i) { fd_in = none; fd_out = none }))

  -- A parent that waits for this PID gets the return value and goes on.
  pub wake_parent_slot : ℕ → ℤ → Option ℕ → Kernel mm → Kernel mm
  wake_parent_slot pid retval none k = k
  wake_parent_slot pid retval (some j) k =
      let q = k.procs.table j in
      if is_blocked q.state && (q.waiting_for == pid)
      then record k {
        words = update k.words (saved_rax q) (to_word retval);
        procs = set_slot k.procs j (record q { waiting_for = 0; state = ready; wait_ticks = 0 });
      }
      else k

  pub wake_parent : ℕ → ℤ → ℕ → Kernel mm → Kernel mm
  wake_parent pid retval parent_pid k =
      wake_parent_slot pid retval (process_get parent_pid k.procs.table) k

  -- What `process_exit` and `process_kill` undo after the semaphores.
  pub leave_queues : ℕ → ℕ → Kernel mm → Kernel mm
  leave_queues i pid k =
      let k' = with_pipes mm k (pipe_cleanup_for_process pid (pipes_of mm k)) in
      record k' { keyboard = kbd_clear_waiting i k'.keyboard }

  pub exit_rest : ℕ → ℕ → ℤ → Kernel mm → Kernel mm
  exit_rest c pid retval k =
      let k1 = process_release_fds c (leave_queues c pid k) in
      let k2 = wake_parent pid retval (k1.procs.table c).parent_pid k1 in
      with_procs mm k2
        (record (set_slot k2.procs c (record (k2.procs.table c) { state = zombie })) {
          force_switch = true;
        })

  -- The semaphores first; where their cleanup would spin for ever, nothing results.
  pub clean_sems : ℕ → (Kernel mm → Kernel mm) → Kernel mm → Option (Kernel mm)
  clean_sems pid rest k = elim (sem_cleanup_for_process pid (sems_of mm k)) [
    | none ↦ none
    | some st ↦ some (rest (with_sems mm k st))
  ]

  abbrev pub with_retval : ℕ → ℤ → Kernel mm → Kernel mm
  with_retval i retval k =
      with_procs mm k (set_slot k.procs i (record (k.procs.table i) { retval = retval }))

  pub exit_from : Option ℕ → ℤ → Kernel mm → Option (Kernel mm)
  exit_from none retval k = some k
  exit_from (some c) retval k =
      let pid = (k.procs.table c).pid in
      clean_sems pid (exit_rest c pid retval) (with_retval c retval k)

  pub process_exit : ℤ → Kernel mm → Option (Kernel mm)
  process_exit retval k = exit_from k.procs.current retval k

  -- The killed process runs: its stack stays until the switch.
  pub kill_self : ℕ → Kernel mm → Kernel mm
  kill_self i k =
      let dead = set_slot k.procs i (record (k.procs.table i) { state = zombie }) in
      let k' = process_release_fds i (with_procs mm k dead) in
      with_procs mm k' (record k'.procs { force_switch = true })

  -- A slot that is given back with its stack and its arguments.
  pub kill_other : ℕ → Kernel mm → Kernel mm
  kill_other i k =
      let k' = process_release_fds i (with_procs mm k (scheduler_remove i k.procs)) in
      let p = k'.procs.table i in
      record k' {
        heap = free_unless_null mm p.argv (free_unless_null mm p.stack_base k'.heap);
        procs = set_slot k'.procs i (record p { stack_base = 0; argv = 0; state = free; pid = 0 });
      }

  pub kill_rest : ℕ → ℕ → Kernel mm → Kernel mm
  kill_rest i pid k =
      let k1 = leave_queues i pid k in
      let k2 = wake_parent pid (negsuc 0) (k1.procs.table i).parent_pid k1 in
      if is_same k2.procs.current i then kill_self i k2 else kill_other i k2

  pub kill_slot : Option ℕ → ℕ → Kernel mm → Option (Kernel mm)
  kill_slot none pid k = some k
  kill_slot (some i) pid k =
      let state = (k.procs.table i).state in
      if is_free state || is_zombie state
      then some k
      else clean_sems pid (kill_rest i pid) (with_retval i (negsuc 0) k)

  pub process_kill : ℕ → Kernel mm → Option (Kernel mm)
  process_kill pid k = kill_slot (process_get pid k.procs.table) pid k

  pub process_kill_foreground : Kernel mm → Option (Kernel mm)
  process_kill_foreground k =
      let (target, pid, count) = newest_foreground k.procs.table 0 max_processes none 0 0 in
      if is_found target && ltb 1 count then process_kill pid k else some k

  -- The slot of a zombie is given back.
  pub reclaim : ℕ → Kernel mm → Kernel mm
  reclaim i k =
      let p = k.procs.table i in
      record k {
        heap = free_unless_null mm p.argv (free_unless_null mm p.stack_base k.heap);
        procs =
            set_slot k.procs i
              (record p { stack_base = 0; argv = 0; rsp = 0; state = free; pid = 0 });
      }

  pub waitpid_slot : Option ℕ → ℕ → Kernel mm → ℤ × Kernel mm
  waitpid_slot none pid k = (negsuc 0, k)
  waitpid_slot (some i) pid k =
      let p = k.procs.table i in
      if is_zombie p.state
      then (p.retval, reclaim i k)
      else (pos 0, with_procs mm k (wait_for pid k.procs.current k.procs))

  pub process_waitpid : ℕ → Kernel mm → ℤ × Kernel mm
  process_waitpid pid k = waitpid_slot (process_get pid k.procs.table) pid k

  -- `target` is not negative; 0 is the input and 1 the output.
  pub setup_slot : Option ℕ → Option ℕ → ℕ → Kernel mm → Kernel mm
  setup_slot none fd target k = k
  setup_slot (some i) fd target k =
      let p = k.procs.table i in
      let old = if target == 0 then p.fd_in else p.fd_out in
      let k1 = with_fds mm k (drop_fd old (fds_of mm k)) in
      let q = k1.procs.table i in
      let p' = if target == 0 then record q { fd_in = fd } else record q { fd_out = fd } in
      let k2 = with_procs mm k1 (set_slot k1.procs i p') in
      if ltb 1 target then k else with_fds mm k2 (take_fd fd (fds_of mm k2))

  pub process_pipe_setup : ℕ → Option ℕ → ℕ → Kernel mm → Kernel mm
  process_pipe_setup pid fd target k = setup_slot (process_get pid k.procs.table) fd target k
