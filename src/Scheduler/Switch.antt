-- ===== src/Scheduler/Switch.antt =====
-- The timer tick and the voluntary yield of Kernel/c/scheduler/scheduler.c, with the memory manager
-- as a parameter. Both return the stack pointer that interrupts.asm loads.
pub mod Running
pub mod Quantum
pub mod Waiting
pub mod Memory
pub mod Names
mod Tests
use tp2_so_nuevo.Prelude.{
  ℕ, zero, suc, ◌+◌, ◌-◌, ◌%◌, ◌^◌, Bool, true, false, not, ◌&&◌, ◌||◌, List, [], ◌∷◌, Option, none,
  some, ltb, ◌==◌, if◌then◌else◌, is_same, update,
}
use tp2_so_nuevo.Allocator.{Allocator}
use tp2_so_nuevo.Process.Pcb.{
  ProcessState, free, ready, running, is_ready, is_running, is_zombie, Pcb, Procs, set_slot,
}
use tp2_so_nuevo.Scheduler.{scheduler_remove, scheduler_next_ready}

-- One more tick of waiting.
pub older : Pcb → Pcb
older p = record p { wait_ticks = (p.wait_ticks + 1) % 2 ^ 32 }

-- A READY process that is not the current one waits.
pub age_one : Option ℕ → ℕ → (ℕ → Pcb) → ℕ → Pcb
age_one cur x table =
    if not (is_same cur x) && is_ready (table x).state
    then update table x (older (table x))
    else table

pub age : Option ℕ → List ℕ → (ℕ → Pcb) → ℕ → Pcb
age cur [] table = table
age cur (x ∷ xs) table = age cur xs (age_one cur x table)

-- A running process uses up one quantum; the flag tells whether it keeps the CPU.
pub spend : Pcb → Pcb × Bool
spend p =
    if not (is_running p.state)
    then (p, false)
    else let left =
        if ltb 0 p.remaining_quanta then p.remaining_quanta - 1 else p.remaining_quanta in
      if ltb 0 left
      then (record p { remaining_quanta = left }, true)
      else (record p { state = ready; remaining_quanta = p.priority }, false)

-- A running process gives up the CPU.
pub give_up : Pcb → Pcb
give_up p = record p {
  state = if is_running p.state then ready else p.state;
  remaining_quanta = p.priority;
}

-- What is freed: the slot in the process table.
pub release_slot : ℕ → Procs → Procs
release_slot i s =
    set_slot s i (record (s.table i) { stack_base = 0; argv = 0; rsp = 0; state = free; pid = 0 })

-- The chosen process gets the CPU.
pub run_next : ℕ → Procs → Procs
run_next n s = record (set_slot s n (record (s.table n) { wait_ticks = 0; state = running })) {
  current = some n;
}

abbrev pub may_stay_tick : ProcessState → Bool
may_stay_tick st = is_ready st || is_running st

-- Nobody else is READY: a process that can go on does.
pub stay : (ProcessState → Bool) → ℕ → Procs → Procs
stay may c s =
    if may (s.table c).state then set_slot s c (record (s.table c) { state = running }) else s

-- `timer_handler` and the loop over the queue.
pub count_tick : Procs → Procs
count_tick s = record s {
  ticks = (s.ticks + 1) % 2 ^ 64;
  table = age s.current s.run_queue s.table;
}

pub scheduler_init : Procs → Procs
scheduler_init s = record s { run_queue = []; queue_idx = 0 }

pub scheduler_set_idle : Option ℕ → Procs → Procs
scheduler_set_idle p s = record s { idle = p }

-- The stack pointer that the first process starts from, and `none` if there is no process to start.
pub start_from : Option ℕ → Procs → Option ℕ × Procs
start_from none s = (none, s)
start_from (some n) s = (
  some (s.table n).rsp,
  record (set_slot s n (record (s.table n) { state = running })) { current = some n },
)

pub scheduler_start : Procs → Option ℕ × Procs
scheduler_start s = let (first, s') = scheduler_next_ready s in start_from first s'

module _ (mm : Allocator) where
  pub record Machine : Type 0 where
    pub procs : Procs
    pub heap : mm.Heap

  abbrev pub free_unless_null : ℕ → mm.Heap → mm.Heap
  free_unless_null ptr h = if ptr == 0 then h else mm.free ptr h

  -- A zombie that leaves the CPU.
  pub reap : ℕ → Machine → Machine
  reap c m =
      let p = m.procs.table c in
      if is_zombie p.state
      then record {
        procs = release_slot c (scheduler_remove c m.procs);
        heap = free_unless_null p.argv (free_unless_null p.stack_base m.heap);
      }
      else m

  abbrev pub reap_current : Option ℕ → Machine → Machine
  reap_current none m = m
  reap_current (some c) m = reap c m

  abbrev pub stay_current : (ProcessState → Bool) → Option ℕ → Procs → Procs
  stay_current may none s = s
  stay_current may (some c) s = stay may c s

  -- The part that follows `scheduler_next_ready` in both functions.
  pub switch_to : (ProcessState → Bool) → ℕ → Option ℕ → Machine → ℕ × Machine
  switch_to may rsp none m = (rsp, record m { procs = stay_current may m.procs.current m.procs })
  switch_to may rsp (some n) m =
      let m' = reap_current m.procs.current m in
      ((m'.procs.table n).rsp, record m' { procs = run_next n m'.procs })

  pub pick_next : (ProcessState → Bool) → ℕ → Machine → ℕ × Machine
  pick_next may rsp m =
      let (next, s) = scheduler_next_ready m.procs in
      switch_to may rsp next (record m { procs = s })

  -- The process that the tick interrupts.
  pub interrupt : ℕ → ℕ → Machine → ℕ × Machine
  interrupt rsp c m =
      let (p, keeps) = spend (record (m.procs.table c) { rsp = rsp }) in
      let m' = record m { procs = set_slot m.procs c p } in
      if keeps then (rsp, m') else pick_next may_stay_tick rsp m'

  pub tick_from : Option ℕ → ℕ → Machine → ℕ × Machine
  tick_from none rsp m = pick_next may_stay_tick rsp m
  tick_from (some c) rsp m = interrupt rsp c m

  pub scheduler_tick : ℕ → Machine → ℕ × Machine
  scheduler_tick rsp m = tick_from m.procs.current rsp (record m { procs = count_tick m.procs })

  pub yield_from : Option ℕ → ℕ → Machine → ℕ × Machine
  yield_from none rsp m = pick_next is_ready rsp m
  yield_from (some c) rsp m =
      let p = give_up (record (m.procs.table c) { rsp = rsp }) in
      pick_next is_ready rsp (record m { procs = set_slot m.procs c p })

  pub scheduler_yield_impl : ℕ → Machine → ℕ × Machine
  scheduler_yield_impl rsp m = yield_from m.procs.current rsp m
