-- ===== src/Process/Pcb.antt =====
-- The PCB and the process table. A `PCB *` is the index of its slot in `process_table`, and NULL is
-- `none`. A 32-bit map of semaphores is the function that tells each bit.
use tp2_so_nuevo.Prelude.{ℕ, Bool, true, false, List, [], Option, some, update, ℤ, pos}

abbrev pub max_processes : ℕ
max_processes = 64

abbrev pub min_priority : ℕ
min_priority = 1

abbrev pub max_priority : ℕ
max_priority = 5

abbrev pub default_priority : ℕ
default_priority = 3

pub data ProcessState : Type 0 where
  free ready running blocked zombie : ProcessState

abbrev pub is_free : ProcessState → Bool
is_free free = true
is_free _ = false

abbrev pub is_ready : ProcessState → Bool
is_ready ready = true
is_ready _ = false

abbrev pub is_running : ProcessState → Bool
is_running running = true
is_running _ = false

abbrev pub is_blocked : ProcessState → Bool
is_blocked blocked = true
is_blocked _ = false

abbrev pub is_zombie : ProcessState → Bool
is_zombie zombie = true
is_zombie _ = false

-- `struct PCB`. Addresses are numbers, 0 for NULL; `fd` is `none` for a negative descriptor;
-- `argc` is not negative.
pub record Pcb : Type 0 where
  pub pid : ℕ
  pub name : List ℕ
  pub entry : ℕ
  pub priority : ℕ
  pub remaining_quanta : ℕ
  pub wait_ticks : ℕ
  pub state : ProcessState
  pub rsp : ℕ
  pub stack_base : ℕ
  pub foreground : ℕ
  pub fd_in : Option ℕ
  pub fd_out : Option ℕ
  pub parent_pid : ℕ
  pub waiting_for : ℕ
  pub argc : ℕ
  pub argv : ℕ
  pub retval : ℤ
  pub held_sems : ℕ → Bool
  pub opened_sems : ℕ → Bool

-- A slot as `memset` leaves it in `process_init`.
abbrev pub blank : Pcb
blank = record {
  pid = 0;
  name = [];
  entry = 0;
  priority = 0;
  remaining_quanta = 0;
  wait_ticks = 0;
  state = free;
  rsp = 0;
  stack_base = 0;
  foreground = 0;
  fd_in = some 0;
  fd_out = some 0;
  parent_pid = 0;
  waiting_for = 0;
  argc = 0;
  argv = 0;
  retval = pos 0;
  held_sems = λ _. false;
  opened_sems = λ _. false;
}

-- The variables of process.c and scheduler.c. `run_queue` is the initial part of the array, of
-- length `queue_size`; what lies past it is never read.
pub record Procs : Type 0 where
  pub table : ℕ → Pcb
  pub next_pid : ℕ
  pub current : Option ℕ
  pub run_queue : List ℕ
  pub queue_idx : ℕ
  pub idle : Option ℕ
  pub force_switch : Bool
  pub ticks : ℕ

-- A write to the fields of one slot.
abbrev pub set_slot : Procs → ℕ → Pcb → Procs
set_slot s i p = record s { table = update s.table i p }
