-- ===== src/Pipe/Ends.antt =====
-- Opening and closing the pipes of Kernel/c/pipe/pipe.c, by name or by end.
pub mod Naming
pub mod Closing
pub mod Kept
use tp2_so_nuevo.Prelude.{
  ℕ, zero, suc, ◌+◌, ◌-◌, Bool, true, false, not, ◌&&◌, List, [], ◌∷◌, Option, none, some, ltb, leb,
  ◌==◌, if◌then◌else◌, update, take, first_index,
}
use tp2_so_nuevo.WaitQueue.{queue_remove_pid}
use tp2_so_nuevo.Pipe.{
  Pipe, Pipes, put, max_pipes, pipe_name_len, pipe_reset, pipe_maybe_free, pipe_wake_all_readers,
  pipe_wake_all_writers,
}

-- `memset` of the whole table.
abbrev pub zero_pipe : Pipe
zero_pipe = record {
  buffer = λ _. 0;
  read_idx = 0;
  write_idx = 0;
  count = 0;
  open_read = 0;
  open_write = 0;
  readers = record { slots = λ _. 0; head = 0; tail = 0; count = 0 };
  writers = record { slots = λ _. 0; head = 0; tail = 0; count = 0 };
  in_use = false;
  is_named = false;
  eof = false;
  opens = 0;
  name = [];
}

pub pipe_init : Pipes → Pipes
pipe_init st = record st { pipes = λ i. if ltb i max_pipes then zero_pipe else st.pipes i }

-- A PID leaves the queues of one pipe.
pub leave_pipe : ℕ → Pipe → Pipe
leave_pipe pid p = if not p.in_use then p else record p {
  readers = (queue_remove_pid p.readers pid).1;
  writers = (queue_remove_pid p.writers pid).1;
}

-- The loop over the table, from pipe `i` on.
pub leave_pipes : ℕ → ℕ → ℕ → (ℕ → Pipe) → ℕ → Pipe
leave_pipes pid i zero pipes = pipes
leave_pipes pid i (suc n) pipes =
    leave_pipes pid (suc i) n (update pipes i (leave_pipe pid (pipes i)))

pub pipe_cleanup_for_process : ℕ → Pipes → Pipes
pipe_cleanup_for_process pid st = record st { pipes = leave_pipes pid 0 max_pipes st.pipes }

abbrev pub alloc_slot : Option ℕ → Pipes → Option ℕ × Pipes
alloc_slot none st = (none, st)
alloc_slot (some i) st = (some i, put i (record (pipe_reset (st.pipes i)) { in_use = true }) st)

pub pipe_alloc : Pipes → Option ℕ × Pipes
pipe_alloc st = alloc_slot (first_index (λ i. not (st.pipes i).in_use) 0 max_pipes) st

-- Both strings end where they stop agreeing.
pub names_match : List ℕ → List ℕ → Bool
names_match [] [] = true
names_match [] (y ∷ ys) = false
names_match (x ∷ xs) [] = false
names_match (x ∷ xs) (y ∷ ys) = let rest = names_match xs ys in if x == y then rest else false

abbrev pub carries : List ℕ → Pipe → Bool
carries name p = p.in_use && (p.is_named && names_match name p.name)

pub find_pipe : List ℕ → (ℕ → Pipe) → Option ℕ
find_pipe name pipes = first_index (λ i. carries name (pipes i)) 0 max_pipes

abbrev pub name_slot : List ℕ → Option ℕ → Pipes → Option ℕ × Pipes
name_slot name none st = (none, st)
name_slot name (some i) st = (
  some i,
  put i (record (st.pipes i) { name = take (pipe_name_len - 1) name; is_named = true; opens = 1 })
      st,
)

abbrev pub open_named : List ℕ → Option ℕ → Pipes → Option ℕ × Pipes
open_named name none st = let (slot, st') = pipe_alloc st in name_slot name slot st'
open_named name (some i) st =
    (some i, put i (record (st.pipes i) { opens = (st.pipes i).opens + 1 }) st)

-- A NULL name asks for an anonymous pipe.
pub pipe_open : Option (List ℕ) → Pipes → Option ℕ × Pipes
pipe_open none st = pipe_alloc st
pipe_open (some name) st = open_named name (find_pipe name st.pipes) st

pub pipe_open_read : Option ℕ → Pipes → Pipes
pipe_open_read none st = st
pipe_open_read (some i) st =
    let p = record (st.pipes i) { open_read = (st.pipes i).open_read + 1 } in
    let st' = put i p st in
    if p.is_named && (ltb 0 p.writers.count && ltb 0 p.open_read)
    then pipe_wake_all_writers i st'
    else st'

pub pipe_open_write : Option ℕ → Pipes → Pipes
pipe_open_write none st = st
pipe_open_write (some i) st =
    let p = record (st.pipes i) { open_write = (st.pipes i).open_write + 1 } in
    let named = record p { eof = false } in
    if p.is_named
    then (if ltb 0 p.readers.count
        then pipe_wake_all_readers i (put i named st)
        else put i named st)
    else put i p st

-- One reader less; 0 stays 0.
pub pipe_close_read : Option ℕ → Pipes → Pipes
pipe_close_read none st = st
pipe_close_read (some i) st =
    let p = record (st.pipes i) { open_read = (st.pipes i).open_read - 1 } in
    let st' = put i p st in
    pipe_maybe_free i (if p.open_read == 0 then pipe_wake_all_writers i st' else st')

pub pipe_close_write : Option ℕ → Pipes → Pipes
pipe_close_write none st = st
pipe_close_write (some i) st =
    let p = record (st.pipes i) { open_write = (st.pipes i).open_write - 1 } in
    let ended = record p { eof = if p.is_named && leb 2 p.opens then true else p.eof } in
    pipe_maybe_free i
      (if p.open_write == 0 then pipe_wake_all_readers i (put i ended st) else put i p st)
