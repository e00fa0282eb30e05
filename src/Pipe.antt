-- ===== src/Pipe.antt =====
-- Kernel/c/pipe/pipe.c. A `Pipe *` is its index in `pipe_table` and NULL is `none`; a name is the
-- list of its characters before the NUL.
pub mod Content
pub mod Transfer
pub mod Blocking
pub mod Ends
mod Tests
use tp2_so_nuevo.Prelude.{
  ℕ, zero, suc, ◌+◌, ◌-◌, ◌%◌, ◌^◌, Bool, true, false, not, ◌&&◌, List, [], ◌∷◌, Option, none, some,
  ltb, leb, ◌==◌, if◌then◌else◌, update, length, take,
}
use tp2_so_nuevo.Process.Pcb.{Procs, max_processes}
use tp2_so_nuevo.Process.Control.{process_block, process_unblock}
use tp2_so_nuevo.WaitQueue.{WaitQueue, emptied, enqueue, queue_pop}

abbrev pub pipe_buffer_size : ℕ
pipe_buffer_size = 4096

abbrev pub max_pipes : ℕ
max_pipes = 32

abbrev pub pipe_name_len : ℕ
pipe_name_len = 32

pub record Pipe : Type 0 where
  pub buffer : ℕ → ℕ
  pub read_idx : ℕ
  pub write_idx : ℕ
  pub count : ℕ
  pub open_read : ℕ
  pub open_write : ℕ
  pub readers : WaitQueue
  pub writers : WaitQueue
  pub in_use : Bool
  pub is_named : Bool
  pub eof : Bool
  pub opens : ℕ
  pub name : List ℕ

-- The processes and `pipe_table`.
pub record Pipes : Type 0 where
  pub procs : Procs
  pub pipes : ℕ → Pipe

abbrev pub put : ℕ → Pipe → Pipes → Pipes
put i p st = record st { pipes = update st.pipes i p }

-- The loop of `queue_push` over the waiting.
pub is_queued : (ℕ → ℕ) → ℕ → ℕ → ℕ → Bool
is_queued slots pid idx zero = false
is_queued slots pid idx (suc n) =
    let rest = is_queued slots pid ((idx + 1) % max_processes) n in
    if slots idx == pid then true else rest

pub queue_push : WaitQueue → ℕ → WaitQueue
queue_push q pid =
    if leb max_processes q.count
    then q
    else if is_queued q.slots pid ((q.tail + max_processes - q.count) % max_processes) q.count
    then q
    else enqueue q pid

pub pipe_wake_reader : ℕ → Pipes → Pipes
pipe_wake_reader i st =
    let p = st.pipes i in
    if ltb 0 p.readers.count
    then (let (pid, q) = queue_pop p.readers in
        record {
          procs = process_unblock pid st.procs;
          pipes = update st.pipes i (record p { readers = q });
        })
    else st

pub pipe_wake_writer : ℕ → Pipes → Pipes
pipe_wake_writer i st =
    let p = st.pipes i in
    if ltb 0 p.writers.count
    then (let (pid, q) = queue_pop p.writers in
        record {
          procs = process_unblock pid st.procs;
          pipes = update st.pipes i (record p { writers = q });
        })
    else st

abbrev pub repeat_step : ℕ → (Pipes → Pipes) → Pipes → Pipes
repeat_step zero f st = st
repeat_step (suc n) f st = repeat_step n f (f st)

-- Each step wakes one process, so as many steps as wait are enough.
pub pipe_wake_all_readers : ℕ → Pipes → Pipes
pipe_wake_all_readers i st = repeat_step (st.pipes i).readers.count (pipe_wake_reader i) st

pub pipe_wake_all_writers : ℕ → Pipes → Pipes
pipe_wake_all_writers i st = repeat_step (st.pipes i).writers.count (pipe_wake_writer i) st

pub pipe_reset : Pipe → Pipe
pipe_reset p = record p {
  read_idx = 0;
  write_idx = 0;
  count = 0;
  open_read = 0;
  open_write = 0;
  readers = emptied p.readers;
  writers = emptied p.writers;
  is_named = false;
  eof = false;
  opens = 0;
  name = [];
}

pub pipe_maybe_free : ℕ → Pipes → Pipes
pipe_maybe_free i st =
    let p = st.pipes i in
    if p.open_read == 0 && p.open_write == 0
    then put i (record (pipe_reset p) { in_use = false }) st
    else st

-- `(uint64_t)-1`
abbrev pub blocked_result : ℕ
blocked_result = 2 ^ 64 - 1

-- The current process waits to read, or to write.
pub block_reader : ℕ → Option ℕ → Pipes → Pipes
block_reader i none st = st
block_reader i (some c) st =
    let pid = (st.procs.table c).pid in
    let p = st.pipes i in
    record {
      procs = process_block pid st.procs;
      pipes = update st.pipes i (record p { readers = queue_push p.readers pid });
    }

pub block_writer : ℕ → Option ℕ → Pipes → Pipes
block_writer i none st = st
block_writer i (some c) st =
    let pid = (st.procs.table c).pid in
    let p = st.pipes i in
    record {
      procs = process_block pid st.procs;
      pipes = update st.pipes i (record p { writers = queue_push p.writers pid });
    }

-- The loop that copies `n` bytes out, and where it leaves the index.
pub read_bytes : (ℕ → ℕ) → ℕ → ℕ → List ℕ × ℕ
read_bytes buffer idx zero = ([], idx)
read_bytes buffer idx (suc n) =
    let (bytes, idx') = read_bytes buffer ((idx + 1) % pipe_buffer_size) n in
    (buffer idx ∷ bytes, idx')

-- The loop that copies bytes in.
pub write_bytes : (ℕ → ℕ) → ℕ → List ℕ → (ℕ → ℕ) × ℕ
write_bytes buffer idx [] = (buffer, idx)
write_bytes buffer idx (x ∷ xs) =
    write_bytes (update buffer idx x) ((idx + 1) % pipe_buffer_size) xs

-- The return value, the bytes copied to the caller, and the state.
pub read_some : ℕ → ℕ → Pipes → ℕ × List ℕ × Pipes
read_some i count st =
    let p = st.pipes i in
    let to_read = if ltb p.count count then p.count else count in
    let (bytes, idx) = read_bytes p.buffer p.read_idx to_read in
    let p' = record p { read_idx = idx; count = p.count - to_read } in
    let st' = put i p' st in
    (
      to_read,
      bytes,
      if ltb 0 p'.writers.count && ltb p'.count pipe_buffer_size
          then pipe_wake_writer i st'
          else st',
    )

-- At the end of the data a named pipe tells by `eof`, an anonymous one by its writers.
abbrev pub at_end : Pipe → Bool
at_end p = if p.is_named then p.eof else p.open_write == 0

pub read_at : ℕ → ℕ → Pipes → ℕ × List ℕ × Pipes
read_at i count st =
    let p = st.pipes i in
    if p.count == 0
    then (if at_end p
        then (0, [], st)
        else (blocked_result, [], block_reader i st.procs.current st))
    else read_some i count st

-- `has_buf` tells whether the caller's buffer is not NULL.
pub pipe_read : Option ℕ → Bool → ℕ → Pipes → ℕ × List ℕ × Pipes
pipe_read none has_buf count st = (0, [], st)
pipe_read (some i) has_buf count st =
    if not has_buf then (0, [], st) else if count == 0 then (0, [], st) else read_at i count st

pub write_some : ℕ → List ℕ → Pipes → ℕ × Pipes
write_some i sent st =
    let p = st.pipes i in
    let space = pipe_buffer_size - p.count in
    let to_write = if ltb (length sent) space then length sent else space in
    let (buffer, idx) = write_bytes p.buffer p.write_idx (take to_write sent) in
    let p' = record p { buffer = buffer; write_idx = idx; count = p.count + to_write } in
    let st' = put i p' st in
    (to_write, if ltb 0 p'.readers.count && ltb 0 p'.count then pipe_wake_reader i st' else st')

pub write_at : ℕ → List ℕ → Pipes → ℕ × Pipes
write_at i sent st =
    let p = st.pipes i in
    if p.open_read == 0
    then (if p.is_named && not p.eof
        then (blocked_result, block_writer i st.procs.current st)
        else (0, st))
    else if leb pipe_buffer_size p.count
    then (blocked_result, block_writer i st.procs.current st)
    else write_some i sent st

-- The caller's buffer, `none` for NULL, holds as many bytes as the caller says.
pub pipe_write : Option ℕ → Option (List ℕ) → Pipes → ℕ × Pipes
pipe_write none buf st = (0, st)
pipe_write (some i) none st = (0, st)
pipe_write (some i) (some sent) st = if length sent == 0 then (0, st) else write_at i sent st
