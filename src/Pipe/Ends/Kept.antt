-- ===== src/Pipe/Ends/Kept.antt =====
-- The pipes and the processes: at most some that wait for a pipe are woken.
use tp2_so_nuevo.Prelude.{
  ℕ, zero, suc, ◌+◌, ◌-◌, ◌≡◌, refl, Bool, true, false, ◌&&◌, Option, none, some, ltb, ◌==◌,
  if◌then◌else◌,
}
use tp2_so_nuevo.Process.Control.Kept.{
  KeptProcs, KeptProcs-refl, KeptProcs-trans, process_unblock-KeptProcs,
}
use tp2_so_nuevo.WaitQueue.{queue_pop}
use tp2_so_nuevo.Pipe.{
  Pipes, put, pipe_wake_reader, pipe_wake_writer, repeat_step, pipe_wake_all_readers,
  pipe_wake_all_writers, pipe_maybe_free,
}
use tp2_so_nuevo.Pipe.Ends.{
  pipe_open_read, pipe_open_write, pipe_close_read, pipe_close_write, pipe_cleanup_for_process,
}

-- A step on the pipes that leaves the processes but for waking some.
abbrev pub Keeps : (Pipes → Pipes) → Type 0
Keeps f = (st : Pipes) → KeptProcs st.procs (f st).procs

if-Keeps :
    (b : Bool) (st u v : Pipes)
    → KeptProcs st.procs u.procs
    → KeptProcs st.procs v.procs
    → KeptProcs st.procs (if b then u else v).procs
if-Keeps true st u v h k = h
if-Keeps false st u v h k = k

repeat_step-Keeps : (n : ℕ) (f : Pipes → Pipes) → Keeps f → Keeps (repeat_step n f)
repeat_step-Keeps zero f h st = KeptProcs-refl st.procs
repeat_step-Keeps (suc n) f h st = KeptProcs-trans _ _ _ (h st) (repeat_step-Keeps n f h (f st))

pub pipe_wake_reader-Keeps : (i : ℕ) → Keeps (pipe_wake_reader i)
unfolding pipe_wake_reader
pipe_wake_reader-Keeps i st =
    if-Keeps (ltb 0 (st.pipes i).readers.count) st _ st
      (process_unblock-KeptProcs (queue_pop (st.pipes i).readers).0 st.procs)
      (KeptProcs-refl st.procs)

pub pipe_wake_writer-Keeps : (i : ℕ) → Keeps (pipe_wake_writer i)
unfolding pipe_wake_writer
pipe_wake_writer-Keeps i st =
    if-Keeps (ltb 0 (st.pipes i).writers.count) st _ st
      (process_unblock-KeptProcs (queue_pop (st.pipes i).writers).0 st.procs)
      (KeptProcs-refl st.procs)

wake_readers-Keeps : (i : ℕ) → Keeps (pipe_wake_all_readers i)
unfolding pipe_wake_all_readers
wake_readers-Keeps i st =
    repeat_step-Keeps (st.pipes i).readers.count (pipe_wake_reader i) (pipe_wake_reader-Keeps i) st

wake_writers-Keeps : (i : ℕ) → Keeps (pipe_wake_all_writers i)
unfolding pipe_wake_all_writers
wake_writers-Keeps i st =
    repeat_step-Keeps (st.pipes i).writers.count (pipe_wake_writer i) (pipe_wake_writer-Keeps i) st

maybe_free-Keeps : (i : ℕ) → Keeps (pipe_maybe_free i)
unfolding pipe_maybe_free
maybe_free-Keeps i st =
    if-Keeps ((st.pipes i).open_read == 0 && (st.pipes i).open_write == 0) st _ st
      (KeptProcs-refl st.procs) (KeptProcs-refl st.procs)

pub open_read-Keeps : (pipe : Option ℕ) → Keeps (pipe_open_read pipe)
unfolding pipe_open_read
open_read-Keeps none st = KeptProcs-refl st.procs
open_read-Keeps (some i) st =
    let p = record (st.pipes i) { open_read = (st.pipes i).open_read + 1 } in
    if-Keeps (p.is_named && (ltb 0 p.writers.count && ltb 0 p.open_read)) st _ _
      (wake_writers-Keeps i (put i p st)) (KeptProcs-refl st.procs)

pub open_write-Keeps : (pipe : Option ℕ) → Keeps (pipe_open_write pipe)
unfolding pipe_open_write
open_write-Keeps none st = KeptProcs-refl st.procs
open_write-Keeps (some i) st =
    let p = record (st.pipes i) { open_write = (st.pipes i).open_write + 1 } in
    let named = record p { eof = false } in
    if-Keeps p.is_named st _ _
      (if-Keeps (ltb 0 p.readers.count) st _ _ (wake_readers-Keeps i (put i named st))
        (KeptProcs-refl st.procs))
      (KeptProcs-refl st.procs)

pub close_read-Keeps : (pipe : Option ℕ) → Keeps (pipe_close_read pipe)
unfolding pipe_close_read
close_read-Keeps none st = KeptProcs-refl st.procs
close_read-Keeps (some i) st =
    let p = record (st.pipes i) { open_read = (st.pipes i).open_read - 1 } in
    KeptProcs-trans _ _ _
      (if-Keeps (p.open_read == 0) st _ _ (wake_writers-Keeps i (put i p st))
        (KeptProcs-refl st.procs))
      (maybe_free-Keeps i _)

pub close_write-Keeps : (pipe : Option ℕ) → Keeps (pipe_close_write pipe)
unfolding pipe_close_write
close_write-Keeps none st = KeptProcs-refl st.procs
close_write-Keeps (some i) st =
    let p = record (st.pipes i) { open_write = (st.pipes i).open_write - 1 } in
    KeptProcs-trans _ _ _
      (if-Keeps (p.open_write == 0) st _ _ (wake_readers-Keeps i (put i _ st))
        (KeptProcs-refl st.procs))
      (maybe_free-Keeps i _)

pub pipe_cleanup_procs : (pid : ℕ) (st : Pipes) → (pipe_cleanup_for_process pid st).procs ≡ st.procs
unfolding pipe_cleanup_for_process
pipe_cleanup_procs pid st = refl
