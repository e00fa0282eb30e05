-- ===== src/Kernel/Calls/Descriptors.antt =====
-- The system calls on pipes when the descriptors run out.
use tp2_so_nuevo.Prelude.{ℕ, ◌<◌, ◌≡◌, refl, true, false, none, some}
use tp2_so_nuevo.Pipe.Ends.{pipe_open}
use tp2_so_nuevo.Pipe.Ends.Naming.{pipe_open_anonymous}
use tp2_so_nuevo.Fd.{Fds, is_none, max_fds}
use tp2_so_nuevo.Fd.Lifetime.{fd_create_pipe_full}
use tp2_so_nuevo.Kernel.Calls.{first_end, pipe_create_fds, with_pipe, sys_pipe}

-- Where all descriptors are taken and a pipe is free, `sys_pipe` fails, but the pipe stays in use,
-- though it has no end that a close could free it by.
pub sys_pipe_leaks :
    (i : ℕ) (st : Fds)
    → ((j : ℕ) → j < max_fds → is_none (st.fds j).kind ≡ false)
    → (pipe_open none st.pipes).0 ≡ some i
    → let (r, st') = sys_pipe st in
      let p = st'.pipes.pipes i in
      (r ≡ none) × (p.in_use ≡ true) × (p.open_read ≡ 0) × (p.open_write ≡ 0)
unfolding sys_pipe with_pipe pipe_create_fds first_end
sys_pipe_leaks i st taken got =
    let st1 : Fds = record st { pipes = (pipe_open none st.pipes).1 } in
    let (used, no_reader, no_writer) = pipe_open_anonymous i st.pipes got in
    rw (got, with_pipe, fd_create_pipe_full i 0 st1 taken) (refl, used, no_reader, no_writer)
