-- ===== src/Kernel/Files.antt =====
-- Kernel/c/pipe/fd.c: reading and writing a descriptor, whatever it stands for.
use tp2_so_nuevo.Prelude.{
  ℕ, Bool, true, not, ◌||◌, List, [], Option, none, some, ◌==◌, if◌then◌else◌, length,
}
use tp2_so_nuevo.Allocator.{Allocator}
use tp2_so_nuevo.Pipe.{pipe_read, pipe_write}
use tp2_so_nuevo.Fd.{FdType, fd_none, fd_terminal, fd_pipe_read, fd_pipe_write}
use tp2_so_nuevo.Fd.Terminal.{terminal_read, terminal_write}
use tp2_so_nuevo.Kernel.{Kernel, pipes_of, with_pipes, terminal_of, with_terminal}

module _ (mm : Allocator) where
  abbrev pub read_terminal : ℕ → Option ℕ → Kernel mm → ℕ × List ℕ × Kernel mm
  read_terminal count cur k =
      let (r, chars, t) = terminal_read count cur (terminal_of mm k) in
      (r, chars, with_terminal mm k t)

  abbrev pub read_pipe : Option ℕ → ℕ → Kernel mm → ℕ × List ℕ × Kernel mm
  read_pipe pipe count k =
      let (r, chars, st) = pipe_read pipe true count (pipes_of mm k) in
      (r, chars, with_pipes mm k st)

  pub read_kind : FdType → Option ℕ → ℕ → Option ℕ → Kernel mm → ℕ × List ℕ × Kernel mm
  read_kind fd_terminal pipe count cur k = read_terminal count cur k
  read_kind fd_pipe_read pipe count cur k = read_pipe pipe count k
  read_kind fd_pipe_write pipe count cur k = (0, [], k)
  read_kind fd_none pipe count cur k = (0, [], k)

  -- Return value, what comes into the caller's buffer, and the state; `has_buf` tells whether there
  -- is such a buffer.
  pub fd_read : Option ℕ → Bool → ℕ → Option ℕ → Kernel mm → ℕ × List ℕ × Kernel mm
  fd_read none has_buf count cur k = (0, [], k)
  fd_read (some d) has_buf count cur k =
      if not has_buf || count == 0
      then (0, [], k)
      else read_kind (k.fds d).kind (k.fds d).pipe count cur k

  pub write_kind : FdType → Option ℕ → List ℕ → ℕ → Kernel mm → ℕ × Kernel mm
  write_kind fd_terminal pipe sent color k =
      let (r, t) = terminal_write sent color (terminal_of mm k) in (r, with_terminal mm k t)
  write_kind fd_pipe_write pipe sent color k =
      let (r, st) = pipe_write pipe (some sent) (pipes_of mm k) in (r, with_pipes mm k st)
  write_kind fd_pipe_read pipe sent color k = (0, k)
  write_kind fd_none pipe sent color k = (0, k)

  -- The caller's buffer, `none` for NULL, holds as many characters as the caller says.
  pub fd_write : Option ℕ → Option (List ℕ) → ℕ → Kernel mm → ℕ × Kernel mm
  fd_write none buf color k = (0, k)
  fd_write (some d) none color k = (0, k)
  fd_write (some d) (some sent) color k =
      if length sent == 0 then (0, k) else write_kind (k.fds d).kind (k.fds d).pipe sent color k
