-- ===== src/Fd.antt =====
-- The descriptor table of Kernel/c/pipe/fd.c. A descriptor of -1 is `none`; the pointer to a pipe is
-- its index.
pub mod Lifetime
pub mod Kept
pub mod Terminal
mod Tests
use tp2_so_nuevo.Prelude.{
  ℕ, ◌+◌, ◌-◌, ◌*◌, Bool, true, false, not, ◌&&◌, Option, none, some, ltb, leb, ◌==◌, if◌then◌else◌,
  update, first_index,
}
use tp2_so_nuevo.Process.Pcb.{max_processes}
use tp2_so_nuevo.Pipe.{Pipes}
use tp2_so_nuevo.Pipe.Ends.{pipe_open_read, pipe_open_write, pipe_close_read, pipe_close_write}

pub data FdType : Type 0 where
  fd_none fd_terminal fd_pipe_read fd_pipe_write : FdType

abbrev pub is_none : FdType → Bool
is_none fd_none = true
is_none _ = false

abbrev pub is_terminal : FdType → Bool
is_terminal fd_terminal = true
is_terminal _ = false

abbrev pub max_fds : ℕ
max_fds = max_processes * 2 + 2

pub record Fd : Type 0 where
  pub kind : FdType
  pub pipe : Option ℕ
  pub refcount : ℕ

-- The pipes, with the processes, and `fd_table`.
pub record Fds : Type 0 where
  pub pipes : Pipes
  pub fds : ℕ → Fd

abbrev pub put : ℕ → Fd → Fds → Fds
put i d st = record st { fds = update st.fds i d }

abbrev pub alloc_slot : FdType → Option ℕ → Option ℕ → Fds → Option ℕ × Fds
alloc_slot kind pipe none st = (none, st)
alloc_slot kind pipe (some i) st =
    (some i, put i (record { kind = kind; pipe = pipe; refcount = 0 }) st)

pub fd_alloc : FdType → Option ℕ → Fds → Option ℕ × Fds
fd_alloc kind pipe st =
    alloc_slot kind pipe (first_index (λ i. is_none (st.fds i).kind) 0 max_fds) st

-- Descriptors 0 and 1 are the terminal.
pub fd_init : Fds → Fds
fd_init st = record st {
  fds = λ i.
      if ltb i 2
      then record { kind = fd_terminal; pipe = none; refcount = 0 }
      else if ltb i max_fds
      then record { kind = fd_none; pipe = none; refcount = 0 }
      else st.fds i;
}

pub fd_get : ℕ → (ℕ → Fd) → Option ℕ
fd_get fd fds = if leb max_fds fd then none else if is_none (fds fd).kind then none else some fd

-- The pipe learns that an end was opened, or closed.
pub notify_open : FdType → Option ℕ → Pipes → Pipes
notify_open fd_pipe_read pipe st = pipe_open_read pipe st
notify_open fd_pipe_write pipe st = pipe_open_write pipe st
notify_open fd_none pipe st = st
notify_open fd_terminal pipe st = st

pub notify_close : FdType → Option ℕ → Pipes → Pipes
notify_close fd_pipe_read pipe st = pipe_close_read pipe st
notify_close fd_pipe_write pipe st = pipe_close_write pipe st
notify_close fd_none pipe st = st
notify_close fd_terminal pipe st = st

abbrev pub incref_slot : Option ℕ → Fds → Fds
incref_slot none st = st
incref_slot (some i) st =
    let d = record (st.fds i) { refcount = (st.fds i).refcount + 1 } in
    record { pipes = notify_open d.kind d.pipe st.pipes; fds = update st.fds i d }

pub fd_incref : ℕ → Fds → Fds
fd_incref fd st = incref_slot (fd_get fd st.fds) st

-- Without references the slot is free again, unless it is a terminal.
pub settle : Fd → Fd
settle d =
    if d.refcount == 0 && not (is_terminal d.kind)
    then record d { kind = fd_none; pipe = none }
    else d

abbrev pub decref_slot : Option ℕ → Fds → Fds
decref_slot none st = st
decref_slot (some i) st =
    let d = st.fds i in
    if ltb 0 d.refcount
    then record {
      pipes = notify_close d.kind d.pipe st.pipes;
      fds = update st.fds i (settle (record d { refcount = d.refcount - 1 }));
    }
    else put i (settle d) st

pub fd_decref : ℕ → Fds → Fds
fd_decref fd st = decref_slot (fd_get fd st.fds) st

abbrev pub opened : Option ℕ → Fds → Option ℕ × Fds
opened none st = (none, st)
opened (some fd) st = (some fd, fd_incref fd st)

-- `write_end` is not 0 for the writing end.
pub fd_create_pipe : Option ℕ → ℕ → Fds → Option ℕ × Fds
fd_create_pipe none write_end st = (none, st)
fd_create_pipe (some pipe) write_end st =
    let (fd, st') =
      fd_alloc (if write_end == 0 then fd_pipe_read else fd_pipe_write) (some pipe) st in
    opened fd st'
