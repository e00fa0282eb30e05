-- ===== src/Fd/Kept.antt =====
-- Opening and closing descriptors, and the processes: at most some that wait for a pipe are woken.
use tp2_so_nuevo.Prelude.{ℕ, Option, none, some, inl, inr, ltb, Bool-cases}
use tp2_so_nuevo.Process.Control.Kept.{KeptProcs, KeptProcs-refl}
use tp2_so_nuevo.Fd.{
  FdType, fd_none, fd_terminal, fd_pipe_read, fd_pipe_write, Fds, fd_get, notify_open, notify_close,
  incref_slot, fd_incref, decref_slot, fd_decref,
}
use tp2_so_nuevo.Pipe.Ends.Kept.{
  Keeps, open_read-Keeps, open_write-Keeps, close_read-Keeps, close_write-Keeps,
}

notify_open-Keeps : (kind : FdType) (pipe : Option ℕ) → Keeps (notify_open kind pipe)
unfolding notify_open
notify_open-Keeps fd_pipe_read pipe st = open_read-Keeps pipe st
notify_open-Keeps fd_pipe_write pipe st = open_write-Keeps pipe st
notify_open-Keeps fd_none pipe st = KeptProcs-refl st.procs
notify_open-Keeps fd_terminal pipe st = KeptProcs-refl st.procs

notify_close-Keeps : (kind : FdType) (pipe : Option ℕ) → Keeps (notify_close kind pipe)
unfolding notify_close
notify_close-Keeps fd_pipe_read pipe st = close_read-Keeps pipe st
notify_close-Keeps fd_pipe_write pipe st = close_write-Keeps pipe st
notify_close-Keeps fd_none pipe st = KeptProcs-refl st.procs
notify_close-Keeps fd_terminal pipe st = KeptProcs-refl st.procs

incref_slot-KeptProcs :
    (o : Option ℕ) (st : Fds) → KeptProcs st.pipes.procs (incref_slot o st).pipes.procs
incref_slot-KeptProcs none st = KeptProcs-refl st.pipes.procs
incref_slot-KeptProcs (some i) st = notify_open-Keeps (st.fds i).kind (st.fds i).pipe st.pipes

pub fd_incref-KeptProcs :
    (fd : ℕ) (st : Fds) → KeptProcs st.pipes.procs (fd_incref fd st).pipes.procs
unfolding fd_incref
fd_incref-KeptProcs fd st = incref_slot-KeptProcs (fd_get fd st.fds) st

decref_slot-KeptProcs :
    (o : Option ℕ) (st : Fds) → KeptProcs st.pipes.procs (decref_slot o st).pipes.procs
decref_slot-KeptProcs none st = KeptProcs-refl st.pipes.procs
decref_slot-KeptProcs (some i) st = elim (Bool-cases (ltb 0 (st.fds i).refcount)) [
  | inl used ↦ rw used (notify_close-Keeps (st.fds i).kind (st.fds i).pipe st.pipes)
  | inr unused ↦ rw unused (KeptProcs-refl st.pipes.procs)
]

pub fd_decref-KeptProcs :
    (fd : ℕ) (st : Fds) → KeptProcs st.pipes.procs (fd_decref fd st).pipes.procs
unfolding fd_decref
fd_decref-KeptProcs fd st = decref_slot-KeptProcs (fd_get fd st.fds) st
