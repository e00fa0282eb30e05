-- ===== src/Kernel.antt =====
-- The variables of the whole kernel, over any memory manager, and the parts of them that each
-- component works on. `words` is the memory by 64-bit words and `bytes` by characters, at addresses
-- that the memory manager has handed out.
pub mod Lifecycle
pub mod Creation
pub mod Files
pub mod Keys
pub mod Calls
mod Tests
use tp2_so_nuevo.Prelude.{ℕ, zero, suc, List, ◌∷◌, ◌==◌, ==_refl, ==→≡, ==_of_ne}
use tp2_so_nuevo.Allocator.{Allocator}
use tp2_so_nuevo.Process.Pcb.{Procs}
use tp2_so_nuevo.Semaphore.{Semaphore, Sems}
use tp2_so_nuevo.Pipe.{Pipe, Pipes}
use tp2_so_nuevo.Fd.{Fd, Fds}
use tp2_so_nuevo.Keyboard.{Keyboard, Terminal}
use tp2_so_nuevo.Scheduler.Switch.{Machine}

module _ (mm : Allocator) where
  pub record Kernel : Type 0 where
    pub procs : Procs
    pub heap : mm.Heap
    pub words : ℕ → ℕ
    pub bytes : ℕ → ℕ
    pub sems : ℕ → Semaphore
    pub pipes : ℕ → Pipe
    pub fds : ℕ → Fd
    pub keyboard : Keyboard
    pub screen : List (ℕ × ℕ)

  abbrev pub sems_of : Kernel → Sems
  sems_of k = record { procs = k.procs; sems = k.sems }

  abbrev pub with_sems : Kernel → Sems → Kernel
  with_sems k st = record k { procs = st.procs; sems = st.sems }

  abbrev pub pipes_of : Kernel → Pipes
  pipes_of k = record { procs = k.procs; pipes = k.pipes }

  abbrev pub with_pipes : Kernel → Pipes → Kernel
  with_pipes k st = record k { procs = st.procs; pipes = st.pipes }

  abbrev pub fds_of : Kernel → Fds
  fds_of k = record { pipes = pipes_of k; fds = k.fds }

  abbrev pub with_fds : Kernel → Fds → Kernel
  with_fds k st = record k { procs = st.pipes.procs; pipes = st.pipes.pipes; fds = st.fds }

  abbrev pub terminal_of : Kernel → Terminal
  terminal_of k = record { procs = k.procs; keyboard = k.keyboard; screen = k.screen }

  abbrev pub with_terminal : Kernel → Terminal → Kernel
  with_terminal k t = record k { procs = t.procs; keyboard = t.keyboard; screen = t.screen }

  abbrev pub machine_of : Kernel → Machine mm
  machine_of k = record { procs = k.procs; heap = k.heap }

  abbrev pub with_machine : Kernel → Machine mm → Kernel
  with_machine k m = record k { procs = m.procs; heap = m.heap }

  abbrev pub with_procs : Kernel → Procs → Kernel
  with_procs k s = record k { procs = s }
