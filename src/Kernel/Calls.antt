-- ===== src/Kernel/Calls.antt =====
-- Kernel/c/syscall/syscallDispatcher.c: the system calls on processes, descriptors, pipes and the
-- terminal that do more than pass their arguments on.
pub mod Descriptors
use tp2_so_nuevo.Prelude.{
  ℕ, zero, suc, Bool, true, not, ◌&&◌, ◌||◌, List, [], ◌∷◌, Option, none, some, ltb, ◌==◌,
  if◌then◌else◌, is_same, ==_refl, ==→≡, ==_of_ne, ℤ, pos, negsuc, to_int, to_word,
}
use tp2_so_nuevo.Allocator.{Allocator}
use tp2_so_nuevo.Process.Pcb.{Pcb, Procs, ready, is_free, is_zombie, is_blocked, set_slot}
use tp2_so_nuevo.Process.Control.{process_get, process_block, process_unblock}
use tp2_so_nuevo.Pipe.Ends.{pipe_open}
use tp2_so_nuevo.Fd.{Fds, fd_get, fd_incref, fd_decref, fd_create_pipe}
use tp2_so_nuevo.Keyboard.{tty_set_mode}
use tp2_so_nuevo.Kernel.{Kernel, fds_of, with_fds, with_procs}
use tp2_so_nuevo.Kernel.Lifecycle.{drop_fd}
use tp2_so_nuevo.Kernel.Files.{fd_read, fd_write}

-- The process's own descriptor, `none` below 0, for the numbers up to `last`, and the global one for
-- the others.
abbrev pub real_fd : ℕ → ℕ → Pcb → Option ℕ
real_fd last fd p =
    if ltb last fd then some (to_word (to_int fd)) else if fd == 0 then p.fd_in else p.fd_out

-- A descriptor as `fd_get` finds it.
abbrev pub get_real : Option ℕ → Fds → Option ℕ
get_real none st = none
get_real (some fd) st = fd_get fd st.fds

pub sys_getpid : Procs → ℕ
sys_getpid s = elim s.current [ none ↦ 0 | some c ↦ (s.table c).pid ]

-- A blocked process is unblocked, unless it waits for a child.
pub block_found : Option ℕ → ℕ → Procs → ℤ × Procs
block_found none pid s = (negsuc 0, s)
block_found (some i) pid s =
    let p = s.table i in
    if is_free p.state || is_zombie p.state
    then (negsuc 0, s)
    else if is_blocked p.state && not (p.waiting_for == 0)
    then (negsuc 0, s)
    else (pos 0, if is_blocked p.state then process_unblock pid s else process_block pid s)

pub sys_block : ℕ → Procs → ℤ × Procs
sys_block pid s = block_found (process_get pid s.table) pid s

abbrev pub yield_slot : Option ℕ → Procs → Procs
yield_slot none s = s
yield_slot (some c) s = record (set_slot s c (record (s.table c) { state = ready })) {
  force_switch = true;
}

pub sys_yield : Procs → Procs
sys_yield s = yield_slot s.current s

-- Both ends of a pipe get a descriptor; without the second, the first is dropped.
pub second_end : ℕ → Option ℕ × Fds → Option (ℕ × ℕ) × Fds
second_end read_fd (none, st) = (none, fd_decref read_fd st)
second_end read_fd (some write_fd, st) = (some (read_fd, write_fd), st)

pub first_end : ℕ → Option ℕ × Fds → Option (ℕ × ℕ) × Fds
first_end p (none, st) = (none, st)
first_end p (some read_fd, st) = second_end read_fd (fd_create_pipe (some p) 1 st)

-- `none` is -1, otherwise `fds[0]` and `fds[1]`.
pub pipe_create_fds : ℕ → Fds → Option (ℕ × ℕ) × Fds
pipe_create_fds p st = first_end p (fd_create_pipe (some p) 0 st)

pub with_pipe : Option ℕ → Fds → Option (ℕ × ℕ) × Fds
with_pipe none st = (none, st)
with_pipe (some p) st = pipe_create_fds p st

-- `fd_array` is not NULL.
pub sys_pipe : Fds → Option (ℕ × ℕ) × Fds
sys_pipe st = let (p, pipes) = pipe_open none st.pipes in with_pipe p (record st { pipes = pipes })

pub sys_pipe_open : List ℕ → Fds → Option (ℕ × ℕ) × Fds
sys_pipe_open name st =
    let (p, pipes) = pipe_open (some name) st.pipes in with_pipe p (record st { pipes = pipes })

pub sys_close : ℕ → Fds → Fds
sys_close fd st = fd_decref fd st

abbrev pub own_fd : ℕ → Pcb → Option ℕ
own_fd new_fd p = if new_fd == 0 then p.fd_in else p.fd_out

abbrev pub set_own_fd : ℕ → ℕ → Pcb → Pcb
set_own_fd new_fd fd p =
    if new_fd == 0 then record p { fd_in = some fd } else record p { fd_out = some fd }

module _ (mm : Allocator) where
  pub write_from : Option ℕ → ℕ → Option (List ℕ) → ℕ → Kernel mm → ℕ × Kernel mm
  write_from none fd buf color k = (0, k)
  write_from (some c) fd buf color k =
      fd_write mm (get_real (real_fd 1 fd (k.procs.table c)) (fds_of mm k)) buf color k

  pub sys_write_color : ℕ → Option (List ℕ) → ℕ → Kernel mm → ℕ × Kernel mm
  sys_write_color fd buf color k = write_from k.procs.current fd buf color k

  pub sys_write : ℕ → Option (List ℕ) → Kernel mm → ℕ × Kernel mm
  sys_write fd buf k = sys_write_color fd buf 0xffffff k

  pub read_from : Option ℕ → ℕ → Bool → ℕ → Kernel mm → ℕ × List ℕ × Kernel mm
  read_from none fd has_buf count k = (0, [], k)
  read_from (some c) fd has_buf count k =
      fd_read mm (get_real (real_fd 0 fd (k.procs.table c)) (fds_of mm k)) has_buf count (some c) k

  pub sys_read : ℕ → Bool → ℕ → Kernel mm → ℕ × List ℕ × Kernel mm
  sys_read fd has_buf count k = read_from k.procs.current fd has_buf count k

  -- The old descriptor of the process is dropped, the new one taken.
  pub dup_slot : ℕ → ℕ → ℕ → Kernel mm → Kernel mm
  dup_slot old_fd new_fd c k =
      let k1 = with_fds mm k (drop_fd (own_fd new_fd (k.procs.table c)) (fds_of mm k)) in
      let k2 =
        with_procs mm k1 (set_slot k1.procs c (set_own_fd new_fd old_fd (k1.procs.table c))) in
      with_fds mm k2 (fd_incref old_fd (fds_of mm k2))

  pub dup_from : Option ℕ → ℕ → ℕ → Kernel mm → ℤ × Kernel mm
  dup_from none old_fd new_fd k = (negsuc 0, k)
  dup_from (some c) old_fd new_fd k =
      if is_same (own_fd new_fd (k.procs.table c)) old_fd
      then (pos old_fd, k)
      else (pos old_fd, dup_slot old_fd new_fd c k)

  abbrev pub dup_found : Option ℕ → ℕ → ℕ → Kernel mm → ℤ × Kernel mm
  dup_found none old_fd new_fd k = (negsuc 0, k)
  dup_found (some d) old_fd new_fd k = dup_from k.procs.current old_fd new_fd k

  pub sys_dup2 : ℕ → ℕ → Kernel mm → ℤ × Kernel mm
  sys_dup2 old_fd new_fd k =
      if ltb 1 new_fd then (negsuc 0, k) else dup_found (fd_get old_fd k.fds) old_fd new_fd k

  -- The former mode is returned.
  pub sys_tty_mode : ℕ → Kernel mm → ℕ × Kernel mm
  sys_tty_mode mode k = (k.keyboard.tty_mode, record k { keyboard = tty_set_mode mode k.keyboard })
