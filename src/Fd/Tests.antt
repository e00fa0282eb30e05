-- ===== src/Fd/Tests.antt =====
-- The life of a descriptor at a table with the two terminals, and a read of the terminal.
use tp2_so_nuevo.Prelude.{ℕ, zero, suc, ◌≡◌, ◌≢◌, refl, false, true, none, some, []}
use tp2_so_nuevo.Prelude.Search.{first_index}
use tp2_so_nuevo.Process.Pcb.{Procs, blank}
use tp2_so_nuevo.Pipe.Ends.{zero_pipe}
use tp2_so_nuevo.Fd.{
  fd_none, fd_terminal, Fd, Fds, fd_alloc, fd_create_pipe, fd_decref, notify_open, notify_close,
}
use tp2_so_nuevo.Prelude.{◌∷◌, ◌++◌, arith, length}
use tp2_so_nuevo.Keyboard.{Keyboard, Terminal}
use tp2_so_nuevo.Fd.Terminal.{terminal_read}
use tp2_so_nuevo.Fd.Terminal.Reading.{terminal_read_ready}
use tp2_so_nuevo.Fd.Lifetime.{new_fd, end_kind, fd_decref-fd_create_pipe}

abbrev procs : Procs
procs = record {
  table = λ _. blank;
  next_pid = 0;
  current = none;
  run_queue = [];
  queue_idx = 0;
  idle = none;
  force_switch = false;
  ticks = 0;
}

abbrev fds : ℕ → Fd
fds zero = new_fd fd_terminal none 0
fds (suc zero) = new_fd fd_terminal none 0
fds (suc (suc i)) = new_fd fd_none none 0

abbrev state : Fds
state = record {
  pipes = record { procs = procs; pipes = λ _. record zero_pipe { in_use = true } };
  fds = fds;
}

created : (fd_create_pipe (some 0) 1 state).0 ≡ some 2
unfolding fd_create_pipe fd_alloc first_index
created = refl

fd_decref-fd_create_pipe_example :
    let kind = end_kind 1 in
    let st1 = (fd_create_pipe (some 0) 1 state).1 in
    let st2 = fd_decref 2 st1 in
    (st1.fds 2 ≡ new_fd kind (some 0) 1)
    × (st1.pipes ≡ notify_open kind (some 0) state.pipes)
    × (st2.fds 2 ≡ new_fd fd_none none 0)
    × (st2.pipes ≡ notify_close kind (some 0) st1.pipes)
    × ((j : ℕ) → 2 ≢ j → st2.fds j ≡ state.fds j)
fd_decref-fd_create_pipe_example = fd_decref-fd_create_pipe 0 1 2 state created

-- A line is ready.
abbrev keyboard : Keyboard
keyboard = record {
  buff = λ _. 0;
  buff_size = 0;
  start_index = 0;
  end_index = 0;
  shift = false;
  caps = false;
  ctrl = false;
  registers_buff = [];
  bool_registers = false;
  waiting = none;
  tty_mode = 1;
  tty_line = b'l' ∷ b's' ∷ b'\n' ∷ [];
  tty_line_ready = true;
  tty_eof = false;
}

abbrev terminal : Terminal
terminal = record {
  procs = record procs { table = λ _. record blank { foreground = 1 } };
  keyboard = keyboard;
  screen = [];
}

terminal_read_ready_example :
    let (r, line, t') = terminal_read 2 (some 0) terminal in
    (r ≡ 2)
    × (r ≡ length line)
    × (line ++ t'.keyboard.tty_line ≡ b'l' ∷ b's' ∷ b'\n' ∷ [])
    × (t'.keyboard.tty_line_ready ≡ true)
    × (t'.keyboard.tty_eof ≡ false)
    × (t'.procs ≡ terminal.procs)
terminal_read_ready_example = terminal_read_ready 2 0 terminal refl refl refl (omega arith)
