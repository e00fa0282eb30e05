-- ===== src/Keyboard/Tests.antt =====
-- Runs of the keyboard driver, and its theorems at concrete states.
use tp2_so_nuevo.Prelude.{
  ◌+◌, ◌%◌, ◌≤◌, ◌≡◌, refl, false, [], ◌∷◌, none, some, arith, ◌==◌, if◌then◌else◌, length,
}
use tp2_so_nuevo.Process.Pcb.{blank, blocked}
use tp2_so_nuevo.Keyboard.{Keyboard, Terminal, get_from_buffer, read_loop, read_key_buff, type_char}
use tp2_so_nuevo.Keyboard.Buffer.{IsBuffer, Parted, read_key_buff_half}
use tp2_so_nuevo.Keyboard.Line.{type_all, Delivered, type_line}

-- Three characters are in the buffer, round its end.
abbrev keyboard : Keyboard
keyboard = record {
  buff = λ i. b'a' + i % 26;
  buff_size = 3;
  start_index = 254;
  end_index = 1;
  shift = false;
  caps = false;
  ctrl = false;
  registers_buff = [];
  bool_registers = false;
  waiting = some 1;
  tty_mode = 1;
  tty_line = [];
  tty_line_ready = false;
  tty_eof = false;
}

abbrev terminal : Terminal
terminal = record {
  procs = record {
    table = λ i. if i == 1 then record blank { pid = 2; state = blocked } else blank;
    next_pid = 2;
    current = none;
    run_queue = [];
    queue_idx = 0;
    idle = none;
    force_switch = false;
    ticks = 0;
  };
  keyboard = keyboard;
  screen = [];
}

ring : IsBuffer keyboard
ring = (omega arith, omega arith, refl)

-- Three characters are there and ten asked for, two come.
reads_two : (read_key_buff 10 keyboard).0 ≡ b'u' ∷ b'v' ∷ []
unfolding read_key_buff read_loop get_from_buffer
reads_two = refl

read_key_buff_half_example : Parted keyboard 2 (read_key_buff 10 keyboard)
read_key_buff_half_example = read_key_buff_half 10 keyboard ring

-- A typing error is taken back.
type_line_example :
    let t' = type_char b'\n' (type_all (b'l' ∷ b'a' ∷ 8 ∷ b's' ∷ []) terminal) in
    Delivered 1 (b'l' ∷ b's' ∷ b'\n' ∷ []) t' × (length t'.keyboard.tty_line ≤ 256)
type_line_example =
    type_line (b'l' ∷ b'a' ∷ 8 ∷ b's' ∷ []) 1 [] terminal
      (omega arith, (omega arith, (omega arith, (omega arith, tt)))) (refl, refl, refl)
      (omega arith)
