-- ===== src/Fd/Terminal.antt =====
-- Kernel/c/pipe/fd.c: what `fd_read` and `fd_write` do with a descriptor of the terminal.
pub mod Reading
use tp2_so_nuevo.Prelude.{
  ℕ, zero, suc, ◌-◌, ◌%◌, ◌^◌, true, false, ◌&&◌, ◌||◌, List, [], ◌∷◌, Option, none, some, ltb,
  ◌==◌, if◌then◌else◌, length, take, ==_refl, ==→≡, ==_of_ne, drop,
}
use tp2_so_nuevo.Process.Pcb.{blocked, set_slot}
use tp2_so_nuevo.Keyboard.{Keyboard, Terminal, tty_cooked, kbd_set_waiting, read_key_buff, put_char}

-- `READ_BLOCKED`
abbrev pub read_blocked : ℕ
read_blocked = 2 ^ 64 - 1

-- The process in slot `c` waits for the keyboard.
pub wait_for_key : ℕ → Terminal → Terminal
wait_for_key c t = record t {
  keyboard = kbd_set_waiting (some c) t.keyboard;
  procs = record (set_slot t.procs c (record (t.procs.table c) { state = blocked })) {
    force_switch = true;
  };
}

-- The line, or the part of it that the caller has room for.
pub take_line : ℕ → Keyboard → List ℕ × Keyboard
take_line count k =
    let n = length k.tty_line in
    let to_copy = if ltb count n then count else n in
    (
      take to_copy k.tty_line,
      if to_copy == n
          then record k { tty_line = []; tty_line_ready = false; tty_eof = false }
          else record k { tty_line = drop to_copy k.tty_line },
    )

-- Return value, characters for the caller's buffer, and state.
pub read_cooked : ℕ → ℕ → Terminal → ℕ × List ℕ × Terminal
read_cooked count c t =
    let k = t.keyboard in
    let (line, k') = take_line count k in
    if k.tty_eof && (length k.tty_line == 0)
    then (0, [], record t { keyboard = record k { tty_eof = false } })
    else if k.tty_line_ready || k.tty_eof
    then (length line, line, record t { keyboard = k' })
    else (read_blocked, [], wait_for_key c t)

-- A read that begins with Ctrl+D gives nothing, whatever follows.
abbrev pub raw_result : ℕ → List ℕ → Terminal → ℕ × List ℕ × Terminal
raw_result c [] t = (read_blocked, [], wait_for_key c t)
raw_result c (x ∷ xs) t = if x == 4 then (0, x ∷ xs, t) else (length (x ∷ xs), x ∷ xs, t)

pub read_raw : ℕ → ℕ → Terminal → ℕ × List ℕ × Terminal
read_raw count c t =
    let (chars, k) = read_key_buff count t.keyboard in
    raw_result c chars (record t { keyboard = k })

-- Only a process in the foreground reads from the terminal.
pub terminal_read : ℕ → Option ℕ → Terminal → ℕ × List ℕ × Terminal
terminal_read count none t = (0, [], t)
terminal_read count (some c) t =
    if (t.procs.table c).foreground == 0
    then (0, [], t)
    else if t.keyboard.tty_mode == tty_cooked
    then read_cooked count c t
    else read_raw count c t

abbrev pub put_all : List ℕ → ℕ → Terminal → Terminal
put_all [] color t = t
put_all (c ∷ cs) color t = put_all cs color (put_char (c % 2 ^ 8) color t)

pub terminal_write : List ℕ → ℕ → Terminal → ℕ × Terminal
terminal_write sent color t = (length sent, put_all sent color t)
