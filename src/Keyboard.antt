-- ===== src/Keyboard.antt =====
-- Kernel/c/drivers/keyboardDriver.c: the buffer of typed characters, the line that the terminal
-- collects, and what a key does to them. The variables of the driver are a record; `tty_line` is the
-- initial part of its array, of length `tty_line_len`.
pub mod Buffer
pub mod Line
pub mod Tables
mod Tests
use tp2_so_nuevo.Prelude.{
  ℕ, zero, suc, ◌+◌, ◌-◌, ◌%◌, Bool, true, false, ◌&&◌, List, [], ◌∷◌, ◌++◌, Option, none, some,
  ltb, ◌==◌, if◌then◌else◌, is_same, length, take, update, ==_refl, ==→≡, ==_of_ne,
}
use tp2_so_nuevo.Process.Pcb.{Procs, ready, set_slot}

abbrev pub buff_length : ℕ
buff_length = 256

abbrev pub tty_raw : ℕ
tty_raw = 0

abbrev pub tty_cooked : ℕ
tty_cooked = 1

pub record Keyboard : Type 0 where
  pub buff : ℕ → ℕ
  pub buff_size : ℕ
  pub start_index : ℕ
  pub end_index : ℕ
  pub shift : Bool
  pub caps : Bool
  pub ctrl : Bool
  pub registers_buff : List ℕ
  pub bool_registers : Bool
  pub waiting : Option ℕ
  pub tty_mode : ℕ
  pub tty_line : List ℕ
  pub tty_line_ready : Bool
  pub tty_eof : Bool

-- The driver and the processes that it wakes; `screen` is what `videoPutChar` was given,
-- characters with their colours.
pub record Terminal : Type 0 where
  pub procs : Procs
  pub keyboard : Keyboard
  pub screen : List (ℕ × ℕ)

pub kbd_set_waiting : Option ℕ → Keyboard → Keyboard
kbd_set_waiting p k = record k { waiting = p }

pub kbd_clear_waiting : ℕ → Keyboard → Keyboard
kbd_clear_waiting p k = if is_same k.waiting p then record k { waiting = none } else k

pub tty_set_mode : ℕ → Keyboard → Keyboard
tty_set_mode mode k = record k {
  tty_mode = mode;
  tty_line = [];
  tty_line_ready = false;
  tty_eof = false;
}

-- The oldest character gives way in a full buffer.
pub write_buff : ℕ → Keyboard → Keyboard
write_buff c k =
    let k' = record k {
      buff = update k.buff k.end_index c;
      end_index = (k.end_index + 1) % buff_length;
    } in
    if ltb k.buff_size buff_length
    then record k' { buff_size = k.buff_size + 1 }
    else record k' { start_index = (k.start_index + 1) % buff_length }

pub clear_buff : Keyboard → Keyboard
clear_buff k = record k { buff_size = 0; start_index = 0; end_index = 0 }

-- `(uint8_t)-1` from an empty buffer.
pub get_from_buffer : Keyboard → ℕ × Keyboard
get_from_buffer k = if k.buff_size == 0 then (255, k) else (
  k.buff k.start_index,
  record k { buff_size = k.buff_size - 1; start_index = (k.start_index + 1) % buff_length },
)

-- The rounds from `i` on, of which `rest` are left; the test reads `buff_size` anew each time.
pub read_loop : ℕ → ℕ → Keyboard → List ℕ × Keyboard
read_loop zero i k = ([], k)
read_loop (suc rest) i k =
    let (c, k') = get_from_buffer k in
    let (cs, k'') = read_loop rest (i + 1) k' in
    if ltb i k.buff_size then (c ∷ cs, k'') else ([], k)

-- The characters that are copied; their number is returned.
pub read_key_buff : ℕ → Keyboard → List ℕ × Keyboard
read_key_buff count k = read_loop count 0 k

-- The process that waits for input becomes READY.
pub wake_waiting : Terminal → Terminal
wake_waiting t = elim t.keyboard.waiting [
  | none ↦ t
  | some i ↦ record t {
    procs = set_slot t.procs i (record (t.procs.table i) { state = ready });
    keyboard = record t.keyboard { waiting = none };
  }
]

abbrev pub put_char : ℕ → ℕ → Terminal → Terminal
put_char c color t = record t { screen = t.screen ++ ((c, color) ∷ []) }

abbrev pub white : ℕ
white = 0xffffff

abbrev pub with_keyboard : (Keyboard → Keyboard) → Terminal → Terminal
with_keyboard f t = record t { keyboard = f t.keyboard }

abbrev pub is_waited : Keyboard → Bool
is_waited k = elim k.waiting [ none ↦ false | some i ↦ true ]

-- The size of `tty_line`.
abbrev pub tty_line_size : ℕ
tty_line_size = 256

abbrev pub without_last : List ℕ → List ℕ
without_last cs = take (length cs - 1) cs

-- A character of a line that a process waits for.
pub cook : ℕ → Terminal → Terminal
cook c t =
    let k = t.keyboard in
    if c == b'\n'
    then wake_waiting (
        put_char c white (record t {
          keyboard = record k { tty_line = k.tty_line ++ (c ∷ []); tty_line_ready = true };
        }))
    else if c == 8
    then (if ltb 0 (length k.tty_line)
        then put_char 8 white
            (record t { keyboard = record k { tty_line = without_last k.tty_line } })
        else t)
    else if ltb (length k.tty_line) (tty_line_size - 1)
    then put_char c white (record t { keyboard = record k { tty_line = k.tty_line ++ (c ∷ []) } })
    else t

pub type_char : ℕ → Terminal → Terminal
type_char c t =
    if (t.keyboard.tty_mode == tty_cooked) && is_waited t.keyboard
    then cook c t
    else wake_waiting (with_keyboard (write_buff c) t)

-- Ctrl+D: the end of the input, or of the line that was begun.
pub type_eof : Terminal → Terminal
type_eof t =
    let k = t.keyboard in
    if (k.tty_mode == tty_cooked) && is_waited k
    then wake_waiting (record t {
      keyboard =
          if ltb 0 (length k.tty_line)
          then record k { tty_line_ready = true }
          else record k { tty_eof = true };
    })
    else wake_waiting (with_keyboard (write_buff 4) t)
