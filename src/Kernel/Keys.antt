-- ===== src/Kernel/Keys.antt =====
-- Kernel/c/drivers/keyboardDriver.c: `handlePressedKey`. `values` is `regsArray`.
use tp2_so_nuevo.Prelude.{
  ℕ, ◌+◌, Bool, true, false, not, ◌&&◌, ◌||◌, Option, some, ltb, ◌==◌, if◌then◌else◌,
}
use tp2_so_nuevo.Allocator.{Allocator}
use tp2_so_nuevo.Keyboard.{Keyboard, type_char, type_eof}
use tp2_so_nuevo.Keyboard.Tables.{
  l_shift, r_shift, caps_lock, break_code, l_control, translate, store_snapshot,
}
use tp2_so_nuevo.Kernel.{Kernel, terminal_of, with_terminal}
use tp2_so_nuevo.Kernel.Lifecycle.{process_kill_foreground}

-- The arrows, no key at all, and the release of a key.
pub is_ignored : ℕ → Bool
is_ignored scancode =
    (scancode == 0x4b)
    || (scancode == 0x4d)
    || (scancode == 0x48)
    || (scancode == 0x50)
    || (scancode == 0)
    || ltb break_code scancode

abbrev pub f1 : ℕ
f1 = 0x3b

abbrev pub key_c : ℕ
key_c = 0x2e

abbrev pub key_d : ℕ
key_d = 0x20

-- A release has the bit of `break_code` set.
abbrev pub released : ℕ → ℕ
released scancode = scancode + break_code

module _ (mm : Allocator) where
  abbrev pub with_keys : Kernel mm → Keyboard → Kernel mm
  with_keys k keyboard = record k { keyboard = keyboard }

  -- The keys of text: the character that the tables give is typed.
  pub handle_text : ℕ → Kernel mm → Kernel mm
  handle_text scancode k =
      let b = k.keyboard in
      let c = translate b.shift b.caps scancode in
      if scancode == caps_lock
      then with_keys k (record b { caps = not b.caps })
      else if ltb scancode break_code
      then with_terminal mm k (type_char c (terminal_of mm k))
      else k

  pub handle_control : ℕ → Kernel mm → Option (Kernel mm)
  handle_control scancode k =
      if is_ignored scancode
      then some k
      else if k.keyboard.ctrl && (scancode == key_c)
      then process_kill_foreground mm k
      else if k.keyboard.ctrl && (scancode == key_d)
      then some (with_terminal mm k (type_eof (terminal_of mm k)))
      else some (handle_text scancode k)

  pub handle_pressed_key : (ℕ → ℕ) → ℕ → Kernel mm → Option (Kernel mm)
  handle_pressed_key values scancode k =
      let b = k.keyboard in
      if (scancode == l_shift) || (scancode == r_shift)
      then some (with_keys k (record b { shift = true }))
      else if (scancode == released l_shift) || (scancode == released r_shift)
      then some (with_keys k (record b { shift = false }))
      else if scancode == l_control
      then some (with_keys k (record b { ctrl = true }))
      else if scancode == released l_control
      then some (with_keys k (record b { ctrl = false }))
      else if scancode == f1
      then some (with_keys k (record (store_snapshot values b) { bool_registers = true }))
      else handle_control scancode k
