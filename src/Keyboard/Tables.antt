-- ===== src/Keyboard/Tables.antt =====
-- The scancode tables of Kernel/c/drivers/keyboardDriver.c and Kernel/include/defs.h, the translation
-- of a key, and the snapshot of the registers.
use tp2_so_nuevo.Prelude.{
  ℕ, ◌+◌, ◌^◌, ◌≤◌, ◌<◌, ◌≡◌, refl, Bool, true, false, List, [], ◌∷◌, ◌++◌, arith, if◌then◌else◌,
  length, get_or, length-append, codes,
}
use tp2_so_nuevo.Number.{int_to_hexa}
use tp2_so_nuevo.Number.Hexa.{length-int_to_hexa}
use tp2_so_nuevo.Keyboard.{Keyboard}

abbrev pub l_shift : ℕ
l_shift = 0x2a

abbrev pub r_shift : ℕ
r_shift = 0x36

abbrev pub caps_lock : ℕ
caps_lock = 0x3a

abbrev pub break_code : ℕ
break_code = 0x80

abbrev pub l_control : ℕ
l_control = 0x1d

abbrev pub kbd_min : List ℕ
kbd_min =
    (0 ∷ 27 ∷ codes "1234567890-=")
    ++ (8 ∷ 9 ∷ codes "qwertyuiop[]")
    ++ (10 ∷ 0 ∷ codes "asdfghjkl;'`")
    ++ (0 ∷ b'\\' ∷ codes "zxcvbnm,./")
    ++ (0 ∷ b'*' ∷ 0 ∷ b' ' ∷ [])

abbrev pub kbd_mayus : List ℕ
kbd_mayus =
    (0 ∷ 27 ∷ codes "!@#$%^&*()_+")
    ++ (8 ∷ 9 ∷ codes "QWERTYUIOP{}")
    ++ (10 ∷ 0 ∷ codes "ASDFGHJKL:\"~")
    ++ (0 ∷ b'|' ∷ codes "ZXCVBNM<>?")
    ++ (0 ∷ b'*' ∷ 0 ∷ b' ' ∷ [])

-- `kbd_manager[(shift + caps) % 2][scancode]`; the rest of a table is 0.
pub translate : Bool → Bool → ℕ → ℕ
translate true true scancode = get_or kbd_min scancode 0
translate false false scancode = get_or kbd_min scancode 0
translate true false scancode = get_or kbd_mayus scancode 0
translate false true scancode = get_or kbd_mayus scancode 0

abbrev pub regs : List (List ℕ)
regs =
    codes "RAX: 0x"
    ∷ codes "RBX: 0x"
    ∷ codes "RCX: 0x"
    ∷ codes "RDX: 0x"
    ∷ codes "RBP: 0x"
    ∷ codes "RDI: 0x"
    ∷ codes "RSI: 0x"
    ∷ codes "R8: 0x"
    ∷ codes "R9: 0x"
    ∷ codes "R10: 0x"
    ∷ codes "R11: 0x"
    ∷ codes "R12: 0x"
    ∷ codes "R13: 0x"
    ∷ codes "R14: 0x"
    ∷ codes "R15: 0x"
    ∷ codes "RIP: 0x"
    ∷ codes "CS: 0x"
    ∷ codes "RFLAGS: 0x"
    ∷ codes "RSP: 0x"
    ∷ codes "SS: 0x"
    ∷ []

-- The lines from register `i` on; `values` is `regsArray`, which the interrupt fills.
pub snapshot_lines : (ℕ → ℕ) → ℕ → List (List ℕ) → List ℕ
snapshot_lines values i [] = []
snapshot_lines values i (label ∷ labels) =
    label ++ (int_to_hexa (values i) ++ (b'\n' ∷ snapshot_lines values (i + 1) labels))

pub store_snapshot : (ℕ → ℕ) → Keyboard → Keyboard
store_snapshot values k = record k { registers_buff = snapshot_lines values 0 regs }

-- What is copied to the caller, and the return value.
pub copy_registers_buffer : Keyboard → List ℕ × ℕ
copy_registers_buffer k = if k.bool_registers then (k.registers_buff, 1) else ([], 0)

abbrev pub registers_buffer_size : ℕ
registers_buffer_size = 1024

abbrev labels_length : List (List ℕ) → ℕ
labels_length [] = 0
labels_length (label ∷ labels) = length label + (17 + labels_length labels)

length-snapshot_lines :
    (values : ℕ → ℕ) (i : ℕ) (labels : List (List ℕ))
    → ((j : ℕ) → values j < 2 ^ 64)
    → length (snapshot_lines values i labels) ≡ labels_length labels
unfolding snapshot_lines
length-snapshot_lines values i [] small = refl
length-snapshot_lines values i (label ∷ labels) small =
    let rest = snapshot_lines values (i + 1) labels in
    let a = length-append label (int_to_hexa (values i) ++ (b'\n' ∷ rest)) in
    let b = length-append (int_to_hexa (values i)) (b'\n' ∷ rest) in
    let c = length-int_to_hexa (values i) (small i) in
    let d = length-snapshot_lines values (i + 1) labels small in omega arith

-- The snapshot of 64-bit registers, and the NUL behind it, fit the buffer.
pub length-store_snapshot :
    (values : ℕ → ℕ) (k : Keyboard)
    → ((j : ℕ) → values j < 2 ^ 64)
    → length (store_snapshot values k).registers_buff + 1 ≤ registers_buffer_size
unfolding store_snapshot
length-store_snapshot values k small =
    let e = length-snapshot_lines values 0 regs small in
    let n : labels_length regs ≡ 479 = refl in omega arith
