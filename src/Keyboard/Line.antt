-- ===== src/Keyboard/Line.antt =====
-- The line that the terminal collects for a waiting process, against the editing of a list.
use tp2_so_nuevo.Prelude.{
  ℕ, ◌-◌, ◌≤◌, ◌<◌, ◌≡◌, ◌≢◌, refl, sym, ap, subst, ◌∙◌, true, false, List, [], ◌∷◌, ◌++◌, none,
  some, inl, inr, arith, ltb, ◌==◌, if◌then◌else◌, length, All, Bool-cases, ==_refl, ==_of_ne,
  ltb→lt, length-append,
}
use tp2_so_nuevo.Prelude.Lists.{length-take}
use tp2_so_nuevo.Process.Pcb.{is_ready}
use tp2_so_nuevo.Keyboard.{
  Terminal, tty_cooked, tty_line_size, without_last, is_waited, wake_waiting, cook, type_char,
}

-- What one character other than a newline makes of a line.
abbrev pub edit_one : List ℕ → ℕ → List ℕ
edit_one line c =
    if c == 8
    then without_last line
    else if ltb (length line) (tty_line_size - 1)
    then line ++ (c ∷ [])
    else line

abbrev pub edit : List ℕ → List ℕ → List ℕ
edit line [] = line
edit line (c ∷ cs) = edit (edit_one line c) cs

abbrev pub type_all : List ℕ → Terminal → Terminal
type_all [] t = t
type_all (c ∷ cs) t = type_all cs (type_char c t)

-- Process `i` waits for a line, of which this much is typed.
abbrev pub Collects : ℕ → List ℕ → Terminal → Type 0
Collects i line t =
    (t.keyboard.tty_mode ≡ tty_cooked)
    × (t.keyboard.waiting ≡ some i)
    × (t.keyboard.tty_line ≡ line)

abbrev pub NoNewline : List ℕ → Type 0
NoNewline = All (λ c. c ≢ b'\n')

type_char-cook :
    (c i : ℕ) (line : List ℕ) (t : Terminal) → Collects i line t → type_char c t ≡ cook c t
unfolding type_char
type_char-cook c i line t (mode, who, _) =
    let m : (t.keyboard.tty_mode == tty_cooked) ≡ true = ground arith in
    let w : is_waited t.keyboard ≡ true = rw who refl in rw (m, w) refl

nothing_before : (line : List ℕ) → ltb 0 (length line) ≡ false → line ≡ without_last line
nothing_before [] e = refl
nothing_before (c ∷ cs) e = absurd (ground arith)

cook-Collects :
    (c i : ℕ) (line : List ℕ) (t : Terminal)
    → c ≢ b'\n'
    → Collects i line t
    → Collects i (edit_one line c) (cook c t)
unfolding cook
cook-Collects c i line t ne (mode, who, at) =
    let other : (c == b'\n') ≡ false = ==_of_ne c b'\n' ne in
    elim (Bool-cases (c == 8)) [
      | inl back ↦ elim (Bool-cases (ltb 0 (length t.keyboard.tty_line))) [
        | inl some_typed ↦ rw (other, back, some_typed) (mode, who, ap without_last at)
        | inr none_typed ↦
            rw (other, back, none_typed)
              (mode, who, nothing_before t.keyboard.tty_line none_typed ∙ ap without_last at)
      ]
      | inr char ↦ elim (Bool-cases (ltb (length line) (tty_line_size - 1))) [
        | inl room ↦
            let room' : ltb (length t.keyboard.tty_line) (tty_line_size - 1) ≡ true = rw at room in
            rw (other, char, room, room') (mode, who, ap (λ l. l ++ (c ∷ [])) at)
        | inr full ↦
            let full' : ltb (length t.keyboard.tty_line) (tty_line_size - 1) ≡ false = rw at full in
            rw (other, char, full, full') (mode, who, at)
      ]
    ]

type_all-Collects :
    (cs : List ℕ) (i : ℕ) (line : List ℕ) (t : Terminal)
    → NoNewline cs
    → Collects i line t
    → Collects i (edit line cs) (type_all cs t)
type_all-Collects [] i line t ok h = h
type_all-Collects (c ∷ cs) i line t (ne, ok) h =
    type_all-Collects cs i (edit_one line c) (type_char c t) ok (
      subst (Collects i (edit_one line c)) (sym (type_char-cook c i line t h))
        (cook-Collects c i line t ne h))

-- The line is complete, and the process that waits for it goes on.
pub record Delivered (i : ℕ) (line : List ℕ) (t : Terminal) : Type 0 where
  pub line_is : t.keyboard.tty_line ≡ line
  pub line_ready : t.keyboard.tty_line_ready ≡ true
  pub nobody_waits : t.keyboard.waiting ≡ none
  pub woken : is_ready (t.procs.table i).state ≡ true

newline-Delivered :
    (i : ℕ) (line : List ℕ) (t : Terminal)
    → Collects i line t
    → Delivered i (line ++ (b'\n' ∷ [])) (cook b'\n' t)
unfolding cook wake_waiting
newline-Delivered i line t (mode, who, at) = rw who (record {
  line_is = ap (λ l. l ++ (b'\n' ∷ [])) at;
  line_ready = refl;
  nobody_waits = refl;
  woken = rw (==_refl i) refl;
})

length-without_last : (line : List ℕ) → length (without_last line) ≤ length line
length-without_last line = length-take (length line - 1) line

length-edit_one :
    (line : List ℕ) (c : ℕ) → length line < tty_line_size → length (edit_one line c) < tty_line_size
length-edit_one line c fits = elim (Bool-cases (c == 8)) [
  | inl back ↦ rw back (omega (arith, length-without_last line))
  | inr char ↦ elim (Bool-cases (ltb (length line) (tty_line_size - 1))) [
    | inl room ↦ rw (char, room) (omega (arith, length-append line (c ∷ []), ltb→lt _ _ room))
    | inr full ↦ rw (char, full) fits
  ]
]

length-edit :
    (cs line : List ℕ) → length line < tty_line_size → length (edit line cs) < tty_line_size
length-edit [] line fits = fits
length-edit (c ∷ cs) line fits = length-edit cs (edit_one line c) (length-edit_one line c fits)

-- In cooked mode, while a process waits and the line has room for its newline: whatever is typed
-- before a newline edits the line (a backspace takes back a character, and what does not fit is
-- dropped); the newline completes it, makes the process READY, and the line fits `tty_line`.
pub type_line :
    (cs : List ℕ) (i : ℕ) (line : List ℕ) (t : Terminal)
    → NoNewline cs
    → Collects i line t
    → length line < tty_line_size
    → let t' = type_char b'\n' (type_all cs t) in
      Delivered i (edit line cs ++ (b'\n' ∷ [])) t' × (length t'.keyboard.tty_line ≤ tty_line_size)
type_line cs i line t ok h fits =
    let h' = type_all-Collects cs i line t ok h in
    let done =
      subst (Delivered i (edit line cs ++ (b'\n' ∷ [])))
        (sym (type_char-cook b'\n' i (edit line cs) (type_all cs t) h'))
        (newline-Delivered i (edit line cs) (type_all cs t) h') in
    let one = length-append (edit line cs) (b'\n' ∷ []) in
    let l = ap length done.line_is in (done, let b = length-edit cs line fits in omega arith)
