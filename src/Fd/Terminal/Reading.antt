-- ===== src/Fd/Terminal/Reading.antt =====
-- Reading from the terminal what was typed.
use tp2_so_nuevo.Prelude.{
  ℕ, zero, suc, ◌≤◌, ◌<◌, ◌≡◌, refl, ap, ◌∙◌, Bool, true, false, ◌&&◌, ◌||◌, List, [], ◌∷◌, ◌++◌,
  some, inl, inr, arith, ltb, ◌==◌, length, take, min, Bool-cases, ==_refl, sym,
}
use tp2_so_nuevo.Prelude.Lists.{take-append-drop}
use tp2_so_nuevo.Keyboard.{Keyboard, Terminal, tty_cooked}
use tp2_so_nuevo.Fd.Terminal.{take_line, read_cooked, terminal_read}

take_all : (xs : List ℕ) → take (length xs) xs ≡ xs
take_all [] = refl
take_all (x ∷ xs) = ap (◌∷◌ x) (take_all xs)

append_nil : (xs : List ℕ) → xs ++ [] ≡ xs
append_nil [] = refl
append_nil (x ∷ xs) = ap (◌∷◌ x) (append_nil xs)

length-take_le : (n : ℕ) (xs : List ℕ) → n ≤ length xs → length (take n xs) ≡ n
length-take_le zero xs h = refl
length-take_le (suc n) [] h = absurd (omega arith)
length-take_le (suc n) (x ∷ xs) h = ap suc (length-take_le n xs (omega arith))

-- The front of the line, and what is left of it; the line stays ready, and an end of file noted, as
-- long as something is left.
abbrev pub LineTaken : ℕ → Keyboard → List ℕ → Keyboard → Type 0
LineTaken count k line k' =
    (length line ≡ min count (length k.tty_line))
    × (line ++ k'.tty_line ≡ k.tty_line)
    × (k'.tty_line_ready ≡ (k.tty_line_ready && ltb count (length k.tty_line)))
    × (k'.tty_eof ≡ (k.tty_eof && ltb count (length k.tty_line)))

and_true : (b : Bool) → (b && true) ≡ b
and_true b = ground arith

and_false : (b : Bool) → (b && false) ≡ false
and_false b = ground arith

min_below : (m n : ℕ) → m < n → min m n ≡ m
min_below m n h = ground arith

min_above : (m n : ℕ) → n ≤ m → min m n ≡ n
min_above m n h = ground arith

take_line-LineTaken :
    (count : ℕ) (k : Keyboard) → let (line, k') = take_line count k in LineTaken count k line k'
unfolding take_line
take_line-LineTaken count k = elim (Bool-cases (ltb count (length k.tty_line))) [
  | inl part ↦
      let more : (count == length k.tty_line) ≡ false = ground arith in
      let lt : count < length k.tty_line = ground arith in
      rw (part, more)
        (
          length-take_le count k.tty_line (omega arith)
              ∙ sym (min_below count (length k.tty_line) lt),
          take-append-drop count k.tty_line,
          sym (and_true k.tty_line_ready),
          sym (and_true k.tty_eof),
        )
  | inr whole ↦
      let le : length k.tty_line ≤ count = ground arith in
      let e = take_all k.tty_line in
      rw (whole, ==_refl (length k.tty_line))
        (
          ap length e ∙ sym (min_above count (length k.tty_line) le),
          append_nil (take (length k.tty_line) k.tty_line) ∙ e,
          sym (and_false k.tty_line_ready),
          sym (and_false k.tty_eof),
        )
]

-- A read of a line that is ready and not empty, in cooked mode and by a process in the foreground,
-- returns the number of characters it hands out, which is the number asked for or the length of the
-- line, whichever is smaller; they are the front of the line, and the rest stays. If there was not
-- room for all, the line stays ready, and an end of file noted; otherwise both flags are reset. No
-- process changes.
pub terminal_read_ready :
    (count c : ℕ) (t : Terminal)
    → ((t.procs.table c).foreground == 0) ≡ false
    → t.keyboard.tty_mode ≡ tty_cooked
    → t.keyboard.tty_line_ready ≡ true
    → 0 < length t.keyboard.tty_line
    → let (r, line, t') = terminal_read count (some c) t in
      let n = length t.keyboard.tty_line in
      (r ≡ min count n)
      × (r ≡ length line)
      × (line ++ t'.keyboard.tty_line ≡ t.keyboard.tty_line)
      × (t'.keyboard.tty_line_ready ≡ ltb count n)
      × (t'.keyboard.tty_eof ≡ (t.keyboard.tty_eof && ltb count n))
      × (t'.procs ≡ t.procs)
unfolding terminal_read read_cooked
terminal_read_ready count c t front mode is_set some_typed =
    let cooked : (t.keyboard.tty_mode == tty_cooked) ≡ true = ground arith in
    let full : (t.keyboard.tty_eof && (length t.keyboard.tty_line == 0)) ≡ false =
      let e : (length t.keyboard.tty_line == 0) ≡ false = ground arith in ground arith in
    let (size, split, left, ended) = take_line-LineTaken count t.keyboard in
    let given : (t.keyboard.tty_line_ready || t.keyboard.tty_eof) ≡ true =
      ap (λ b. b || t.keyboard.tty_eof) is_set in
    let still = left ∙ ap (λ b. b && ltb count (length t.keyboard.tty_line)) is_set in
    rw (front, cooked, full, given) (size, refl, split, still, ended, refl)
