-- ===== src/Shell.antt =====
-- The text that user programs work on: `parse_args` and `parse_pipe` of Userland/c/shell/userlib.c,
-- and the loops of Userland/c/commands/wc.c and filter.c. A text is the list of its characters before
-- the NUL.
pub mod Arguments
pub mod Streams
mod Tests
use tp2_so_nuevo.Prelude.{
  ℕ, zero, suc, ◌+◌, Bool, true, false, ◌||◌, List, [], ◌∷◌, ◌++◌, Option, none, some, ◌==◌,
  if◌then◌else◌, ==_refl, ==→≡, ==_of_ne,
}

abbrev pub blank_char : ℕ
blank_char = 32

pub skip_blanks : List ℕ → List ℕ
skip_blanks [] = []
skip_blanks (c ∷ cs) = let rest = skip_blanks cs in if c == blank_char then rest else c ∷ cs

-- The characters up to a blank, and what follows; that blank becomes the NUL.
pub cut_word : List ℕ → List ℕ × List ℕ
cut_word [] = ([], [])
cut_word (c ∷ cs) =
    let (word, rest) = cut_word cs in if c == blank_char then ([], cs) else (c ∷ word, rest)

-- At most `max_argv` words; `argc` is their number.
pub parse_args : ℕ → List ℕ → List (List ℕ)
parse_args zero src = []
parse_args (suc n) src = elim (skip_blanks src) [
  | [] ↦ []
  | c ∷ cs ↦ let (word, rest) = cut_word (c ∷ cs) in word ∷ parse_args n rest
]

-- Without the blanks at the end.
pub trim_end : List ℕ → List ℕ
trim_end [] = []
trim_end (c ∷ cs) =
    let rest = trim_end cs in
    elim rest [ [] ↦ if c == blank_char then [] else c ∷ [] | d ∷ ds ↦ c ∷ d ∷ ds ]

-- The text before the first '|' and the text behind it.
pub split_pipe : List ℕ → Option (List ℕ × List ℕ)
split_pipe [] = none
split_pipe (c ∷ cs) =
    let later = split_pipe cs in
    if c == b'|'
    then some ([], cs)
    else elim later [ none ↦ none | some (left, right) ↦ some (c ∷ left, right) ]

pub parse_pipe : List ℕ → Option (List ℕ × List ℕ)
parse_pipe buff = elim (split_pipe buff) [
  | none ↦ none
  | some (left, right) ↦ some (trim_end left, skip_blanks right)
]

pub record Counts : Type 0 where
  pub lines : ℕ
  pub words : ℕ
  pub bytes : ℕ
  pub in_word : Bool

pub is_space : ℕ → Bool
is_space c = (c == 32) || (c == 9) || (c == 10) || (c == 13) || (c == 12) || (c == 11)

pub count_char : ℕ → Counts → Counts
count_char c k =
    let k' = record k {
      bytes = k.bytes + 1;
      lines = if c == b'\n' then k.lines + 1 else k.lines;
    } in
    if is_space c
    then record k' { in_word = false }
    else if k.in_word
    then k'
    else record k' { in_word = true; words = k.words + 1 }

pub count_chunk : List ℕ → Counts → Counts
count_chunk [] k = k
count_chunk (c ∷ cs) k = count_chunk cs (count_char c k)

-- The results of the calls of `sys_read`, `none` for -1; an empty one ends the input.
pub wc : List (Option (List ℕ)) → Counts → Counts
wc [] k = k
wc (none ∷ reads) k = wc reads k
wc (some [] ∷ reads) k = k
wc (some (c ∷ cs) ∷ reads) k = wc reads (count_chunk (c ∷ cs) k)

pub is_vowel : ℕ → Bool
is_vowel c =
    (c == b'a')
    || (c == b'e')
    || (c == b'i')
    || (c == b'o')
    || (c == b'u')
    || (c == b'A')
    || (c == b'E')
    || (c == b'I')
    || (c == b'O')
    || (c == b'U')

pub filter_chunk : List ℕ → List ℕ
filter_chunk [] = []
filter_chunk (c ∷ cs) = let rest = filter_chunk cs in if is_vowel c then rest else c ∷ rest

-- A buffer with nothing left in it is not written.
abbrev pub add_write : List ℕ → List (List ℕ) → List (List ℕ)
add_write [] writes = writes
add_write (c ∷ cs) writes = (c ∷ cs) ∷ writes

-- The buffers that the calls of `sys_write` are given, one after the other. Their results are not
-- looked at: what a call does not take is not written again.
pub filter : List (Option (List ℕ)) → List (List ℕ)
filter [] = []
filter (none ∷ reads) = filter reads
filter (some [] ∷ reads) = []
filter (some (c ∷ cs) ∷ reads) = add_write (filter_chunk (c ∷ cs)) (filter reads)
