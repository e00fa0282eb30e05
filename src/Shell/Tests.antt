-- ===== src/Shell/Tests.antt =====
-- Runs of the text functions, and their theorems at concrete texts.
use tp2_so_nuevo.Prelude.{
  ℕ, ◌≡◌, refl, false, List, [], ◌∷◌, Option, none, some, arith, codes, inl, inr, length,
}
use tp2_so_nuevo.Shell.{
  skip_blanks, parse_args, trim_end, split_pipe, parse_pipe, is_space, count_char, count_chunk, wc,
  is_vowel, filter_chunk, filter,
}
use tp2_so_nuevo.Shell.Arguments.{parse_args-spaced}
use tp2_so_nuevo.Shell.Streams.{Spaced, occurrences, no_counts, wc-counts}

pipe_run : parse_pipe (codes "cat  |  wc") ≡ some (codes "cat", codes "wc")
unfolding parse_pipe split_pipe trim_end skip_blanks
pipe_run = refl

abbrev reads : List (Option (List ℕ))
reads = some (codes "two wo") ∷ none ∷ some (codes "rds") ∷ some [] ∷ []

-- A word that is cut by a read counts once.
words_run : (wc reads no_counts).words ≡ 2
unfolding wc count_chunk count_char is_space
words_run = refl

filter_run : filter reads ≡ codes "tw w" ∷ codes "rds" ∷ []
unfolding filter filter_chunk is_vowel
filter_run = refl

parse_args-spaced_example : parse_args 15 (codes " kill 3") ≡ codes "kill" ∷ codes "3" ∷ []
parse_args-spaced_example =
    parse_args-spaced (codes "kill" ∷ codes "3" ∷ []) 15
      (
        (omega arith, (omega arith, (omega arith, (omega arith, (omega arith, tt))))),
        ((omega arith, (omega arith, tt)), tt),
      )
      (omega arith)

abbrev two_parts : List (List ℕ × List ℕ)
two_parts = ([], codes "two") ∷ (codes " ", codes "words") ∷ []

two_parts-Spaced : Spaced false two_parts
two_parts-Spaced = (
  tt,
  inl refl,
  (
    (omega arith, inr (omega arith)),
    ((omega arith, inr (omega arith)), ((omega arith, inr (omega arith)), tt)),
  ),
  omega arith,
  (
    (inl refl, tt),
    inr (omega arith),
    (
      (omega arith, inr (omega arith)),
      (
        (omega arith, inr (omega arith)),
        (
          (omega arith, inr (omega arith)),
          ((omega arith, inr (omega arith)), ((omega arith, inr (omega arith)), tt)),
        ),
      ),
    ),
    omega arith,
    tt,
  ),
)

wc-counts_example :
    let k = wc reads no_counts in
    (k.lines ≡ occurrences b'\n' (codes "two words"))
    × (k.words ≡ 2)
    × (k.bytes ≡ length (codes "two words"))
wc-counts_example = wc-counts reads two_parts [] refl two_parts-Spaced tt
