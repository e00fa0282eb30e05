-- ===== src/Shell/Arguments.antt =====
-- Words that are written with blanks between them are read back.
use tp2_so_nuevo.Prelude.{
  ℕ, zero, suc, ◌≤◌, ◌<◌, ◌≡◌, ◌≢◌, refl, ap, ◌∙◌, List, [], ◌∷◌, ◌++◌, arith, length, All,
  ==_of_ne,
}
use tp2_so_nuevo.Shell.{blank_char, skip_blanks, cut_word, parse_args}

-- A word has characters, and no blank among them.
abbrev pub NoBlank : List ℕ → Type 0
NoBlank = All (λ c. c ≢ blank_char)

abbrev pub IsWord : List ℕ → Type 0
IsWord w = (0 < length w) × NoBlank w

-- A blank before each word.
abbrev pub spaced : List (List ℕ) → List ℕ
spaced [] = []
spaced (w ∷ ws) = blank_char ∷ (w ++ spaced ws)

cut_word-append :
    (w : List ℕ) (ws : List (List ℕ))
    → NoBlank w
    → (rest : List ℕ) × (cut_word (w ++ spaced ws) ≡ (w, rest))
      × (skip_blanks rest ≡ skip_blanks (spaced ws))
unfolding cut_word skip_blanks
cut_word-append [] [] clean = ([], refl, refl)
cut_word-append [] (v ∷ vs) clean = (v ++ spaced vs, refl, refl)
cut_word-append (c ∷ cs) ws (ne, clean) =
    let (rest, e, same) = cut_word-append cs ws clean in
    (rest, rw (==_of_ne c blank_char ne, e, cut_word) refl, same)

skip_word : (w : List ℕ) (xs : List ℕ) → IsWord w → skip_blanks (w ++ xs) ≡ w ++ xs
unfolding skip_blanks
skip_word [] xs (some_char, clean) = absurd (omega arith)
skip_word (c ∷ cs) xs (some_char, (ne, clean)) = rw (==_of_ne c blank_char ne) refl

parse_args-skip :
    (n : ℕ) (xs ys : List ℕ) → skip_blanks xs ≡ skip_blanks ys → parse_args n xs ≡ parse_args n ys
unfolding parse_args
parse_args-skip zero xs ys e = refl
parse_args-skip (suc n) xs ys e = rw (e, parse_args) refl

skip_blanks-blank : (xs : List ℕ) → skip_blanks (blank_char ∷ xs) ≡ skip_blanks xs
unfolding skip_blanks
skip_blanks-blank xs = refl

parse_args_nothing : (n : ℕ) → parse_args n [] ≡ []
unfolding parse_args skip_blanks
parse_args_nothing zero = refl
parse_args_nothing (suc n) = refl

parse_one :
    (n : ℕ) (w : List ℕ) (ws : List (List ℕ))
    → IsWord w
    → parse_args (suc n) (w ++ spaced ws) ≡ w ∷ parse_args n (spaced ws)
unfolding parse_args
parse_one n [] ws (some_char, clean) = absurd (omega arith)
parse_one n (c ∷ cs) ws (some_char, clean) =
    let (rest, e, same) = cut_word-append (c ∷ cs) ws clean in
    rw (skip_word (c ∷ cs) (spaced ws) (some_char, clean), e, parse_args)
      (ap (◌∷◌ (c ∷ cs)) (parse_args-skip n rest (spaced ws) same))

-- Words without blanks, as many as there is room for, with a blank before each, are parsed to
-- themselves.
pub parse_args-spaced :
    (ws : List (List ℕ)) (n : ℕ) → All IsWord ws → length ws ≤ n → parse_args n (spaced ws) ≡ ws
parse_args-spaced [] zero ok room = parse_args_nothing zero
parse_args-spaced [] (suc n) ok room = parse_args_nothing (suc n)
parse_args-spaced (w ∷ ws) zero ok room = absurd (omega arith)
parse_args-spaced (w ∷ ws) (suc n) (is_word, ok) room =
    parse_args-skip (suc n) (spaced (w ∷ ws)) (w ++ spaced ws) (skip_blanks-blank (w ++ spaced ws))
    ∙ parse_one n w ws is_word
    ∙ ap (◌∷◌ w) (parse_args-spaced ws n ok (omega arith))
