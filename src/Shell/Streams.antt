-- ===== src/Shell/Streams.antt =====
-- What the commands on streams make of their input, however it is cut into reads.
use tp2_so_nuevo.Prelude.{
  ℕ, ◌+◌, ◌≤◌, ◌<◌, ◌≡◌, ◌≢◌, refl, sym, ap, ◌∙◌, Bool, true, false, List, [], ◌∷◌, ◌++◌, Option,
  none, some, inl, inr, ◌⊎◌, arith, ◌==◌, if◌then◌else◌, length, All, Bool-cases,
}
use tp2_so_nuevo.Shell.{
  Counts, is_space, count_char, count_chunk, wc, filter_chunk, add_write, filter,
}

-- The input that the reads give, up to its end.
abbrev pub input : List (Option (List ℕ)) → List ℕ
input [] = []
input (none ∷ reads) = input reads
input (some [] ∷ reads) = []
input (some (c ∷ cs) ∷ reads) = (c ∷ cs) ++ input reads

count_chunk-append :
    (xs ys : List ℕ) (k : Counts) → count_chunk (xs ++ ys) k ≡ count_chunk ys (count_chunk xs k)
unfolding count_chunk
count_chunk-append [] ys k = refl
count_chunk-append (x ∷ xs) ys k = count_chunk-append xs ys _

wc-input : (reads : List (Option (List ℕ))) (k : Counts) → wc reads k ≡ count_chunk (input reads) k
unfolding wc count_chunk
wc-input [] k = refl
wc-input (none ∷ reads) k = wc-input reads k
wc-input (some [] ∷ reads) k = refl
wc-input (some (c ∷ cs) ∷ reads) k =
    wc-input reads (count_chunk (c ∷ cs) k) ∙ sym (count_chunk-append (c ∷ cs) (input reads) k)

-- A blank is a space or one of the characters from TAB to CR.
abbrev pub IsBlank : ℕ → Type 0
IsBlank c = (c ≡ 32) ⊎ ((9 ≤ c) × (c ≤ 13))

abbrev pub IsPrinted : ℕ → Type 0
IsPrinted c = (c ≢ 32) × ((c < 9) ⊎ (13 < c))

blank_is_space : (c : ℕ) → IsBlank c → is_space c ≡ true
unfolding is_space
blank_is_space c b = ground arith

printed_is_not : (c : ℕ) → IsPrinted c → is_space c ≡ false
unfolding is_space
printed_is_not c p = ground arith

abbrev pub occurrences : ℕ → List ℕ → ℕ
occurrences x [] = 0
occurrences x (y ∷ ys) = if y == x then occurrences x ys + 1 else occurrences x ys

-- A text of gaps and words, a gap before each word.
abbrev pub text : List (List ℕ × List ℕ) → List ℕ
text [] = []
text ((gap, word) ∷ parts) = gap ++ (word ++ text parts)

-- Words are not empty, and neither are the gaps, but perhaps the first one.
abbrev pub Spaced : Bool → List (List ℕ × List ℕ) → Type 0
Spaced inside [] = Unit
Spaced inside ((gap, word) ∷ parts) =
    All IsBlank gap
    × ((inside ≡ false) ⊎ (0 < length gap))
    × All IsPrinted word
    × (0 < length word)
    × Spaced true parts

count_char-lines :
    (c : ℕ) (k : Counts)
    → ((count_char c k).lines ≡ (if c == b'\n' then k.lines + 1 else k.lines))
      × ((count_char c k).bytes ≡ k.bytes + 1)
unfolding count_char
count_char-lines c k = elim (Bool-cases (is_space c)) [
  | inl blank ↦ rw blank (refl, refl)
  | inr printed ↦ elim (Bool-cases k.in_word) [
    | inl inside ↦ rw (printed, inside) (refl, refl)
    | inr outside ↦ rw (printed, outside) (refl, refl)
  ]
]

count_chunk-lines :
    (xs : List ℕ) (k : Counts)
    → ((count_chunk xs k).lines ≡ k.lines + occurrences b'\n' xs)
      × ((count_chunk xs k).bytes ≡ k.bytes + length xs)
unfolding count_chunk
count_chunk-lines [] k = (omega arith, omega arith)
count_chunk-lines (x ∷ xs) k =
    let (lines, bytes) = count_chunk-lines xs (count_char x k) in
    let (line, byte) = count_char-lines x k in
    (
      elim (Bool-cases (x == b'\n')) [
        | inl is_end ↦ let l = rw is_end at line in rw is_end (omega arith)
        | inr other ↦ let l = rw other at line in rw other (omega arith)
      ],
      omega arith,
    )

count_blank :
    (c : ℕ) (k : Counts)
    → is_space c ≡ true
    → ((count_char c k).words ≡ k.words) × ((count_char c k).in_word ≡ false)
unfolding count_char
count_blank c k blank = rw blank (refl, refl)

count_inside :
    (c : ℕ) (k : Counts)
    → is_space c ≡ false
    → k.in_word ≡ true
    → ((count_char c k).words ≡ k.words) × ((count_char c k).in_word ≡ true)
unfolding count_char
count_inside c k printed inside = rw (printed, inside) (refl, refl)

count_first :
    (c : ℕ) (k : Counts)
    → is_space c ≡ false
    → k.in_word ≡ false
    → ((count_char c k).words ≡ k.words + 1) × ((count_char c k).in_word ≡ true)
unfolding count_char
count_first c k printed outside = rw (printed, outside) (refl, refl)

count_gap :
    (gap : List ℕ) (k : Counts)
    → All IsBlank gap
    → (k.in_word ≡ false) ⊎ (0 < length gap)
    → ((count_chunk gap k).words ≡ k.words) × ((count_chunk gap k).in_word ≡ false)
unfolding count_chunk
count_gap [] k all (inl outside) = (refl, outside)
count_gap [] k all (inr bad) = absurd (omega arith)
count_gap (c ∷ cs) k all ends =
    let (words, outside) = count_blank c k (blank_is_space c all.0) in
    let (words', outside') = count_gap cs (count_char c k) all.1 (inl outside) in
    (words' ∙ words, outside')

count_rest :
    (word : List ℕ) (k : Counts)
    → All IsPrinted word
    → k.in_word ≡ true
    → ((count_chunk word k).words ≡ k.words) × ((count_chunk word k).in_word ≡ true)
unfolding count_chunk
count_rest [] k all inside = (refl, inside)
count_rest (c ∷ cs) k all inside =
    let (words, still) = count_inside c k (printed_is_not c all.0) inside in
    let (words', still') = count_rest cs (count_char c k) all.1 still in (words' ∙ words, still')

count_word :
    (word : List ℕ) (k : Counts)
    → All IsPrinted word
    → 0 < length word
    → k.in_word ≡ false
    → ((count_chunk word k).words ≡ k.words + 1) × ((count_chunk word k).in_word ≡ true)
unfolding count_chunk
count_word [] k all some_word outside = absurd (omega arith)
count_word (c ∷ cs) k all some_word outside =
    let (words, inside) = count_first c k (printed_is_not c all.0) outside in
    let (words', inside') = count_rest cs (count_char c k) all.1 inside in (words' ∙ words, inside')

count_text :
    (parts : List (List ℕ × List ℕ)) (inside : Bool) (k : Counts)
    → k.in_word ≡ inside
    → Spaced inside parts
    → (count_chunk (text parts) k).words ≡ k.words + length parts
unfolding count_chunk
count_text [] inside k now spaced = omega arith
count_text ((gap, word) ∷ parts) inside k now (blank, open_gap, printed, some_word, spaced) =
    let k1 = count_chunk gap k in
    let k2 = count_chunk word k1 in
    let (same, outside) =
      count_gap gap k blank
        (elim open_gap [ inl e ↦ inl (now ∙ e) | inr some_gap ↦ inr some_gap ]) in
    let (one, in_word) = count_word word k1 printed some_word outside in
    let rest = count_text parts true k2 in_word spaced in
    let cut =
      count_chunk-append gap (word ++ text parts) k ∙ count_chunk-append word (text parts) k1 in
    let all = ap {A = Counts} (λ r. r.words) cut in omega arith

count_end : (gap : List ℕ) (k : Counts) → All IsBlank gap → (count_chunk gap k).words ≡ k.words
unfolding count_chunk
count_end [] k all = refl
count_end (c ∷ cs) k all = (count_gap (c ∷ cs) k all (inr (omega arith))).0

abbrev pub no_counts : Counts
no_counts = record { lines = 0; words = 0; bytes = 0; in_word = false }

-- However the input is cut into reads, and whatever reads have to be repeated, `wc` counts its line
-- ends, its characters and its words: where the input consists of words with gaps of blanks between
-- them, and perhaps before the first and behind the last, it counts as many as there are.
pub wc-counts :
    (reads : List (Option (List ℕ))) (parts : List (List ℕ × List ℕ)) (gap : List ℕ)
    → input reads ≡ text parts ++ gap
    → Spaced false parts
    → All IsBlank gap
    → let k = wc reads no_counts in
      (k.lines ≡ occurrences b'\n' (input reads))
      × (k.words ≡ length parts)
      × (k.bytes ≡ length (input reads))
wc-counts reads parts gap e spaced blank =
    let whole = wc-input reads no_counts in
    let (lines, bytes) = count_chunk-lines (input reads) no_counts in
    let cut =
      ap (λ xs. count_chunk xs no_counts) e ∙ count_chunk-append (text parts) gap no_counts in
    let words = count_text parts false no_counts refl spaced in
    (
      ap {A = Counts} (λ k. k.lines) whole ∙ lines ∙ omega arith,
      ap {A = Counts} (λ k. k.words) (whole ∙ cut)
          ∙ count_end gap (count_chunk (text parts) no_counts) blank
          ∙ words
          ∙ omega arith,
      ap {A = Counts} (λ k. k.bytes) whole ∙ bytes ∙ omega arith,
    )

filter_chunk-append :
    (xs ys : List ℕ) → filter_chunk (xs ++ ys) ≡ filter_chunk xs ++ filter_chunk ys
unfolding filter_chunk
filter_chunk-append [] ys = refl
filter_chunk-append (x ∷ xs) ys = ground (arith, filter_chunk-append xs ys)

abbrev pub joined : List (List ℕ) → List ℕ
joined [] = []
joined (w ∷ ws) = w ++ joined ws

joined-add_write : (w : List ℕ) (ws : List (List ℕ)) → joined (add_write w ws) ≡ w ++ joined ws
joined-add_write [] ws = refl
joined-add_write (c ∷ cs) ws = refl

-- What `filter` gives to `sys_write` in all is its input without the vowels.
pub filter-input :
    (reads : List (Option (List ℕ))) → joined (filter reads) ≡ filter_chunk (input reads)
unfolding filter filter_chunk
filter-input [] = refl
filter-input (none ∷ reads) = filter-input reads
filter-input (some [] ∷ reads) = refl
filter-input (some (c ∷ cs) ∷ reads) =
    joined-add_write (filter_chunk (c ∷ cs)) (filter reads)
    ∙ ap (λ xs. filter_chunk (c ∷ cs) ++ xs) (filter-input reads)
    ∙ sym (filter_chunk-append (c ∷ cs) (input reads))
