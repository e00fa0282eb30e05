-- ===== src/Number/RoundTrip.antt =====
-- Reading back what was written.
use tp2_so_nuevo.Prelude.{
  ℕ, zero, suc, ◌+◌, ◌-◌, ◌*◌, ◌/◌, ◌%◌, ◌^◌, ◌<◌, ◌≡◌, refl, ap, ◌∙◌, true, false, ◌||◌, List, [],
  ◌∷◌, ◌++◌, Option, none, some, inl, inr, arith, ltb, ◌==◌, if◌then◌else◌, length, Bool-cases, pos,
  to_signed,
}
use mathlib.Core.List.{reverse, reverse-cons}
use tp2_so_nuevo.Number.{
  digit, digits_loop, num_to_str, satoi_loop, signed_result, satoi, word_bits,
}
use tp2_so_nuevo.Number.Digits.{shrinks}

-- What the loop does with one more character.
abbrev next_digit : Option ℕ → ℕ → Option ℕ
next_digit none c = none
next_digit (some res) c =
    if ltb c b'0' || ltb b'9' c then none else some ((res * 10 + c - b'0') % 2 ^ 64)

satoi_loop-snoc :
    (xs : List ℕ) (res c : ℕ) → satoi_loop res (xs ++ (c ∷ [])) ≡ next_digit (satoi_loop res xs) c
unfolding satoi_loop
satoi_loop-snoc [] res c = refl
satoi_loop-snoc (x ∷ xs) res c = elim (Bool-cases (ltb x b'0' || ltb b'9' x)) [
  | inl bad ↦ rw bad refl
  | inr good ↦ rw good (satoi_loop-snoc xs ((res * 10 + x - b'0') % 2 ^ 64) c)
]

satoi_loop-digits :
    (f v : ℕ) → v < 2 ^ f → v < 2 ^ 64 → satoi_loop 0 (reverse (digits_loop f 10 v)) ≡ some v
unfolding digits_loop satoi_loop
satoi_loop-digits zero v lt small = let p : 2 ^ 0 ≡ 1 = refl in ap some (omega arith)
satoi_loop-digits (suc f) v lt small = elim (Bool-cases (v == 0)) [
  | inl done ↦ rw done (ap some (ground arith))
  | inr more ↦ rw more (
      ap (satoi_loop 0) (reverse-cons (digit (v % 10)) (digits_loop f 10 (v / 10)))
      ∙ satoi_loop-snoc (reverse (digits_loop f 10 (v / 10))) 0 (digit (v % 10))
      ∙ ap (λ o. next_digit o (digit (v % 10)))
          (satoi_loop-digits f (v / 10) (shrinks 10 v f (omega arith) lt) (omega arith))
      ∙ ground arith)
]

-- The text does not begin with a minus.
starts_digit :
    (xs : List ℕ) (res : ℕ)
    → satoi_loop 0 xs ≡ some res
    → 0 < length xs
    → satoi (some xs) ≡ to_signed res
unfolding satoi satoi_loop
starts_digit [] res e filled = absurd (omega arith)
starts_digit (c ∷ cs) res e filled = elim (Bool-cases (c == b'-')) [
  | inl minus ↦
      let bad : (ltb c b'0' || ltb b'9' c) ≡ true = ground arith in
      let e' : none ≡ some res = rw bad at e in absurd (ground arith)
  | inr plus ↦ rw plus (ap (signed_result false) e)
]

filled_text : (xs : List ℕ) (res : ℕ) → satoi_loop 0 xs ≡ some res → 0 < res → 0 < length xs
unfolding satoi_loop
filled_text [] res e p = absurd (ground arith)
filled_text (x ∷ xs) res e p = omega arith

zero_text : satoi (some (b'0' ∷ [])) ≡ pos 0
unfolding satoi satoi_loop
zero_text = refl

positive : (n : ℕ) → n < 2 ^ 63 → to_signed n ≡ pos n
positive n lt = let e : ltb n (2 ^ 63) ≡ true = ground arith in rw e refl

-- A number below 2^63 that is written in decimal is read back as it was.
pub satoi-num_to_str : (v : ℕ) → v < 2 ^ 63 → satoi (some (num_to_str v 10)) ≡ pos v
unfolding num_to_str
satoi-num_to_str v small = elim (Bool-cases (v == 0)) [
  | inl none_left ↦ rw none_left (zero_text ∙ ap pos (ground arith))
  | inr more ↦
      let text = reverse (digits_loop word_bits 10 v) in
      let e : satoi_loop 0 text ≡ some v = satoi_loop-digits 64 v (omega arith) (omega arith) in
      rw more (starts_digit text v e (filled_text text v e (ground arith)) ∙ positive v small)
]
