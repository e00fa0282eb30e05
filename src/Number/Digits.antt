-- ===== src/Number/Digits.antt =====
-- The loop over the digits ends within 64 rounds, and how many digits it writes.
use tp2_so_nuevo.Prelude.{
  ℕ, zero, suc, ◌/◌, ◌%◌, ◌^◌, ◌≤◌, ◌<◌, ◌≡◌, refl, ap, ◌∙◌, true, false, List, [], ◌∷◌, inl, inr,
  arith, ◌==◌, length, Bool-cases, length-append,
}
use mathlib.Core.List.{reverse, reverse-cons}
use native.Mathlib.Nat.{two-pow-succ, pow-suc, one-le-pow}
use tp2_so_nuevo.Number.{digit, digits_loop, word_bits, valid_base, num_to_str}

half : (b v : ℕ) → 2 ≤ b → v / b ≤ v / 2
half b v h = grind arith

pub shrinks : (b v f : ℕ) → 2 ≤ b → v < 2 ^ suc f → v / b < 2 ^ f
shrinks b v f h lt = let p = two-pow-succ f in let q = half b v h in omega (arith, p, q)

-- More rounds change nothing once the value fits the rounds.
pub digits_loop_enough :
    (f g b v : ℕ) → 2 ≤ b → v < 2 ^ f → f ≤ g → digits_loop g b v ≡ digits_loop f b v
unfolding digits_loop
digits_loop_enough zero zero b v h lt le = refl
digits_loop_enough zero (suc g) b v h lt le =
    let e : (v == 0) ≡ true = let p : 2 ^ 0 ≡ 1 = refl in ground arith in rw e refl
digits_loop_enough (suc f) zero b v h lt le = absurd (omega arith)
digits_loop_enough (suc f) (suc g) b v h lt le = elim (Bool-cases (v == 0)) [
  | inl done ↦ rw done refl
  | inr more ↦ rw more (
      ap (◌∷◌ (digit (v % b)))
        (digits_loop_enough f g b (v / b) h (shrinks b v f h lt) (omega arith)))
]

length-digits_loop : (f b v : ℕ) → length (digits_loop f b v) ≤ f
unfolding digits_loop
length-digits_loop zero b v = omega arith
length-digits_loop (suc f) b v = ground (arith, length-digits_loop f b (v / b))

pub length-reverse : (xs : List ℕ) → length (reverse xs) ≡ length xs
length-reverse [] = refl
length-reverse (x ∷ xs) =
    ap length (reverse-cons x xs)
    ∙ length-append (reverse xs) (x ∷ [])
    ∙ omega (arith, length-reverse xs)

long_loop : (n f v : ℕ) → 10 ^ n ≤ v → n < f → n < length (digits_loop f 10 v)
unfolding digits_loop
long_loop zero zero v le lt = absurd (omega arith)
long_loop zero (suc f) v le lt =
    let more : (v == 0) ≡ false = let p : 10 ^ 0 ≡ 1 = refl in ground arith in rw more (omega arith)
long_loop (suc n) zero v le lt = absurd (omega arith)
long_loop (suc n) (suc f) v le lt =
    let p = pow-suc 10 n in
    let q : 1 ≤ 10 ^ n = one-le-pow n 10 (omega arith) in
    let more : (v == 0) ≡ false = ground (arith, p, q) in
    rw more (let r = long_loop n f (v / 10) (omega (arith, p)) (omega arith) in omega arith)

valid_base-ge : (base : ℕ) → 2 ≤ valid_base base
valid_base-ge base = ground arith

-- The digits of a 64-bit number in any base are complete after 64 rounds, however many more the loop
-- is given, and fit the 64 places that `tmp` has beside one.
pub num_to_str_ends :
    (value base fuel : ℕ)
    → value < 2 ^ 64
    → word_bits ≤ fuel
    → (digits_loop fuel (valid_base base) value ≡ digits_loop word_bits (valid_base base) value)
      × (length (num_to_str value base) ≤ 64)
unfolding num_to_str
num_to_str_ends value base fuel small enough = (
  digits_loop_enough word_bits fuel (valid_base base) value (valid_base-ge base) small enough,
  elim (Bool-cases (value == 0)) [
    | inl none_left ↦ rw none_left (omega arith)
    | inr more ↦ rw more (
        let l = length-digits_loop word_bits (valid_base base) value in
        let r = length-reverse (digits_loop word_bits (valid_base base) value) in omega arith)
  ],
)

-- A number of at least 10^n has more than `n` decimal digits, for `n` up to 63.
pub num_to_str_long : (n value : ℕ) → 10 ^ n ≤ value → n < 64 → n < length (num_to_str value 10)
unfolding num_to_str
num_to_str_long n value big few =
    let more : (value == 0) ≡ false = let q = one-le-pow n 10 (omega arith) in ground arith in
    rw more (
      let r = length-reverse (digits_loop word_bits 10 value) in
      let l = long_loop n word_bits value big few in omega arith)
