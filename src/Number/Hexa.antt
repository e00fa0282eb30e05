-- ===== src/Number/Hexa.antt =====
-- The hexadecimal text of a register always has 16 digits.
use tp2_so_nuevo.Prelude.{
  ℕ, zero, suc, ◌-◌, ◌/◌, ◌%◌, ◌^◌, ◌≤◌, ◌<◌, ◌≡◌, refl, sym, ap, ◌∙◌, true, false, [], ◌∷◌, inl,
  inr, arith, ◌==◌, if◌then◌else◌, length, replicate, Bool-cases, length-append,
}
use native.Mathlib.Nat.{pow-suc}
use tp2_so_nuevo.Number.{digit, digits_loop, uint_to_base, count_nibbles, int_to_hexa, word_bits}
use tp2_so_nuevo.Number.Digits.{length-reverse, digits_loop_enough}

length-replicate : (n c : ℕ) → length (replicate n c) ≡ n
length-replicate zero c = refl
length-replicate (suc n) c = ap suc (length-replicate n c)

count_digits : (f v : ℕ) → count_nibbles f v ≡ length (digits_loop f 16 v)
unfolding count_nibbles digits_loop
count_digits zero v = refl
count_digits (suc f) v = elim (Bool-cases (v == 0)) [
  | inl done ↦ rw done refl
  | inr more ↦ rw more (ap suc (count_digits f (v / 16)))
]

count-le : (f n v : ℕ) → v < 16 ^ n → count_nibbles f v ≤ n
unfolding count_nibbles
count-le zero n v lt = omega arith
count-le (suc f) zero v lt =
    let p : 16 ^ 0 ≡ 1 = refl in let e : (v == 0) ≡ true = ground arith in rw e (omega arith)
count-le (suc f) (suc n) v lt =
    let p = pow-suc 16 n in ground (arith, p, count-le f n (v / 16) (omega (arith, p)))

length-uint_to_base :
    (v : ℕ) → 0 < v → v < 2 ^ 64 → length (uint_to_base v 16) ≡ count_nibbles word_bits v
unfolding uint_to_base count_nibbles
length-uint_to_base v filled small =
    let more : (v == 0) ≡ false = ground arith in
    rw more (
      length-reverse (digit (v % 16) ∷ digits_loop word_bits 16 (v / 16))
      ∙ ap suc (
          ap length
            (digits_loop_enough 63 word_bits 16 (v / 16) (omega arith) (omega arith) (omega arith))
          ∙ sym (count_digits 63 (v / 16))))

no_nibbles : (n : ℕ) → (n == 0) ≡ true → count_nibbles word_bits n ≡ 0
unfolding count_nibbles
no_nibbles n e = rw e refl

-- The text of a 64-bit value has 16 digits, whatever the value.
pub length-int_to_hexa : (v : ℕ) → v < 2 ^ 64 → length (int_to_hexa v) ≡ 16
unfolding int_to_hexa
length-int_to_hexa v small =
    length-append (replicate (16 - count_nibbles word_bits v) b'0')
      (if v == 0 then [] else uint_to_base v 16)
    ∙ (let pad = length-replicate (16 - count_nibbles word_bits v) b'0' in
        let few = count-le word_bits 16 v (let p : 16 ^ 16 ≡ 2 ^ 64 = refl in omega (arith, p)) in
        elim (Bool-cases (v == 0)) [
          | inl done ↦
              rw done
                (let z : count_nibbles word_bits v ≡ 0 = no_nibbles v done in omega (arith, pad))
          | inr more ↦
              rw more
                (let l = length-uint_to_base v (ground arith) small in omega (arith, pad, l, few))
        ])
