-- ===== src/Number/Tests.antt =====
-- Numbers as text, at concrete values.
use tp2_so_nuevo.Prelude.{◌-◌, ◌^◌, ◌≤◌, ◌≡◌, refl, [], ◌∷◌, some, arith, length, pos, negsuc}
use tp2_so_nuevo.Number.{digits_loop, num_to_str, satoi, satoi_loop, word_bits, valid_base}
use tp2_so_nuevo.Number.Digits.{num_to_str_ends}
use tp2_so_nuevo.Number.RoundTrip.{satoi-num_to_str}

writes : num_to_str 1207 10 ≡ b'1' ∷ b'2' ∷ b'0' ∷ b'7' ∷ []
unfolding num_to_str digits_loop
writes = refl

reads : satoi (some (b'-' ∷ b'4' ∷ b'2' ∷ [])) ≡ negsuc 41
unfolding satoi satoi_loop
reads = refl

num_to_str_ends_example :
    (digits_loop 99 (valid_base 2) (2 ^ 64 - 1) ≡ digits_loop word_bits (valid_base 2) (2 ^ 64 - 1))
    × (length (num_to_str (2 ^ 64 - 1) 2) ≤ 64)
num_to_str_ends_example = num_to_str_ends (2 ^ 64 - 1) 2 99 (omega arith) (omega arith)

satoi-num_to_str_example : satoi (some (num_to_str 1207 10)) ≡ pos 1207
satoi-num_to_str_example = satoi-num_to_str 1207 (omega arith)
