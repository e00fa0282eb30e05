-- ===== src/Number.antt =====
-- Numbers as text: `num_to_str` of Userland/c/shell/userlib.c, `satoi` and `is_valid_uint` of
-- Userland/c/tests/test_util.c, `uintToBase` of Kernel/c/lib/naiveConsole.c and `intToHexa` of
-- Kernel/c/drivers/keyboardDriver.c. A text is the list of its characters before the NUL.
pub mod Digits
pub mod RoundTrip
pub mod Hexa
mod Tests
use tp2_so_nuevo.Prelude.{
  ℕ, zero, suc, ◌+◌, ◌-◌, ◌*◌, ◌/◌, ◌%◌, ◌^◌, Bool, true, false, ◌||◌, List, [], ◌∷◌, ◌++◌, Option,
  none, some, ltb, ◌==◌, if◌then◌else◌, replicate, ==_refl, ==→≡, ==_of_ne, ℤ, pos, negsuc,
  to_signed,
}
use mathlib.Core.List.{reverse}

abbrev pub digit : ℕ → ℕ
digit d = if ltb d 10 then b'0' + d else b'A' + (d - 10)

-- The loop over the digits, the lowest first, for at most `fuel` rounds; `value` is below 2^64 and
-- `base` at least 2, so 64 rounds are enough.
pub digits_loop : ℕ → ℕ → ℕ → List ℕ
digits_loop zero base value = []
digits_loop (suc fuel) base value =
    let rest = digits_loop fuel base (value / base) in
    if value == 0 then [] else digit (value % base) ∷ rest

abbrev pub word_bits : ℕ
word_bits = 64

-- A base that is not from 2 to 16 is taken for 10.
abbrev pub valid_base : ℕ → ℕ
valid_base base = if ltb base 2 || ltb 16 base then 10 else base

pub num_to_str : ℕ → ℕ → List ℕ
num_to_str value base =
    if value == 0 then b'0' ∷ [] else reverse (digits_loop word_bits (valid_base base) value)

-- The body runs before the test.
pub uint_to_base : ℕ → ℕ → List ℕ
uint_to_base value base = reverse (digit (value % base) ∷ digits_loop word_bits base (value / base))

-- The rounds of `aux >>= 4`, for at most `fuel` of them.
pub count_nibbles : ℕ → ℕ → ℕ
count_nibbles zero aux = 0
count_nibbles (suc fuel) aux =
    let rest = count_nibbles fuel (aux / 16) in if aux == 0 then 0 else suc rest

pub int_to_hexa : ℕ → List ℕ
int_to_hexa value =
    replicate (16 - count_nibbles word_bits value) b'0'
    ++ (if value == 0 then [] else uint_to_base value 16)

-- `res` on 64 bits; a character that is no digit makes the result 0.
pub satoi_loop : ℕ → List ℕ → Option ℕ
satoi_loop res [] = some res
satoi_loop res (c ∷ cs) =
    let rest = satoi_loop ((res * 10 + c - b'0') % 2 ^ 64) cs in
    if ltb c b'0' || ltb b'9' c then none else rest

abbrev pub negate : ℤ → ℤ
negate (pos zero) = pos 0
negate (pos (suc n)) = negsuc n
negate (negsuc n) = pos (suc n)

abbrev pub signed_result : Bool → Option ℕ → ℤ
signed_result negative none = pos 0
signed_result false (some res) = to_signed res
signed_result true (some res) = negate (to_signed res)

pub satoi : Option (List ℕ) → ℤ
satoi none = pos 0
satoi (some []) = pos 0
satoi (some (c ∷ cs)) =
    let minus = signed_result true (satoi_loop 0 cs) in
    let plus = signed_result false (satoi_loop 0 (c ∷ cs)) in if c == b'-' then minus else plus

abbrev pub all_digits : List ℕ → Bool
all_digits [] = true
all_digits (c ∷ cs) = if ltb c b'0' || ltb b'9' c then false else all_digits cs

pub is_valid_uint : Option (List ℕ) → Bool
is_valid_uint none = false
is_valid_uint (some []) = false
is_valid_uint (some (c ∷ cs)) = all_digits (c ∷ cs)
