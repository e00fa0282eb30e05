-- ===== src/Prelude/Search.antt =====
-- The first index that passes a test: the loops over a static table that stop at a hit.
use Prim.Native.Nat.{ℕ, zero, suc, ◌+◌, ◌≤◌, ◌<◌}
use mathlib.Core.Path.{◌≡◌, refl, ap, subst, ◌∙◌}
use mathlib.Core.Logic.{inl, inr}
use mathlib.Core.Bool.{Bool, true, false}
use mathlib.Core.Option.{Option, none, some}
use native.Mathlib.Omega.{arith}
use native.Mathlib.Decide.{ℕ_discrete}
use tp2_so_nuevo.Prelude.Tests.{if◌then◌else◌, Bool-cases}

-- From `i` on, `n` indices.
unfoldable pub first_index : (ℕ → Bool) → ℕ → ℕ → Option ℕ
first_index test i zero = none
first_index test i (suc n) =
    let rest = first_index test (suc i) n in if test i then some i else rest

-- The search stops at the first index that passes.
pub first_index_at :
    (test : ℕ → Bool) (i n k : ℕ)
    → i ≤ k
    → k < i + n
    → test k ≡ true
    → ((j : ℕ) → j < k → test j ≡ false)
    → first_index test i n ≡ some k
unfolding first_index
first_index_at test i zero k lo hi hit before = absurd (omega arith)
first_index_at test i (suc n) k lo hi hit before = elim (ℕ_discrete i k) [
  | yes e ↦ let here : test i ≡ true = ap test e ∙ hit in rw here (ap some e)
  | no ne ↦
      rw (before i (omega (arith, ne)))
        (first_index_at test (suc i) n k (omega (arith, ne)) (omega arith) hit before)
]

-- What is found passes and lies in the range.
pub first_index_found :
    (test : ℕ → Bool) (i n k : ℕ)
    → first_index test i n ≡ some k
    → (test k ≡ true) × (i ≤ k) × (k < i + n)
unfolding first_index
first_index_found test i zero k e = absurd (ground arith)
first_index_found test i (suc n) k e = elim (Bool-cases (test i)) [
  | inl hit ↦
      let at : some i ≡ some k = rw hit at e in
      let same : i ≡ k = cc in (subst (λ j. test j ≡ true) same hit, omega arith, omega arith)
  | inr miss ↦
      let later : first_index test (suc i) n ≡ some k = rw miss at e in
      let (hit, lo, hi) = first_index_found test (suc i) n k later in
      (hit, omega arith, omega arith)
]

-- A search that finds nothing has passed over the whole range.
pub first_index-none :
    (test : ℕ → Bool) (i n j : ℕ) → first_index test i n ≡ none → i ≤ j → j < i + n → test j ≡ false
unfolding first_index
first_index-none test i zero j e lo hi = absurd (omega arith)
first_index-none test i (suc n) j e lo hi = elim (Bool-cases (test i)) [
  | inl hit ↦ let found : some i ≡ none = rw hit at e in absurd (ground arith)
  | inr miss ↦
      let later : first_index test (suc i) n ≡ none = rw miss at e in
      elim (ℕ_discrete i j) [
        | yes e' ↦ subst (λ k. test k ≡ false) e' miss
        | no ne ↦ first_index-none test (suc i) n j later (omega (arith, ne)) (omega arith)
      ]
]

-- Only the range counts.
pub first_index-ext :
    (t t' : ℕ → Bool) (i n : ℕ)
    → ((j : ℕ) → j < i + n → t j ≡ t' j)
    → first_index t i n ≡ first_index t' i n
unfolding first_index
first_index-ext t t' i zero h = refl
first_index-ext t t' i (suc n) h =
    rw (h i (omega arith), first_index-ext t t' (suc i) n (λ j lt. h j (omega arith))) refl

-- Nothing before what is found passes.
pub first_index_first :
    (test : ℕ → Bool) (i n k j : ℕ) → first_index test i n ≡ some k → i ≤ j → j < k → test j ≡ false
unfolding first_index
first_index_first test i zero k j e lo lt = absurd (ground arith)
first_index_first test i (suc n) k j e lo lt = elim (Bool-cases (test i)) [
  | inl hit ↦
      let at : some i ≡ some k = rw hit at e in
      let same : i ≡ k = cc in absurd (omega (arith, same))
  | inr miss ↦
      let later : first_index test (suc i) n ≡ some k = rw miss at e in
      elim (ℕ_discrete i j) [
        | yes e' ↦ subst (λ m. test m ≡ false) e' miss
        | no ne ↦ first_index_first test (suc i) n k j later (omega (arith, ne)) lt
      ]
]

-- A search in which nothing passes.
pub first_index_misses :
    (test : ℕ → Bool) (i n : ℕ)
    → ((j : ℕ) → i ≤ j → j < i + n → test j ≡ false)
    → first_index test i n ≡ none
unfolding first_index
first_index_misses test i zero h = refl
first_index_misses test i (suc n) h =
    rw (h i (omega arith) (omega arith))
      (first_index_misses test (suc i) n (λ j lo hi. h j (omega arith) (omega arith)))
