-- ===== src/Memory/Buddy/Orders.antt =====
-- The order of a request is the smallest that holds it.
use tp2_so_nuevo.Prelude.{
  ℕ, zero, suc, ◌+◌, ◌-◌, ◌^◌, ◌≤◌, ◌<◌, ◌≡◌, refl, sym, subst, false, none, some, inl, inr, ◌⊎◌,
  arith, ltb, Bool-cases, ltb→lt,
}
use tp2_so_nuevo.Memory.Buddy.{min_order, max_order, orders, order_from, size_to_order}

-- The smallest power of two from 16 bytes on, at most 8 MB.
abbrev pub IsOrder : ℕ → ℕ → Type 0
IsOrder size order =
    (min_order ≤ order)
    × (order ≤ max_order)
    × (size ≤ 2 ^ order)
    × ((order ≡ min_order) ⊎ (2 ^ (order - 1) < size))

order_from-IsOrder :
    (n order size : ℕ)
    → n + order ≡ max_order + 1
    → min_order ≤ order
    → (order ≡ min_order) ⊎ (2 ^ (order - 1) < size)
    → ((o : ℕ) → order_from n order size ≡ some o → IsOrder size o)
      × (order_from n order size ≡ none → 0 < n → 2 ^ max_order < size)
unfolding order_from
order_from-IsOrder zero order size e lo least =
    (λ o found. absurd (ground arith), λ nothing some_rounds. absurd (omega arith))
order_from-IsOrder (suc n) order size e lo least = elim (Bool-cases (ltb (2 ^ order) size)) [
  | inl bigger ↦
      let more : 2 ^ order < size = ltb→lt (2 ^ order) size bigger in
      elim (Bool-cases (ltb max_order (order + 1))) [
        | inl last ↦
            let top : order ≡ max_order = ground arith in
            (
              λ o found.
                  let bad : none ≡ some o = rw (bigger, last) at found in absurd (ground arith),
              λ nothing some_rounds. subst (λ m. 2 ^ m < size) top more,
            )
        | inr next ↦
            let back : order + 1 - 1 ≡ order = omega arith in
            let (hit, miss) =
              order_from-IsOrder n (order + 1) size (omega arith) (omega arith)
                (inr (subst (λ m. 2 ^ m < size) (sym back) more)) in
            (
              λ o found. hit o (rw (bigger, next) at found),
              λ nothing some_rounds. miss (rw (bigger, next) at nothing) (ground arith),
            )
      ]
  | inr fits ↦ (
    λ o found.
        let same : some order ≡ some o = rw fits at found in
        let o_is : order ≡ o = cc in
        subst (IsOrder size) o_is (lo, omega arith, ground arith, least),
    λ nothing some_rounds.
        let bad : some order ≡ none = rw fits at nothing in absurd (ground arith),
  )
]

-- The order that is found is at least 4 and at most 23, holds the size, and is the smallest such one;
-- none is found only for a size above 8 MB.
pub size_to_order-IsOrder :
    (size : ℕ)
    → ((o : ℕ) → size_to_order size ≡ some o → IsOrder size o)
      × (size_to_order size ≡ none → 2 ^ max_order < size)
unfolding size_to_order
size_to_order-IsOrder size =
    let (hit, miss) = order_from-IsOrder orders min_order size refl (omega arith) (inl refl) in
    (hit, λ nothing. miss nothing (omega arith))

pub size_to_order_small : (size : ℕ) → size ≤ 16 → size_to_order size ≡ some min_order
unfolding size_to_order order_from
size_to_order_small size fits = let e : ltb (2 ^ min_order) size ≡ false = ground arith in rw e refl
