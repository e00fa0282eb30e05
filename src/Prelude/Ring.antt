-- ===== src/Prelude/Ring.antt =====
-- A circular array of `m` places: the places from an index on, going round.
use Prim.Native.Nat.{ℕ, zero, suc, ◌+◌, ◌-◌, ◌%◌, ◌≤◌, ◌<◌}
use mathlib.Core.Path.{◌≡◌, refl, sym, ap, ap₂, subst, ◌∙◌}
use mathlib.Core.Logic.{◌⊎◌, ◌≢◌, inl, inr}
use mathlib.Core.List.{List, [], ◌∷◌, ◌++◌}
use native.Mathlib.Omega.{arith}
use native.Mathlib.Decide.{dec_lt}
use native.Mathlib.Nat.{mod-eq_of_lt, mod-eq-sub-mod, mod-add-mod, mod-lt}
use tp2_so_nuevo.Prelude.Tests.{update, update_same, update_other}
use tp2_so_nuevo.Prelude.Lists.{length}

wrap :
    (m i k : ℕ)
    → i < m
    → k ≤ m
    → (((i + k) % m ≡ i + k) × (i + k < m)) ⊎ (((i + k) % m ≡ i + k - m) × (m ≤ i + k))
wrap m i k h le = elim (dec_lt (i + k) m) [
  | yes below ↦ inl (mod-eq_of_lt below, below)
  | no above ↦ inr (mod-eq-sub-mod (omega arith) ∙ mod-eq_of_lt (omega arith), omega arith)
]

-- Different distances lead to different places.
pub wrap_ne : (m i k n : ℕ) → i < m → k < n → n < m → (i + n) % m ≢ (i + k) % m
wrap_ne m i k n h lt le e = elim (wrap m i k h (omega arith)) [
  | inl (a, a') ↦ elim (wrap m i n h (omega arith)) [
    | inl (b, b') ↦ omega arith
    | inr (b, b') ↦ omega arith
  ]
  | inr (a, a') ↦ elim (wrap m i n h (omega arith)) [
    | inl (b, b') ↦ omega arith
    | inr (b, b') ↦ omega arith
  ]
]

module _ (m : ℕ) where
  -- The `n` entries from index `i` on.
  abbrev pub window : (ℕ → ℕ) → ℕ → ℕ → List ℕ
  window f i zero = []
  window f i (suc n) = f i ∷ window f ((i + 1) % m) n

  pub length-window : (n : ℕ) (f : ℕ → ℕ) (i : ℕ) → length (window f i n) ≡ n
  length-window zero f i = refl
  length-window (suc n) f i = ap suc (length-window n f ((i + 1) % m))

  pub next_place : (i k : ℕ) → ((i + 1) % m + k) % m ≡ (i + suc k) % m
  next_place i k =
      let e : i + 1 + k ≡ i + suc k = omega arith in mod-add-mod (i + 1) m k ∙ ap (λ j. j % m) e

  pub window-ext :
      (f g : ℕ → ℕ) (i n : ℕ)
      → i < m
      → ((k : ℕ) → k < n → f ((i + k) % m) ≡ g ((i + k) % m))
      → window f i n ≡ window g i n
  window-ext f g i zero lt same = refl
  window-ext f g i (suc n) lt same =
      let zero_more : i + 0 ≡ i = omega arith in
      let here : (i + 0) % m ≡ i = ap (λ j. j % m) zero_more ∙ mod-eq_of_lt lt in
      ap₂ (◌∷◌) (subst (λ j. f j ≡ g j) here (same 0 (omega arith))) (
        window-ext f g ((i + 1) % m) n (mod-lt (i + 1) (omega arith))
          (λ k h. subst (λ j. f j ≡ g j) (sym (next_place i k)) (same (suc k) (omega arith))))

  -- A window in two parts.
  pub window-add :
      (f : ℕ → ℕ) (i a b : ℕ)
      → i < m
      → window f i (a + b) ≡ window f i a ++ window f ((i + a) % m) b
  window-add f i zero b lt =
      let zero_more : i + 0 ≡ i = omega arith in
      let here : (i + 0) % m ≡ i = ap (λ j. j % m) zero_more ∙ mod-eq_of_lt lt in
      let none_more : 0 + b ≡ b = omega arith in
      ap (window f i) none_more ∙ ap (λ j. window f j b) (sym here)
  window-add f i (suc a) b lt =
      let s : suc a + b ≡ suc (a + b) = omega arith in
      ap (window f i) s
      ∙ ap (◌∷◌ (f i)) (
          window-add f ((i + 1) % m) a b (mod-lt (i + 1) (omega arith))
          ∙ ap (λ j. window f ((i + 1) % m) a ++ window f j b) (next_place i a))

  -- A write just behind the window adds one entry at its end.
  pub window-write :
      (f : ℕ → ℕ) (i n x : ℕ)
      → i < m
      → n < m
      → window (update f ((i + n) % m) x) i (suc n) ≡ window f i n ++ (x ∷ [])
  window-write f i n x lt room =
      let w = (i + n) % m in
      let g = update f w x in
      let one : suc n ≡ n + 1 = omega arith in
      ap (window g i) one
      ∙ window-add g i n 1 lt
      ∙ ap₂ (λ xs y. xs ++ (y ∷ []))
          (window-ext g f i n lt
            (λ k h. update_other f w ((i + k) % m) x (wrap_ne m i k n lt h room)))
          (update_same f w x)
