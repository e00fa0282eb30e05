-- ===== src/Prelude/Lists.antt =====
-- Lists measured and indexed by native numbers: the initial parts of the kernel's arrays.
use Prim.Native.Nat.{ℕ, zero, suc, ◌+◌, ◌≤◌, ◌<◌}
use mathlib.Core.Path.{◌≡◌, refl, ap}
use mathlib.Core.Logic.{◌≢◌}
use mathlib.Core.List.{List, [], ◌∷◌, ◌++◌}
use native.Mathlib.Omega.{arith}

module _ {ℓ} {A : Type ℓ} where
  abbrev pub length : List A → ℕ
  length [] = 0
  length (x ∷ xs) = suc (length xs)

  abbrev pub get_or : List A → ℕ → A → A
  get_or [] i d = d
  get_or (x ∷ xs) zero d = x
  get_or (x ∷ xs) (suc i) d = get_or xs i d

  -- A write out of bounds changes nothing.
  abbrev pub set : List A → ℕ → A → List A
  set [] i v = []
  set (x ∷ xs) zero v = v ∷ xs
  set (x ∷ xs) (suc i) v = x ∷ set xs i v

  -- Shifting the tail right by one place and writing `v` at `i`.
  abbrev pub insert_at : ℕ → A → List A → List A
  insert_at zero v xs = v ∷ xs
  insert_at (suc i) v [] = v ∷ []
  insert_at (suc i) v (x ∷ xs) = x ∷ insert_at i v xs

  -- Shifting what follows `i` left by one place.
  abbrev pub remove_at : ℕ → List A → List A
  remove_at i [] = []
  remove_at zero (x ∷ xs) = xs
  remove_at (suc i) (x ∷ xs) = x ∷ remove_at i xs

  abbrev pub take : ℕ → List A → List A
  take zero xs = []
  take (suc n) [] = []
  take (suc n) (x ∷ xs) = x ∷ take n xs

  abbrev pub drop : ℕ → List A → List A
  drop zero xs = xs
  drop (suc n) [] = []
  drop (suc n) (x ∷ xs) = drop n xs

  abbrev pub replicate : ℕ → A → List A
  replicate zero a = []
  replicate (suc n) a = a ∷ replicate n a

  abbrev pub All {κ} : (A → Type κ) → List A → Type κ
  All P [] = Unit
  All P (x ∷ xs) = P x × All P xs

module _ {ℓ} {A : Type ℓ} where
  pub length-append : (xs ys : List A) → length (xs ++ ys) ≡ length xs + length ys
  length-append [] ys = omega arith
  length-append (x ∷ xs) ys = omega (arith, length-append xs ys)

  pub length-set : (xs : List A) (i : ℕ) (v : A) → length (set xs i v) ≡ length xs
  length-set [] i v = refl
  length-set (x ∷ xs) zero v = refl
  length-set (x ∷ xs) (suc i) v = ap suc (length-set xs i v)

  pub get_or-set_self :
      (xs : List A) (i : ℕ) (v d : A) → i < length xs → get_or (set xs i v) i d ≡ v
  get_or-set_self [] i v d h = elim h [ ]
  get_or-set_self (x ∷ xs) zero v d h = refl
  get_or-set_self (x ∷ xs) (suc i) v d h = get_or-set_self xs i v d (omega arith)

  pub get_or-set_ne :
      (xs : List A) (i j : ℕ) (v d : A) → i ≢ j → get_or (set xs i v) j d ≡ get_or xs j d
  get_or-set_ne [] i j v d h = refl
  get_or-set_ne (x ∷ xs) zero zero v d h = absurd (h refl)
  get_or-set_ne (x ∷ xs) zero (suc j) v d h = refl
  get_or-set_ne (x ∷ xs) (suc i) zero v d h = refl
  get_or-set_ne (x ∷ xs) (suc i) (suc j) v d h = get_or-set_ne xs i j v d (λ e. h (ap suc e))

  pub length-insert_at : (i : ℕ) (v : A) (xs : List A) → length (insert_at i v xs) ≡ suc (length xs)
  length-insert_at zero v xs = refl
  length-insert_at (suc i) v [] = refl
  length-insert_at (suc i) v (x ∷ xs) = ap suc (length-insert_at i v xs)

  pub length-remove_at :
      (i : ℕ) (xs : List A) → i < length xs → suc (length (remove_at i xs)) ≡ length xs
  length-remove_at i [] h = elim h [ ]
  length-remove_at zero (x ∷ xs) h = refl
  length-remove_at (suc i) (x ∷ xs) h = ap suc (length-remove_at i xs (omega arith))

  -- Places before the insertion stay, those from it on move right.
  pub get_or-insert_at_lt :
      (i j : ℕ) (v d : A) (xs : List A)
      → j < i
      → i ≤ length xs
      → get_or (insert_at i v xs) j d ≡ get_or xs j d
  get_or-insert_at_lt zero j v d xs h k = elim h [ ]
  get_or-insert_at_lt (suc i) j v d [] h k = elim k [ ]
  get_or-insert_at_lt (suc i) zero v d (x ∷ xs) h k = refl
  get_or-insert_at_lt (suc i) (suc j) v d (x ∷ xs) h k =
      get_or-insert_at_lt i j v d xs (omega arith) (omega arith)

  pub get_or-insert_at_ge :
      (i j : ℕ) (v d : A) (xs : List A)
      → i ≤ j
      → i ≤ length xs
      → get_or (insert_at i v xs) (suc j) d ≡ get_or xs j d
  get_or-insert_at_ge zero j v d xs h k = refl
  get_or-insert_at_ge (suc i) j v d [] h k = elim k [ ]
  get_or-insert_at_ge (suc i) zero v d (x ∷ xs) h k = elim h [ ]
  get_or-insert_at_ge (suc i) (suc j) v d (x ∷ xs) h k =
      get_or-insert_at_ge i j v d xs (omega arith) (omega arith)

  -- Places before the removal stay, those after it move left.
  pub get_or-remove_at_lt :
      (i j : ℕ) (d : A) (xs : List A) → j < i → get_or (remove_at i xs) j d ≡ get_or xs j d
  get_or-remove_at_lt i j d [] h = refl
  get_or-remove_at_lt zero j d (x ∷ xs) h = elim h [ ]
  get_or-remove_at_lt (suc i) zero d (x ∷ xs) h = refl
  get_or-remove_at_lt (suc i) (suc j) d (x ∷ xs) h = get_or-remove_at_lt i j d xs (omega arith)

  pub get_or-remove_at_ge :
      (i j : ℕ) (d : A) (xs : List A) → i ≤ j → get_or (remove_at i xs) j d ≡ get_or xs (suc j) d
  get_or-remove_at_ge i j d [] h = refl
  get_or-remove_at_ge zero j d (x ∷ xs) h = refl
  get_or-remove_at_ge (suc i) zero d (x ∷ xs) h = elim h [ ]
  get_or-remove_at_ge (suc i) (suc j) d (x ∷ xs) h = get_or-remove_at_ge i j d xs (omega arith)

  pub length-take : (n : ℕ) (xs : List A) → length (take n xs) ≤ length xs
  length-take zero xs = omega arith
  length-take (suc n) [] = omega arith
  length-take (suc n) (x ∷ xs) = omega (arith, length-take n xs)

  pub take-append-drop : (n : ℕ) (xs : List A) → take n xs ++ drop n xs ≡ xs
  take-append-drop zero xs = refl
  take-append-drop (suc n) [] = refl
  take-append-drop (suc n) (x ∷ xs) = ap (◌∷◌ x) (take-append-drop n xs)
