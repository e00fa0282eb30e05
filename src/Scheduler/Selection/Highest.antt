-- ===== src/Scheduler/Selection/Highest.antt =====
-- The highest effective priority among the READY processes of the run queue.
use tp2_so_nuevo.Prelude.{
  ℕ, zero, suc, ◌≤◌, ◌<◌, ◌≡◌, refl, true, false, List, [], ◌∷◌, Option, none, some, ◌⊎◌, inl, inr,
  arith, ltb, if◌then◌else◌, get_or, length, Bool-cases,
}
use tp2_so_nuevo.Process.Pcb.{Pcb, is_ready}
use tp2_so_nuevo.Scheduler.{eff, raise, highest_eff}

-- `h` is at least what the search started from.
abbrev pub AtLeast : ℕ → Option ℕ → Type 0
AtLeast h none = Unit
AtLeast h (some g) = g ≤ h

abbrev seen : (ℕ → Pcb) → Option ℕ → ℕ → Option ℕ
seen table g x = if is_ready (table x).state then raise g (eff (table x)) else g

AtLeast-seen :
    (table : ℕ → Pcb) (h : ℕ) (g : Option ℕ) (x : ℕ)
    → AtLeast h (seen table g x)
    → AtLeast h g × (is_ready (table x).state ≡ true → eff (table x) ≤ h)
AtLeast-seen table h none x m = (tt, λ r. (rw r at m))
AtLeast-seen table h (some g) x m = elim (Bool-cases (is_ready (table x).state)) [
  | inl r ↦
      let m' = rw r at m in
      elim (Bool-cases (ltb g (eff (table x)))) [
        | inl above ↦ let m'' = rw above at m' in (ground arith, λ _. m'')
        | inr below ↦ let m'' = rw below at m' in (m'', λ _. ground arith)
      ]
  | inr n ↦ (rw n at m, λ r. cc)
]

AtLeast-of_eq : (h : ℕ) (g : Option ℕ) → g ≡ some h → AtLeast h g
AtLeast-of_eq h none e = cc
AtLeast-of_eq h (some k) e = ground arith

-- The result bounds the start value and every READY process of the list.
highest_eff_bounds :
    (table : ℕ → Pcb) (h : ℕ) (g : Option ℕ) (q : List ℕ)
    → highest_eff table g q ≡ some h
    → AtLeast h g
      × ((i : ℕ)
          → i < length q
          → is_ready (table (get_or q i 0)).state ≡ true
          → eff (table (get_or q i 0)) ≤ h)
unfolding highest_eff
highest_eff_bounds table h g [] e = (AtLeast-of_eq h g e, λ i lt. elim lt [ ])
highest_eff_bounds table h g (x ∷ xs) e =
    let (start, rest) = highest_eff_bounds table h (seen table g x) xs e in
    let (before, here) = AtLeast-seen table h g x start in (before, at here rest)
  where
    at :
        (is_ready (table x).state ≡ true → eff (table x) ≤ h)
        → ((i : ℕ)
            → i < length xs
            → is_ready (table (get_or xs i 0)).state ≡ true
            → eff (table (get_or xs i 0)) ≤ h)
        → (i : ℕ) → i < length (x ∷ xs)
        → is_ready (table (get_or (x ∷ xs) i 0)).state ≡ true
        → eff (table (get_or (x ∷ xs) i 0)) ≤ h
    at here rest zero lt = here
    at here rest (suc i) lt = rest i (omega arith)

pub highest_eff-le :
    (table : ℕ → Pcb) (h : ℕ) (q : List ℕ)
    → highest_eff table none q ≡ some h
    → (i : ℕ) → i < length q
    → is_ready (table (get_or q i 0)).state ≡ true
    → eff (table (get_or q i 0)) ≤ h
highest_eff-le table h q e = (highest_eff_bounds table h none q e).1

-- A READY process of the list that has the result.
abbrev pub Attains : (ℕ → Pcb) → ℕ → List ℕ → Type 0
Attains table h q =
    (i : ℕ) × (i < length q)
    × (is_ready (table (get_or q i 0)).state ≡ true)
    × (eff (table (get_or q i 0)) ≡ h)

highest_eff_attained :
    (table : ℕ → Pcb) (h : ℕ) (g : Option ℕ) (q : List ℕ)
    → highest_eff table g q ≡ some h
    → (g ≡ some h) ⊎ Attains table h q
unfolding highest_eff
highest_eff_attained table h g [] e = inl e
highest_eff_attained table h g (x ∷ xs) e =
    elim (highest_eff_attained table h (seen table g x) xs e) [
      | inr (i, lt, r, v) ↦ inr (suc i, omega arith, r, v)
      | inl same ↦ here (Bool-cases (is_ready (table x).state)) same
    ]
  where
    raised :
        (k : Option ℕ)
        → is_ready (table x).state ≡ true
        → raise k (eff (table x)) ≡ some h
        → (k ≡ some h) ⊎ Attains table h (x ∷ xs)
    raised none r s = inr (0, omega arith, r, ground arith)
    raised (some k) r s = elim (Bool-cases (ltb k (eff (table x)))) [
      | inl above ↦ inr (0, omega arith, r, ground arith)
      | inr below ↦ inl (rw below at s)
    ]

    here :
        (is_ready (table x).state ≡ true) ⊎ (is_ready (table x).state ≡ false)
        → seen table g x ≡ some h
        → (g ≡ some h) ⊎ Attains table h (x ∷ xs)
    here (inl r) s = raised g r (rw r at s)
    here (inr n) s = inl (rw n at s)

pub highest_eff-Attains :
    (table : ℕ → Pcb) (h : ℕ) (q : List ℕ) → highest_eff table none q ≡ some h → Attains table h q
highest_eff-Attains table h q e = elim (highest_eff_attained table h none q e) [
  | inl absent ↦ cc
  | inr found ↦ found
]

highest_eff-some :
    (table : ℕ → Pcb) (g : ℕ) (q : List ℕ) → (h : ℕ) × (highest_eff table (some g) q ≡ some h)
unfolding highest_eff
highest_eff-some table g [] = (g, refl)
highest_eff-some table g (x ∷ xs) = elim (Bool-cases (is_ready (table x).state)) [
  | inr n ↦ rw n (highest_eff-some table g xs)
  | inl r ↦ elim (Bool-cases (ltb g (eff (table x)))) [
    | inl above ↦ rw (r, above) (highest_eff-some table (eff (table x)) xs)
    | inr below ↦ rw (r, below) (highest_eff-some table g xs)
  ]
]

-- The search comes back empty exactly when nobody is READY.
pub highest_eff-none :
    (table : ℕ → Pcb) (q : List ℕ)
    → highest_eff table none q ≡ none
    → (i : ℕ) → i < length q
    → is_ready (table (get_or q i 0)).state ≡ false
unfolding highest_eff
highest_eff-none table [] e i lt = elim lt [ ]
highest_eff-none table (x ∷ xs) e i lt = elim (Bool-cases (is_ready (table x).state)) [
  | inl r ↦
      let (h, s) = highest_eff-some table (eff (table x)) xs in let e' = rw r at e in cc (s, e')
  | inr n ↦ at n (highest_eff-none table xs (rw n at e)) i lt
]
  where
    at :
        is_ready (table x).state ≡ false
        → ((i : ℕ) → i < length xs → is_ready (table (get_or xs i 0)).state ≡ false)
        → (i : ℕ) → i < length (x ∷ xs)
        → is_ready (table (get_or (x ∷ xs) i 0)).state ≡ false
    at here rest zero lt = here
    at here rest (suc i) lt = rest i (omega arith)
