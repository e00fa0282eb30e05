-- ===== src/Semaphore/Names.antt =====
-- Opening a semaphore by its name, and finding it again.
use tp2_so_nuevo.Prelude.{
  to_signed, ℕ, zero, suc, ◌+◌, ◌≤◌, ◌<◌, ◌≡◌, refl, sym, ap, ap₂, subst, ◌∙◌, true, ◌&&◌, List, [],
  ◌∷◌, none, some, inl, inr, arith, ltb, ◌==◌, Bool-cases, Option-cases, absurd_test, update,
  update_same, update_other, ℕ_discrete, length, take, first_index, ==_refl, ==→≡, negsuc,
}
use tp2_so_nuevo.Prelude.Search.{
  first_index_at, first_index_found, first_index-none, first_index-ext,
}
use tp2_so_nuevo.Semaphore.{
  Semaphore, Sems, max_sems, sem_name_len, put, opened, sem_str_eq, sem_str_copy, is_named,
  find_sem, open_slot, registered, sem_open, sem_wait, wait_locked, on_found,
}

sem_str_eq_refl : (xs : List ℕ) → sem_str_eq xs xs ≡ true
unfolding sem_str_eq
sem_str_eq_refl [] = refl
sem_str_eq_refl (x ∷ xs) = rw (==_refl x) (sem_str_eq_refl xs)

sem_str_eq-≡ : (xs ys : List ℕ) → sem_str_eq xs ys ≡ true → xs ≡ ys
unfolding sem_str_eq
sem_str_eq-≡ [] [] e = refl
sem_str_eq-≡ [] (y ∷ ys) e = absurd_test refl e
sem_str_eq-≡ (x ∷ xs) [] e = absurd_test refl e
sem_str_eq-≡ (x ∷ xs) (y ∷ ys) e = elim (Bool-cases (x == y)) [
  | inl same ↦ let e' = rw same at e in ap₂ (◌∷◌) (==→≡ x y same) (sem_str_eq-≡ xs ys e')
  | inr other ↦ let bad = rw other at e in absurd_test refl bad
]

take_all : (n : ℕ) (xs : List ℕ) → length xs ≤ n → take n xs ≡ xs
take_all zero [] h = refl
take_all zero (x ∷ xs) h = absurd (omega arith)
take_all (suc n) [] h = refl
take_all (suc n) (x ∷ xs) h = ap (◌∷◌ x) (take_all n xs (omega arith))

length-take : (n : ℕ) (xs : List ℕ) → length (take n xs) ≤ n
length-take zero xs = omega arith
length-take (suc n) [] = omega arith
length-take (suc n) (x ∷ xs) = omega (arith, length-take n xs)

-- The slot of a new semaphore is the only one of its name.
fresh_found :
    (name : List ℕ) (i : ℕ) (s : Semaphore) (sems : ℕ → Semaphore)
    → find_sem name sems ≡ none
    → i < max_sems
    → 0 < s.open_count
    → s.name ≡ name
    → find_sem name (update sems i s) ≡ some i
unfolding find_sem
fresh_found name i s sems missing inside used same =
    first_index_at (is_named name (update sems i s)) 0 max_sems i (omega arith) (omega arith)
      (subst (λ r. (ltb 0 r.open_count && sem_str_eq r.name name) ≡ true)
        (sym (update_same sems i s))
        (let u : ltb 0 s.open_count ≡ true = ground arith in
          let n : sem_str_eq s.name name ≡ true =
            subst (λ m. sem_str_eq m name ≡ true) (sym same) (sem_str_eq_refl name) in
          rw (u, n) refl))
      (λ j before.
        ap (λ r. ltb 0 r.open_count && sem_str_eq r.name name)
          (update_other sems i j s (omega arith))
        ∙ first_index-none (is_named name sems) 0 max_sems j missing (omega arith) (omega arith))

-- One more opener changes nothing for the search.
known_found :
    (name : List ℕ) (i : ℕ) (s : Semaphore) (sems : ℕ → Semaphore)
    → find_sem name sems ≡ some i
    → 0 < s.open_count
    → s.name ≡ (sems i).name
    → find_sem name (update sems i s) ≡ some i
unfolding find_sem
known_found name i s sems found used same =
    let (hit, lo, hi) = first_index_found (is_named name sems) 0 max_sems i found in
    first_index-ext (is_named name (update sems i s)) (is_named name sems) 0 max_sems (λ j lt.
      elim (ℕ_discrete i j) [
        | yes e ↦
            subst (λ k. is_named name (update sems i s) k ≡ is_named name sems k) e
              (ap (λ r. ltb 0 r.open_count && sem_str_eq r.name name) (update_same sems i s)
                ∙ (let u : ltb 0 s.open_count ≡ true = ground arith in
                    let n : sem_str_eq (sems i).name name ≡ true = ground arith in
                    let u' : ltb 0 (sems i).open_count ≡ true = ground arith in
                    rw (u, same, n, u') refl))
        | no ne ↦
            ap (λ r. ltb 0 r.open_count && sem_str_eq r.name name) (update_other sems i j s ne)
      ])
    ∙ found

-- A semaphore that is opened by a name of at most 31 characters is found by it, and has the initial
-- value if nobody had it open before.
pub sem_open-find_sem :
    (name : List ℕ) (v : ℕ) (st : Sems)
    → length name < sem_name_len
    → (sem_open (some name) v st).0 ≡ 1
    → let sems = (sem_open (some name) v st).1.sems in
      (i : ℕ) × (find_sem name sems ≡ some i)
      × (find_sem name st.sems ≡ none → (sems i).value ≡ to_signed v)
unfolding sem_open open_slot
sem_open-find_sem name v st short ok = elim (Option-cases (find_sem name st.sems)) [
  | inl missing ↦ elim (Option-cases (first_index (λ i. (st.sems i).open_count == 0) 0 max_sems)) [
    | inl full ↦ let bad = rw (missing, full, open_slot) at ok in absurd (omega arith)
    | inr (i, unused) ↦
        let (hit, lo, hi) =
          first_index_found (λ i. (st.sems i).open_count == 0) 0 max_sems i unused in
        rw (missing, unused, open_slot)
          (
            i,
            fresh_found name i (opened name v (st.sems i)) st.sems missing hi (omega arith)
                (unfold sem_str_copy in take_all 31 name (omega arith)),
            λ new. ap (λ s. s.value) (update_same st.sems i (opened name v (st.sems i))),
          )
  ]
  | inr (i, found) ↦
      let s : Semaphore = record (st.sems i) { open_count = (st.sems i).open_count + 1 } in
      rw (found, open_slot)
        (
          i,
          known_found name i s st.sems found (omega arith) refl,
          λ new. absurd (ground (arith, new, found)),
        )
]

-- What `sem_table` can hold.
abbrev pub NamesFit : (ℕ → Semaphore) → Type 0
NamesFit sems = (i : ℕ) → length (sems i).name < sem_name_len

find_sem_long :
    (name : List ℕ) (sems : ℕ → Semaphore)
    → NamesFit sems
    → sem_name_len ≤ length name
    → find_sem name sems ≡ none
unfolding find_sem
find_sem_long name sems fit long =
    elim (Option-cases (first_index (is_named name sems) 0 max_sems)) [
      | inl missing ↦ missing
      | inr (i, found) ↦
          let hit = (first_index_found (is_named name sems) 0 max_sems i found).0 in
          let same : sem_str_eq (sems i).name name ≡ true = ground arith in
          let e = ap length (sem_str_eq-≡ (sems i).name name same) in
          absurd (let f = fit i in omega arith)
    ]

opened-NamesFit :
    (name : List ℕ) (v i : ℕ) (sems : ℕ → Semaphore)
    → NamesFit sems
    → NamesFit (update sems i (opened name v (sems i)))
opened-NamesFit name v i sems fit j = elim (ℕ_discrete i j) [
  | yes e ↦
      subst (λ k. length (update sems i (opened name v (sems i)) k).name < sem_name_len) e
        (subst (λ r. length r.name < sem_name_len) (sym (update_same sems i _))
          (unfold sem_str_copy in let h = length-take 31 name in omega arith))
  | no ne ↦ subst (λ r. length r.name < sem_name_len) (sym (update_other sems i j _ ne)) (fit j)
]

-- A name of 32 characters or more is cut when it is stored and never found again. With a free slot
-- in the table, opening it takes a free slot, which holds the first 31 characters, the initial value
-- and one opener, and reports success; a wait on the name fails and changes nothing. No name in the
-- table is longer than 31 characters.
pub sem_open_long :
    (name : List ℕ) (v i : ℕ) (st : Sems)
    → NamesFit st.sems
    → sem_name_len ≤ length name
    → i < max_sems
    → (st.sems i).open_count ≡ 0
    → let (r, st') = sem_open (some name) v st in
      (r ≡ 1)
      × ((k : ℕ) × (k < max_sems)
          × ((st.sems k).open_count ≡ 0)
          × ((st'.sems k).name ≡ take 31 name)
          × ((st'.sems k).open_count ≡ 1)
          × ((st'.sems k).value ≡ to_signed v)
          × (st'.sems ≡ update st.sems k (st'.sems k)))
      × (sem_wait (some name) st' ≡ some (negsuc 0, st'))
unfolding sem_open open_slot sem_wait
sem_open_long name v i st fit long inside unused =
    elim (Option-cases (first_index (λ k. (st.sems k).open_count == 0) 0 max_sems)) [
      | inl full ↦
          let miss =
            first_index-none (λ k. (st.sems k).open_count == 0) 0 max_sems i full (omega arith)
              inside in
          absurd (ground arith)
      | inr (k, free_slot) ↦
          let (hit, lo, hi) =
            first_index_found (λ j. (st.sems j).open_count == 0) 0 max_sems k free_slot in
          let at = update_same st.sems k (opened name v (st.sems k)) in
          rw (find_sem_long name st.sems fit long, free_slot, open_slot)
            (
              refl,
              (
                k,
                hi,
                ==→≡ (st.sems k).open_count 0 hit,
                ap {A = Semaphore} (λ s. s.name) at ∙ unfold sem_str_copy in refl,
                ap {A = Semaphore} (λ s. s.open_count) at,
                ap {A = Semaphore} (λ s. s.value) at,
                ap (update st.sems k) (sym at),
              ),
              ap
                  (λ o.
                    on_found wait_locked o (registered k (put k (opened name v (st.sems k)) st)).1)
                  (find_sem_long name (update st.sems k (opened name v (st.sems k)))
                    (opened-NamesFit name v k st.sems fit) long),
            )
    ]
