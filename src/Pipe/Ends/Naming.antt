-- ===== src/Pipe/Ends/Naming.antt =====
-- Two processes that open a pipe by one name share it.
use tp2_so_nuevo.Prelude.{
  ℕ, zero, suc, ◌+◌, ◌-◌, ◌≤◌, ◌<◌, ◌≡◌, refl, sym, ap, subst, ◌∙◌, true, false, not, List, [], ◌∷◌,
  none, some, inl, inr, arith, Option-cases, update, update_same, update_other, length, take,
  ==_refl,
}
use tp2_so_nuevo.Prelude.Search.{
  first_index, first_index_at, first_index_found, first_index-none, first_index_first,
}
use tp2_so_nuevo.Pipe.{Pipe, Pipes, max_pipes, pipe_name_len, pipe_reset}
use tp2_so_nuevo.Pipe.Ends.{names_match, carries, find_pipe, pipe_alloc, pipe_open}

pub names_match_refl : (xs : List ℕ) → names_match xs xs ≡ true
unfolding names_match
names_match_refl [] = refl
names_match_refl (x ∷ xs) = rw (==_refl x) (names_match_refl xs)

take_short : (n : ℕ) (xs : List ℕ) → length xs ≤ n → take n xs ≡ xs
take_short zero [] h = refl
take_short zero (x ∷ xs) h = absurd (omega arith)
take_short (suc n) [] h = refl
take_short (suc n) (x ∷ xs) h = ap (◌∷◌ x) (take_short n xs (omega arith))

-- A pipe that is written at `i` carries the name, and none before it does.
now_found :
    (name : List ℕ) (i : ℕ) (p : Pipe) (pipes : ℕ → Pipe)
    → i < max_pipes
    → carries name p ≡ true
    → ((j : ℕ) → j < i → carries name (pipes j) ≡ false)
    → find_pipe name (update pipes i p) ≡ some i
unfolding find_pipe
now_found name i p pipes inside hit before =
    first_index_at (λ j. carries name (update pipes i p j)) 0 max_pipes i (omega arith)
      (omega arith) (ap (carries name) (update_same pipes i p) ∙ hit)
      (λ j lt. ap (carries name) (update_other pipes i j p (omega arith)) ∙ before j lt)

-- What stands in the slot of the pipe that was opened.
opened_found :
    (name : List ℕ) (i : ℕ) (st : Pipes)
    → length name < pipe_name_len
    → (pipe_open (some name) st).0 ≡ some i
    → find_pipe name (pipe_open (some name) st).1.pipes ≡ some i
unfolding pipe_open pipe_alloc find_pipe
opened_found name i st short opened = elim (Option-cases (find_pipe name st.pipes)) [
  | inr (k, found) ↦
      let same : some k ≡ some i = rw found at opened in
      let (hit, lo, hi) = first_index_found (λ j. carries name (st.pipes j)) 0 max_pipes k found in
      rw found (
        now_found name k (record (st.pipes k) { opens = (st.pipes k).opens + 1 }) st.pipes hi hit
          (λ j lt.
            first_index_first (λ j. carries name (st.pipes j)) 0 max_pipes k j found (omega arith)
              lt)
        ∙ same)
  | inl missing ↦ elim (Option-cases (first_index (λ j. not (st.pipes j).in_use) 0 max_pipes)) [
    | inl full ↦ let bad : none ≡ some i = rw (missing, full) at opened in absurd (ground arith)
    | inr (k, unused) ↦
        let same : some k ≡ some i = rw (missing, unused) at opened in
        let (hit, lo, hi) = first_index_found (λ j. not (st.pipes j).in_use) 0 max_pipes k unused in
        let fresh : Pipe = record (pipe_reset (st.pipes k)) { in_use = true } in
        let pipes1 = update st.pipes k fresh in
        let p : Pipe = record (pipes1 k) {
          name = take (pipe_name_len - 1) name;
          is_named = true;
          opens = 1;
        } in
        let u : (pipes1 k).in_use ≡ true = ap (λ r. r.in_use) (update_same st.pipes k fresh) in
        let n : names_match name (take (pipe_name_len - 1) name) ≡ true =
          subst (λ m. names_match name m ≡ true) (sym (take_short 31 name (omega arith)))
            (names_match_refl name) in
        rw (missing, unused)
          (now_found name k p pipes1 hi (rw (u, n) refl) (λ j lt.
              ap (carries name) (update_other st.pipes k j fresh (omega arith))
              ∙ first_index-none (λ j. carries name (st.pipes j)) 0 max_pipes j missing
                  (omega arith) (omega arith))
            ∙ same)
  ]
]

open-found :
    (name : List ℕ) (i : ℕ) (st : Pipes)
    → find_pipe name st.pipes ≡ some i
    → (pipe_open (some name) st).0 ≡ some i
unfolding pipe_open
open-found name i st found = rw found refl

-- Whoever opens a pipe by the name of at most 31 characters that it was opened by before gets the
-- same pipe.
pub pipe_open-shared :
    (name : List ℕ) (i : ℕ) (st : Pipes)
    → length name < pipe_name_len
    → (pipe_open (some name) st).0 ≡ some i
    → (pipe_open (some name) (pipe_open (some name) st).1).0 ≡ some i
pipe_open-shared name i st short opened =
    open-found name i (pipe_open (some name) st).1 (opened_found name i st short opened)

first_carries :
    (name : List ℕ) (pipes : ℕ → Pipe)
    → carries name (pipes 0) ≡ true
    → find_pipe name pipes ≡ some 0
unfolding find_pipe
first_carries name pipes hit =
    first_index_at (λ i. carries name (pipes i)) 0 max_pipes 0 (omega arith) (omega arith) hit
      (λ j lt. absurd (omega arith))

-- The first pipe of the table is found first.
pub opens_first :
    (name : List ℕ) (st : Pipes)
    → carries name (st.pipes 0) ≡ true
    → (pipe_open (some name) st).0 ≡ some 0
opens_first name st hit = open-found name 0 st (first_carries name st.pipes hit)

-- An anonymous pipe that is opened is in use, and has no ends yet.
pub pipe_open_anonymous :
    (i : ℕ) (st : Pipes)
    → (pipe_open none st).0 ≡ some i
    → let p = (pipe_open none st).1.pipes i in
      (p.in_use ≡ true) × (p.open_read ≡ 0) × (p.open_write ≡ 0)
unfolding pipe_open pipe_alloc pipe_reset
pipe_open_anonymous i st e =
    elim (Option-cases (first_index (λ j. not (st.pipes j).in_use) 0 max_pipes)) [
      | inl full ↦ let bad : none ≡ some i = rw full at e in absurd (ground arith)
      | inr (k, found) ↦
          let same : some k ≡ some i = rw found at e in
          let k_i : k ≡ i = cc in
          let at = update_same st.pipes k (record (pipe_reset (st.pipes k)) { in_use = true }) in
          rw found (
            subst
              (λ n.
                let p = update st.pipes k (record (pipe_reset (st.pipes k)) { in_use = true }) n in
                (p.in_use ≡ true) × (p.open_read ≡ 0) × (p.open_write ≡ 0))
              k_i
              (
                ap {A = Pipe} (λ q. q.in_use) at,
                ap {A = Pipe} (λ q. q.open_read) at,
                ap {A = Pipe} (λ q. q.open_write) at,
              ))
    ]

-- A first pipe that is not in use is taken.
pub pipe_open_first : (st : Pipes) → (st.pipes 0).in_use ≡ false → (pipe_open none st).0 ≡ some 0
unfolding pipe_open pipe_alloc first_index
pipe_open_first st unused = rw unused refl
