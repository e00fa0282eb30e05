-- ===== src/Process/Control/Lookup.antt =====
-- `process_get` against the process table.
use tp2_so_nuevo.Prelude.{
  ℕ, ◌<◌, ◌≡◌, ◌≢◌, ◌≤◌, ◌+◌, ◌∙◌, sym, refl, subst, true, false, inl, inr, none, some, arith, ◌==◌,
  first_index, Bool-cases, ==→≡, ==_refl, ℕ_discrete, update, update_same, update_other,
}
use tp2_so_nuevo.Prelude.Search.{
  first_index_misses, first_index_at, first_index_found, first_index-ext,
}
use tp2_so_nuevo.Process.Pcb.{Pcb, is_free, max_processes}
use tp2_so_nuevo.Process.Control.{has_pid, process_get}

-- No two slots in use carry the same PID.
abbrev pub PidsDiffer : (ℕ → Pcb) → Type 0
PidsDiffer table =
    (i j : ℕ)
    → i < max_processes
    → j < max_processes
    → is_free (table i).state ≡ false
    → is_free (table j).state ≡ false
    → (table i).pid ≡ (table j).pid
    → i ≡ j

-- What is found is in use and carries the PID.
pub process_get_found :
    (pid : ℕ) (table : ℕ → Pcb) (i : ℕ)
    → process_get pid table ≡ some i
    → (i < max_processes) × ((table i).pid ≡ pid) × (is_free (table i).state ≡ false)
unfolding process_get
process_get_found pid table i e = elim (Bool-cases (pid == 0)) [
  | inl null ↦ let bad : none ≡ some i = rw null at e in absurd (ground arith)
  | inr real ↦
      let e' : first_index (has_pid table pid) 0 max_processes ≡ some i = rw real at e in
      let (hit, lo, hi) = first_index_found (has_pid table pid) 0 max_processes i e' in
      (omega arith, ground arith, ground arith)
]

miss :
    (table : ℕ → Pcb) (i : ℕ)
    → PidsDiffer table
    → i < max_processes
    → is_free (table i).state ≡ false
    → (j : ℕ) → j < i
    → has_pid table (table i).pid j ≡ false
miss table i differ lt used j before = elim (Bool-cases (is_free (table j).state)) [
  | inl f ↦ ground arith
  | inr u ↦ elim (Bool-cases ((table j).pid == (table i).pid)) [
    | inl same ↦
        let e = differ j i (omega arith) lt u used (==→≡ _ _ same) in absurd (omega (arith, e))
    | inr other ↦ rw other refl
  ]
]

-- A process in use is found by its PID, where no other has it.
pub process_get_self :
    (table : ℕ → Pcb) (i : ℕ)
    → PidsDiffer table
    → i < max_processes
    → is_free (table i).state ≡ false
    → 0 < (table i).pid
    → process_get (table i).pid table ≡ some i
unfolding process_get
process_get_self table i differ lt used pos =
    let real : ((table i).pid == 0) ≡ false = ground arith in
    let hit : has_pid table (table i).pid i ≡ true = rw (used, ==_refl (table i).pid) refl in
    rw real (
      first_index_at (has_pid table (table i).pid) 0 max_processes i (omega arith) (omega arith) hit
        (λ j before. miss table i differ lt used j before))

has_pid-update :
    (table : ℕ → Pcb) (pid i : ℕ) (p : Pcb) (j : ℕ)
    → p.pid ≡ (table i).pid
    → is_free p.state ≡ is_free (table i).state
    → has_pid (update table i p) pid j ≡ has_pid table pid j
has_pid-update table pid i p j e f = elim (ℕ_discrete i j) [
  | yes same ↦
      subst (λ k. has_pid (update table i p) pid k ≡ has_pid table pid k) same
        (rw (update_same table i p, e, f) refl)
  | no ne ↦ rw (update_other table i j p ne) refl
]

-- A write that leaves PID and use of a slot changes nothing for the search.
pub process_get-update :
    (pid : ℕ) (table : ℕ → Pcb) (i : ℕ) (p : Pcb)
    → p.pid ≡ (table i).pid
    → is_free p.state ≡ is_free (table i).state
    → process_get pid (update table i p) ≡ process_get pid table
unfolding process_get
process_get-update pid table i p e f =
    rw
      (first_index-ext (has_pid (update table i p) pid) (has_pid table pid) 0 max_processes
        (λ j lt. has_pid-update table pid i p j e f))
      refl

-- The same PID, in a slot in use or not.
abbrev pub SameName : Pcb → Pcb → Type 0
SameName p q = (q.pid ≡ p.pid) × (is_free q.state ≡ is_free p.state)

-- Where a slot was given back and the others keep their names, its PID finds nothing.
pub process_get_gone :
    (i : ℕ) (t u : ℕ → Pcb)
    → PidsDiffer t
    → i < max_processes
    → is_free (t i).state ≡ false
    → is_free (u i).state ≡ true
    → ((j : ℕ) → i ≢ j → SameName (t j) (u j))
    → process_get (t i).pid u ≡ none
unfolding process_get
process_get_gone i t u differ lt used gone same =
    let miss : (j : ℕ) → 0 ≤ j → j < 0 + max_processes → has_pid u (t i).pid j ≡ false = λ j lo hi.
      elim (ℕ_discrete i j) [
        | yes e ↦
            let f : is_free (u j).state ≡ true = subst (λ k. is_free (u k).state ≡ true) e gone in
            ground arith
        | no ne ↦ elim (Bool-cases (has_pid u (t i).pid j)) [
          | inl hit ↦
              let (name, usage) = same j ne in
              let kept_on : is_free (u j).state ≡ false = ground arith in
              let pid_is : (u j).pid ≡ (t i).pid = ground arith in
              absurd
                (ne (differ i j lt (omega arith) used (sym usage ∙ kept_on) (sym pid_is ∙ name)))
          | inr passes_by ↦ passes_by
        ]
      ] in
    let none_found = first_index_misses (has_pid u (t i).pid) 0 max_processes miss in
    elim (Bool-cases ((t i).pid == 0)) [ inl z ↦ rw z refl | inr nz ↦ rw (nz, none_found) refl ]
