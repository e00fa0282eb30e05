-- ===== src/Scheduler/Requeue.antt =====
-- Taking a process out of the run queue and adding it again after its priority has changed.
use tp2_so_nuevo.Prelude.{
  ℕ, zero, suc, ◌+◌, ◌≤◌, false, is_same, length, ◌≡◌, ◌≢◌, refl, sym, ap, subst, ◌∙◌, true, inl,
  inr, List, [], ◌∷◌, none, some, arith, ◌==◌, Bool-cases, Option-cases, update, update_other,
  remove_at, ==_refl, ==_of_ne,
}
use tp2_so_nuevo.Process.Pcb.{Pcb, Procs, max_processes, set_slot}
use tp2_so_nuevo.Scheduler.{scheduler_remove, scheduler_add, position}
use tp2_so_nuevo.Scheduler.Queue.{
  AtMost, IsSorted, remove-IsSorted, scheduler_add-IsSorted, add-table, remove-table, Placed,
  scheduler_add-Placed,
}
use tp2_so_nuevo.Scheduler.Switch.Waiting.{Once}

absent_tail :
    (i x : ℕ) (xs : List ℕ) → position i (x ∷ xs) ≡ none → (i ≢ x) × (position i xs ≡ none)
unfolding position
absent_tail i x xs e = elim (Bool-cases (i == x)) [
  | inl same ↦ let bad = rw same at e in absurd (ground arith)
  | inr other ↦ elim (Option-cases (position i xs)) [
    | inl gone ↦ (λ e'. absurd (ground arith), gone)
    | inr (k, found) ↦ let bad = rw (other, found, position) at e in absurd (ground arith)
  ]
]

AtMost-update :
    (table : ℕ → Pcb) (i prio : ℕ) (p : Pcb) (q : List ℕ)
    → position i q ≡ none
    → AtMost table prio q
    → AtMost (update table i p) prio q
AtMost-update table i prio p [] gone m = tt
AtMost-update table i prio p (x ∷ xs) gone m =
    let (ne, gone') = absent_tail i x xs gone in
    (
      subst (λ r. r.priority ≤ prio) (sym (update_other table i x p ne)) m.0,
      AtMost-update table i prio p xs gone' m.1,
    )

IsSorted-update :
    (table : ℕ → Pcb) (i : ℕ) (p : Pcb) (q : List ℕ)
    → position i q ≡ none
    → IsSorted table q
    → IsSorted (update table i p) q
IsSorted-update table i p [] gone s = tt
IsSorted-update table i p (x ∷ xs) gone s =
    let (ne, gone') = absent_tail i x xs gone in
    (
      subst (λ r. AtMost (update table i p) r.priority xs) (sym (update_other table i x p ne))
          (AtMost-update table i _ p xs gone' s.0),
      IsSorted-update table i p xs gone' s.1,
    )

Once-remove_at :
    (i k : ℕ) (q : List ℕ) → Once i q → position i q ≡ some k → position i (remove_at k q) ≡ none
unfolding position
Once-remove_at i k [] o e = absurd o
Once-remove_at i zero (x ∷ xs) (inl (same, gone)) e = gone
Once-remove_at i (suc k) (x ∷ xs) (inl (same, gone)) e = absurd (ground (arith, same))
Once-remove_at i zero (x ∷ xs) (inr (ne, o)) e = absurd (ground arith)
Once-remove_at i (suc k) (x ∷ xs) (inr (ne, o)) e = ground (arith, Once-remove_at i k xs o)

removed-queue :
    (i k : ℕ) (s : Procs)
    → position i s.run_queue ≡ some k
    → (scheduler_remove i s).run_queue ≡ remove_at k s.run_queue
unfolding scheduler_remove
removed-queue i k s e = rw (e, scheduler_remove) refl

-- The queue is in order again, whatever the slot is set to.
pub requeue-IsSorted :
    (i k : ℕ) (p : Pcb) (s : Procs)
    → position i s.run_queue ≡ some k
    → Once i s.run_queue
    → IsSorted s.table s.run_queue
    → let s' = scheduler_add i (scheduler_remove i (set_slot s i p)) in
      (s'.table ≡ update s.table i p) × IsSorted s'.table s'.run_queue
requeue-IsSorted i k p s e o h =
    let s1 = set_slot s i p in
    let gone = removed-queue i k s1 e in
    let t = remove-table i s1 in
    let rest : IsSorted (update s.table i p) (remove_at k s.run_queue) =
      IsSorted-update s.table i p (remove_at k s.run_queue) (Once-remove_at i k s.run_queue o e)
        (remove-IsSorted s.table k s.run_queue h) in
    let rest' : IsSorted (scheduler_remove i s1).table (scheduler_remove i s1).run_queue =
      subst (λ q. IsSorted (scheduler_remove i s1).table q) (sym gone)
        (subst (λ f. IsSorted f (remove_at k s.run_queue)) (sym t) rest) in
    (
      add-table i (scheduler_remove i s1) ∙ t,
      scheduler_add-IsSorted i (scheduler_remove i s1) rest',
    )

length-remove_at_found :
    (i k : ℕ) (q : List ℕ) → position i q ≡ some k → length (remove_at k q) + 1 ≡ length q
unfolding position
length-remove_at_found i k [] e = absurd (ground arith)
length-remove_at_found i zero (x ∷ xs) e = omega arith
length-remove_at_found i (suc k) (x ∷ xs) e = elim (Bool-cases (i == x)) [
  | inl same ↦ let bad = rw same at e in absurd (ground arith)
  | inr other ↦ elim (Option-cases (position i xs)) [
    | inl gone ↦ let bad = rw (other, gone, position) at e in absurd (ground arith)
    | inr (j, found) ↦
        let e' = rw (other, found, position) at e in
        let same : j ≡ k = ground arith in
        let h = length-remove_at_found i k xs (subst (λ n. position i xs ≡ some n) same found) in
        omega arith
  ]
]

removed-idle : (i : ℕ) (s : Procs) → (scheduler_remove i s).idle ≡ s.idle
unfolding scheduler_remove
removed-idle i s = elim (Option-cases (position i s.run_queue)) [
  | inl gone ↦ rw (gone, scheduler_remove) refl
  | inr (k, e) ↦ rw (e, scheduler_remove) refl
]

-- The process stands in its new place, and the rest of the queue is as it was.
pub requeue-Placed :
    (i k : ℕ) (p : Pcb) (s : Procs)
    → position i s.run_queue ≡ some k
    → Once i s.run_queue
    → IsSorted s.table s.run_queue
    → length s.run_queue ≤ max_processes
    → is_same s.idle i ≡ false
    → let s' = scheduler_add i (scheduler_remove i (set_slot s i p)) in
      Placed s'.table i (remove_at k s.run_queue) s'.run_queue
requeue-Placed i k p s e o h room idle =
    let s1 = set_slot s i p in
    let s2 = scheduler_remove i s1 in
    let gone = removed-queue i k s1 e in
    let shorter = length-remove_at_found i k s.run_queue e in
    let sorted : IsSorted s2.table s2.run_queue =
      subst (λ q. IsSorted s2.table q) (sym gone)
        (subst (λ f. IsSorted f (remove_at k s.run_queue)) (sym (remove-table i s1))
          (IsSorted-update s.table i p (remove_at k s.run_queue)
            (Once-remove_at i k s.run_queue o e) (remove-IsSorted s.table k s.run_queue h))) in
    let size = ap length gone in
    subst (λ t. Placed t i (remove_at k s.run_queue) (scheduler_add i s2).run_queue)
      (sym (add-table i s2))
      (subst (λ q. Placed s2.table i q (scheduler_add i s2).run_queue) gone
        (scheduler_add-Placed i s2 sorted (omega arith)
          (ap (λ c. is_same c i) (removed-idle i s1) ∙ idle)))

pub Once-position : (i : ℕ) (q : List ℕ) → Once i q → (k : ℕ) × (position i q ≡ some k)
unfolding position
Once-position i [] o = absurd o
Once-position i (x ∷ xs) (inl (same, gone)) =
    let e : (i == x) ≡ true = subst (λ y. (i == y) ≡ true) same (==_refl i) in (0, rw e refl)
Once-position i (x ∷ xs) (inr (ne, o)) =
    let (k, e) = Once-position i xs o in (suc k, rw (==_of_ne i x ne, e, position) refl)

pub Once-single : (i : ℕ) → Once i (i ∷ [])
unfolding position
Once-single i = inl (refl, refl)

-- A process that was queued once is queued no more.
pub scheduler_remove-gone :
    (i : ℕ) (s : Procs) → Once i s.run_queue → position i (scheduler_remove i s).run_queue ≡ none
scheduler_remove-gone i s once =
    let (k, e) = Once-position i s.run_queue once in
    ap (position i) (removed-queue i k s e) ∙ Once-remove_at i k s.run_queue once e
