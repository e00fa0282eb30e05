-- ===== src/Semaphore/Balance.antt =====
-- The invariant of a semaphore: as many processes wait as its value lies below zero.
use tp2_so_nuevo.Prelude.{
  ℕ, zero, suc, ◌<◌, ◌≡◌, ◌≢◌, refl, sym, subst, ◌∙◌, true, false, ◌&&◌, List, [], ◌∷◌, ◌++◌, inl,
  inr, arith, ltb, leb, ◌==◌, if◌then◌else◌, Bool-cases, absurd_test, update, update_same,
  update_other, ℕ_discrete, ℤ, pos, negsuc, succ_int, is_nonpositive, ==_of_ne,
}
use tp2_so_nuevo.Process.Pcb.{max_processes}
use tp2_so_nuevo.WaitQueue.{WaitQueue, enqueue, queue_pop}
use tp2_so_nuevo.WaitQueue.Fifo.{
  IsRing, waiting, queue_pop-waiting, queue_pop-IsRing, queue_pop-count,
}
use tp2_so_nuevo.WaitQueue.Removal.{member}
use tp2_so_nuevo.Semaphore.{Semaphore, Sems, queue_push, release, hand_over, sem_unlock}

-- How far a value lies below zero.
abbrev pub deficit : ℤ → ℕ
deficit (pos n) = 0
deficit (negsuc n) = suc n

abbrev pub NoDup : List ℕ → Type 0
NoDup [] = Unit
NoDup (x ∷ xs) = (member x xs ≡ false) × NoDup xs

abbrev pub IsBalanced : Semaphore → Type 0
IsBalanced s = IsRing s.queue × (s.queue.count ≡ deficit s.value) × NoDup (waiting s.queue)

-- Every lock is free, and every semaphore in use is balanced.
abbrev pub AllBalanced : (ℕ → Semaphore) → Type 0
AllBalanced sems =
    (i : ℕ) → ((sems i).lock ≡ false) × (0 < (sems i).open_count → IsBalanced (sems i))

-- All but one.
abbrev pub OthersBalanced : ℕ → (ℕ → Semaphore) → Type 0
OthersBalanced i sems =
    (j : ℕ) → i ≢ j → ((sems j).lock ≡ false) × (0 < (sems j).open_count → IsBalanced (sems j))

pub update-AllBalanced :
    (sems : ℕ → Semaphore) (i : ℕ) (s : Semaphore)
    → OthersBalanced i sems
    → s.lock ≡ false
    → (0 < s.open_count → IsBalanced s)
    → AllBalanced (update sems i s)
update-AllBalanced sems i s all free bal j = elim (ℕ_discrete i j) [
  | yes e ↦
      subst
        (λ k.
          ((update sems i s k).lock ≡ false)
          × (0 < (update sems i s k).open_count → IsBalanced (update sems i s k)))
        e
        (subst (λ r. (r.lock ≡ false) × (0 < r.open_count → IsBalanced r))
          (sym (update_same sems i s)) (free, bal))
  | no ne ↦
      subst (λ r. (r.lock ≡ false) × (0 < r.open_count → IsBalanced r))
        (sym (update_other sems i j s ne)) (all j ne)
]

member-snoc :
    (x y : ℕ) (xs : List ℕ) → x ≢ y → member x xs ≡ false → member x (xs ++ (y ∷ [])) ≡ false
member-snoc x y [] ne m = rw (==_of_ne y x (λ e. ne (sym e))) refl
member-snoc x y (z ∷ zs) ne m = elim (Bool-cases (z == x)) [
  | inl same ↦ let bad = rw same at m in absurd_test bad refl
  | inr other ↦ let m' = rw other at m in rw other (member-snoc x y zs ne m')
]

pub snoc-NoDup : (y : ℕ) (xs : List ℕ) → NoDup xs → member y xs ≡ false → NoDup (xs ++ (y ∷ []))
snoc-NoDup y [] d m = (refl, tt)
snoc-NoDup y (x ∷ xs) d m = elim (Bool-cases (x == y)) [
  | inl same ↦ let bad = rw same at m in absurd_test bad refl
  | inr other ↦
      let m' = rw other at m in (member-snoc x y xs (ground arith) d.0, snoc-NoDup y xs d.1 m')
]

pub queue_push-lem :
    (q : WaitQueue) (pid : ℕ) → q.count < max_processes → queue_push q pid ≡ enqueue q pid
unfolding queue_push
queue_push-lem q pid room = let e : leb max_processes q.count ≡ false = ground arith in rw e refl

-- The semaphore that a `value++` leaves.
abbrev pub released : Semaphore → Semaphore
released s =
    let s' = record s { value = succ_int s.value } in
    if is_nonpositive s'.value && ltb 0 s'.queue.count
    then sem_unlock (record s' { queue = (queue_pop s'.queue).1 })
    else sem_unlock s'

pub release-sems :
    (i : ℕ) (s : Semaphore) (st : Sems) → (release i s st).sems ≡ update st.sems i (released s)
unfolding release hand_over
release-sems i s st = elim (Bool-cases (is_nonpositive (succ_int s.value) && ltb 0 s.queue.count)) [
  | inl someone ↦ rw someone refl
  | inr nobody ↦ rw nobody refl
]

popped-IsBalanced :
    (q : WaitQueue) (n : ℕ)
    → q.count ≡ suc n
    → IsRing q
    → NoDup (waiting q)
    → IsRing (queue_pop q).1 × ((queue_pop q).1.count ≡ n) × NoDup (waiting (queue_pop q).1)
popped-IsBalanced q n c ring d =
    let some_wait : 0 < q.count = omega arith in
    (
      queue_pop-IsRing q some_wait ring,
      queue_pop-count q ∙ omega arith,
      (subst NoDup (queue_pop-waiting q some_wait) d).1,
    )

released-IsBalanced_at :
    (v : ℤ) (s : Semaphore)
    → IsBalanced (record s { value = v })
    → IsBalanced (released (record s { value = v }))
released-IsBalanced_at (pos n) s bal = bal
released-IsBalanced_at (negsuc zero) s bal =
    let some_wait : ltb 0 s.queue.count ≡ true = let c = bal.1 in ground arith in
    rw some_wait (popped-IsBalanced s.queue 0 bal.1 bal.0 bal.2)
released-IsBalanced_at (negsuc (suc n)) s bal =
    let some_wait : ltb 0 s.queue.count ≡ true = let c = bal.1 in ground arith in
    rw some_wait (popped-IsBalanced s.queue (suc n) bal.1 bal.0 bal.2)

pub released-IsBalanced : (s : Semaphore) → IsBalanced s → IsBalanced (released s)
released-IsBalanced s bal = released-IsBalanced_at s.value s bal

released-lock : (s : Semaphore) → (released s).lock ≡ false
released-lock s = elim (Bool-cases (is_nonpositive (succ_int s.value) && ltb 0 s.queue.count)) [
  | inl someone ↦ rw someone refl
  | inr nobody ↦ rw nobody refl
]

released-open_count : (s : Semaphore) → (released s).open_count ≡ s.open_count
released-open_count s =
    elim (Bool-cases (is_nonpositive (succ_int s.value) && ltb 0 s.queue.count)) [
      | inl someone ↦ rw someone refl
      | inr nobody ↦ rw nobody refl
    ]

-- A release keeps all semaphores balanced and all locks free.
pub release-AllBalanced :
    (i : ℕ) (s : Semaphore) (st : Sems)
    → OthersBalanced i st.sems
    → (0 < s.open_count → IsBalanced s)
    → AllBalanced (release i s st).sems
release-AllBalanced i s st all bal = subst AllBalanced (sym (release-sems i s st)) (
    update-AllBalanced st.sems i (released s) all (released-lock s)
      (λ used. released-IsBalanced s (bal (subst (λ n. 0 < n) (released-open_count s) used))))
