-- ===== src/Semaphore/Cleanup/Balance.antt =====
-- The cleanup of a dying process ends, and keeps the invariant of the semaphores.
use tp2_so_nuevo.Prelude.{
  ℕ, zero, suc, ◌<◌, ◌≡◌, refl, sym, ap, subst, ◌∙◌, Bool, true, false, List, [], ◌∷◌, Option, none,
  some, inl, inr, arith, leb, ◌==◌, Bool-cases, absurd_test, length, ==→≡, ℤ, pos, negsuc, succ_int,
}
use tp2_so_nuevo.Process.Control.{process_get}
use tp2_so_nuevo.WaitQueue.{queue_remove_pid}
use tp2_so_nuevo.WaitQueue.Fifo.{waiting}
use tp2_so_nuevo.WaitQueue.Removal.{
  member, without, length-window, queue_remove_pid-waiting, without_absent,
}
use tp2_so_nuevo.Semaphore.{Semaphore, Sems, max_sems, sem_lock, sem_unlock, hold}
use tp2_so_nuevo.Semaphore.Balance.{
  deficit, NoDup, IsBalanced, AllBalanced, OthersBalanced, update-AllBalanced, release-AllBalanced,
}
use tp2_so_nuevo.Semaphore.Waiting.{locked, locked-OthersBalanced, locked-IsBalanced}
use tp2_so_nuevo.Semaphore.Cleanup.{
  return_ref, return_bit, cleanup_locked, cleanup_one, cleanup_from, forget_bits, forgotten,
  cleanup_slot, sem_cleanup_for_process,
}

member-without : (x pid : ℕ) (xs : List ℕ) → member x xs ≡ false → member x (without pid xs) ≡ false
member-without x pid [] m = refl
member-without x pid (y ∷ ys) m = elim (Bool-cases (y == x)) [
  | inl same ↦ let bad = rw same at m in absurd_test bad refl
  | inr other ↦
      let m' = rw other at m in
      elim (Bool-cases (y == pid)) [
        | inl gone ↦ rw gone (member-without x pid ys m')
        | inr stays ↦ rw (stays, other) (member-without x pid ys m')
      ]
]

without-NoDup : (pid : ℕ) (xs : List ℕ) → NoDup xs → NoDup (without pid xs)
without-NoDup pid [] d = tt
without-NoDup pid (y ∷ ys) d = elim (Bool-cases (y == pid)) [
  | inl gone ↦ rw gone (without-NoDup pid ys d.1)
  | inr stays ↦ rw stays (member-without y pid ys d.0, without-NoDup pid ys d.1)
]

-- Where nobody waits twice, exactly one entry leaves.
length-without_once :
    (pid : ℕ) (xs : List ℕ)
    → NoDup xs
    → member pid xs ≡ true
    → suc (length (without pid xs)) ≡ length xs
length-without_once pid [] d m = absurd_test refl m
length-without_once pid (y ∷ ys) d m = elim (Bool-cases (y == pid)) [
  | inl gone ↦
      let absent : member pid ys ≡ false = subst (λ z. member z ys ≡ false) (==→≡ y pid gone) d.0 in
      rw (gone, without_absent pid ys absent) refl
  | inr stays ↦ let m' = rw stays at m in rw stays (ap suc (length-without_once pid ys d.1 m'))
]

deficit_succ : (v : ℤ) (n : ℕ) → deficit v ≡ suc n → deficit (succ_int v) ≡ n
deficit_succ (pos k) n e = absurd (omega arith)
deficit_succ (negsuc zero) n e = omega arith
deficit_succ (negsuc (suc k)) n e = omega arith

-- The value goes up by one if the PID waited, and stays if it did not.
removed-IsBalanced :
    (s : Semaphore) (pid : ℕ)
    → IsBalanced s
    → let (found, q) = queue_remove_pid s.queue pid in
      (found ≡ true → IsBalanced (record s { queue = q; value = succ_int s.value }))
      × (found ≡ false → IsBalanced (record s { queue = q }))
removed-IsBalanced s pid (ring, c, d) =
    let (hit, rest, ring') = queue_remove_pid-waiting s.queue pid ring in
    let q = (queue_remove_pid s.queue pid).1 in
    let n = length-window s.queue.count s.queue.slots s.queue.head in
    let n' = length-window q.count q.slots q.head in
    let d' = subst NoDup (sym rest) (without-NoDup pid (waiting s.queue) d) in
    let l = ap length rest in
    (
      λ found. (
        ring',
        sym (
            deficit_succ s.value q.count (
              let o = length-without_once pid (waiting s.queue) d (sym hit ∙ found) in
              omega arith)),
        d',
      ),
      λ absent. (
        ring',
        (let o = ap length (without_absent pid (waiting s.queue) (sym hit ∙ absent)) in
            omega arith),
        d',
      ),
    )

returned-used : (has : Bool) (s : Semaphore) → 0 < (return_ref has s).open_count → 0 < s.open_count
unfolding return_ref
returned-used true s h = ground arith
returned-used false s h = h

returned-IsBalanced :
    (has : Bool) (v : ℤ) (s : Semaphore)
    → IsBalanced (record s { value = v })
    → IsBalanced (record (return_ref has s) { value = v })
unfolding return_ref
returned-IsBalanced true v s h = h
returned-IsBalanced false v s h = h

returned-value : (has : Bool) (s : Semaphore) → (return_ref has s).value ≡ s.value
unfolding return_ref
returned-value true s = refl
returned-value false s = refl

returned-same : (has : Bool) (s : Semaphore) → IsBalanced s → IsBalanced (return_ref has s)
unfolding return_ref
returned-same true s h = h
returned-same false s h = h

cleanup_locked-AllBalanced :
    (pid k i : ℕ) (st : Sems)
    → OthersBalanced i st.sems
    → (0 < (st.sems i).open_count → IsBalanced (st.sems i))
    → AllBalanced (cleanup_locked pid k i st).sems
unfolding cleanup_locked
cleanup_locked-AllBalanced pid k i st others bal =
    let has = (st.procs.table k).opened_sems i in
    let q = (queue_remove_pid (st.sems i).queue pid).1 in
    let s0 : Semaphore = record (st.sems i) { queue = q } in
    let s = return_ref has s0 in
    let procs = return_bit i has k st.procs in
    let both = λ (used : 0 < s.open_count).
      removed-IsBalanced (st.sems i) pid (bal (returned-used has s0 used)) in
    elim (Bool-cases (queue_remove_pid (st.sems i).queue pid).0) [
      | inl waited ↦ rw waited (
          update-AllBalanced st.sems i (sem_unlock (record s { value = succ_int s.value })) others
            refl
            (λ used.
              subst (λ v. IsBalanced (record s { value = succ_int v }))
                (sym (returned-value has s0))
                (returned-IsBalanced has (succ_int (st.sems i).value) s0 ((both used).0 waited))))
      | inr absent ↦ elim (Bool-cases ((procs.table k).held_sems i)) [
        | inl held ↦
            rw (absent, held)
              (release-AllBalanced i s (record st { procs = hold i false k procs }) others
                (λ used. returned-same has s0 ((both used).1 absent)))
        | inr unheld ↦
            rw (absent, unheld)
              (update-AllBalanced st.sems i (sem_unlock s) others refl
                (λ used. returned-same has s0 ((both used).1 absent)))
      ]
    ]

cleanup_one-AllBalanced :
    (pid k i : ℕ) (st : Sems)
    → AllBalanced st.sems
    → (st' : Sems) × (cleanup_one pid k i st ≡ some st') × AllBalanced st'.sems
unfolding cleanup_one sem_lock
cleanup_one-AllBalanced pid k i st all = elim (Bool-cases (leb (st.sems i).open_count 0)) [
  | inl unused ↦ (st, rw unused refl, all)
  | inr used ↦ (
    cleanup_locked pid k i (locked i st),
    rw (used, (all i).0, cleanup_one) refl,
    cleanup_locked-AllBalanced pid k i (locked i st) (locked-OthersBalanced i st all)
        (locked-IsBalanced i st all),
  )
]

cleanup_from-AllBalanced :
    (pid k i n : ℕ) (st : Sems)
    → AllBalanced st.sems
    → (st' : Sems) × (cleanup_from pid k i n st ≡ some st') × AllBalanced st'.sems
unfolding cleanup_from
cleanup_from-AllBalanced pid k i zero st all = (st, refl, all)
cleanup_from-AllBalanced pid k i (suc n) st all =
    let (st1, e, all1) = cleanup_one-AllBalanced pid k i st all in
    let (st2, e', all2) = cleanup_from-AllBalanced pid k (suc i) n st1 all1 in
    (st2, rw (e, cleanup_from) e', all2)

cleanup_slot-AllBalanced :
    (pid : ℕ) (o : Option ℕ) (st : Sems)
    → AllBalanced st.sems
    → (st' : Sems) × (cleanup_slot pid o st ≡ some st') × AllBalanced st'.sems
cleanup_slot-AllBalanced pid none st all = (st, refl, all)
cleanup_slot-AllBalanced pid (some k) st all =
    let (st', e, all') = cleanup_from-AllBalanced pid k 0 max_sems st all in
    (forget_bits k st', ap (forgotten k) e, all')

-- With the locks free and the semaphores in use balanced, the cleanup of a dying process ends, and
-- leaves them so, whether the process waited, held resources or had semaphores open.
pub sem_cleanup_for_process-AllBalanced :
    (pid : ℕ) (st : Sems)
    → AllBalanced st.sems
    → (st' : Sems) × (sem_cleanup_for_process pid st ≡ some st') × AllBalanced st'.sems
unfolding sem_cleanup_for_process
sem_cleanup_for_process-AllBalanced pid st all =
    cleanup_slot-AllBalanced pid (process_get pid st.procs.table) st all
