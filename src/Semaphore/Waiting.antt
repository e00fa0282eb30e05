-- ===== src/Semaphore/Waiting.antt =====
-- `sem_wait` and `sem_post` end, and keep the invariant.
use tp2_so_nuevo.Prelude.{
  ℕ, zero, suc, ◌<◌, ◌≡◌, refl, sym, ap, subst, true, false, List, Option, none, some, inl, inr,
  arith, if◌then◌else◌, Bool-cases, update, update_same, update_other, ℤ, pos, negsuc, pred_int,
  is_negative,
}
use tp2_so_nuevo.Process.Pcb.{max_processes}
use tp2_so_nuevo.WaitQueue.Fifo.{IsRing, waiting, enqueue-IsRing, enqueue-waiting}
use tp2_so_nuevo.WaitQueue.Removal.{member}
use tp2_so_nuevo.Semaphore.{
  Semaphore, Sems, put, sem_lock, on_found, queue_push, wait_locked, wait_blocked, sem_unlock,
  post_locked, find_sem, sem_wait, sem_post,
}
use tp2_so_nuevo.Semaphore.Balance.{
  deficit, NoDup, IsBalanced, AllBalanced, OthersBalanced, update-AllBalanced, snoc-NoDup,
  queue_push-lem, release-AllBalanced,
}

-- The semaphore after a wait of the process `pid`.
abbrev waited : ℕ → Semaphore → Semaphore
waited pid s =
    let s' = record s { value = pred_int s.value } in
    if is_negative s'.value
    then sem_unlock (record s' { queue = queue_push s'.queue pid })
    else sem_unlock s'

wait_locked-sems :
    (i c : ℕ) (st : Sems)
    → st.procs.current ≡ some c
    → (wait_locked i st).1.sems ≡ update st.sems i (waited (st.procs.table c).pid (st.sems i))
unfolding wait_locked wait_blocked
wait_locked-sems i c st cur = elim (Bool-cases (is_negative (pred_int (st.sems i).value))) [
  | inl low ↦ rw (low, cur) refl
  | inr high ↦ rw high refl
]

pushed-IsBalanced :
    (pid : ℕ) (v : ℤ) (s : Semaphore)
    → s.queue.count < max_processes
    → member pid (waiting s.queue) ≡ false
    → IsRing s.queue
    → NoDup (waiting s.queue)
    → suc s.queue.count ≡ deficit v
    → IsBalanced (record s { value = v; queue = queue_push s.queue pid })
pushed-IsBalanced pid v s room out ring d c =
    subst (λ q. IsRing q × (q.count ≡ deficit v) × NoDup (waiting q))
      (sym (queue_push-lem s.queue pid room))
      (
        enqueue-IsRing s.queue pid ring room,
        omega arith,
        subst NoDup (sym (enqueue-waiting s.queue pid ring room)) (snoc-NoDup pid _ d out),
      )

waited-IsBalanced_at :
    (pid : ℕ) (v : ℤ) (s : Semaphore)
    → s.queue.count < max_processes
    → member pid (waiting s.queue) ≡ false
    → IsBalanced (record s { value = v })
    → IsBalanced (waited pid (record s { value = v }))
waited-IsBalanced_at pid (pos zero) s room out bal =
    pushed-IsBalanced pid (negsuc 0) s room out bal.0 bal.2 (ap suc bal.1)
waited-IsBalanced_at pid (pos (suc n)) s room out bal = bal
waited-IsBalanced_at pid (negsuc n) s room out bal =
    pushed-IsBalanced pid (negsuc (suc n)) s room out bal.0 bal.2 (ap suc bal.1)

waited-lock : (pid : ℕ) (s : Semaphore) → (waited pid s).lock ≡ false
waited-lock pid s = elim (Bool-cases (is_negative (pred_int s.value))) [
  | inl low ↦ rw low refl
  | inr high ↦ rw high refl
]

waited-open_count : (pid : ℕ) (s : Semaphore) → (waited pid s).open_count ≡ s.open_count
waited-open_count pid s = elim (Bool-cases (is_negative (pred_int s.value))) [
  | inl low ↦ rw low refl
  | inr high ↦ rw high refl
]

abbrev pub locked : ℕ → Sems → Sems
locked i st = put i (record (st.sems i) { lock = true }) st

pub locked-OthersBalanced :
    (i : ℕ) (st : Sems) → AllBalanced st.sems → OthersBalanced i (locked i st).sems
locked-OthersBalanced i st all j ne =
    subst (λ r. (r.lock ≡ false) × (0 < r.open_count → IsBalanced r))
      (sym (update_other st.sems i j _ ne)) (all j)

pub locked-IsBalanced :
    (i : ℕ) (st : Sems)
    → AllBalanced st.sems
    → 0 < ((locked i st).sems i).open_count
    → IsBalanced ((locked i st).sems i)
locked-IsBalanced i st all =
    subst (λ r. 0 < r.open_count → IsBalanced r) (sym (update_same st.sems i _)) (all i).1

pub on_found_free :
    (f : ℕ → Sems → ℤ × Sems) (i : ℕ) (st : Sems)
    → (st.sems i).lock ≡ false
    → on_found f (some i) st ≡ some (f i (locked i st))
unfolding sem_lock
on_found_free f i st free = rw (free, on_found) refl

-- With all locks free, an operation takes the lock of the semaphore that it found.
on_found-result :
    (f : ℕ → Sems → ℤ × Sems) (found : Option ℕ) (st : Sems)
    → AllBalanced st.sems
    → ((i : ℕ) → AllBalanced (f i (locked i st)).1.sems)
    → (r : ℤ) × (st' : Sems) × (on_found f found st ≡ some (r, st')) × AllBalanced st'.sems
on_found-result f none st all step = (negsuc 0, st, refl, all)
on_found-result f (some i) st all step =
    ((f i (locked i st)).0, (f i (locked i st)).1, on_found_free f i st (all i).0, step i)

-- With the locks free and the semaphores in use balanced, a post ends, and leaves them so: in
-- every semaphore in use as many processes wait as its value lies below zero, each once.
pub sem_post-AllBalanced :
    (name : Option (List ℕ)) (st : Sems)
    → AllBalanced st.sems
    → (r : ℤ) × (st' : Sems) × (sem_post name st ≡ some (r, st')) × AllBalanced st'.sems
unfolding sem_post post_locked
sem_post-AllBalanced none st all = (negsuc 0, st, refl, all)
sem_post-AllBalanced (some name) st all =
    on_found-result post_locked (find_sem name st.sems) st all (λ i.
      release-AllBalanced i ((locked i st).sems i) _ (locked-OthersBalanced i st all)
        (locked-IsBalanced i st all))

-- With the locks free and the semaphores in use balanced, a wait of a process that waits nowhere
-- yet, if the queues have room, ends and leaves them so: in every semaphore in use as many
-- processes wait as its value lies below zero, each once.
pub sem_wait-AllBalanced :
    (name : Option (List ℕ)) (c : ℕ) (st : Sems)
    → AllBalanced st.sems
    → st.procs.current ≡ some c
    → ((i : ℕ) → (st.sems i).queue.count < max_processes)
    → ((i : ℕ) → member (st.procs.table c).pid (waiting (st.sems i).queue) ≡ false)
    → (r : ℤ) × (st' : Sems) × (sem_wait name st ≡ some (r, st')) × AllBalanced st'.sems
unfolding sem_wait
sem_wait-AllBalanced none c st all cur room out = (negsuc 0, st, refl, all)
sem_wait-AllBalanced (some name) c st all cur room out =
    let pid = (st.procs.table c).pid in
    on_found-result wait_locked (find_sem name st.sems) st all (λ i.
      let s = (locked i st).sems i in
      let same : s ≡ record (st.sems i) { lock = true } = update_same st.sems i _ in
      subst AllBalanced (sym (wait_locked-sems i c (locked i st) cur)) (
        update-AllBalanced (locked i st).sems i (waited pid s) (locked-OthersBalanced i st all)
          (waited-lock pid s)
          (λ used.
            waited-IsBalanced_at pid s.value s
              (subst (λ r. r.queue.count < max_processes) (sym same) (room i))
              (subst (λ r. member pid (waiting r.queue) ≡ false) (sym same) (out i))
              (locked-IsBalanced i st all (subst (λ n. 0 < n) (waited-open_count pid s) used)))))
