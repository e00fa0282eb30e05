-- ===== src/Semaphore/Handover.antt =====
-- Who gets the resource that a post gives back.
use tp2_so_nuevo.Prelude.{
  ℕ, zero, suc, ◌<◌, ◌≡◌, refl, sym, ap, ◌∙◌, true, false, List, ◌∷◌, Option, none, some, arith,
  ltb, absurd_test, update, update_same, update_other, length, is_same, ℤ, pos, negsuc, succ_int,
  is_negative, is_nonpositive,
}
use tp2_so_nuevo.Process.Pcb.{Pcb, Procs, is_ready, is_blocked, set_slot, ready}
use tp2_so_nuevo.Process.Control.{process_get, with_process, process_unblock}
use tp2_so_nuevo.Process.Control.Lookup.{process_get-update}
use tp2_so_nuevo.Process.Control.Blocking.{process_unblock_blocked}
use tp2_so_nuevo.WaitQueue.{WaitQueue, queue_pop}
use tp2_so_nuevo.WaitQueue.Fifo.{waiting, queue_pop-waiting}
use tp2_so_nuevo.WaitQueue.Removal.{length-window}
use tp2_so_nuevo.Semaphore.{
  Semaphore, Sems, sem_lock, hold, hand_over, release, post_locked, find_sem, sem_post,
}
use tp2_so_nuevo.Semaphore.Waiting.{locked, on_found_free}

oldest :
    (q : WaitQueue) (pid : ℕ) (rest : List ℕ)
    → waiting q ≡ pid ∷ rest
    → (0 < q.count) × ((queue_pop q).0 ≡ pid) × (waiting (queue_pop q).1 ≡ rest)
oldest q pid rest e =
    let n : length (waiting q) ≡ q.count = length-window q.count q.slots q.head in
    let n' : length (waiting q) ≡ suc (length rest) = ap length e in
    let some_wait : 0 < q.count = omega arith in
    let p : pid ∷ rest ≡ (queue_pop q).0 ∷ waiting (queue_pop q).1 =
      sym e ∙ queue_pop-waiting q some_wait in
    (some_wait, cc, cc)

-- The slot `k` has the resource of semaphore `i` and is READY; those behind it still wait.
abbrev pub Handed : ℕ → ℕ → List ℕ → Sems → Type 0
Handed i k rest st =
    ((st.procs.table k).held_sems i ≡ true)
    × (is_ready (st.procs.table k).state ≡ true)
    × (waiting (st.sems i).queue ≡ rest)

abbrev woken : Pcb → Pcb
woken p = record p { state = ready; wait_ticks = 0 }

hand_over-Handed :
    (i k pid : ℕ) (rest : List ℕ) (s : Semaphore) (st : Sems)
    → waiting s.queue ≡ pid ∷ rest
    → process_get pid st.procs.table ≡ some k
    → is_blocked (st.procs.table k).state ≡ true
    → Handed i k rest (hand_over i s st)
unfolding hand_over hold
hand_over-Handed i k pid rest s st e found b =
    let (some_wait, first, others) = oldest s.queue pid rest e in
    let p : Pcb = record (st.procs.table k) {
      held_sems = update (st.procs.table k).held_sems i true;
    } in
    let held = set_slot st.procs k p in
    let at : held.table k ≡ p = update_same st.procs.table k p in
    let found' : process_get pid held.table ≡ some k =
      process_get-update pid st.procs.table k p refl refl ∙ found in
    let t = process_unblock_blocked pid k held found' (ap (λ q. is_blocked q.state) at ∙ b) in
    let slot : (process_unblock pid held).table k ≡ woken p =
      ap (λ f. f k) t ∙ update_same held.table k _ ∙ ap woken at in
    rw (first, found)
      (
        ap (λ q. q.held_sems i) slot ∙ update_same (st.procs.table k).held_sems i true,
        ap (λ q. is_ready q.state) slot,
        ap (λ r. waiting r.queue) (update_same st.sems i _) ∙ others,
      )

succ_negative : (v : ℤ) → is_negative v ≡ true → is_nonpositive (succ_int v) ≡ true
succ_negative (pos n) h = absurd_test refl h
succ_negative (negsuc zero) h = refl
succ_negative (negsuc (suc n)) h = refl

-- The current process gives its bit back: the search, and the others' slots, stay.
given_back :
    (i k : ℕ) (cur : Option ℕ) (s : Procs)
    → is_same cur k ≡ false
    → ((with_process cur (hold i false) s).table k ≡ s.table k)
      × ((pid : ℕ)
          → process_get pid (with_process cur (hold i false) s).table ≡ process_get pid s.table)
unfolding hold
given_back i k none s off = (refl, λ pid. refl)
given_back i k (some c) s off =
    (update_other s.table c k _ (ground arith), λ pid. process_get-update pid s.table c _ refl refl)

release-Handed :
    (i k pid : ℕ) (rest : List ℕ) (s : Semaphore) (st : Sems)
    → waiting s.queue ≡ pid ∷ rest
    → is_nonpositive (succ_int s.value) ≡ true
    → process_get pid st.procs.table ≡ some k
    → is_blocked (st.procs.table k).state ≡ true
    → Handed i k rest (release i s st)
unfolding release
release-Handed i k pid rest s st e low found b =
    let some_wait : ltb 0 s.queue.count ≡ true =
      let h = (oldest s.queue pid rest e).0 in ground arith in
    rw (low, some_wait)
      (hand_over-Handed i k pid rest (record s { value = succ_int s.value }) st e found b)

-- A post on a semaphore for which processes wait ends, gives the resource to the one that waits
-- longest and makes it READY; the others wait on in their order.
pub sem_post-Handed :
    (name : List ℕ) (i k pid : ℕ) (rest : List ℕ) (st : Sems)
    → find_sem name st.sems ≡ some i
    → (st.sems i).lock ≡ false
    → is_negative (st.sems i).value ≡ true
    → waiting (st.sems i).queue ≡ pid ∷ rest
    → process_get pid st.procs.table ≡ some k
    → is_blocked (st.procs.table k).state ≡ true
    → is_same st.procs.current k ≡ false
    → (st' : Sems) × (sem_post (some name) st ≡ some (pos 0, st')) × Handed i k rest st'
unfolding sem_post post_locked sem_lock
sem_post-Handed name i k pid rest st found free low queue who b off =
    let st1 = locked i st in
    let s1 = st1.sems i in
    let at : s1 ≡ record (st.sems i) { lock = true } = update_same st.sems i _ in
    let (same, search) = given_back i k st.procs.current st.procs off in
    (
      (post_locked i st1).1,
      rw found (on_found_free post_locked i st free),
      release-Handed i k pid rest s1 _ (ap (λ r. waiting r.queue) at ∙ queue)
          (ap (λ r. is_nonpositive (succ_int r.value)) at ∙ succ_negative (st.sems i).value low)
          (search pid ∙ who) (ap (λ q. is_blocked q.state) same ∙ b),
    )
