-- ===== src/Semaphore/Cleanup/Kept.antt =====
-- The cleanup of the semaphores and the processes.
use tp2_so_nuevo.Prelude.{
  ℕ, zero, suc, ◌≡◌, refl, subst, Bool, true, false, ◌&&◌, Option, none, some, inl, inr, arith, ltb,
  leb, update, Bool-cases, Option-cases, succ_int, is_nonpositive,
}
use mathlib.Core.Option.{some-injective}
use tp2_so_nuevo.Process.Pcb.{Procs, set_slot}
use tp2_so_nuevo.Process.Control.{process_get}
use tp2_so_nuevo.Process.Control.Kept.{
  KeptProcs, KeptProcs-refl, KeptProcs-trans, set_slot-KeptProcs, with_process-KeptProcs,
  process_unblock-KeptProcs,
}
use tp2_so_nuevo.WaitQueue.{queue_pop, queue_remove_pid}
use tp2_so_nuevo.Semaphore.{Semaphore, Sems, max_sems, sem_lock, hold, register, release, hand_over}
use tp2_so_nuevo.Semaphore.Cleanup.{
  return_bit, return_ref, cleanup_locked, cleanup_one, cleanup_from, forget_bits, forgotten,
  cleanup_slot, sem_cleanup_for_process,
}

-- Only the bits of the semaphores change.
bits-Kept :
    (k : ℕ) (held opened : ℕ → Bool) (s : Procs)
    → KeptProcs s (set_slot s k (record (s.table k) { held_sems = held; opened_sems = opened }))
bits-Kept k held opened s =
    set_slot-KeptProcs k (record (s.table k) { held_sems = held; opened_sems = opened }) s
      (record {
        pid = refl;
        name = refl;
        entry = refl;
        priority = refl;
        remaining_quanta = refl;
        foreground = refl;
        argc = refl;
        retval = refl;
        rsp = refl;
        stack_base = refl;
        argv = refl;
        parent_pid = refl;
        waiting_for = refl;
        fd_in = refl;
        fd_out = refl;
        state = inl refl;
      })

hold-KeptProcs : (i : ℕ) (b : Bool) (k : ℕ) (s : Procs) → KeptProcs s (hold i b k s)
unfolding hold
hold-KeptProcs i b k s = bits-Kept k (update (s.table k).held_sems i b) (s.table k).opened_sems s

return_bit-KeptProcs : (i : ℕ) (has : Bool) (k : ℕ) (s : Procs) → KeptProcs s (return_bit i has k s)
unfolding return_bit register
return_bit-KeptProcs i true k s =
    bits-Kept k (s.table k).held_sems (update (s.table k).opened_sems i false) s
return_bit-KeptProcs i false k s = KeptProcs-refl s

hand_over-KeptProcs :
    (i : ℕ) (s : Semaphore) (st : Sems) → KeptProcs st.procs (hand_over i s st).procs
unfolding hand_over
hand_over-KeptProcs i s st =
    let pid = (queue_pop s.queue).0 in
    let held =
      with_process-KeptProcs (process_get pid st.procs.table) (hold i true) st.procs
        (λ k. hold-KeptProcs i true k st.procs) in
    KeptProcs-trans _ _ _ held (process_unblock-KeptProcs pid _)

release-KeptProcs : (i : ℕ) (s : Semaphore) (st : Sems) → KeptProcs st.procs (release i s st).procs
unfolding release
release-KeptProcs i s st =
    elim (Bool-cases (is_nonpositive (succ_int s.value) && ltb 0 s.queue.count)) [
      | inl someone ↦ rw someone (hand_over-KeptProcs i (record s { value = succ_int s.value }) st)
      | inr nobody ↦ rw nobody (KeptProcs-refl st.procs)
    ]

cleanup_locked-KeptProcs :
    (pid k i : ℕ) (st : Sems) → KeptProcs st.procs (cleanup_locked pid k i st).procs
unfolding cleanup_locked
cleanup_locked-KeptProcs pid k i st =
    let has = (st.procs.table k).opened_sems i in
    let procs = return_bit i has k st.procs in
    let s =
      return_ref has (record (st.sems i) { queue = (queue_remove_pid (st.sems i).queue pid).1 }) in
    let one = return_bit-KeptProcs i has k st.procs in
    let two = KeptProcs-trans _ _ _ one (hold-KeptProcs i false k procs) in
    elim (Bool-cases (queue_remove_pid (st.sems i).queue pid).0) [
      | inl waited ↦ rw waited two
      | inr absent ↦ elim (Bool-cases ((procs.table k).held_sems i)) [
        | inl held ↦
            rw (absent, held)
              (KeptProcs-trans _ _ _ two
                (release-KeptProcs i s (record st { procs = hold i false k procs })))
        | inr unheld ↦ rw (absent, unheld) one
      ]
    ]

cleanup_one-KeptProcs :
    (pid k i : ℕ) (st st' : Sems) → cleanup_one pid k i st ≡ some st' → KeptProcs st.procs st'.procs
unfolding cleanup_one sem_lock
cleanup_one-KeptProcs pid k i st st' e = elim (Bool-cases (leb (st.sems i).open_count 0)) [
  | inl unused ↦
      let e' : some st ≡ some st' = rw unused at e in
      subst (λ r. KeptProcs st.procs r.procs) (some-injective _ _ e') (KeptProcs-refl st.procs)
  | inr used ↦ elim (Bool-cases (st.sems i).lock) [
    | inl taken ↦
        let e' : none ≡ some st' = rw (used, taken, cleanup_one) at e in absurd (ground arith)
    | inr unlocked ↦
        let e' = rw (used, unlocked, cleanup_one) at e in
        subst (λ r. KeptProcs st.procs r.procs) (some-injective _ _ e')
          (cleanup_locked-KeptProcs pid k i
            (record st { sems = update st.sems i (record (st.sems i) { lock = true }) }))
  ]
]

cleanup_from-KeptProcs :
    (pid k i n : ℕ) (st st' : Sems)
    → cleanup_from pid k i n st ≡ some st'
    → KeptProcs st.procs st'.procs
unfolding cleanup_from
cleanup_from-KeptProcs pid k i zero st st' e =
    subst (λ r. KeptProcs st.procs r.procs) (some-injective _ _ e) (KeptProcs-refl st.procs)
cleanup_from-KeptProcs pid k i (suc n) st st' e = elim (Option-cases (cleanup_one pid k i st)) [
  | inl spins ↦ let e' : none ≡ some st' = rw (spins, cleanup_from) at e in absurd (ground arith)
  | inr (st1, one) ↦
      let e' : cleanup_from pid k (suc i) n st1 ≡ some st' = rw (one, cleanup_from) at e in
      KeptProcs-trans st.procs st1.procs st'.procs (cleanup_one-KeptProcs pid k i st st1 one)
        (cleanup_from-KeptProcs pid k (suc i) n st1 st' e')
]

cleanup_slot-KeptProcs :
    (pid : ℕ) (o : Option ℕ) (st st' : Sems)
    → cleanup_slot pid o st ≡ some st'
    → KeptProcs st.procs st'.procs
cleanup_slot-KeptProcs pid none st st' e =
    subst (λ r. KeptProcs st.procs r.procs) (some-injective _ _ e) (KeptProcs-refl st.procs)
cleanup_slot-KeptProcs pid (some k) st st' e =
    elim (Option-cases (cleanup_from pid k 0 max_sems st)) [
      | inl spins ↦ let e' : none ≡ some st' = rw (spins, forgotten) at e in absurd (ground arith)
      | inr (st1, loop) ↦
          let e' : some (forget_bits k st1) ≡ some st' = rw (loop, forgotten) at e in
          subst (λ r. KeptProcs st.procs r.procs) (some-injective _ _ e')
            (KeptProcs-trans _ _ _ (cleanup_from-KeptProcs pid k 0 max_sems st st1 loop)
              (bits-Kept k (λ _. false) (λ _. false) st1.procs))
    ]

-- The cleanup wakes processes and clears bits, and leaves the rest of the process table.
pub sem_cleanup-KeptProcs :
    (pid : ℕ) (st st' : Sems)
    → sem_cleanup_for_process pid st ≡ some st'
    → KeptProcs st.procs st'.procs
unfolding sem_cleanup_for_process
sem_cleanup-KeptProcs pid st st' e =
    cleanup_slot-KeptProcs pid (process_get pid st.procs.table) st st' e
