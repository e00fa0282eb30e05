-- ===== src/Pipe/Blocking.antt =====
-- The reader that finds no bytes.
use tp2_so_nuevo.Prelude.{
  ℕ, zero, suc, ◌+◌, ◌-◌, ◌%◌, ◌<◌, ◌≡◌, refl, sym, ap, subst, ◌∙◌, true, false, [], ◌∷◌, ◌++◌,
  some, inl, inr, arith, leb, ◌==◌, if◌then◌else◌, update_same, Bool-cases,
}
use tp2_so_nuevo.Process.Pcb.{Pcb, max_processes, is_blocked}
use tp2_so_nuevo.Process.Control.Lookup.{PidsDiffer}
use tp2_so_nuevo.Process.Control.Blocking.{IsLive, process_unblock-process_block}
use tp2_so_nuevo.WaitQueue.{WaitQueue}
use tp2_so_nuevo.WaitQueue.Fifo.{window, waiting, IsRing, enqueue-waiting}
use tp2_so_nuevo.WaitQueue.Removal.{member}
use tp2_so_nuevo.Pipe.{
  Pipe, Pipes, queue_push, is_queued, at_end, block_reader, blocked_result, read_at, pipe_read,
}

is_queued_lem :
    (slots : ℕ → ℕ) (pid : ℕ) (n i : ℕ) → is_queued slots pid i n ≡ member pid (window slots i n)
unfolding is_queued
is_queued_lem slots pid zero i = refl
is_queued_lem slots pid (suc n) i = elim (Bool-cases (slots i == pid)) [
  | inl same ↦ rw (same, is_queued) refl
  | inr other ↦ rw (other, is_queued) (is_queued_lem slots pid n ((i + 1) % max_processes))
]

-- A PID comes to stand at the end of the queue, but no PID stands there twice.
pub queue_push-waiting :
    (q : WaitQueue) (pid : ℕ)
    → IsRing q
    → q.count < max_processes
    → waiting (queue_push q pid)
      ≡ (if member pid (waiting q) then waiting q else waiting q ++ (pid ∷ []))
unfolding queue_push
queue_push-waiting q pid ring room =
    let r : leb max_processes q.count ≡ false = ground arith in
    let (h, c, t) = ring in
    let first : (q.tail + max_processes - q.count) % max_processes ≡ q.head = omega arith in
    let e : is_queued q.slots pid ((q.tail + max_processes - q.count) % max_processes) q.count
        ≡ member pid (waiting q) =
      ap (λ i. is_queued q.slots pid i q.count) first ∙ is_queued_lem q.slots pid q.count q.head in
    elim (Bool-cases (member pid (waiting q))) [
      | inl there ↦ rw (r, e, there) refl
      | inr absent ↦ rw (r, e, absent) (enqueue-waiting q pid ring room)
    ]

-- The process in slot `c` is BLOCKED and stands behind those who waited to read, once.
abbrev pub Waits : ℕ → ℕ → Pipes → Pipes → Type 0
Waits i c st st' =
    let pid = (st.procs.table c).pid in
    let before = waiting (st.pipes i).readers in
    (is_blocked (st'.procs.table c).state ≡ true)
    × (waiting (st'.pipes i).readers ≡ (if member pid before then before else before ++ (pid ∷ [])))

-- A live process that reads from an empty pipe not at its end, where the queue of readers has room, is
-- BLOCKED and waits behind the other readers, once; the read tells that it blocked, with no bytes.
pub pipe_read_blocks :
    (i c count : ℕ) (st : Pipes)
    → 0 < count
    → (st.pipes i).count ≡ 0
    → at_end (st.pipes i) ≡ false
    → st.procs.current ≡ some c
    → PidsDiffer st.procs.table
    → c < max_processes
    → 0 < (st.procs.table c).pid
    → IsLive (st.procs.table c)
    → IsRing (st.pipes i).readers
    → (st.pipes i).readers.count < max_processes
    → let (n, bytes, st') = pipe_read (some i) true count st in
      (n ≡ blocked_result) × (bytes ≡ []) × Waits i c st st'
unfolding pipe_read read_at block_reader
pipe_read_blocks i c count st asked empty more cur differ inside pos live ring room =
    let a : (count == 0) ≡ false = ground arith in
    let f : ((st.pipes i).count == 0) ≡ true = ground arith in
    let stopped = (process_unblock-process_block c st.procs differ inside pos live).0 in
    let joined =
      subst (λ o. Waits i c st (block_reader i o st)) (sym cur)
        (
          ap (λ t. is_blocked (t c).state) stopped
              ∙ ap {A = Pcb} (λ p. is_blocked p.state) (update_same st.procs.table c _),
          ap {A = Pipe} (λ p. waiting p.readers) (update_same st.pipes i _)
              ∙ queue_push-waiting (st.pipes i).readers (st.procs.table c).pid ring room,
        ) in
    rw (a, f, more, pipe_read, read_at) (refl, refl, joined)
