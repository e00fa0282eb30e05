-- ===== src/Pipe/Ends/Closing.antt =====
-- The end of a pipe that its last writer closes.
use tp2_so_nuevo.Prelude.{
  ℕ, zero, suc, ◌-◌, ◌≤◌, ◌<◌, ◌≡◌, refl, sym, ap, subst, ◌∙◌, true, false, ◌&&◌, some, arith, ltb,
  leb, ◌==◌, if◌then◌else◌, update_same,
}
use tp2_so_nuevo.WaitQueue.{WaitQueue}
use tp2_so_nuevo.WaitQueue.Fifo.{queue_pop-count}
use tp2_so_nuevo.Pipe.{
  Pipe, Pipes, put, repeat_step, pipe_wake_reader, pipe_wake_all_readers, pipe_maybe_free,
}
use tp2_so_nuevo.Pipe.Content.{content}
use tp2_so_nuevo.Pipe.Transfer.{less_waiting, wake_reader-pipe}
use tp2_so_nuevo.Pipe.Ends.{pipe_close_write}

less_waiting-count : (q : WaitQueue) (n : ℕ) → q.count ≡ suc n → (less_waiting q).count ≡ n
less_waiting-count q n e =
    let someone : ltb 0 q.count ≡ true = ground arith in
    rw someone (queue_pop-count q ∙ omega arith)

repeat-Emptied :
    (n i : ℕ) (st : Pipes)
    → (st.pipes i).readers.count ≡ n
    → (q : WaitQueue) × ((repeat_step n (pipe_wake_reader i) st).pipes i
        ≡ record (st.pipes i) { readers = q })
      × (q.count ≡ 0)
repeat-Emptied zero i st e = ((st.pipes i).readers, refl, e)
repeat-Emptied (suc n) i st e =
    let one = wake_reader-pipe i st in
    let fewer =
      ap {A = Pipe} (λ p. p.readers.count) one ∙ less_waiting-count (st.pipes i).readers n e in
    let (q, rest, gone) = repeat-Emptied n i (pipe_wake_reader i st) fewer in
    (q, rest ∙ ap {A = Pipe} (λ p. record p { readers = q }) one, gone)

maybe_free_open : (i : ℕ) (st : Pipes) → 0 < (st.pipes i).open_read → pipe_maybe_free i st ≡ st
unfolding pipe_maybe_free
maybe_free_open i st h =
    let o : ((st.pipes i).open_read == 0) ≡ false = ground arith in rw (o, pipe_maybe_free) refl

-- Nobody waits to read any more, and what the pipe holds is followed by the end of the data.
abbrev pub Ended : Pipe → Pipe → Type 0
Ended p p' =
    (p'.readers.count ≡ 0)
    × (p'.eof ≡ true)
    × (p'.is_named ≡ true)
    × (p'.open_write ≡ 0)
    × (content p' ≡ content p)

-- When the last writer of a named pipe that was opened at least twice closes it while it has readers,
-- all waiting readers are woken, and the pipe keeps its bytes, with the end of the data behind them.
pub pipe_close_write-Ended :
    (i : ℕ) (st : Pipes)
    → (st.pipes i).is_named ≡ true
    → 2 ≤ (st.pipes i).opens
    → (st.pipes i).open_write ≡ 1
    → 0 < (st.pipes i).open_read
    → Ended (st.pipes i) ((pipe_close_write (some i) st).pipes i)
unfolding pipe_close_write pipe_wake_all_readers
pipe_close_write-Ended i st named twice last readers =
    let p : Pipe = st.pipes i in
    let none_left : (p.open_write - 1 == 0) ≡ true = ground arith in
    let second : leb 2 p.opens ≡ true = ground arith in
    let ended : Pipe = record p {
      open_write = p.open_write - 1;
      eof = if p.is_named && leb 2 p.opens then true else p.eof;
    } in
    let st1 = put i ended st in
    let at : st1.pipes i ≡ ended = update_same st.pipes i ended in
    let st2 = pipe_wake_all_readers i st1 in
    let (q, woken, gone) = repeat-Emptied (st1.pipes i).readers.count i st1 refl in
    let result : st2.pipes i ≡ record ended { readers = q } =
      woken ∙ ap {A = Pipe} (λ r. record r { readers = q }) at in
    let still : 0 < (st2.pipes i).open_read =
      subst {A = Pipe} (λ r. 0 < r.open_read) (sym result) readers in
    let ended_now : ended.eof ≡ true = rw (named, second) refl in
    let open_end : Pipe = record p { open_write = p.open_write - 1 } in
    subst (λ b. Ended p ((pipe_maybe_free i (if b then st2 else put i open_end st)).pipes i))
      (sym none_left)
      (subst (Ended p) (sym (ap (λ s. s.pipes i) (maybe_free_open i st2 still) ∙ result))
        (gone, ended_now, named, omega arith, refl))
