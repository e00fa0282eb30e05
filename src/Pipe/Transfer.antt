-- ===== src/Pipe/Transfer.antt =====
-- `pipe_read` and `pipe_write` against a queue of bytes.
use tp2_so_nuevo.Prelude.{
  ℕ, zero, suc, ◌+◌, ◌-◌, ◌%◌, ◌≤◌, ◌<◌, ◌≡◌, refl, sym, ap, ap₂, subst, ◌∙◌, Bool, true, false,
  ◌&&◌, List, [], ◌∷◌, ◌++◌, some, inl, inr, arith, ltb, leb, ◌==◌, if◌then◌else◌, length,
  update_same, take, min, Bool-cases,
}
use tp2_so_nuevo.WaitQueue.{WaitQueue, queue_pop}
use tp2_so_nuevo.Prelude.Ring
use tp2_so_nuevo.Pipe.{
  Pipe, Pipes, put, pipe_buffer_size, read_bytes, write_bytes, pipe_wake_reader, pipe_wake_writer,
  read_some, read_at, pipe_read, write_some, write_at, pipe_write,
}
use tp2_so_nuevo.Pipe.Content.{content, bytes_from, IsBuffer, read_bytes_lem, write_bytes_lem}

abbrev pub less_waiting : WaitQueue → WaitQueue
less_waiting q = if ltb 0 q.count then (queue_pop q).1 else q

wake_writer-pipe :
    (i : ℕ) (st : Pipes)
    → (pipe_wake_writer i st).pipes i
      ≡ record (st.pipes i) { writers = less_waiting (st.pipes i).writers }
unfolding pipe_wake_writer
wake_writer-pipe i st = elim (Bool-cases (ltb 0 (st.pipes i).writers.count)) [
  | inl someone ↦ rw (someone, pipe_wake_writer) (update_same st.pipes i _)
  | inr nobody ↦ rw (nobody, pipe_wake_writer) refl
]

pub wake_reader-pipe :
    (i : ℕ) (st : Pipes)
    → (pipe_wake_reader i st).pipes i
      ≡ record (st.pipes i) { readers = less_waiting (st.pipes i).readers }
unfolding pipe_wake_reader
wake_reader-pipe i st = elim (Bool-cases (ltb 0 (st.pipes i).readers.count)) [
  | inl someone ↦ rw (someone, pipe_wake_reader) (update_same st.pipes i _)
  | inr nobody ↦ rw (nobody, pipe_wake_reader) refl
]

-- After a write to one pipe, whether somebody is woken or not, it differs at most in who waits.
maybe_woken_writer :
    (b : Bool) (i : ℕ) (p : Pipe) (st : Pipes)
    → (q : WaitQueue) × ((if b then pipe_wake_writer i (put i p st) else put i p st).pipes i
        ≡ record p { writers = q })
maybe_woken_writer true i p st = (
  less_waiting p.writers,
  wake_writer-pipe i (put i p st)
      ∙ ap {A = Pipe} (λ r. record r { writers = less_waiting r.writers })
          (update_same st.pipes i p),
)
maybe_woken_writer false i p st = (p.writers, update_same st.pipes i p)

maybe_woken_reader :
    (b : Bool) (i : ℕ) (p : Pipe) (st : Pipes)
    → (q : WaitQueue) × ((if b then pipe_wake_reader i (put i p st) else put i p st).pipes i
        ≡ record p { readers = q })
maybe_woken_reader true i p st = (
  less_waiting p.readers,
  wake_reader-pipe i (put i p st)
      ∙ ap {A = Pipe} (λ r. record r { readers = less_waiting r.readers })
          (update_same st.pipes i p),
)
maybe_woken_reader false i p st = (p.readers, update_same st.pipes i p)

-- What a read of `n` bytes leaves.
abbrev pub Takes : ℕ → List ℕ → Pipe → Pipe → Type 0
Takes n bytes p p' = (length bytes ≡ n) × (content p ≡ bytes ++ content p') × IsBuffer p'

read_some-Takes :
    (i count : ℕ) (st : Pipes)
    → IsBuffer (st.pipes i)
    → let (n, bytes, st') = read_some i count st in
      (n ≡ min count (st.pipes i).count) × Takes n bytes (st.pipes i) (st'.pipes i)
unfolding read_some
read_some-Takes i count st (r, c, w) =
    let p = st.pipes i in
    let n = if ltb p.count count then p.count else count in
    let le : n ≤ p.count = ground arith in
    let loop = read_bytes_lem p.buffer n p.read_idx r in
    let idx : (read_bytes p.buffer p.read_idx n).1 ≡ (p.read_idx + n) % pipe_buffer_size =
      ap (λ t. t.1) loop in
    let bytes : (read_bytes p.buffer p.read_idx n).0 ≡ bytes_from p.buffer p.read_idx n =
      ap (λ t. t.0) loop in
    let p' : Pipe = record p {
      read_idx = (read_bytes p.buffer p.read_idx n).1;
      count = p.count - n;
    } in
    let (q, at) =
      maybe_woken_writer (ltb 0 p'.writers.count && ltb p'.count pipe_buffer_size) i p' st in
    let rest : p.count ≡ n + (p.count - n) = omega arith in
    (
      ground arith,
      (
        ap length bytes ∙ Ring.length-window pipe_buffer_size n p.buffer p.read_idx,
        ap (bytes_from p.buffer p.read_idx) rest
            ∙ Ring.window-add pipe_buffer_size p.buffer p.read_idx n (p.count - n) r
            ∙ ap₂ (◌++◌) (sym bytes)
                (ap (λ j. bytes_from p.buffer j (p.count - n)) (sym idx) ∙ ap content (sym at)),
        subst IsBuffer (sym at) (omega (arith, idx), omega arith, omega (arith, idx)),
      ),
    )

length-take_le : (n : ℕ) (xs : List ℕ) → n ≤ length xs → length (take n xs) ≡ n
length-take_le zero xs h = refl
length-take_le (suc n) [] h = absurd (omega arith)
length-take_le (suc n) (x ∷ xs) h = ap suc (length-take_le n xs (omega arith))

write_some-Appends :
    (i : ℕ) (sent : List ℕ) (st : Pipes)
    → IsBuffer (st.pipes i)
    → let (n, st') = write_some i sent st in
      (n ≡ min (length sent) (pipe_buffer_size - (st.pipes i).count))
      × (content (st'.pipes i) ≡ content (st.pipes i) ++ take n sent)
      × IsBuffer (st'.pipes i)
unfolding write_some
write_some-Appends i sent st (r, c, w) =
    let p = st.pipes i in
    let space = pipe_buffer_size - p.count in
    let n = if ltb (length sent) space then length sent else space in
    let le : (n ≤ length sent) × (n ≤ space) = ground arith in
    let l = length-take_le n sent le.0 in
    let loop = write_bytes_lem (take n sent) p.buffer p.read_idx p.count r (omega (arith, l)) in
    let written = write_bytes p.buffer p.write_idx (take n sent) in
    let p' : Pipe = record p { buffer = written.0; write_idx = written.1; count = p.count + n } in
    let (q, at) = maybe_woken_reader (ltb 0 p'.readers.count && ltb 0 p'.count) i p' st in
    let same : written
        ≡ write_bytes p.buffer ((p.read_idx + p.count) % pipe_buffer_size) (take n sent) =
      ap (λ j. write_bytes p.buffer j (take n sent)) w in
    let e : p.count + length (take n sent) ≡ p.count + n = ap (λ k. p.count + k) l in
    let idx : written.1 ≡ (p.read_idx + (p.count + n)) % pipe_buffer_size =
      ap (λ t. t.1) same ∙ loop.1 ∙ ap (λ k. (p.read_idx + k) % pipe_buffer_size) e in
    (
      ground arith,
      ap content at ∙ ap₂ (λ f k. bytes_from f p.read_idx k) (ap (λ t. t.0) same) (sym e) ∙ loop.0,
      subst IsBuffer (sym at) (r, omega arith, idx),
    )

-- A read from a pipe that holds bytes returns the oldest of them, as many as are asked for or all of
-- them, and the others stay in their order.
pub pipe_read-Takes :
    (i count : ℕ) (st : Pipes)
    → IsBuffer (st.pipes i)
    → 0 < count
    → 0 < (st.pipes i).count
    → let (n, bytes, st') = pipe_read (some i) true count st in
      (n ≡ min count (st.pipes i).count) × Takes n bytes (st.pipes i) (st'.pipes i)
unfolding pipe_read read_at
pipe_read-Takes i count st b asked filled =
    let a : (count == 0) ≡ false = ground arith in
    let f : ((st.pipes i).count == 0) ≡ false = ground arith in
    rw (a, f, pipe_read, read_at) (read_some-Takes i count st b)

-- A write to a pipe with readers and room puts as many bytes as there is room for behind those that
-- the pipe holds, and returns how many.
pub pipe_write-Appends :
    (i : ℕ) (sent : List ℕ) (st : Pipes)
    → IsBuffer (st.pipes i)
    → 0 < length sent
    → 0 < (st.pipes i).open_read
    → (st.pipes i).count < pipe_buffer_size
    → let (n, st') = pipe_write (some i) (some sent) st in
      (n ≡ min (length sent) (pipe_buffer_size - (st.pipes i).count))
      × (content (st'.pipes i) ≡ content (st.pipes i) ++ take n sent)
      × IsBuffer (st'.pipes i)
unfolding pipe_write write_at
pipe_write-Appends i sent st b some_bytes readers room =
    let a : (length sent == 0) ≡ false = ground arith in
    let o : ((st.pipes i).open_read == 0) ≡ false = ground arith in
    let f : leb pipe_buffer_size (st.pipes i).count ≡ false = ground arith in
    rw (a, o, f, pipe_write, write_at) (write_some-Appends i sent st b)
