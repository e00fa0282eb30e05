-- ===== src/WaitQueue/Fifo.antt =====
-- The circular queue as a list, oldest PID first.
use tp2_so_nuevo.Prelude.{
  ℕ, suc, ◌+◌, ◌-◌, ◌%◌, ◌≤◌, ◌<◌, ◌≡◌, refl, ap, ap₂, ◌∙◌, List, [], ◌∷◌, ◌++◌, arith, update,
}
use tp2_so_nuevo.Prelude.Ring
use tp2_so_nuevo.Process.Pcb.{max_processes}
use tp2_so_nuevo.WaitQueue.{WaitQueue, enqueue, queue_pop}

-- The `n` PIDs from place `i` on, going round.
abbrev pub window : (ℕ → ℕ) → ℕ → ℕ → List ℕ
window = Ring.window max_processes

abbrev pub waiting : WaitQueue → List ℕ
waiting q = window q.slots q.head q.count

-- Both ends are inside the array, and the tail is `count` places after the head.
abbrev pub IsRing : WaitQueue → Type 0
IsRing q =
    (q.head < max_processes)
    × (q.count ≤ max_processes)
    × (q.tail ≡ (q.head + q.count) % max_processes)

pub enqueue-IsRing :
    (q : WaitQueue) (pid : ℕ) → IsRing q → q.count < max_processes → IsRing (enqueue q pid)
enqueue-IsRing q pid (h, c, t) room = (h, omega arith, omega arith)

-- What is written at the tail comes last.
pub enqueue-waiting :
    (q : WaitQueue) (pid : ℕ)
    → IsRing q
    → q.count < max_processes
    → waiting (enqueue q pid) ≡ waiting q ++ (pid ∷ [])
enqueue-waiting q pid (h, c, t) room =
    let one : q.count + 1 ≡ suc q.count = omega arith in
    ap₂ (λ j n. window (update q.slots j pid) q.head n) t one
    ∙ Ring.window-write max_processes q.slots q.head q.count pid h room

-- The head is the oldest, and leaves.
pub queue_pop-waiting :
    (q : WaitQueue) → 0 < q.count → waiting q ≡ (queue_pop q).0 ∷ waiting (queue_pop q).1
unfolding queue_pop
queue_pop-waiting q some_wait =
    let e : q.count ≡ suc (q.count - 1) = omega arith in ap (window q.slots q.head) e

pub queue_pop-IsRing : (q : WaitQueue) → 0 < q.count → IsRing q → IsRing (queue_pop q).1
unfolding queue_pop
queue_pop-IsRing q some_wait (h, c, t) = (omega arith, omega arith, omega arith)

pub queue_pop-count : (q : WaitQueue) → (queue_pop q).1.count ≡ q.count - 1
unfolding queue_pop
queue_pop-count q = refl
