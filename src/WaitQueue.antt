-- ===== src/WaitQueue.antt =====
-- The circular queue of waiting PIDs that semaphores and pipes keep: `queue_pop` and
-- `queue_remove_pid` of Kernel/c/semaphore/semaphore.c, which Kernel/c/pipe/pipe.c repeats.
pub mod Fifo
pub mod Removal
mod Tests
use tp2_so_nuevo.Prelude.{
  ℕ, zero, suc, ◌+◌, ◌-◌, ◌%◌, Bool, true, false, List, [], ◌∷◌, leb, ◌==◌, if◌then◌else◌, length,
  update,
}
use tp2_so_nuevo.Process.Pcb.{max_processes}

pub record WaitQueue : Type 0 where
  pub slots : ℕ → ℕ
  pub head : ℕ
  pub tail : ℕ
  pub count : ℕ

-- Three variables are reset; the array keeps what it holds.
abbrev pub emptied : WaitQueue → WaitQueue
emptied q = record q { head = 0; tail = 0; count = 0 }

-- The write at the tail.
abbrev pub enqueue : WaitQueue → ℕ → WaitQueue
enqueue q pid = record q {
  slots = update q.slots q.tail pid;
  tail = (q.tail + 1) % max_processes;
  count = q.count + 1;
}

pub queue_pop : WaitQueue → ℕ × WaitQueue
queue_pop q =
    (q.slots q.head, record q { head = (q.head + 1) % max_processes; count = q.count - 1 })

-- The loop over the waiting PIDs: those that stay, and whether `pid` was met.
pub keep_others : (ℕ → ℕ) → ℕ → ℕ → ℕ → List ℕ × Bool
keep_others slots pid idx zero = ([], false)
keep_others slots pid idx (suc n) =
    let (kept, found) = keep_others slots pid ((idx + 1) % max_processes) n in
    if slots idx == pid then (kept, true) else (slots idx ∷ kept, found)

-- The loop that copies the list back, from place `i` on.
pub write_back : (ℕ → ℕ) → ℕ → List ℕ → ℕ → ℕ
write_back slots i [] = slots
write_back slots i (x ∷ xs) = write_back (update slots i x) (suc i) xs

pub queue_remove_pid : WaitQueue → ℕ → Bool × WaitQueue
queue_remove_pid q pid =
    if leb q.count 0
    then (false, q)
    else let (kept, found) = keep_others q.slots pid q.head q.count in
      if found
      then (
        true,
        record {
          slots = write_back q.slots 0 kept;
          head = 0;
          tail = length kept;
          count = length kept;
        },
      )
      else (false, q)
