-- ===== src/Kernel/Lifecycle/Waking.antt =====
-- The parent that is woken, and what the waking leaves of all processes.
use tp2_so_nuevo.Prelude.{
  ℕ, ◌≡◌, refl, sym, ap, subst, ◌∙◌, true, false, ◌&&◌, Option, none, some, inl, inr, arith, ◌==◌,
  update, update_same, update_other, Bool-cases, absurd_test, ℕ_discrete, ℤ, to_word,
}
use tp2_so_nuevo.Allocator.{Allocator}
use tp2_so_nuevo.Process.Pcb.{Pcb, ready, is_free, is_blocked}
use tp2_so_nuevo.Process.Control.{process_get}
use tp2_so_nuevo.Process.Control.Kept.{Kept}
use tp2_so_nuevo.Kernel.{Kernel}
use tp2_so_nuevo.Kernel.Lifecycle.{saved_rax, wake_parent_slot, wake_parent}

-- What belongs to a process until its slot is given back.
pub record Owned (p q : Pcb) : Type 0 where
  pub pid : q.pid ≡ p.pid
  pub retval : q.retval ≡ p.retval
  pub stack_base : q.stack_base ≡ p.stack_base
  pub argv : q.argv ≡ p.argv
  pub fd_in : q.fd_in ≡ p.fd_in
  pub fd_out : q.fd_out ≡ p.fd_out

Owned-refl : (p : Pcb) → Owned p p
Owned-refl p = record {
  pid = refl;
  retval = refl;
  stack_base = refl;
  argv = refl;
  fd_in = refl;
  fd_out = refl;
}

pub Owned-trans : (p q r : Pcb) → Owned p q → Owned q r → Owned p r
Owned-trans p q r a b = record {
  pid = b.pid ∙ a.pid;
  retval = b.retval ∙ a.retval;
  stack_base = b.stack_base ∙ a.stack_base;
  argv = b.argv ∙ a.argv;
  fd_in = b.fd_in ∙ a.fd_in;
  fd_out = b.fd_out ∙ a.fd_out;
}

pub Kept-Owned : (p q : Pcb) → Kept p q → Owned p q
Kept-Owned p q k = record {
  pid = k.pid;
  retval = k.retval;
  stack_base = k.stack_base;
  argv = k.argv;
  fd_in = k.fd_in;
  fd_out = k.fd_out;
}

module _ (mm : Allocator) where
  -- What the parent in slot `j` sees of a process that ends with this PID and value: it does not wait
  -- any more, and if it was blocked for it, it resumes with the value in RAX.
  pub record Answered (pid : ℕ) (retval : ℤ) (q : Pcb) (j : ℕ) (after : Kernel mm) : Type 0 where
    pub done :
        (is_blocked (after.procs.table j).state && ((after.procs.table j).waiting_for == pid))
        ≡ false
    pub value :
        is_blocked q.state ≡ true
        → q.waiting_for ≡ pid
        → ((after.procs.table j).state ≡ ready)
          × ((after.procs.table j).waiting_for ≡ 0)
          × (after.words (saved_rax q) ≡ to_word retval)
    pub awake : is_blocked q.state ≡ false → after.procs.table j ≡ q

  wake_parent_slot-Answered :
      (pid j : ℕ) (retval : ℤ) (k : Kernel mm)
      → Answered pid retval (k.procs.table j) j (wake_parent_slot mm pid retval (some j) k)
  unfolding wake_parent_slot
  wake_parent_slot-Answered pid j retval k =
      let q = k.procs.table j in
      let p = record q { waiting_for = 0; state = ready; wait_ticks = 0 } in
      let at = update_same k.procs.table j p in
      elim (Bool-cases (is_blocked q.state && (q.waiting_for == pid))) [
        | inl waits ↦ rw waits (record {
          done = ap {A = Pcb} (λ r. is_blocked r.state && (r.waiting_for == pid)) at;
          value = λ b w. (
            ap {A = Pcb} (λ r. r.state) at,
            ap {A = Pcb} (λ r. r.waiting_for) at,
            update_same k.words (saved_rax q) (to_word retval),
          );
          awake = λ no_block.
              let no : (is_blocked q.state && (q.waiting_for == pid)) ≡ false = rw no_block refl in
              absurd_test no waits;
        })
        | inr other ↦ rw other (record {
          done = other;
          value = λ b w.
              let yes_waits : (is_blocked q.state && (q.waiting_for == pid)) ≡ true =
                ground arith in
              absurd_test other yes_waits;
          awake = λ no_block. refl;
        })
      ]

  wake_parent_slot-Owned :
      (pid : ℕ) (retval : ℤ) (o : Option ℕ) (k : Kernel mm) (i : ℕ)
      → Owned (k.procs.table i) ((wake_parent_slot mm pid retval o k).procs.table i)
  unfolding wake_parent_slot
  wake_parent_slot-Owned pid retval none k i = Owned-refl (k.procs.table i)
  wake_parent_slot-Owned pid retval (some j) k i =
      let q = k.procs.table j in
      let p = record q { waiting_for = 0; state = ready; wait_ticks = 0 } in
      elim (Bool-cases (is_blocked q.state && (q.waiting_for == pid))) [
        | inl waits ↦ rw waits (elim (ℕ_discrete j i) [
          | yes e ↦
              subst (λ n. Owned (k.procs.table n) (update k.procs.table j p n)) e
                (subst (Owned q) (sym (update_same k.procs.table j p)) (record {
                  pid = refl;
                  retval = refl;
                  stack_base = refl;
                  argv = refl;
                  fd_in = refl;
                  fd_out = refl;
                }))
          | no ne ↦
              subst (Owned (k.procs.table i)) (sym (update_other k.procs.table j i p ne))
                (Owned-refl (k.procs.table i))
        ])
        | inr other ↦ rw other (Owned-refl (k.procs.table i))
      ]

  pub wake_parent-Answered :
      (pid parent_pid j : ℕ) (retval : ℤ) (k : Kernel mm)
      → process_get parent_pid k.procs.table ≡ some j
      → Answered pid retval (k.procs.table j) j (wake_parent mm pid retval parent_pid k)
  unfolding wake_parent
  wake_parent-Answered pid parent_pid j retval k found =
      rw found (wake_parent_slot-Answered pid j retval k)

  pub wake_parent-Owned :
      (pid parent_pid : ℕ) (retval : ℤ) (k : Kernel mm) (i : ℕ)
      → Owned (k.procs.table i) ((wake_parent mm pid retval parent_pid k).procs.table i)
  unfolding wake_parent
  wake_parent-Owned pid parent_pid retval k i =
      wake_parent_slot-Owned pid retval (process_get parent_pid k.procs.table) k i

  -- All else stays.
  pub record SameRest (k k' : Kernel mm) : Type 0 where
    pub heap : k'.heap ≡ k.heap
    pub sems : k'.sems ≡ k.sems
    pub current : k'.procs.current ≡ k.procs.current
    pub next_pid : k'.procs.next_pid ≡ k.procs.next_pid
    pub run_queue : k'.procs.run_queue ≡ k.procs.run_queue

  wake_parent_slot-SameRest :
      (pid : ℕ) (retval : ℤ) (o : Option ℕ) (k : Kernel mm)
      → SameRest k (wake_parent_slot mm pid retval o k)
  unfolding wake_parent_slot
  wake_parent_slot-SameRest pid retval none k = record {
    heap = refl;
    sems = refl;
    current = refl;
    next_pid = refl;
    run_queue = refl;
  }
  wake_parent_slot-SameRest pid retval (some j) k =
      elim (Bool-cases
        (is_blocked (k.procs.table j).state && ((k.procs.table j).waiting_for == pid))) [
          | inl waits ↦ rw waits (record {
            heap = refl;
            sems = refl;
            current = refl;
            next_pid = refl;
            run_queue = refl;
          })
          | inr other ↦ rw other (record {
            heap = refl;
            sems = refl;
            current = refl;
            next_pid = refl;
            run_queue = refl;
          })
        ]

  pub wake_parent-SameRest :
      (pid parent_pid : ℕ) (retval : ℤ) (k : Kernel mm)
      → SameRest k (wake_parent mm pid retval parent_pid k)
  unfolding wake_parent
  wake_parent-SameRest pid parent_pid retval k =
      wake_parent_slot-SameRest pid retval (process_get parent_pid k.procs.table) k

  wake_parent_slot-is_free :
      (pid : ℕ) (retval : ℤ) (o : Option ℕ) (k : Kernel mm) (i : ℕ)
      → is_free ((wake_parent_slot mm pid retval o k).procs.table i).state
        ≡ is_free (k.procs.table i).state
  unfolding wake_parent_slot
  wake_parent_slot-is_free pid retval none k i = refl
  wake_parent_slot-is_free pid retval (some j) k i =
      let q = k.procs.table j in
      let p = record q { waiting_for = 0; state = ready; wait_ticks = 0 } in
      elim (Bool-cases (is_blocked q.state && (q.waiting_for == pid))) [
        | inl waits ↦
            let used : is_free q.state ≡ false = ground arith in
            rw waits (elim (ℕ_discrete j i) [
              | yes e ↦
                  subst
                    (λ n.
                      is_free (update k.procs.table j p n).state ≡ is_free (k.procs.table n).state)
                    e
                    (ap {A = Pcb} (λ r. is_free r.state) (update_same k.procs.table j p) ∙ sym used)
              | no ne ↦ ap {A = Pcb} (λ r. is_free r.state) (update_other k.procs.table j i p ne)
            ])
        | inr other ↦ rw other refl
      ]

  pub wake_parent-is_free :
      (pid parent_pid : ℕ) (retval : ℤ) (k : Kernel mm) (i : ℕ)
      → is_free ((wake_parent mm pid retval parent_pid k).procs.table i).state
        ≡ is_free (k.procs.table i).state
  unfolding wake_parent
  wake_parent-is_free pid parent_pid retval k i =
      wake_parent_slot-is_free pid retval (process_get parent_pid k.procs.table) k i
