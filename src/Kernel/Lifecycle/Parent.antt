-- ===== src/Kernel/Lifecycle/Parent.antt =====
-- What the parent of a process that ends has got.
use tp2_so_nuevo.Prelude.{
  ℕ, ◌+◌, ◌*◌, ◌≡◌, sym, ap, ◌∙◌, true, false, ◌&&◌, inl, inr, ◌==◌, absurd_test, ℤ, to_word,
}
use tp2_so_nuevo.Allocator.{Allocator}
use tp2_so_nuevo.Process.Pcb.{Pcb, ready, is_blocked}
use tp2_so_nuevo.Process.Control.Kept.{Kept}
use tp2_so_nuevo.Kernel.{Kernel}
use tp2_so_nuevo.Kernel.Lifecycle.{saved_rax}
use tp2_so_nuevo.Kernel.Lifecycle.Waking.{Answered}

module _ (mm : Allocator) where
  -- The parent in slot `j`, from the start `k` over the moment `before` it is told, when the
  -- semaphores, the queues and the descriptors are released: it does not wait for this PID any
  -- more. If it was still BLOCKED for it at that moment, it is READY with the value in RAX; if it
  -- was BLOCKED for it at the start but not at that moment, the releases had woken it, and it is
  -- READY as they left it.
  pub record ParentGoesOn (pid : ℕ) (retval : ℤ) (j : ℕ) (k before k' : Kernel mm) : Type 0 where
    pub done :
        (is_blocked (k'.procs.table j).state && ((k'.procs.table j).waiting_for == pid)) ≡ false
    pub value :
        is_blocked (before.procs.table j).state ≡ true
        → (k.procs.table j).waiting_for ≡ pid
        → ((k'.procs.table j).state ≡ ready)
          × ((k'.procs.table j).waiting_for ≡ 0)
          × (k'.words (saved_rax (k.procs.table j)) ≡ to_word retval)
    pub woken :
        is_blocked (k.procs.table j).state ≡ true
        → is_blocked (before.procs.table j).state ≡ false
        → ((k'.procs.table j).state ≡ ready) × (k'.procs.table j ≡ before.procs.table j)

  pub Answered-GoesOn :
      (pid : ℕ) (retval : ℤ) (j : ℕ) (k before k' : Kernel mm)
      → Kept (k.procs.table j) (before.procs.table j)
      → Answered mm pid retval (before.procs.table j) j k'
      → ParentGoesOn pid retval j k before k'
  Answered-GoesOn pid retval j k before k' kept a = record {
    done = a.done;
    value = λ b w.
        let (r, cleared, rax) = a.value b (kept.waiting_for ∙ w) in
        (r, cleared, ap (λ n. k'.words (n + 14 * 8)) (sym kept.rsp) ∙ rax);
    woken = λ was not_now.
        let same = a.awake not_now in
        elim kept.state [
          | inl e ↦ absurd_test not_now (ap is_blocked e ∙ was)
          | inr (_, now) ↦ (ap {A = Pcb} (λ p. p.state) same ∙ now, same)
        ];
  }

  pub GoesOn-ext :
      (pid : ℕ) (retval : ℤ) (j : ℕ) (k before a b : Kernel mm)
      → b.procs.table j ≡ a.procs.table j
      → b.words ≡ a.words
      → ParentGoesOn pid retval j k before a
      → ParentGoesOn pid retval j k before b
  GoesOn-ext pid retval j k before a b slot words h = record {
    done = ap {A = Pcb} (λ p. is_blocked p.state && (p.waiting_for == pid)) slot ∙ h.done;
    value = λ is_b w.
        let (r, cleared, rax) = h.value is_b w in
        (
          ap {A = Pcb} (λ p. p.state) slot ∙ r,
          ap {A = Pcb} (λ p. p.waiting_for) slot ∙ cleared,
          ap (λ (f : ℕ → ℕ). f (saved_rax (k.procs.table j))) words ∙ rax,
        );
    woken = λ was not_now.
        let (r, same) = h.woken was not_now in (ap {A = Pcb} (λ p. p.state) slot ∙ r, slot ∙ same);
  }
