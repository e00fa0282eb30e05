-- ===== src/Process/Control/Kept.antt =====
-- What the operations on semaphores, pipes and descriptors leave of the processes: at most they wake
-- some, and change which semaphores a process holds.
use tp2_so_nuevo.Prelude.{
  ℕ, ◌≡◌, refl, sym, ap, subst, ◌∙◌, true, Option, none, some, inl, inr, ◌⊎◌, arith, update,
  update_same, update_other, Bool-cases, ℕ_discrete,
}
use tp2_so_nuevo.Prelude.Search.{first_index-ext}
use tp2_so_nuevo.Process.Pcb.{
  ProcessState, Pcb, Procs, ready, blocked, is_free, is_zombie, is_blocked, set_slot,
}
use tp2_so_nuevo.Process.Control.{has_pid, process_get, with_process, unblock_slot, process_unblock}

-- The state is as before, or a blocked process has become READY.
abbrev pub Woken : ProcessState → ProcessState → Type 0
Woken a b = (b ≡ a) ⊎ ((a ≡ blocked) × (b ≡ ready))

pub record Kept (p q : Pcb) : Type 0 where
  pub pid : q.pid ≡ p.pid
  pub name : q.name ≡ p.name
  pub entry : q.entry ≡ p.entry
  pub priority : q.priority ≡ p.priority
  pub remaining_quanta : q.remaining_quanta ≡ p.remaining_quanta
  pub foreground : q.foreground ≡ p.foreground
  pub argc : q.argc ≡ p.argc
  pub retval : q.retval ≡ p.retval
  pub rsp : q.rsp ≡ p.rsp
  pub stack_base : q.stack_base ≡ p.stack_base
  pub argv : q.argv ≡ p.argv
  pub parent_pid : q.parent_pid ≡ p.parent_pid
  pub waiting_for : q.waiting_for ≡ p.waiting_for
  pub fd_in : q.fd_in ≡ p.fd_in
  pub fd_out : q.fd_out ≡ p.fd_out
  pub state : Woken p.state q.state

pub record KeptProcs (s t : Procs) : Type 0 where
  pub slots : (i : ℕ) → Kept (s.table i) (t.table i)
  pub next_pid : t.next_pid ≡ s.next_pid
  pub current : t.current ≡ s.current
  pub run_queue : t.run_queue ≡ s.run_queue
  pub idle : t.idle ≡ s.idle

pub Kept-refl : (p : Pcb) → Kept p p
Kept-refl p = record {
  pid = refl;
  name = refl;
  entry = refl;
  priority = refl;
  remaining_quanta = refl;
  foreground = refl;
  argc = refl;
  retval = refl;
  rsp = refl;
  stack_base = refl;
  argv = refl;
  parent_pid = refl;
  waiting_for = refl;
  fd_in = refl;
  fd_out = refl;
  state = inl refl;
}

Woken_trans : (a b c : ProcessState) → Woken a b → Woken b c → Woken a c
Woken_trans a b c (inl e) (inl f) = inl (f ∙ e)
Woken_trans a b c (inl e) (inr (f, g)) = inr (sym e ∙ f, g)
Woken_trans a b c (inr (e, f)) (inl g) = inr (e, g ∙ f)
Woken_trans a b c (inr (e, f)) (inr (g, h)) = inr (e, h)

pub Kept-trans : (p q r : Pcb) → Kept p q → Kept q r → Kept p r
Kept-trans p q r a b = record {
  pid = b.pid ∙ a.pid;
  name = b.name ∙ a.name;
  entry = b.entry ∙ a.entry;
  priority = b.priority ∙ a.priority;
  remaining_quanta = b.remaining_quanta ∙ a.remaining_quanta;
  foreground = b.foreground ∙ a.foreground;
  argc = b.argc ∙ a.argc;
  retval = b.retval ∙ a.retval;
  rsp = b.rsp ∙ a.rsp;
  stack_base = b.stack_base ∙ a.stack_base;
  argv = b.argv ∙ a.argv;
  parent_pid = b.parent_pid ∙ a.parent_pid;
  waiting_for = b.waiting_for ∙ a.waiting_for;
  fd_in = b.fd_in ∙ a.fd_in;
  fd_out = b.fd_out ∙ a.fd_out;
  state = Woken_trans p.state q.state r.state a.state b.state;
}

pub KeptProcs-refl : (s : Procs) → KeptProcs s s
KeptProcs-refl s = record {
  slots = λ i. Kept-refl (s.table i);
  next_pid = refl;
  current = refl;
  run_queue = refl;
  idle = refl;
}

pub KeptProcs-trans : (s t u : Procs) → KeptProcs s t → KeptProcs t u → KeptProcs s u
KeptProcs-trans s t u a b = record {
  slots = λ i. Kept-trans (s.table i) (t.table i) (u.table i) (a.slots i) (b.slots i);
  next_pid = b.next_pid ∙ a.next_pid;
  current = b.current ∙ a.current;
  run_queue = b.run_queue ∙ a.run_queue;
  idle = b.idle ∙ a.idle;
}

-- A write of a kept PCB to its slot.
pub update-Kept :
    (table : ℕ → Pcb) (i : ℕ) (p : Pcb)
    → Kept (table i) p
    → (j : ℕ) → Kept (table j) (update table i p j)
update-Kept table i p kept j = elim (ℕ_discrete i j) [
  | yes e ↦
      subst (λ k. Kept (table k) (update table i p k)) e
        (subst (Kept (table i)) (sym (update_same table i p)) kept)
  | no ne ↦ subst (Kept (table j)) (sym (update_other table i j p ne)) (Kept-refl (table j))
]

pub set_slot-KeptProcs :
    (i : ℕ) (p : Pcb) (s : Procs) → Kept (s.table i) p → KeptProcs s (set_slot s i p)
set_slot-KeptProcs i p s kept = record {
  slots = update-Kept s.table i p kept;
  next_pid = refl;
  current = refl;
  run_queue = refl;
  idle = refl;
}

pub with_process-KeptProcs :
    (o : Option ℕ) (f : ℕ → Procs → Procs) (s : Procs)
    → ((i : ℕ) → KeptProcs s (f i s))
    → KeptProcs s (with_process o f s)
with_process-KeptProcs none f s h = KeptProcs-refl s
with_process-KeptProcs (some i) f s h = h i

is_blocked-blocked : (st : ProcessState) → is_blocked st ≡ true → st ≡ blocked
is_blocked-blocked st h = ground arith

unblock_slot-KeptProcs : (i : ℕ) (s : Procs) → KeptProcs s (unblock_slot i s)
unfolding unblock_slot
unblock_slot-KeptProcs i s = elim (Bool-cases (is_blocked (s.table i).state)) [
  | inl b ↦ rw b (record {
    slots =
        update-Kept s.table i (record (s.table i) { state = ready; wait_ticks = 0 })
          (record {
            pid = refl;
            name = refl;
            entry = refl;
            priority = refl;
            remaining_quanta = refl;
            foreground = refl;
            argc = refl;
            retval = refl;
            rsp = refl;
            stack_base = refl;
            argv = refl;
            parent_pid = refl;
            waiting_for = refl;
            fd_in = refl;
            fd_out = refl;
            state = inr (is_blocked-blocked (s.table i).state b, refl);
          });
    next_pid = refl;
    current = refl;
    run_queue = refl;
    idle = refl;
  })
  | inr b ↦ rw b (KeptProcs-refl s)
]

pub process_unblock-KeptProcs : (pid : ℕ) (s : Procs) → KeptProcs s (process_unblock pid s)
unfolding process_unblock
process_unblock-KeptProcs pid s =
    with_process-KeptProcs (process_get pid s.table) unblock_slot s
      (λ i. unblock_slot-KeptProcs i s)

pub Kept-is_free : (p q : Pcb) → Kept p q → is_free q.state ≡ is_free p.state
Kept-is_free p q k = elim k.state [
  | inl e ↦ ap is_free e
  | inr (e, f) ↦ ap is_free f ∙ sym (ap is_free e)
]

pub Kept-is_zombie : (p q : Pcb) → Kept p q → is_zombie q.state ≡ is_zombie p.state
Kept-is_zombie p q k = elim k.state [
  | inl e ↦ ap is_zombie e
  | inr (e, f) ↦ ap is_zombie f ∙ sym (ap is_zombie e)
]

-- The search for a PID does not see the difference.
pub Kept-process_get :
    (pid : ℕ) (t u : ℕ → Pcb) → ((i : ℕ) → Kept (t i) (u i)) → process_get pid u ≡ process_get pid t
unfolding process_get
Kept-process_get pid t u kept =
    rw
      (first_index-ext (has_pid u pid) (has_pid t pid) 0 64
        (λ j lt. rw ((kept j).pid, Kept-is_free (t j) (u j) (kept j)) refl))
      refl

-- The same write to a slot before and after.
pub set_slot_mono :
    (i : ℕ) (p q : Pcb) (s t : Procs)
    → KeptProcs s t
    → Kept p q
    → KeptProcs (set_slot s i p) (set_slot t i q)
set_slot_mono i p q s t kept pq = record {
  slots = λ j. elim (ℕ_discrete i j) [
    | yes e ↦
        subst (λ k. Kept (update s.table i p k) (update t.table i q k)) e
          (subst (λ r. Kept r (update t.table i q i)) (sym (update_same s.table i p))
            (subst (Kept p) (sym (update_same t.table i q)) pq))
    | no ne ↦
        subst (λ r. Kept r (update t.table i q j)) (sym (update_other s.table i j p ne))
          (subst (Kept (s.table j)) (sym (update_other t.table i j q ne)) (kept.slots j))
  ];
  next_pid = kept.next_pid;
  current = kept.current;
  run_queue = kept.run_queue;
  idle = kept.idle;
}
