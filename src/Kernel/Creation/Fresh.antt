-- ===== src/Kernel/Creation/Fresh.antt =====
-- The PIDs that `process_create` gives.
use tp2_so_nuevo.Prelude.{
  ℕ, ◌+◌, ◌%◌, ◌^◌, ◌≤◌, ◌<◌, ◌≡◌, ◌≢◌, refl, sym, ap, subst, ◌∙◌, false, List, Option, arith,
  update, update_same, update_other, ℕ_discrete, to_int,
}
use native.Mathlib.Nat.{mod-eq_of_lt}
use tp2_so_nuevo.Allocator.{Allocator}
use tp2_so_nuevo.Process.Pcb.{Pcb, Procs, is_free, max_processes, set_slot}
use tp2_so_nuevo.Process.Control.Lookup.{PidsDiffer, SameName}
use tp2_so_nuevo.Process.Control.Kept.{Kept, KeptProcs-trans, Kept-is_free}
use tp2_so_nuevo.Scheduler.{scheduler_add}
use tp2_so_nuevo.Scheduler.Queue.{add-table, add-next_pid}
use tp2_so_nuevo.Fd.{fd_incref}
use tp2_so_nuevo.Fd.Kept.{fd_incref-KeptProcs}
use tp2_so_nuevo.Kernel.{Kernel, fds_of, with_fds}
use tp2_so_nuevo.Kernel.Creation.{
  stack_size, build_initial_stack, current_pid, filled, start_process, set_stack,
}

-- No two processes have the same PID, and no PID is above the last one given.
pub record PidsGiven (s : Procs) : Type 0 where
  pub differ : PidsDiffer s.table
  pub below :
      (i : ℕ) → i < max_processes → is_free (s.table i).state ≡ false → (s.table i).pid ≤ s.next_pid

-- The names stay but for one new PID.
PidsGiven-new :
    (i : ℕ) (s t : Procs)
    → PidsGiven s
    → (t.table i).pid ≡ s.next_pid + 1
    → t.next_pid ≡ s.next_pid + 1
    → ((j : ℕ) → i ≢ j → SameName (s.table j) (t.table j))
    → PidsGiven t
PidsGiven-new i s t given pid next names = record {
  differ = λ j k jlt klt jused kused same. elim (ℕ_discrete i j) [
    | yes ij ↦ elim (ℕ_discrete i k) [
      | yes ik ↦ sym ij ∙ ik
      | no ik ↦
          let (name, in_use) = names k ik in
          let old = given.below k klt (sym in_use ∙ kused) in
          let new : (t.table j).pid ≡ s.next_pid + 1 =
            subst (λ n. (t.table n).pid ≡ s.next_pid + 1) ij pid in
          absurd (omega arith)
    ]
    | no ij ↦
        let (name, in_use) = names j ij in
        let old = given.below j jlt (sym in_use ∙ jused) in
        elim (ℕ_discrete i k) [
          | yes ik ↦
              let new : (t.table k).pid ≡ s.next_pid + 1 =
                subst (λ n. (t.table n).pid ≡ s.next_pid + 1) ik pid in
              absurd (omega arith)
          | no ik ↦
              let (name', in_use') = names k ik in
              given.differ j k jlt klt (sym in_use ∙ jused) (sym in_use' ∙ kused)
                (sym name ∙ same ∙ name')
        ]
  ];
  below = λ j jlt jused. elim (ℕ_discrete i j) [
    | yes ij ↦
        let new : (t.table j).pid ≡ s.next_pid + 1 =
          subst (λ n. (t.table n).pid ≡ s.next_pid + 1) ij pid in
        omega arith
    | no ij ↦
        let (name, in_use) = names j ij in
        let old = given.below j jlt (sym in_use ∙ jused) in omega arith
  ];
}

-- All names stay.
pub PidsGiven-same :
    (s t : Procs)
    → PidsGiven s
    → t.next_pid ≡ s.next_pid
    → ((j : ℕ) → SameName (s.table j) (t.table j))
    → PidsGiven t
PidsGiven-same s t given next names = record {
  differ = λ j k jlt klt jused kused same.
      given.differ j k jlt klt (sym (names j).1 ∙ jused) (sym (names k).1 ∙ kused)
        (sym (names j).0 ∙ same ∙ (names k).0);
  below = λ j jlt jused.
      let old = given.below j jlt (sym (names j).1 ∙ jused) in
      let name = (names j).0 in omega arith;
}

pub set_stack_names :
    (i base : ℕ) (s : Procs) (j : ℕ) → SameName (s.table j) ((set_stack i base s).table j)
set_stack_names i base s j =
    let p = record (s.table i) { stack_base = base } in
    elim (ℕ_discrete i j) [
      | yes e ↦
          subst (λ k. SameName (s.table k) (update s.table i p k)) e
            (
              ap {A = Pcb} (λ q. q.pid) (update_same s.table i p),
              ap {A = Pcb} (λ q. is_free q.state) (update_same s.table i p),
            )
      | no ne ↦ (
        ap {A = Pcb} (λ q. q.pid) (update_other s.table i j p ne),
        ap {A = Pcb} (λ q. is_free q.state) (update_other s.table i j p ne),
      )
    ]

filled_pid :
    (name : Option (List ℕ)) (entry argc argv fg rsp pid parent : ℕ) (p : Pcb)
    → (filled name entry argc argv fg rsp pid parent p).pid ≡ pid
unfolding filled
filled_pid name entry argc argv fg rsp pid parent p = refl

module _ (mm : Allocator) (trampoline : ℕ) where
  -- What the new process is.
  pub record Started (name : Option (List ℕ)) (entry argc argv fg i : ℕ) (k k' : Kernel mm)
      : Type 0 where
    pub slot :
        let top = (k.procs.table i).stack_base + stack_size in
        Kept
          (filled name entry argc argv fg
            (build_initial_stack top trampoline argc argv k.words).0
            (k.procs.next_pid + 1)
            (current_pid k.procs.current k.procs.table)
            (k.procs.table i))
          (k'.procs.table i)
    pub words :
        let top = (k.procs.table i).stack_base + stack_size in
        k'.words ≡ (build_initial_stack top trampoline argc argv k.words).1
    pub heap : k'.heap ≡ k.heap
    pub given : PidsGiven k'.procs

  pub start_process-Started :
      (name : Option (List ℕ)) (entry argc argv fg i : ℕ) (k : Kernel mm)
      → PidsGiven k.procs
      → k.procs.next_pid + 1 < 2 ^ 64
      → let (r, k') = start_process mm trampoline name entry argc argv fg i k in
        (r ≡ to_int (k.procs.next_pid + 1)) × Started name entry argc argv fg i k k'
  unfolding start_process
  start_process-Started name entry argc argv fg i k given small =
      let p = k.procs.table i in
      let top = p.stack_base + stack_size in
      let (rsp, words) = build_initial_stack top trampoline argc argv k.words in
      let wrap : (k.procs.next_pid + 1) % 2 ^ 64 ≡ k.procs.next_pid + 1 = mod-eq_of_lt small in
      let parent = current_pid k.procs.current k.procs.table in
      let q = filled name entry argc argv fg rsp (k.procs.next_pid + 1) parent p in
      let q' = filled name entry argc argv fg rsp ((k.procs.next_pid + 1) % 2 ^ 64) parent p in
      let s = record (set_slot k.procs i q') { next_pid = (k.procs.next_pid + 1) % 2 ^ 64 } in
      let k1 = record k { words = words; procs = s } in
      let st = fds_of mm k1 in
      let k2 = with_fds mm k1 (fd_incref 1 (fd_incref 0 st)) in
      let kept =
        KeptProcs-trans s (fd_incref 0 st).pipes.procs k2.procs (fd_incref-KeptProcs 0 st)
          (fd_incref-KeptProcs 1 (fd_incref 0 st)) in
      let t = scheduler_add i k2.procs in
      let table : t.table ≡ k2.procs.table = add-table i k2.procs in
      let at : s.table i ≡ q' = update_same k.procs.table i q' in
      let slot : Kept q (t.table i) =
        subst (λ (u : ℕ → Pcb). Kept q (u i)) (sym table)
          (subst (λ r. Kept r (k2.procs.table i))
            (at ∙ ap (λ n. filled name entry argc argv fg rsp n parent p) wrap) (kept.slots i)) in
      (
        ap to_int wrap,
        record {
          slot = slot;
          words = refl;
          heap = refl;
          given =
              PidsGiven-new i k.procs t given
                (slot.pid ∙ filled_pid name entry argc argv fg rsp (k.procs.next_pid + 1) parent p)
                (add-next_pid i k2.procs ∙ kept.next_pid ∙ wrap)
                (λ j ne.
                  subst (λ (u : ℕ → Pcb). SameName (k.procs.table j) (u j)) (sym table)
                    (subst (λ r. SameName r (k2.procs.table j))
                      (update_other k.procs.table i j q' ne)
                      ((kept.slots j).pid, Kept-is_free _ _ (kept.slots j))));
        },
      )
