-- ===== src/Kernel/Creation/Created.antt =====
-- `process_create` on all its branches.
use tp2_so_nuevo.Prelude.{
  ℕ, ◌+◌, ◌*◌, ◌/◌, ◌%◌, ◌^◌, ◌<◌, ◌≡◌, refl, sym, ap, ap₂, subst, ◌∙◌, false, List, [], ◌∷◌, ◌++◌,
  Option, none, some, inl, inr, arith, ◌==◌, replicate, update_same, Bool-cases, to_int,
}
use tp2_so_nuevo.Allocator.{Allocator}
use tp2_so_nuevo.Process.Pcb.{Pcb, ready}
use tp2_so_nuevo.Process.Control.Kept.{Kept}
use tp2_so_nuevo.Kernel.{Kernel}
use tp2_so_nuevo.Kernel.Creation.{
  stack_size, strings_size, current_pid, filled, free_slot, start_process, with_args, with_stack,
  set_stack, create_in, create_slot, process_create,
}
use tp2_so_nuevo.Kernel.Creation.Frame.{words_from, build_initial_stack_lem}
use tp2_so_nuevo.Kernel.Creation.Fresh.{
  PidsGiven, PidsGiven-same, set_stack_names, Started, start_process-Started,
}

current_pid-same :
    (o : Option ℕ) (t u : ℕ → Pcb)
    → ((j : ℕ) → (u j).pid ≡ (t j).pid)
    → current_pid o u ≡ current_pid o t
current_pid-same none t u same = refl
current_pid-same (some c) t u same = same c

module _ (mm : Allocator) (trampoline : ℕ) where
  -- PIDs and heap are in order.
  abbrev pub InOrder : Kernel mm → Type 0
  InOrder k = PidsGiven k.procs × mm.IsValid k.heap

  started-InOrder :
      (name : Option (List ℕ)) (entry argc argv fg i : ℕ) (k : Kernel mm)
      → InOrder k
      → k.procs.next_pid + 1 < 2 ^ 64
      → InOrder (start_process mm trampoline name entry argc argv fg i k).1
  started-InOrder name entry argc argv fg i k (given, valid) small =
      let (r, s) = start_process-Started mm trampoline name entry argc argv fg i k given small in
      (s.given, subst mm.IsValid (sym s.heap) valid)

  with_args-InOrder :
      (name : Option (List ℕ)) (entry argc : ℕ) (argv : ℕ → Option (List ℕ)) (fg i : ℕ)
      (r : Option ℕ × mm.Heap) (k : Kernel mm)
      → PidsGiven k.procs
      → mm.IsValid r.1
      → (r.0 ≡ none → mm.IsGranted (k.procs.table i).stack_base r.1)
      → k.procs.next_pid + 1 < 2 ^ 64
      → InOrder (with_args mm trampoline name entry argc argv fg i r k).1
  unfolding with_args
  with_args-InOrder name entry argc argv fg i (none, heap) k given valid held small =
      (given, mm.free-IsValid (k.procs.table i).stack_base heap (held refl) valid)
  with_args-InOrder name entry argc argv fg i (some block, heap) k given valid held small =
      started-InOrder name entry argc block fg i _ (given, valid) small

  with_stack-InOrder :
      (name : Option (List ℕ)) (entry argc : ℕ) (argv : Option (ℕ → Option (List ℕ))) (fg i : ℕ)
      (k : Kernel mm)
      → InOrder k
      → mm.IsGranted (k.procs.table i).stack_base k.heap
      → k.procs.next_pid + 1 < 2 ^ 64
      → InOrder (with_stack mm trampoline name entry argc argv fg i k).1
  unfolding with_stack
  with_stack-InOrder name entry argc none fg i k ok held small =
      started-InOrder name entry argc 0 fg i k ok small
  with_stack-InOrder name entry argc (some argv) fg i k ok held small =
      elim (Bool-cases (argc == 0)) [
        | inl no_args ↦ rw no_args (started-InOrder name entry argc 0 fg i k ok small)
        | inr some_args ↦ rw some_args (
            let size = 8 * (argc + 1) + strings_size argv 0 argc in
            with_args-InOrder name entry argc argv fg i (mm.malloc_kernel size k.heap) k ok.0
              (mm.malloc_kernel-IsValid size k.heap ok.1)
              (λ e. mm.malloc_kernel-keeps size k.heap e (k.procs.table i).stack_base held) small)
      ]

  create_in-InOrder :
      (name : Option (List ℕ)) (entry argc : ℕ) (argv : Option (ℕ → Option (List ℕ))) (fg i : ℕ)
      (r : Option ℕ × mm.Heap) (k : Kernel mm)
      → PidsGiven k.procs
      → mm.IsValid r.1
      → ((base : ℕ) → r.0 ≡ some base → mm.IsGranted base r.1)
      → k.procs.next_pid + 1 < 2 ^ 64
      → InOrder (create_in mm trampoline name entry argc argv fg i r k).1
  unfolding create_in
  create_in-InOrder name entry argc argv fg i (none, heap) k given valid granted small = (
    PidsGiven-same k.procs (set_stack i 0 k.procs) given refl (set_stack_names i 0 k.procs),
    valid,
  )
  create_in-InOrder name entry argc argv fg i (some base, heap) k given valid granted small =
      with_stack-InOrder name entry argc argv fg i _
        (
          PidsGiven-same k.procs (set_stack i base k.procs) given refl
              (set_stack_names i base k.procs),
          valid,
        )
        (subst (λ b. mm.IsGranted b heap)
          (sym (
            ap {A = Pcb} (λ p. p.stack_base)
              (update_same k.procs.table i (record (k.procs.table i) { stack_base = base }))))
          (granted base refl))
        small

  create_slot-InOrder :
      (name : Option (List ℕ)) (entry argc : ℕ) (argv : Option (ℕ → Option (List ℕ))) (fg : ℕ)
      (o : Option ℕ) (k : Kernel mm)
      → InOrder k
      → k.procs.next_pid + 1 < 2 ^ 64
      → InOrder (create_slot mm trampoline name entry argc argv fg o k).1
  unfolding create_slot
  create_slot-InOrder name entry argc argv fg none k ok small = ok
  create_slot-InOrder name entry argc argv fg (some i) k ok small =
      create_in-InOrder name entry argc argv fg i (mm.malloc_kernel stack_size k.heap) k ok.0
        (mm.malloc_kernel-IsValid stack_size k.heap ok.1)
        (λ base e. mm.malloc_kernel-IsGranted stack_size k.heap base e) small

  -- Whether or not there is a slot, a stack and room for the arguments: a creation keeps a valid heap
  -- valid, no two processes in use get one PID, and no PID is above the last one given, as long as
  -- 64 bits hold the next one.
  pub process_create-InOrder :
      (name : Option (List ℕ)) (entry argc : ℕ) (argv : Option (ℕ → Option (List ℕ))) (fg : ℕ)
      (k : Kernel mm)
      → InOrder k
      → k.procs.next_pid + 1 < 2 ^ 64
      → InOrder (process_create mm trampoline name entry argc argv fg k).1
  unfolding process_create
  process_create-InOrder name entry argc argv fg k ok small =
      create_slot-InOrder name entry argc argv fg (free_slot k.procs.table) k ok small

  -- The process in slot `i`, which has its stack at `base`.
  pub record Created (name : Option (List ℕ)) (entry argc argv fg i base : ℕ) (k k' : Kernel mm)
      : Type 0 where
    pub pid : (k'.procs.table i).pid ≡ k.procs.next_pid + 1
    pub parent : (k'.procs.table i).parent_pid ≡ current_pid k.procs.current k.procs.table
    pub descriptors : ((k'.procs.table i).fd_in ≡ some 0) × ((k'.procs.table i).fd_out ≡ some 1)
    pub starts : (fg / 2 % 2 == 1) ≡ false → (k'.procs.table i).state ≡ ready
    pub stack : (k'.procs.table i).rsp + 160 ≡ base + stack_size
    pub frame :
        words_from k'.words (k'.procs.table i).rsp 20
        ≡ replicate 8 0
          ++ (argv ∷ argc ∷ replicate 5 0)
          ++ (trampoline ∷ 0x08 ∷ 0x202 ∷ (base + stack_size) ∷ 0 ∷ [])

  Kept-starts :
      (name : Option (List ℕ)) (entry argc argv fg rsp pid parent : ℕ) (p q : Pcb)
      → Kept (filled name entry argc argv fg rsp pid parent p) q
      → (fg / 2 % 2 == 1) ≡ false
      → q.state ≡ ready
  unfolding filled
  Kept-starts name entry argc argv fg rsp pid parent p q kept plain = elim kept.state [
    | inl e ↦ e ∙ rw plain refl
    | inr (e, f) ↦ f
  ]

  Started-Created :
      (name : Option (List ℕ)) (entry argc argv fg i base : ℕ) (k k' : Kernel mm)
      → (k.procs.table i).stack_base ≡ base
      → Started mm trampoline name entry argc argv fg i k k'
      → Created name entry argc argv fg i base k k'
  unfolding filled
  Started-Created name entry argc argv fg i base k k' at s =
      let top = (k.procs.table i).stack_base + stack_size in
      let top_is : top ≡ base + stack_size = ap (λ b. b + stack_size) at in
      let (place, frame, rest) =
        build_initial_stack_lem top trampoline argc argv k.words (omega arith) in
      record {
        pid = s.slot.pid;
        parent = s.slot.parent_pid;
        descriptors = (s.slot.fd_in, s.slot.fd_out);
        starts =
            Kept-starts name entry argc argv fg _ _ _ (k.procs.table i) (k'.procs.table i) s.slot;
        stack = ap (λ n. n + 160) s.slot.rsp ∙ place ∙ top_is;
        frame =
            ap₂ (λ w a. words_from w a 20) s.words s.slot.rsp
            ∙ frame
            ∙ ap
                (λ t.
                  replicate 8 0
                  ++ (argv ∷ argc ∷ replicate 5 0)
                  ++ (trampoline ∷ 0x08 ∷ 0x202 ∷ t ∷ 0 ∷ []))
                top_is;
      }

  -- A process that is created without arguments, where there is a slot and a stack, the PIDs are
  -- in order and 64 bits hold the next one: it has the next PID, the current process for parent
  -- and the terminal to read and write; it is READY unless `fg` asks for a blocked start; and its
  -- stack holds, 160 bytes below its top, the frame that makes the switch enter the trampoline
  -- with no arguments.
  pub process_create-Created :
      (name : Option (List ℕ)) (entry fg i base : ℕ) (heap : mm.Heap) (k : Kernel mm)
      → PidsGiven k.procs
      → k.procs.next_pid + 1 < 2 ^ 64
      → free_slot k.procs.table ≡ some i
      → mm.malloc_kernel stack_size k.heap ≡ (some base, heap)
      → let (r, k') = process_create mm trampoline name entry 0 none fg k in
        (r ≡ to_int (k.procs.next_pid + 1)) × Created name entry 0 0 fg i base k k'
  unfolding process_create create_slot create_in with_stack
  process_create-Created name entry fg i base heap k given small found granted =
      let s = set_stack i base k.procs in
      let k1 = record k { heap = heap; procs = s } in
      let p = record (k.procs.table i) { stack_base = base } in
      let (r, started) =
        start_process-Started mm trampoline name entry 0 0 fg i k1
          (PidsGiven-same k.procs s given refl (set_stack_names i base k.procs)) small in
      let c =
        Started-Created name entry 0 0 fg i base k1 _
          (ap {A = Pcb} (λ q. q.stack_base) (update_same k.procs.table i p)) started in
      rw (found, granted, create_slot, create_in)
        (
          r,
          record {
            pid = c.pid;
            parent =
                c.parent
                ∙ current_pid-same k.procs.current k.procs.table s.table
                    (λ j. (set_stack_names i base k.procs j).0);
            descriptors = c.descriptors;
            starts = c.starts;
            stack = c.stack;
            frame = c.frame;
          },
        )
