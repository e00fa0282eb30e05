-- ===== src/Kernel/Creation.antt =====
-- Kernel/c/process/process.c: the process table at the start, and the creation of a process.
pub mod Frame
pub mod Arguments
pub mod Fresh
pub mod Created
use tp2_so_nuevo.Prelude.{
  ℕ, zero, suc, ◌+◌, ◌-◌, ◌*◌, ◌/◌, ◌%◌, ◌^◌, false, List, [], ◌∷◌, Option, none, some, ltb, leb,
  ◌&&◌, ◌==◌, if◌then◌else◌, length, take, update, first_index, ==_refl, ==→≡, ==_of_ne, ℤ, pos,
  negsuc, to_int,
}
use tp2_so_nuevo.Allocator.{Allocator}
use tp2_so_nuevo.Process.Pcb.{
  Pcb, Procs, free, ready, blocked, is_free, max_processes, default_priority, blank, set_slot,
}
use tp2_so_nuevo.Process.Listing.{max_name_len}
use tp2_so_nuevo.Scheduler.{scheduler_add}
use tp2_so_nuevo.Fd.{fd_incref}
use tp2_so_nuevo.Kernel.{Kernel, fds_of, with_fds, with_procs}

abbrev pub stack_size : ℕ
stack_size = 4 * 1024

pub process_init : Procs → Procs
process_init s = record s {
  table = λ i. if ltb i max_processes then blank else s.table i;
  next_pid = 0;
  current = none;
}

-- `*(--sp) = value`, for one value after the other: the new `sp` and the memory.
pub push_all : List ℕ → ℕ → (ℕ → ℕ) → ℕ × (ℕ → ℕ)
push_all [] sp words = (sp, words)
push_all (v ∷ vs) sp words = push_all vs (sp - 8) (update words (sp - 8) v)

-- The five words of the processor from SS to RIP, then RAX, RBX, RCX, RDX, RBP, RDI, RSI and R8 to
-- R15.
abbrev pub initial_frame : ℕ → ℕ → ℕ → ℕ → List ℕ
initial_frame top entry argc argv =
    0 ∷ top ∷ 0x202 ∷ 0x08 ∷ entry ∷ 0 ∷ 0 ∷ 0 ∷ 0 ∷ 0 ∷ argc ∷ argv ∷ 0 ∷ 0 ∷ 0 ∷ 0 ∷ 0 ∷ 0 ∷ 0 ∷ 0
    ∷ []

pub build_initial_stack : ℕ → ℕ → ℕ → ℕ → (ℕ → ℕ) → ℕ × (ℕ → ℕ)
build_initial_stack top entry argc argv words =
    push_all (initial_frame top entry argc argv) top words

-- The strings of `argv[i]` and the `n - 1` entries behind it, each with its NUL.
pub strings_size : (ℕ → Option (List ℕ)) → ℕ → ℕ → ℕ
strings_size argv i zero = 0
strings_size argv i (suc n) =
    let rest = strings_size argv (i + 1) n in
    elim (argv i) [ none ↦ rest | some s ↦ length s + 1 + rest ]

-- `memcpy` of a string and its NUL.
pub write_string : List ℕ → ℕ → (ℕ → ℕ) → ℕ → ℕ
write_string [] at bytes = update bytes at 0
write_string (c ∷ cs) at bytes = write_string cs (at + 1) (update bytes at c)

-- A pointer is written as its eight bytes, the lowest first.
pub store_word : ℕ → ℕ → (ℕ → ℕ) → ℕ → ℕ
store_word at v bytes a = if leb at a && ltb a (at + 8) then v / 256 ^ (a - at) % 256 else bytes a

-- The loop that copies entry `i` and the `n - 1` entries behind it, into one memory of bytes: strings
-- to `pool`, pointers to the block.
pub copy_args : ℕ → (ℕ → Option (List ℕ)) → ℕ → ℕ → ℕ → (ℕ → ℕ) → ℕ → ℕ
copy_args block argv i zero pool bytes = bytes
copy_args block argv i (suc n) pool bytes = elim (argv i) [
  | none ↦ copy_args block argv (i + 1) n pool (store_word (block + 8 * i) 0 bytes)
  | some s ↦
      copy_args block argv (i + 1) n (pool + (length s + 1))
        (store_word (block + 8 * i) pool (write_string s pool bytes))
]

-- A name of no characters becomes "?".
pub process_name : Option (List ℕ) → List ℕ
process_name none = b'?' ∷ []
process_name (some []) = b'?' ∷ []
process_name (some (c ∷ cs)) = take (max_name_len - 1) (c ∷ cs)

abbrev pub current_pid : Option ℕ → (ℕ → Pcb) → ℕ
current_pid none table = 0
current_pid (some c) table = (table c).pid

-- The PCB of the new process, over what its slot holds.
pub filled : Option (List ℕ) → ℕ → ℕ → ℕ → ℕ → ℕ → ℕ → ℕ → Pcb → Pcb
filled name entry argc argv fg rsp pid parent p = record p {
  name = process_name name;
  entry = entry;
  priority = default_priority;
  remaining_quanta = default_priority;
  wait_ticks = 0;
  state = if fg / 2 % 2 == 1 then blocked else ready;
  foreground = fg;
  rsp = rsp;
  pid = pid;
  fd_in = some 0;
  fd_out = some 1;
  parent_pid = parent;
  waiting_for = 0;
  argc = argc;
  argv = argv;
  retval = pos 0;
  held_sems = λ _. false;
  opened_sems = λ _. false;
}

abbrev pub free_slot : (ℕ → Pcb) → Option ℕ
free_slot table = first_index (λ i. is_free (table i).state) 0 max_processes

abbrev pub set_stack : ℕ → ℕ → Procs → Procs
set_stack i base s = set_slot s i (record (s.table i) { stack_base = base })

-- `trampoline` is the address of `process_trampoline`.
module _ (mm : Allocator) (trampoline : ℕ) where
  -- The PCB is filled, the terminal opened twice, and the process queued.
  pub start_process : Option (List ℕ) → ℕ → ℕ → ℕ → ℕ → ℕ → Kernel mm → ℤ × Kernel mm
  start_process name entry argc argv fg i k =
      let p = k.procs.table i in
      let top = p.stack_base + stack_size in
      let (rsp, words) = build_initial_stack top trampoline argc argv k.words in
      let pid = (k.procs.next_pid + 1) % 2 ^ 64 in
      let parent = current_pid k.procs.current k.procs.table in
      let s = set_slot k.procs i (filled name entry argc argv fg rsp pid parent p) in
      let k1 = record k { words = words; procs = record s { next_pid = pid } } in
      let k2 = with_fds mm k1 (fd_incref 1 (fd_incref 0 (fds_of mm k1))) in
      (to_int pid, with_procs mm k2 (scheduler_add i k2.procs))

  -- The arguments are copied behind the pointers to them; `block` is what was allocated.
  pub with_args :
      Option (List ℕ)
      → ℕ
      → ℕ
      → (ℕ → Option (List ℕ))
      → ℕ
      → ℕ
      → Option ℕ × mm.Heap
      → Kernel mm
      → ℤ × Kernel mm
  with_args name entry argc argv fg i (none, heap) k =
      (negsuc 0, record k { heap = mm.free (k.procs.table i).stack_base heap })
  with_args name entry argc argv fg i (some block, heap) k =
      let bytes = copy_args block argv 0 argc (block + 8 * (argc + 1)) k.bytes in
      start_process name entry argc block fg i
        (record k { heap = heap; bytes = store_word (block + 8 * argc) 0 bytes })

  pub with_stack :
      Option (List ℕ) → ℕ → ℕ → Option (ℕ → Option (List ℕ)) → ℕ → ℕ → Kernel mm → ℤ × Kernel mm
  with_stack name entry argc none fg i k = start_process name entry argc 0 fg i k
  with_stack name entry argc (some argv) fg i k =
      let size = 8 * (argc + 1) + strings_size argv 0 argc in
      let copied = with_args name entry argc argv fg i (mm.malloc_kernel size k.heap) k in
      if argc == 0 then start_process name entry argc 0 fg i k else copied

  -- The stack is noted in the slot even if there is none.
  pub create_in :
      Option (List ℕ)
      → ℕ
      → ℕ
      → Option (ℕ → Option (List ℕ))
      → ℕ
      → ℕ
      → Option ℕ × mm.Heap
      → Kernel mm
      → ℤ × Kernel mm
  create_in name entry argc argv fg i (none, heap) k =
      (negsuc 0, record k { heap = heap; procs = set_stack i 0 k.procs })
  create_in name entry argc argv fg i (some base, heap) k =
      with_stack name entry argc argv fg i
        (record k { heap = heap; procs = set_stack i base k.procs })

  pub create_slot :
      Option (List ℕ)
      → ℕ
      → ℕ
      → Option (ℕ → Option (List ℕ))
      → ℕ
      → Option ℕ
      → Kernel mm
      → ℤ × Kernel mm
  create_slot name entry argc argv fg none k = (negsuc 0, k)
  create_slot name entry argc argv fg (some i) k =
      create_in name entry argc argv fg i (mm.malloc_kernel stack_size k.heap) k

  pub process_create :
      Option (List ℕ) → ℕ → ℕ → Option (ℕ → Option (List ℕ)) → ℕ → Kernel mm → ℤ × Kernel mm
  process_create name entry argc argv fg k =
      create_slot name entry argc argv fg (free_slot k.procs.table) k
