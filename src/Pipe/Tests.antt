-- ===== src/Pipe/Tests.antt =====
-- The theorems on pipes at a pipe whose bytes wrap and at an empty one.
use tp2_so_nuevo.Prelude.{
  ℕ, zero, suc, ◌-◌, ◌≡◌, refl, false, true, [], ◌∷◌, ◌++◌, none, some, arith, ◌==◌, if◌then◌else◌,
  min, take,
}
use tp2_so_nuevo.Process.Pcb.{Pcb, Procs, blank, running}
use tp2_so_nuevo.Process.Control.Lookup.{PidsDiffer}
use tp2_so_nuevo.Pipe.{Pipe, Pipes, pipe_buffer_size, blocked_result, pipe_read, pipe_write}
use tp2_so_nuevo.Pipe.Content.{content, IsBuffer}
use tp2_so_nuevo.Pipe.Transfer.{Takes, pipe_read-Takes, pipe_write-Appends}
use tp2_so_nuevo.Pipe.Blocking.{Waits, pipe_read_blocks}
use tp2_so_nuevo.Pipe.Ends.{zero_pipe, pipe_open}
use tp2_so_nuevo.Pipe.Ends.Naming.{opens_first, names_match_refl}

abbrev wrapped : Pipe
wrapped = record zero_pipe {
  buffer = λ i. if i == 0 then 66 else 65;
  read_idx = 4095;
  write_idx = 1;
  count = 2;
  open_read = 1;
  open_write = 1;
  in_use = true;
  is_named = true;
  opens = 2;
  name = 112 ∷ [];
}

abbrev pipes : ℕ → Pipe
pipes zero = wrapped
pipes (suc i) = record zero_pipe { in_use = true; open_write = 1; open_read = 1 }

abbrev table : ℕ → Pcb
table i = if i == 0 then record blank { pid = 2; priority = 3; state = running } else blank

abbrev procs : Procs
procs = record {
  table = table;
  next_pid = 2;
  current = some 0;
  run_queue = 0 ∷ [];
  queue_idx = 0;
  idle = none;
  force_switch = false;
  ticks = 0;
}

abbrev state : Pipes
state = record { procs = procs; pipes = pipes }

holds : content wrapped ≡ 65 ∷ 66 ∷ []
holds = refl

pipe_read-Takes_example :
    let (n, bytes, st') = pipe_read (some 0) true 1 state in
    (n ≡ min 1 2) × Takes n bytes wrapped (st'.pipes 0)
pipe_read-Takes_example = pipe_read-Takes 0 1 state (omega arith) (omega arith) (omega arith)

pipe_write-Appends_example :
    let (n, st') = pipe_write (some 0) (some (67 ∷ 68 ∷ [])) state in
    (n ≡ min 2 (pipe_buffer_size - 2))
    × (content (st'.pipes 0) ≡ content wrapped ++ take n (67 ∷ 68 ∷ []))
    × IsBuffer (st'.pipes 0)
pipe_write-Appends_example =
    pipe_write-Appends 0 (67 ∷ 68 ∷ []) state (omega arith) (omega arith) (omega arith)
      (omega arith)

table-PidsDiffer : PidsDiffer table
table-PidsDiffer i j hi hj ui uj e = ground arith

pipe_read_blocks_example :
    let (n, bytes, st') = pipe_read (some 1) true 8 state in
    (n ≡ blocked_result) × (bytes ≡ []) × Waits 1 0 state st'
pipe_read_blocks_example =
    pipe_read_blocks 1 0 8 state (omega arith) refl refl refl table-PidsDiffer (omega arith)
      (omega arith) (refl, refl, refl) (omega arith) (omega arith)

opens : (pipe_open (some (112 ∷ [])) state).0 ≡ some 0
opens = opens_first (112 ∷ []) state (names_match_refl (112 ∷ []))
