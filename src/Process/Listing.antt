-- ===== src/Process/Listing.antt =====
-- Kernel/c/process/process.c: `process_ps`, the list of the processes for the user.
mod Tests
use tp2_so_nuevo.Prelude.{
  ℕ, zero, suc, ◌-◌, ◌≡◌, refl, ap, ◌∙◌, false, List, [], ◌∷◌, inl, inr, arith, ◌==◌, if◌then◌else◌,
  Bool-cases, length, take, map,
}
use tp2_so_nuevo.Process.Pcb.{
  Pcb, ProcessState, free, ready, running, blocked, zombie, is_free, max_processes,
}

abbrev pub max_name_len : ℕ
max_name_len = 32

-- The view of a process that the user gets.
pub record ProcessInfo : Type 0 where
  pub pid : ℕ
  pub name : List ℕ
  pub priority : ℕ
  pub state : ℕ
  pub foreground : ℕ
  pub rsp : ℕ

abbrev pub state_code : ProcessState → ℕ
state_code free = 0
state_code ready = 1
state_code running = 2
state_code blocked = 3
state_code zombie = 4

pub info : Pcb → ProcessInfo
info p = record {
  pid = p.pid;
  name = take (max_name_len - 1) p.name;
  priority = p.priority;
  state = state_code p.state;
  foreground = p.foreground;
  rsp = p.rsp;
}

-- From slot `i` on, `n` slots, with room for `room` more entries.
pub ps_from : (ℕ → Pcb) → ℕ → ℕ → ℕ → List ProcessInfo
ps_from table i zero room = []
ps_from table i (suc n) room =
    let skipped = ps_from table (suc i) n room in
    let rest = ps_from table (suc i) n (room - 1) in
    if room == 0 then [] else if is_free (table i).state then skipped else info (table i) ∷ rest

-- What stands in `buf`, and the count.
pub process_ps : ℕ → (ℕ → Pcb) → List ProcessInfo × ℕ
process_ps max table = let entries = ps_from table 0 max_processes max in (entries, length entries)

-- The slots in use from `i` on, in the order of the table.
abbrev pub used_from : (ℕ → Pcb) → ℕ → ℕ → List Pcb
used_from table i zero = []
used_from table i (suc n) =
    let rest = used_from table (suc i) n in if is_free (table i).state then rest else table i ∷ rest

ps_from_lem :
    (table : ℕ → Pcb) (i n room : ℕ)
    → ps_from table i n room ≡ take room (map info (used_from table i n))
unfolding ps_from
ps_from_lem table i zero zero = refl
ps_from_lem table i zero (suc room) = refl
ps_from_lem table i (suc n) zero = refl
ps_from_lem table i (suc n) (suc room) =
    let more : (suc room == 0) ≡ false = ground arith in
    let less : suc room - 1 ≡ room = omega arith in
    elim (Bool-cases (is_free (table i).state)) [
      | inl unused ↦ rw (more, unused, ps_from) (ps_from_lem table (suc i) n (suc room))
      | inr used ↦
          rw (more, used, ps_from)
            (ap (◌∷◌ (info (table i)))
              (ap (ps_from table (suc i) n) less ∙ ps_from_lem table (suc i) n room))
    ]

-- The list holds the processes in use in the order of the table, as many as the caller has room for.
pub process_ps_lem :
    (max : ℕ) (table : ℕ → Pcb)
    → (process_ps max table).0 ≡ take max (map info (used_from table 0 max_processes))
unfolding process_ps
process_ps_lem max table = ps_from_lem table 0 max_processes max
