-- ===== src/Process/Listing/Tests.antt =====
-- The listing of a table of two processes.
use tp2_so_nuevo.Prelude.{ℕ, ◌≡◌, refl, ◌==◌, if◌then◌else◌, take, map}
use tp2_so_nuevo.Process.Pcb.{Pcb, blank, ready, running, max_processes}
use tp2_so_nuevo.Process.Listing.{info, ps_from, process_ps, used_from, process_ps_lem}

abbrev table : ℕ → Pcb
table i =
    if i == 0
    then record blank { pid = 2; state = running }
    else if i == 5
    then record blank { pid = 3; state = ready }
    else blank

counts : (process_ps 8 table).1 ≡ 2
unfolding process_ps ps_from
counts = refl

process_ps_lem_example :
    (process_ps 8 table).0 ≡ take 8 (map info (used_from table 0 max_processes))
process_ps_lem_example = process_ps_lem 8 table
