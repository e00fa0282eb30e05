-- ===== src/Process/Control/Blocking.antt =====
-- `process_block` and `process_unblock`.
use tp2_so_nuevo.Prelude.{ℕ, ◌<◌, ◌≡◌, refl, sym, ap, ◌∙◌, true, false, some, update, update_same}
use tp2_so_nuevo.Process.Pcb.{
  Pcb, Procs, ready, blocked, is_free, is_zombie, is_blocked, max_processes,
}
use tp2_so_nuevo.Process.Control.{
  process_get, block_slot, unblock_slot, process_block, process_unblock,
}
use tp2_so_nuevo.Process.Control.Lookup.{PidsDiffer, process_get_self, process_get-update}

-- A process that a block stops, and an unblock wakes.
abbrev pub IsLive : Pcb → Type 0
IsLive p = (is_free p.state ≡ false) × (is_zombie p.state ≡ false) × (is_blocked p.state ≡ false)

block_slot_live :
    (i : ℕ) (s : Procs)
    → IsLive (s.table i)
    → (block_slot i s).table ≡ update s.table i (record (s.table i) { state = blocked })
unfolding block_slot
block_slot_live i s (f, z, b) = rw (f, z, b) refl

unblock_slot_blocked :
    (i : ℕ) (s : Procs)
    → is_blocked (s.table i).state ≡ true
    → (unblock_slot i s).table
      ≡ update s.table i (record (s.table i) { state = ready; wait_ticks = 0 })
unfolding unblock_slot
unblock_slot_blocked i s b = rw b refl

-- A process that is neither free, a zombie nor blocked is stopped by a block and, by the unblock that
-- follows, made READY with no time waited; nothing else of the table changes.
pub process_unblock-process_block :
    (i : ℕ) (s : Procs)
    → PidsDiffer s.table
    → i < max_processes
    → 0 < (s.table i).pid
    → IsLive (s.table i)
    → let pid = (s.table i).pid in
      let s' = process_block pid s in
      (s'.table ≡ update s.table i (record (s.table i) { state = blocked }))
      × ((process_unblock pid s').table
          ≡ update s'.table i (record (s.table i) { state = ready; wait_ticks = 0 }))
unfolding process_block process_unblock
process_unblock-process_block i s differ lt pos live =
    let found = process_get_self s.table i differ lt live.0 pos in
    let stopped = block_slot_live i s live in
    let p = record (s.table i) { state = blocked } in
    let at : (block_slot i s).table i ≡ p = ap (λ t. t i) stopped ∙ update_same s.table i p in
    let found' : process_get (s.table i).pid (block_slot i s).table ≡ some i =
      ap (process_get (s.table i).pid) stopped
      ∙ process_get-update (s.table i).pid s.table i p refl (sym live.0)
      ∙ found in
    rw (found, found')
      (
        stopped,
        unblock_slot_blocked i (block_slot i s) (ap (λ q. is_blocked q.state) at)
            ∙ ap (λ q. update (block_slot i s).table i (record q { state = ready; wait_ticks = 0 }))
                at,
      )

-- An unblock of a blocked process that its PID finds.
pub process_unblock_blocked :
    (pid i : ℕ) (s : Procs)
    → process_get pid s.table ≡ some i
    → is_blocked (s.table i).state ≡ true
    → (process_unblock pid s).table
      ≡ update s.table i (record (s.table i) { state = ready; wait_ticks = 0 })
unfolding process_unblock
process_unblock_blocked pid i s found b = rw found (unblock_slot_blocked i s b)
