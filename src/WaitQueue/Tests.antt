-- ===== src/WaitQueue/Tests.antt =====
-- The circular queue at a ring that wraps.
use tp2_so_nuevo.Prelude.{◌≡◌, refl, true, [], ◌∷◌, arith, ◌==◌, if◌then◌else◌}
use tp2_so_nuevo.WaitQueue.{WaitQueue, queue_remove_pid}
use tp2_so_nuevo.WaitQueue.Fifo.{IsRing, waiting}
use tp2_so_nuevo.WaitQueue.Removal.{queue_remove_pid-waiting}

abbrev ring : WaitQueue
ring = record {
  slots = λ i. if i == 62 then 7 else if i == 63 then 8 else 9;
  head = 62;
  tail = 1;
  count = 3;
}

ring_holds : waiting ring ≡ 7 ∷ 8 ∷ 9 ∷ []
ring_holds = refl

queue_remove_pid-waiting_example :
    let (found, q) = queue_remove_pid ring 8 in (found ≡ true) × (waiting q ≡ 7 ∷ 9 ∷ []) × IsRing q
queue_remove_pid-waiting_example = queue_remove_pid-waiting ring 8 (omega arith)
