-- ===== src/Scheduler/Switch/Tests.antt =====
-- Runs of ticks and yields, and their theorems at concrete machines.
use tp2_so_nuevo.Prelude.{
  refl, inl, inr, true, false, [], ◌∷◌, none, some, arith, ◌==◌, if◌then◌else◌, update,
}
use tp2_so_nuevo.Process.Pcb.{Procs, blank, ready, running, zombie}
use tp2_so_nuevo.Memory.FirstFit.{Heap}
use tp2_so_nuevo.Memory.FirstFit.Interface.{IsHeap, first_fit_allocator}
use tp2_so_nuevo.Scheduler.{position}
use tp2_so_nuevo.Scheduler.Switch.{Machine, scheduler_tick, scheduler_yield_impl}
use tp2_so_nuevo.Scheduler.Switch.Running.{OneRunning, switch-OneRunning}
use tp2_so_nuevo.Scheduler.Switch.Quantum.{Holds}
use tp2_so_nuevo.Scheduler.Switch.Waiting.{Once}
use tp2_so_nuevo.Scheduler.Switch.Memory.{Reaped, scheduler_yield_impl-Reaped}

abbrev heap : Heap
heap =
    record { addr = 0x600000; size = 4096; is_free = false; is_kernel = true }
    ∷ record { addr = 0x601018; size = 4048; is_free = true; is_kernel = false }
    ∷ []

abbrev procs : Procs
procs = record {
  table = λ i.
      if i == 1
      then record blank {
        pid = 2;
        priority = 3;
        state = running;
        remaining_quanta = 3;
        stack_base = 0x600018;
      }
      else if i == 2
      then record blank { pid = 3; priority = 3; state = ready; wait_ticks = 7 }
      else blank;
  next_pid = 3;
  current = some 1;
  run_queue = 1 ∷ 2 ∷ [];
  queue_idx = 0;
  idle = none;
  force_switch = false;
  ticks = 0;
}

abbrev machine : Machine (first_fit_allocator (λ _ h. h) 0x600000 0x602000)
machine = record { procs = procs; heap = heap }

one_running : OneRunning procs
one_running i e = ground arith

switch-OneRunning_example :
    OneRunning
      (scheduler_tick (first_fit_allocator (λ _ h. h) 0x600000 0x602000) 77 machine).1.procs
    × OneRunning
        (scheduler_yield_impl (first_fit_allocator (λ _ h. h) 0x600000 0x602000) 77 machine).1.procs
switch-OneRunning_example =
    switch-OneRunning (first_fit_allocator (λ _ h. h) 0x600000 0x602000) 77 machine one_running

holds : Holds 1 3 procs
holds = record { at = refl; runs = refl; left = refl }

once : Once 2 (1 ∷ 2 ∷ [])
unfolding position
once = inr (omega arith, inl (refl, refl))

heap-IsHeap : IsHeap 0x600000 0x602000 heap
heap-IsHeap = record {
  end = omega arith;
  tiles = (omega arith, (omega arith, omega arith));
  coalesced = ((λ free. ground arith), ((λ free. tt), tt));
}

-- The current process has exited.
abbrev dying : Machine (first_fit_allocator (λ _ h. h) 0x600000 0x602000)
dying = record machine {
  procs = record procs { table = update procs.table 1 (record (procs.table 1) { state = zombie }) };
}

scheduler_yield_impl-Reaped_example :
    Reaped
      (first_fit_allocator (λ _ h. h) 0x600000 0x602000)
      1
      0x600018
      0
      heap
      (scheduler_yield_impl (first_fit_allocator (λ _ h. h) 0x600000 0x602000) 77 dying).1
scheduler_yield_impl-Reaped_example =
    scheduler_yield_impl-Reaped (first_fit_allocator (λ _ h. h) 0x600000 0x602000) 77 1 1 dying refl
      refl (omega arith) (omega arith) refl
