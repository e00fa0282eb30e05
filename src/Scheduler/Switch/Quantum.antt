-- ===== src/Scheduler/Switch/Quantum.antt =====
-- How many ticks a process keeps the CPU.
use tp2_so_nuevo.Prelude.{
  ℕ, zero, suc, ◌-◌, ◌<◌, ◌≡◌, refl, sym, ap, ◌∙◌, subst, true, List, [], ◌∷◌, some, arith, length,
  ==_refl,
}
use tp2_so_nuevo.Allocator.{Allocator}
use tp2_so_nuevo.Process.Pcb.{is_running, Pcb, Procs}
use tp2_so_nuevo.Scheduler.Switch.{
  age, spend, Machine, tick_from, count_tick, interrupt, scheduler_tick,
}
use tp2_so_nuevo.Scheduler.Switch.Running.{age_current}

-- The process `c` runs with `q` quanta left.
pub record Holds (c q : ℕ) (s : Procs) : Type 0 where
  pub at : s.current ≡ some c
  pub runs : is_running (s.table c).state ≡ true
  pub left : (s.table c).remaining_quanta ≡ q

spend_keeps :
    (p : Pcb) (q : ℕ)
    → is_running p.state ≡ true
    → p.remaining_quanta ≡ suc (suc q)
    → spend p ≡ (record p { remaining_quanta = suc q }, true)
unfolding spend
spend_keeps p q r left = ground arith

module _ (mm : Allocator) where
  -- Timer interrupts one after the other, each with the stack pointer that it finds.
  abbrev pub tick_all : List ℕ → Machine mm → Machine mm
  tick_all [] m = m
  tick_all (rsp ∷ rsps) m = tick_all rsps (scheduler_tick mm rsp m).1

  tick_some :
      (rsp : ℕ) (m : Machine mm) (c : ℕ)
      → m.procs.current ≡ some c
      → scheduler_tick mm rsp m ≡ interrupt mm rsp c (record m { procs = count_tick m.procs })
  unfolding scheduler_tick tick_from
  tick_some rsp m c at =
      ap (λ cur. tick_from mm cur rsp (record m { procs = count_tick m.procs })) at

  interrupt_keeps :
      (rsp c q : ℕ) (m : Machine mm)
      → Holds c (suc (suc q)) m.procs
      → let r = interrupt mm rsp c m in (r.0 ≡ rsp) × Holds c (suc q) r.1.procs
  unfolding interrupt
  interrupt_keeps rsp c q m h =
      rw (spend_keeps (record (m.procs.table c) { rsp = rsp }) q h.runs h.left)
        (refl, record { at = h.at; runs = rw (==_refl c) h.runs; left = rw (==_refl c) refl })

  count_tick-Holds : (c q : ℕ) (s : Procs) → Holds c q s → Holds c q (count_tick s)
  unfolding count_tick
  count_tick-Holds c q s h =
      let same : age s.current s.run_queue s.table c ≡ s.table c =
        ap (λ cur. age cur s.run_queue s.table c) h.at ∙ age_current c s.run_queue s.table in
      record { at = h.at; runs = rw same h.runs; left = rw same h.left }

  tick_keeps :
      (rsp c q : ℕ) (m : Machine mm)
      → Holds c (suc (suc q)) m.procs
      → let r = scheduler_tick mm rsp m in (r.0 ≡ rsp) × Holds c (suc q) r.1.procs
  tick_keeps rsp c q m h =
      subst (λ r. (r.0 ≡ rsp) × Holds c (suc q) r.1.procs) (sym (tick_some rsp m c h.at))
        (interrupt_keeps rsp c q (record m { procs = count_tick m.procs })
          (count_tick-Holds c (suc (suc q)) m.procs h))

  -- A process with `q` quanta left keeps the CPU for any number of ticks below `q`, each of which
  -- takes one.
  pub tick_all-Holds :
      (rsps : List ℕ) (c q : ℕ) (m : Machine mm)
      → length rsps < q
      → Holds c q m.procs
      → Holds c (q - length rsps) (tick_all rsps m).procs
  tick_all-Holds [] c q m few h =
      let none_used : q ≡ q - 0 = omega arith in subst (λ n. Holds c n m.procs) none_used h
  tick_all-Holds (rsp ∷ rsps) c zero m few h = elim few [ ]
  tick_all-Holds (rsp ∷ rsps) c (suc zero) m few h = absurd (omega arith)
  tick_all-Holds (rsp ∷ rsps) c (suc (suc q)) m few h =
      let one_used : suc q - length rsps ≡ suc (suc q) - suc (length rsps) = omega arith in
      subst (λ n. Holds c n (tick_all (rsp ∷ rsps) m).procs) one_used
        (tick_all-Holds rsps c (suc q) (scheduler_tick mm rsp m).1 (omega arith)
          (tick_keeps rsp c q m h).1)
