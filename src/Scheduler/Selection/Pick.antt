-- ===== src/Scheduler/Selection/Pick.antt =====
-- The two passes of `scheduler_next_ready`, for a priority that somebody READY has.
use native.Mathlib.Nat.{mod-lt, mod-eq_of_lt, add-mod_right}
use tp2_so_nuevo.Prelude.{
  ℕ, ◌<◌, ◌≡◌, inl, inr, refl, subst, ◌∙◌, Bool, true, false, List, Option, none, some, arith,
  length, get_or, Option-cases, absurd_test,
}
use tp2_so_nuevo.Process.Pcb.{Pcb, is_ready}
use tp2_so_nuevo.Scheduler.{eff, scan, first_pass, second_pass, choose}
use tp2_so_nuevo.Scheduler.Selection.Scan.{
  Found, scan-Found, scan-none, scan-none_cursor, place_covers,
}
use tp2_so_nuevo.Scheduler.Selection.Highest.{Attains}

-- The process `c` at place `j` is READY and of effective priority `h`, and it is in the foreground
-- if any such process is.
pub record Picks (table : ℕ → Pcb) (h : ℕ) (q : List ℕ) (c j : ℕ) : Type 0 where
  pub inside : j < length q
  pub holds : get_or q j 0 ≡ c
  pub is_ready_now : is_ready (table c).state ≡ true
  pub priority : eff (table c) ≡ h
  pub foreground_first :
      (i : ℕ)
      → i < length q
      → is_ready (table (get_or q i 0)).state ≡ true
      → 0 < (table (get_or q i 0)).foreground
      → eff (table (get_or q i 0)) ≡ h
      → 0 < (table c).foreground

pub first_pass_lem :
    (table : ℕ → Pcb) (h c : ℕ)
    → first_pass table h c ≡ true
    → (is_ready (table c).state ≡ true) × (0 < (table c).foreground) × (eff (table c) ≡ h)
unfolding first_pass eff
first_pass_lem table h c e = (ground arith, ground arith, ground arith)

first_pass_of :
    (table : ℕ → Pcb) (h c : ℕ)
    → is_ready (table c).state ≡ true
    → 0 < (table c).foreground
    → eff (table c) ≡ h
    → first_pass table h c ≡ true
unfolding first_pass eff
first_pass_of table h c r f e = ground arith

pub second_pass_lem :
    (table : ℕ → Pcb) (h c : ℕ)
    → second_pass table h c ≡ true
    → (is_ready (table c).state ≡ true) × (eff (table c) ≡ h)
unfolding second_pass
second_pass_lem table h c e = (ground arith, ground arith)

pub second_pass_of :
    (table : ℕ → Pcb) (h c : ℕ)
    → is_ready (table c).state ≡ true
    → eff (table c) ≡ h
    → second_pass table h c ≡ true
unfolding second_pass
second_pass_of table h c r e = ground arith

-- What a whole round does not find is nowhere in the queue.
pub round_none :
    (test : ℕ → Bool) (q : List ℕ) (idx : ℕ)
    → idx < length q
    → (scan test q (length q) idx).0 ≡ none
    → (i : ℕ) → i < length q
    → test (get_or q i 0) ≡ false
round_none test q idx h e i lt =
    let (k, in_round, at) = place_covers q idx i h lt in
    subst (λ j. test (get_or q j 0) ≡ false) at (scan-none test q (length q) idx e k in_round)

pub round_none_cursor :
    (test : ℕ → Bool) (q : List ℕ) (idx : ℕ)
    → idx < length q
    → (scan test q (length q) idx).0 ≡ none
    → (scan test q (length q) idx).1 ≡ idx
round_none_cursor test q idx h e =
    scan-none_cursor test q (length q) idx h e ∙ add-mod_right idx (length q) ∙ mod-eq_of_lt h

module _ (table : ℕ → Pcb) (h : ℕ) (q : List ℕ) (idx : ℕ) (idle : Option ℕ) where
  abbrev pub first : Option ℕ × ℕ
  first = scan (first_pass table h) q (length q) idx

  abbrev pub second : Option ℕ × ℕ
  second = scan (second_pass table h) q (length q) first.1

  choose_first : (c : ℕ) → first.0 ≡ some c → choose table h q idx idle ≡ (some c, first.1)
  unfolding choose
  choose_first c e = rw (e, choose)

  pub choose_second :
      (c : ℕ) → first.0 ≡ none → second.0 ≡ some c → choose table h q idx idle ≡ (some c, second.1)
  unfolding choose
  choose_second c e f = rw (e, f, choose)

  Found-inside :
      (test : ℕ → Bool) (n c j : ℕ) → idx < length q → Found test q n idx c j → j < length q
  Found-inside test n c j lt f = rw f.stops (mod-lt _ (omega arith))

  abbrev pub Result : Option ℕ × ℕ → Type 0
  Result r = (c : ℕ) × (r.0 ≡ some c) × Picks table h q c r.1

  pick_first : (c : ℕ) → idx < length q → first.0 ≡ some c → Result (choose table h q idx idle)
  pick_first c lt e =
      let f = scan-Found (first_pass table h) q (length q) idx c first.1 (λ i. (e i, first.1)) in
      let (r, fg, p) = first_pass_lem table h c f.passes in
      rw (choose_first c e) (
        c,
        refl,
        record {
          inside = Found-inside (first_pass table h) (length q) c first.1 lt f;
          holds = f.holds;
          is_ready_now = r;
          priority = p;
          foreground_first = λ _ _ _ _ _. fg;
        },
      )

  pick_second :
      (c : ℕ)
      → idx < length q
      → first.0 ≡ none
      → second.0 ≡ some c
      → Result (choose table h q idx idle)
  pick_second c lt e e' =
      let back = round_none_cursor (first_pass table h) q idx lt e in
      let f =
        scan-Found (second_pass table h) q (length q) first.1 c second.1 (λ i. (e' i, second.1)) in
      let (r, p) = second_pass_lem table h c f.passes in
      rw (choose_second c e e') (
        c,
        refl,
        record {
          inside = rw f.stops (mod-lt _ (omega arith));
          holds = f.holds;
          is_ready_now = r;
          priority = p;
          foreground_first = λ i lt' ready fg top.
              absurd_test (round_none (first_pass table h) q idx lt e i lt')
                (first_pass_of table h (get_or q i 0) ready fg top);
        },
      )

  -- Where somebody READY has the priority asked for, one who has it is chosen.
  pub choose-Picks : idx < length q → Attains table h q → Result (choose table h q idx idle)
  choose-Picks lt (i, inside, ready, top) = elim (Option-cases first.0) [
    | inr (c, e) ↦ pick_first c lt e
    | inl e ↦ elim (Option-cases second.0) [
      | inr (c, e') ↦ pick_second c lt e e'
      | inl e' ↦
          let back = round_none_cursor (first_pass table h) q idx lt e in
          absurd_test (round_none (second_pass table h) q first.1 (rw back lt) e' i inside)
            (second_pass_of table h (get_or q i 0) ready top)
    ]
  ]
