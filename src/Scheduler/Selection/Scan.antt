-- ===== src/Scheduler/Selection/Scan.antt =====
-- A search round the run queue: what it finds, what it has passed over, and where it stops.
use native.Mathlib.Nat.{mod-eq_of_lt, mod-add-mod, add-mod_right, mod-lt, add-zero}
use tp2_so_nuevo.Prelude.{
  ℕ, zero, suc, ◌+◌, ◌-◌, ◌%◌, ◌<◌, ◌≡◌, refl, sym, ap, ◌∙◌, Bool, true, false, List, none, some,
  inl, inr, arith, get_or, length, Bool-cases, dec_lt,
}
use tp2_so_nuevo.Scheduler.{scan}

-- The place that a search from `idx` looks at after `k` others.
abbrev pub place : List ℕ → ℕ → ℕ → ℕ
place queue idx k = (idx + 1 + k) % length queue

place_next :
    (queue : List ℕ) (idx k : ℕ)
    → place queue ((idx + 1) % length queue) k ≡ place queue idx (suc k)
place_next queue idx k =
    ap (λ t. t % length queue) (omega arith)
    ∙ mod-add-mod (idx + 1) (length queue) (1 + k)
    ∙ ap (λ t. t % length queue) (omega arith)

-- The search stops at the first place, going round, whose process passes.
pub record Found (test : ℕ → Bool) (queue : List ℕ) (n idx c j : ℕ) : Type 0 where
  pub round : ℕ
  pub in_time : round < n
  pub stops : j ≡ place queue idx round
  pub passes : test c ≡ true
  pub holds : get_or queue j 0 ≡ c
  pub before : (k : ℕ) → k < round → test (get_or queue (place queue idx k) 0) ≡ false

-- What fails at the first place and at those after it fails at all.
later_places :
    (test : ℕ → Bool) (queue : List ℕ) (idx : ℕ)
    → test (get_or queue ((idx + 1) % length queue) 0) ≡ false
    → (n : ℕ)
    → ((k : ℕ) → k < n → test (get_or queue (place queue ((idx + 1) % length queue) k) 0) ≡ false)
    → (k : ℕ) → k < suc n
    → test (get_or queue (place queue idx k) 0) ≡ false
later_places test queue idx miss n rest zero h = rw add-zero miss
later_places test queue idx miss n rest (suc k) h =
    rw (← place_next queue idx k) (rest k (omega arith))

pub scan-Found :
    (test : ℕ → Bool) (queue : List ℕ) (n idx c j : ℕ)
    → scan test queue n idx ≡ (some c, j)
    → Found test queue n idx c j
unfolding scan
scan-Found test queue zero idx c j e = cc
scan-Found test queue (suc n) idx c j e =
    elim (Bool-cases (test (get_or queue ((idx + 1) % length queue) 0))) [
      | inl hit ↦
          let e' = rw hit at e in
          record {
            round = 0;
            in_time = omega arith;
            stops = sym (ap (λ t. t.1) e') ∙ ap (λ t. t % length queue) (omega arith);
            passes = ground (arith, hit, e');
            holds = ground (arith, e');
            before = λ k h. elim h [ ];
          }
      | inr miss ↦
          let r = scan-Found test queue n ((idx + 1) % length queue) c j (rw miss at e) in
          record {
            round = suc r.round;
            in_time = omega (arith, r.in_time);
            stops = r.stops ∙ place_next queue idx r.round;
            passes = r.passes;
            holds = r.holds;
            before = later_places test queue idx miss r.round r.before;
          }
    ]

pub scan-none :
    (test : ℕ → Bool) (queue : List ℕ) (n idx : ℕ)
    → (scan test queue n idx).0 ≡ none
    → (k : ℕ) → k < n
    → test (get_or queue (place queue idx k) 0) ≡ false
unfolding scan
scan-none test queue zero idx e k h = elim h [ ]
scan-none test queue (suc n) idx e k h =
    elim (Bool-cases (test (get_or queue ((idx + 1) % length queue) 0))) [
      | inl hit ↦ ground arith
      | inr miss ↦
          later_places test queue idx miss n
            (scan-none test queue n ((idx + 1) % length queue) (rw miss at e)) k h
    ]

-- A search that fails after a whole round leaves the cursor where it was.
pub scan-none_cursor :
    (test : ℕ → Bool) (queue : List ℕ) (n idx : ℕ)
    → idx < length queue
    → (scan test queue n idx).0 ≡ none
    → (scan test queue n idx).1 ≡ (idx + n) % length queue
unfolding scan
scan-none_cursor test queue zero idx h e = rw add-zero (sym (mod-eq_of_lt h))
scan-none_cursor test queue (suc n) idx h e =
    elim (Bool-cases (test (get_or queue ((idx + 1) % length queue) 0))) [
      | inl hit ↦ ground arith
      | inr miss ↦ rw miss (
          scan-none_cursor test queue n ((idx + 1) % length queue) (omega arith) (rw miss at e)
          ∙ mod-add-mod (idx + 1) (length queue) n
          ∙ ap (λ t. t % length queue) (omega arith))
    ]

-- A round of the queue comes by each place.
pub place_covers :
    (queue : List ℕ) (idx j : ℕ)
    → idx < length queue
    → j < length queue
    → (k : ℕ) × (k < length queue) × (place queue idx k ≡ j)
place_covers queue idx j h hj = elim (dec_lt idx j) [
  | yes after ↦
      (j - idx - 1, omega arith, ap (λ t. t % length queue) (omega arith) ∙ mod-eq_of_lt hj)
  | no before ↦ (
    j + length queue - idx - 1,
    omega arith,
    ap (λ t. t % length queue) (omega arith) ∙ add-mod_right j (length queue) ∙ mod-eq_of_lt hj,
  )
]

pub scan_all_fail :
    (test : ℕ → Bool) (queue : List ℕ) (n idx : ℕ)
    → 0 < length queue
    → ((j : ℕ) → j < length queue → test (get_or queue j 0) ≡ false)
    → (scan test queue n idx).0 ≡ none
unfolding scan
scan_all_fail test queue zero idx some_queued fails = refl
scan_all_fail test queue (suc n) idx some_queued fails =
    rw (fails ((idx + 1) % length queue) (mod-lt (idx + 1) some_queued))
      (scan_all_fail test queue n ((idx + 1) % length queue) some_queued fails)

-- The first place that is looked at is the one after the cursor.
pub scan_next :
    (test : ℕ → Bool) (queue : List ℕ) (n idx : ℕ)
    → 0 < n
    → test (get_or queue ((idx + 1) % length queue) 0) ≡ true
    → scan test queue n idx
      ≡ (some (get_or queue ((idx + 1) % length queue) 0), (idx + 1) % length queue)
unfolding scan
scan_next test queue zero idx h hit = elim h [ ]
scan_next test queue (suc n) idx h hit = rw hit
