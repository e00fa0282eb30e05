-- ===== src/WaitQueue/Removal.antt =====
-- `queue_remove_pid` against the list of the waiting PIDs.
use tp2_so_nuevo.Prelude.{
  ℕ, zero, suc, ◌+◌, ◌%◌, ◌≤◌, ◌<◌, ◌≡◌, refl, sym, ap, ap₂, ◌∙◌, Bool, true, false, List, [], ◌∷◌,
  inl, inr, arith, leb, ◌==◌, if◌then◌else◌, length, update, update_same, update_other, Bool-cases,
  absurd_test,
}
use tp2_so_nuevo.Prelude.Ring
use tp2_so_nuevo.Process.Pcb.{max_processes}
use tp2_so_nuevo.WaitQueue.{WaitQueue, keep_others, write_back, queue_remove_pid}
use tp2_so_nuevo.WaitQueue.Fifo.{window, waiting, IsRing}

-- The list without a PID.
abbrev pub without : ℕ → List ℕ → List ℕ
without pid [] = []
without pid (x ∷ xs) = if x == pid then without pid xs else x ∷ without pid xs

abbrev pub member : ℕ → List ℕ → Bool
member pid [] = false
member pid (x ∷ xs) = if x == pid then true else member pid xs

pub length-window : (n : ℕ) (slots : ℕ → ℕ) (i : ℕ) → length (window slots i n) ≡ n
length-window = Ring.length-window max_processes

pub keep_others_lem :
    (slots : ℕ → ℕ) (pid : ℕ) (n i : ℕ)
    → keep_others slots pid i n ≡ (without pid (window slots i n), member pid (window slots i n))
unfolding keep_others
keep_others_lem slots pid zero i = refl
keep_others_lem slots pid (suc n) i = elim (Bool-cases (slots i == pid)) [
  | inl same ↦ rw (same, keep_others_lem slots pid n ((i + 1) % max_processes)) refl
  | inr other ↦ rw (other, keep_others_lem slots pid n ((i + 1) % max_processes)) refl
]

write_back_below :
    (slots : ℕ → ℕ) (i k : ℕ) (xs : List ℕ) → k < i → write_back slots i xs k ≡ slots k
unfolding write_back
write_back_below slots i k [] lt = refl
write_back_below slots i k (x ∷ xs) lt =
    write_back_below (update slots i x) (suc i) k xs (omega arith)
    ∙ update_other slots i k x (omega arith)

-- The copied list is read back.
write_back-window :
    (slots : ℕ → ℕ) (i : ℕ) (xs : List ℕ)
    → i + length xs ≤ max_processes
    → window (write_back slots i xs) (i % max_processes) (length xs) ≡ xs
unfolding write_back
write_back-window slots i [] fit = refl
write_back-window slots i (x ∷ xs) fit =
    let here : i % max_processes ≡ i = omega arith in
    let next : (i % max_processes + 1) % max_processes ≡ suc i % max_processes = omega arith in
    ap₂ (◌∷◌)
      (ap (write_back (update slots i x) (suc i) xs) here
        ∙ write_back_below (update slots i x) (suc i) i xs (omega arith)
        ∙ update_same slots i x)
      (ap (λ j. window (write_back (update slots i x) (suc i) xs) j (length xs)) next
        ∙ write_back-window (update slots i x) (suc i) xs (omega arith))

length-without : (pid : ℕ) (xs : List ℕ) → length (without pid xs) ≤ length xs
length-without pid [] = omega arith
length-without pid (x ∷ xs) = ground (arith, length-without pid xs)

length-without-member :
    (pid : ℕ) (xs : List ℕ) → member pid xs ≡ true → length (without pid xs) < length xs
length-without-member pid [] m = absurd (ground arith)
length-without-member pid (x ∷ xs) m = elim (Bool-cases (x == pid)) [
  | inl same ↦ rw same (omega (arith, length-without pid xs))
  | inr other ↦
      let later = rw other at m in rw other (omega (arith, length-without-member pid xs later))
]

pub without_absent : (pid : ℕ) (xs : List ℕ) → member pid xs ≡ false → without pid xs ≡ xs
without_absent pid [] m = refl
without_absent pid (x ∷ xs) m = elim (Bool-cases (x == pid)) [
  | inl same ↦ let m' = rw same at m in absurd_test m' refl
  | inr other ↦ let m' = rw other at m in rw other (ap (◌∷◌ x) (without_absent pid xs m'))
]

few :
    (pid : ℕ) (xs : List ℕ)
    → member pid xs ≡ true
    → length xs ≤ max_processes
    → length (without pid xs) < max_processes
few pid xs found bound = omega (arith, length-without-member pid xs found)

-- Removing a PID takes it out of the list of the waiting wherever it stands, leaves the others in
-- their order, and tells whether it was there; the queue stays a ring.
pub queue_remove_pid-waiting :
    (q : WaitQueue) (pid : ℕ)
    → IsRing q
    → let (found, q') = queue_remove_pid q pid in
      (found ≡ member pid (waiting q)) × (waiting q' ≡ without pid (waiting q)) × IsRing q'
unfolding queue_remove_pid
queue_remove_pid-waiting q pid ring =
    let fewer : member pid (waiting q) ≡ true → length (without pid (waiting q)) < max_processes =
      λ found.
        few pid (waiting q) found
          (let n = length-window q.count q.slots q.head in omega (arith, n, ring.1)) in
    elim (Bool-cases (leb q.count 0)) [
      | inl empty ↦
          let none_wait : waiting q ≡ [] =
            ap (window q.slots q.head) (let e : q.count ≡ 0 = ground arith in e) in
          rw (empty, none_wait) (refl, refl, ring)
      | inr filled ↦ elim (Bool-cases (member pid (waiting q))) [
        | inl found ↦
            rw (filled, keep_others_lem q.slots pid q.count q.head, found)
              (
                refl,
                write_back-window q.slots 0 (without pid (waiting q)) (omega (arith, fewer found)),
                (omega arith, omega (arith, fewer found), omega (arith, fewer found)),
              )
        | inr absent ↦
            rw (filled, keep_others_lem q.slots pid q.count q.head, absent)
              (refl, sym (without_absent pid (waiting q) absent), ring)
      ]
    ]
