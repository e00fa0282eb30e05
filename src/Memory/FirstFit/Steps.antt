-- ===== src/Memory/FirstFit/Steps.antt =====
-- One round of each loop of `mm_free`, by the case that the code takes.
use tp2_so_nuevo.Prelude.{ℕ, ◌+◌, ◌≡◌, refl, true, false, [], ◌∷◌, ◌≢◌, arith, ◌==◌, ==_of_ne}
use tp2_so_nuevo.Memory.FirstFit.{Block, Heap, header, absorb, mark_free, merge_back}

pub absorb-nil : (b : Block) → absorb b [] ≡ b ∷ []
unfolding absorb
absorb-nil b = refl

pub absorb_used : (b n : Block) (ns : Heap) → n.is_free ≡ false → absorb b (n ∷ ns) ≡ b ∷ n ∷ ns
unfolding absorb
absorb_used b n ns used = simp used

pub absorb_free :
    (b n : Block) (ns : Heap)
    → n.is_free ≡ true
    → absorb b (n ∷ ns) ≡ absorb (record b { size = b.size + (header + n.size) }) ns
unfolding absorb
absorb_free b n ns free = simp free

module _ (p : ℕ) (q b : Block) (bs : Heap) where
  pub merge_back_miss : b.addr ≢ p → merge_back p (q ∷ b ∷ bs) ≡ q ∷ merge_back p (b ∷ bs)
  unfolding merge_back
  merge_back_miss ne = simp (==_of_ne b.addr p ne)

  pub merge_back_used : b.addr ≡ p → q.is_free ≡ false → merge_back p (q ∷ b ∷ bs) ≡ q ∷ b ∷ bs
  unfolding merge_back
  merge_back_used here used = let hit : (b.addr == p) ≡ true = ground arith in simp (hit, used)

  pub merge_back_free :
      b.addr ≡ p
      → q.is_free ≡ true
      → merge_back p (q ∷ b ∷ bs) ≡ record q { size = q.size + (header + b.size) } ∷ bs
  unfolding merge_back
  merge_back_free here free = let hit : (b.addr == p) ≡ true = ground arith in simp (hit, free)

pub mark_free_here :
    (p : ℕ) (b : Block) (bs : Heap)
    → b.addr ≡ p
    → mark_free p (b ∷ bs) ≡ absorb (record b { is_free = true }) bs
unfolding mark_free
mark_free_here p b bs here = let hit : (b.addr == p) ≡ true = ground arith in simp hit

pub mark_free_later :
    (p : ℕ) (b : Block) (bs : Heap) → b.addr ≢ p → mark_free p (b ∷ bs) ≡ b ∷ mark_free p bs
unfolding mark_free
mark_free_later p b bs ne = simp (==_of_ne b.addr p ne)
