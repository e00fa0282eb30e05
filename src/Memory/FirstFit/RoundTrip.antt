-- ===== src/Memory/FirstFit/RoundTrip.antt =====
-- A block that is allocated and released at once.
use tp2_so_nuevo.Prelude.{
  ◌||◌, ℕ, ◌+◌, ◌-◌, ◌%◌, ◌≤◌, ◌<◌, ◌≡◌, refl, sym, Bool, true, false, List, [], ◌∷◌, ◌++◌,
  ℕ_discrete, ap, ◌∙◌, some, inl, inr, ◌≢◌, arith, leb, ◌==◌, if◌then◌else◌, Bool-cases, ==_of_ne,
  ==_refl, absurd_test,
}
use tp2_so_nuevo.Memory.FirstFit.Granted.{first_fit-has_block}
use tp2_so_nuevo.Memory.FirstFit.{
  Block, Heap, header, word, min_split, is_null, align, carve, fits, first_fit, malloc_impl, absorb,
  has_block, mark_free, merge_back, mm_free,
}
use tp2_so_nuevo.Memory.FirstFit.Layout.{Tiles, max_end, Tiles-le}
use tp2_so_nuevo.Memory.FirstFit.Steps.{
  absorb-nil, absorb_used, absorb_free, merge_back_miss, merge_back_used, mark_free_here,
  mark_free_later,
}
use tp2_so_nuevo.Memory.FirstFit.Release.{HeadUsed, Coalesced}
use tp2_so_nuevo.Memory.FirstFit.Allocation.{first_fit-Grants, find-le, find}

-- The heap with the owner of the block at `q` set.
retag : ℕ → Bool → Heap → Heap
retag q kernel [] = []
retag q kernel (b ∷ bs) =
    (if b.addr == q then record b { is_kernel = kernel } else b) ∷ retag q kernel bs

-- What `mm_free` and `malloc_impl` decide by: all of a block but its owner.
pub record Shape : Type 0 where
  pub addr : ℕ
  pub size : ℕ
  pub is_free : Bool

abbrev pub shape_of : Block → Shape
shape_of b = record { addr = b.addr; size = b.size; is_free = b.is_free }

abbrev pub shape : Heap → List Shape
shape [] = []
shape (b ∷ bs) = shape_of b ∷ shape bs

shape-retag : (q : ℕ) (kernel : Bool) (h : Heap) → shape (retag q kernel h) ≡ shape h
unfolding retag
shape-retag q kernel [] = refl
shape-retag q kernel (b ∷ bs) = elim (Bool-cases (b.addr == q)) [
  | inl here ↦ simp here (ap (◌∷◌ (shape_of b)) (shape-retag q kernel bs))
  | inr later ↦ simp later (ap (◌∷◌ (shape_of b)) (shape-retag q kernel bs))
]

retag_absent :
    (q : ℕ) (kernel : Bool) (a : ℕ) (h : Heap) (e : ℕ) → Tiles a h e → q < a → retag q kernel h ≡ h
unfolding retag
retag_absent q kernel a [] e t lt = refl
retag_absent q kernel a (b ∷ bs) e t lt =
    simp (==_of_ne b.addr q (omega arith))
      (ap (◌∷◌ b) (retag_absent q kernel (a + header + b.size) bs e t.1 (omega arith)))

absorb-HeadUsed : (b : Block) (bs : Heap) → HeadUsed bs → absorb b bs ≡ b ∷ bs
absorb-HeadUsed b [] u = absorb-nil b
absorb-HeadUsed b (n ∷ ns) u = absorb_used b n ns u

-- Releasing what was carved off a block gives the block back, but for its owner.
mark_free-carve :
    (size : ℕ) (kernel : Bool) (b : Block) (bs : Heap)
    → fits size b ≡ true
    → b.size + header ≤ max_end
    → HeadUsed bs
    → mark_free b.addr (carve size kernel b ++ bs) ≡ record b { is_kernel = kernel } ∷ bs
unfolding carve
mark_free-carve size kernel b bs fit end u =
    elim (Bool-cases (leb ((size + min_split) % word) b.size)) [
      | inl split ↦
          let whole : size + (header + (b.size - size - header)) ≡ b.size = ground arith in
          rw split (
            mark_free_here b.addr _ _ refl
            ∙ absorb_free _ _ bs refl
            ∙ absorb-HeadUsed _ bs u
            ∙ ap (λ c. c ∷ bs) (same_block whole))
      | inr whole ↦ rw whole (
          mark_free_here b.addr _ bs refl
          ∙ absorb-HeadUsed _ bs u
          ∙ ap (λ c. c ∷ bs) (same_block refl))
    ]
  where
    same_block :
        {n : ℕ}
        → n ≡ b.size
        → ◌≡◌ {A = Block}
            (record { addr = b.addr; size = n; is_free = true; is_kernel = kernel })
            (record b { is_kernel = kernel })
    same_block e = ground arith

mark_free-first_fit :
    (size : ℕ) (kernel : Bool) (h : Heap) (a e p : ℕ)
    → e ≤ max_end
    → Tiles a h e
    → Coalesced h
    → (first_fit size kernel h).0 ≡ some p
    → mark_free (p - header) (first_fit size kernel h).1 ≡ retag (p - header) kernel h
unfolding first_fit retag
mark_free-first_fit size kernel [] a e p end t c f = cc
mark_free-first_fit size kernel (b ∷ bs) a e p end t c f = elim (Bool-cases (fits size b)) [
  | inl fit ↦
      let f' = rw fit at f in
      let back : p - header ≡ b.addr = ground arith in
      let beyond = Tiles-le (a + header + b.size) bs e t.1 in
      simp (fit, back, ==_refl)
        (mark_free-carve size kernel b bs fit (omega arith) (c.0 (ground arith))
          ∙ ap (◌∷◌ (record b { is_kernel = kernel }))
              (sym (retag_absent (p - header) kernel (a + header + b.size) bs e t.1 (omega arith))))
  | inr skip ↦
      let f' = rw skip at f in
      let g = first_fit-Grants size kernel bs (a + header + b.size) e p t.1 f' in
      let beyond = find-le (p - header) (a + header + b.size) bs e g.before t.1 g.was in
      let other : b.addr ≢ p - header = omega arith in
      simp (skip, ==_of_ne b.addr (p - header) other)
        (mark_free_later (p - header) b _ other
          ∙ ap (◌∷◌ b)
              (mark_free-first_fit size kernel bs (a + header + b.size) e p end t.1 c.1 f'))
]

-- The block at `q` is free, if there is one.
abbrev AtFree : ℕ → Heap → Type 0
AtFree q [] = Unit
AtFree q (b ∷ bs) = (b.addr ≡ q → b.is_free ≡ true) × AtFree q bs

AtFree-absent : (q a : ℕ) (h : Heap) (e : ℕ) → Tiles a h e → q < a → AtFree q h
AtFree-absent q a [] e t lt = tt
AtFree-absent q a (b ∷ bs) e t lt =
    ((λ at. absurd (omega arith)), AtFree-absent q (a + header + b.size) bs e t.1 (omega arith))

find-AtFree :
    (q a : ℕ) (h : Heap) (e : ℕ) (b : Block)
    → Tiles a h e
    → find q h ≡ some b
    → b.is_free ≡ true
    → AtFree q h
unfolding find
find-AtFree q a [] e b t f free = tt
find-AtFree q a (c ∷ bs) e b t f free = elim (ℕ_discrete c.addr q) [
  | yes here ↦
      let f' = rw (here, ==_refl q) at f in
      ((λ _. ground arith), AtFree-absent q (a + header + c.size) bs e t.1 (omega arith))
  | no ne ↦ (
    (λ at. absurd (ne at)),
    find-AtFree q (a + header + c.size) bs e b t.1 (rw (==_of_ne c.addr q ne) at f) free,
  )
]

AtFree-retag : (q : ℕ) (kernel : Bool) (h : Heap) → AtFree q h → AtFree q (retag q kernel h)
unfolding retag
AtFree-retag q kernel [] f = tt
AtFree-retag q kernel (b ∷ bs) f = elim (Bool-cases (b.addr == q)) [
  | inl here ↦ simp here (f.0, AtFree-retag q kernel bs f.1)
  | inr later ↦ simp later (f.0, AtFree-retag q kernel bs f.1)
]

HeadUsed-retag : (q : ℕ) (kernel : Bool) (h : Heap) → HeadUsed h → HeadUsed (retag q kernel h)
unfolding retag
HeadUsed-retag q kernel [] u = tt
HeadUsed-retag q kernel (b ∷ bs) u = ground arith

Coalesced-retag : (q : ℕ) (kernel : Bool) (h : Heap) → Coalesced h → Coalesced (retag q kernel h)
unfolding retag
Coalesced-retag q kernel [] c = tt
Coalesced-retag q kernel (b ∷ bs) c = elim (Bool-cases (b.addr == q)) [
  | inl here ↦
      simp here ((λ free. HeadUsed-retag q kernel bs (c.0 free)), Coalesced-retag q kernel bs c.1)
  | inr later ↦
      simp later ((λ free. HeadUsed-retag q kernel bs (c.0 free)), Coalesced-retag q kernel bs c.1)
]

-- In a coalesced heap a free block has no free block before it to join.
merge_back-Coalesced : (q : ℕ) (h : Heap) → Coalesced h → AtFree q h → merge_back q h ≡ h
unfolding merge_back
merge_back-Coalesced q [] c f = refl
merge_back-Coalesced q (p ∷ []) c f = refl
merge_back-Coalesced q (p ∷ b ∷ bs) c f = elim (ℕ_discrete b.addr q) [
  | no ne ↦ merge_back_miss q p b bs ne ∙ ap (◌∷◌ p) (merge_back-Coalesced q (b ∷ bs) c.1 f.1)
  | yes here ↦ elim (Bool-cases p.is_free) [
    | inr used ↦ merge_back_used q p b bs here used
    | inl free ↦ absurd_test (c.0 free) (f.1.0 here)
  ]
]

round_trip :
    (q : ℕ) (kernel : Bool) (h h' : Heap)
    → mark_free q h' ≡ retag q kernel h
    → Coalesced h
    → AtFree q h
    → shape (merge_back q (mark_free q h')) ≡ shape h
round_trip q kernel h h' m c f =
    ap (λ r. shape (merge_back q r)) m
    ∙ ap shape (
        merge_back-Coalesced q (retag q kernel h) (Coalesced-retag q kernel h c)
          (AtFree-retag q kernel h f))
    ∙ shape-retag q kernel h

-- In a heap of blocks side by side without free neighbours, releasing at once what was just
-- allocated gives back every block, its place, size and flag, but perhaps for the owner that the
-- block keeps noted.
pub mm_free-malloc_impl :
    (stray : ℕ → Heap → Heap) (size : ℕ) (kernel : Bool) (h : Heap) (a e p : ℕ)
    → e ≤ max_end
    → Tiles a h e
    → Coalesced h
    → (malloc_impl size kernel h).0 ≡ some p
    → shape (mm_free stray p (malloc_impl size kernel h).1) ≡ shape h
unfolding malloc_impl mm_free
mm_free-malloc_impl stray size kernel h a e p end t c f =
    elim (Bool-cases (size == 0 || is_null h)) [
      | inl refused ↦ let f' = rw refused at f in cc
      | inr asked ↦
          let f' = rw asked at f in
          let g = first_fit-Grants (align size) kernel h a e p t f' in
          let given : (p == 0) ≡ false = ==_of_ne p 0 (omega (arith, g.payload)) in
          let here : has_block (p - header) (first_fit (align size) kernel h).1 ≡ true =
            first_fit-has_block (align size) kernel h p f' in
          rw (asked, given, here)
            (round_trip (p - header) kernel h (first_fit (align size) kernel h).1
              (mark_free-first_fit (align size) kernel h a e p end t c f') c
              (find-AtFree (p - header) a h e g.before t g.was g.was_free))
    ]
