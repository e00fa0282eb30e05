-- ===== src/Memory/FirstFit/Release.antt =====
-- Coalescing: no two free blocks are neighbours, and a release keeps it so.
use tp2_so_nuevo.Prelude.{
  subst, ◌||◌, ℕ, ◌+◌, ◌-◌, ◌%◌, ◌<◌, ◌≡◌, refl, sym, Bool, true, false, [], ◌∷◌, ◌++◌, ℕ_discrete,
  ap, ◌∙◌, inl, inr, arith, leb, ◌==◌, Bool-cases, ==_of_ne, absurd_test,
}
use tp2_so_nuevo.Memory.FirstFit.{
  Block, Heap, header, word, min_split, is_null, align, carve, fits, first_fit, malloc_impl, absorb,
  has_block, mark_free, merge_back, mm_free,
}
use tp2_so_nuevo.Memory.FirstFit.Layout.{Tiles, IsPointer, IsPointer-has_block, mark_free-Tiles}
use tp2_so_nuevo.Memory.FirstFit.Steps.{
  absorb-nil, absorb_used, absorb_free, merge_back_miss, merge_back_used, merge_back_free,
  mark_free_here, mark_free_later,
}

abbrev pub HeadUsed : Heap → Type 0
HeadUsed [] = Unit
HeadUsed (b ∷ bs) = b.is_free ≡ false

-- A free block is followed by a block in use.
abbrev pub Apart : Block → Heap → Type 0
Apart b bs = b.is_free ≡ true → HeadUsed bs

abbrev pub Coalesced : Heap → Type 0
Coalesced [] = Unit
Coalesced (b ∷ bs) = Apart b bs × Coalesced bs

-- What the forward loop makes of a block and the blocks behind it.
record Absorbed (b : Block) (r : Heap) : Type 0 where
  block : Block
  rest : Heap
  shape : r ≡ block ∷ rest
  addr : block.addr ≡ b.addr
  is_free : block.is_free ≡ b.is_free
  head : HeadUsed rest
  tail : Coalesced rest

absorb-Absorbed : (b : Block) (bs : Heap) → Coalesced bs → Absorbed b (absorb b bs)
absorb-Absorbed b [] c = record {
  block = b;
  rest = [];
  shape = absorb-nil b;
  addr = refl;
  is_free = refl;
  head = tt;
  tail = tt;
}
absorb-Absorbed b (n ∷ ns) c = elim (Bool-cases n.is_free) [
  | inl free ↦
      let a = absorb-Absorbed (record b { size = b.size + (header + n.size) }) ns c.1 in
      record {
        block = a.block;
        rest = a.rest;
        shape = absorb_free b n ns free ∙ a.shape;
        addr = a.addr;
        is_free = a.is_free;
        head = a.head;
        tail = a.tail;
      }
  | inr used ↦ record {
    block = b;
    rest = n ∷ ns;
    shape = absorb_used b n ns used;
    addr = refl;
    is_free = refl;
    head = used;
    tail = c;
  }
]

-- The block before the released one keeps its flag.
abbrev HeadIs : Bool → Heap → Type 0
HeadIs f [] = ⊥
HeadIs f (b ∷ bs) = b.is_free ≡ f

merge_back-head : (p : ℕ) (b : Block) (bs : Heap) → HeadIs b.is_free (merge_back p (b ∷ bs))
unfolding merge_back
merge_back-head p b [] = refl
merge_back-head p b (n ∷ ns) = elim (ℕ_discrete n.addr p) [
  | no ne ↦ subst (HeadIs b.is_free) (sym (merge_back_miss p b n ns ne)) refl
  | yes here ↦ elim (Bool-cases b.is_free) [
    | inl free ↦ subst (HeadIs b.is_free) (sym (merge_back_free p b n ns here free)) refl
    | inr used ↦ subst (HeadIs b.is_free) (sym (merge_back_used p b n ns here used)) refl
  ]
]

Apart-of_head : (b n : Block) (r : Heap) → Apart b (n ∷ []) → HeadIs n.is_free r → Apart b r
Apart-of_head b n [] ap h = absurd h
Apart-of_head b n (m ∷ ms) ap h = λ free. h ∙ ap free

merge-Absorbed :
    (p : ℕ) (q n : Block) (r : Heap)
    → Absorbed n r
    → n.addr ≡ p
    → n.is_free ≡ true
    → Coalesced (merge_back p (q ∷ r))
merge-Absorbed p q n r a at free = rw a.shape (elim (Bool-cases q.is_free) [
  | inl open_before ↦
      subst Coalesced (sym (merge_back_free p q a.block a.rest (a.addr ∙ at) open_before))
        ((λ _. a.head), a.tail)
  | inr used ↦
      subst Coalesced (sym (merge_back_used p q a.block a.rest (a.addr ∙ at) used))
        ((λ free. absurd_test used free), ((λ _. a.head), a.tail))
])

merge_back_absent : (p a : ℕ) (h : Heap) (e : ℕ) → Tiles a h e → p < a → merge_back p h ≡ h
unfolding merge_back
merge_back_absent p a [] e t lt = refl
merge_back_absent p a (b ∷ []) e t lt = refl
merge_back_absent p a (b ∷ n ∷ ns) e t lt =
    rw (==_of_ne n.addr p (omega arith))
      (ap (◌∷◌ b) (merge_back_absent p (a + header + b.size) (n ∷ ns) e t.1 (omega arith)))

-- The first block joins no other.
merge_back_first :
    (p a : ℕ) (b : Block) (bs : Heap) (e : ℕ)
    → Tiles a (b ∷ bs) e
    → b.addr ≡ p
    → merge_back p (b ∷ bs) ≡ b ∷ bs
unfolding merge_back
merge_back_first p a b [] e t here = refl
merge_back_first p a b (n ∷ ns) e t here =
    merge_back_miss p b n ns (omega arith)
    ∙ ap (◌∷◌ b) (merge_back_absent p (a + header + b.size) (n ∷ ns) e t.1 (omega arith))

-- With a block before it.
release_behind :
    (p : ℕ) (b : Block) (bs : Heap)
    → Coalesced (b ∷ bs)
    → Coalesced (merge_back p (b ∷ mark_free p bs))
unfolding mark_free merge_back
release_behind p b [] c = c
release_behind p b (n ∷ ns) c = elim (ℕ_discrete n.addr p) [
  | yes here ↦ rw (mark_free_here p n ns here) (
      merge-Absorbed p b (record n { is_free = true }) _
        (absorb-Absorbed (record n { is_free = true }) ns c.1.1) here refl)
  | no ne ↦
      subst Coalesced
        (sym (
          ap (λ r. merge_back p (b ∷ r)) (mark_free_later p n ns ne)
          ∙ merge_back_miss p b n (mark_free p ns) ne))
        (Apart-of_head b n _ c.0 (merge_back-head p n (mark_free p ns)), release_behind p n ns c.1)
]

release_first :
    (p a : ℕ) (b : Block) (bs : Heap) (e : ℕ)
    → Tiles a (b ∷ bs) e
    → Coalesced (b ∷ bs)
    → b.addr ≡ p
    → Coalesced (merge_back p (mark_free p (b ∷ bs)))
release_first p a b bs e t c here =
    let x = absorb-Absorbed (record b { is_free = true }) bs c.1 in
    let tiles : Tiles a (x.block ∷ x.rest) e =
      subst (λ r. Tiles a r e) (mark_free_here p b bs here ∙ x.shape)
        (mark_free-Tiles p (b ∷ bs) a e t) in
    subst Coalesced
      (sym (
        ap (merge_back p) (mark_free_here p b bs here ∙ x.shape)
        ∙ merge_back_first p a x.block x.rest e tiles (omega arith)))
      ((λ _. x.head), x.tail)

no_block : (a : ℕ) → has_block a [] ≡ false
unfolding has_block
no_block a = refl

-- A release of NULL or of a block leaves no two free blocks side by side, if there were none.
pub mm_free-Coalesced :
    (stray : ℕ → Heap → Heap) (ptr : ℕ) (h : Heap) (a e : ℕ)
    → IsPointer ptr h
    → Tiles a h e
    → Coalesced h
    → Coalesced (mm_free stray ptr h)
unfolding mm_free
mm_free-Coalesced stray ptr [] a e ok t c = elim (Bool-cases (ptr == 0)) [
  | inl null ↦ rw null tt
  | inr given ↦ absurd_test (no_block (ptr - header)) (IsPointer-has_block ptr [] given ok)
]
mm_free-Coalesced stray ptr (b ∷ bs) a e ok t c = elim (Bool-cases (ptr == 0)) [
  | inl null ↦ rw null c
  | inr given ↦
      rw (given, IsPointer-has_block ptr (b ∷ bs) given ok)
        (elim (ℕ_discrete b.addr (ptr - header)) [
          | yes here ↦ release_first (ptr - header) a b bs e t c here
          | no ne ↦
              rw (mark_free_later (ptr - header) b bs ne) (release_behind (ptr - header) b bs c)
        ])
]

carve-Coalesced :
    (size : ℕ) (kernel : Bool) (b : Block) (bs : Heap)
    → b.is_free ≡ true
    → Coalesced (b ∷ bs)
    → Coalesced (carve size kernel b ++ bs)
unfolding carve
carve-Coalesced size kernel b bs free c =
    elim (Bool-cases (leb ((size + min_split) % word) b.size)) [
      | inl split ↦ rw split ((λ same. cc), ((λ _. c.0 free), c.1))
      | inr whole ↦ rw whole ((λ same. cc), c.1)
    ]

first_fit-head :
    (size : ℕ) (kernel : Bool) (h : Heap) → HeadUsed h → HeadUsed (first_fit size kernel h).1
unfolding first_fit
first_fit-head size kernel [] u = tt
first_fit-head size kernel (b ∷ bs) u = let skip : fits size b ≡ false = ground arith in simp skip u

first_fit-Coalesced :
    (size : ℕ) (kernel : Bool) (h : Heap) → Coalesced h → Coalesced (first_fit size kernel h).1
unfolding first_fit
first_fit-Coalesced size kernel [] c = tt
first_fit-Coalesced size kernel (b ∷ bs) c = elim (Bool-cases (fits size b)) [
  | inl fit ↦ rw fit (carve-Coalesced size kernel b bs (ground arith) c)
  | inr skip ↦
      rw skip
        ((λ free. first_fit-head size kernel bs (c.0 free)), first_fit-Coalesced size kernel bs c.1)
]

-- Nor does an allocation.
pub malloc_impl-Coalesced :
    (size : ℕ) (kernel : Bool) (h : Heap) → Coalesced h → Coalesced (malloc_impl size kernel h).1
unfolding malloc_impl
malloc_impl-Coalesced size kernel h c = elim (Bool-cases (size == 0 || is_null h)) [
  | inl refused ↦ rw refused c
  | inr asked ↦ rw asked (first_fit-Coalesced (align size) kernel h c)
]
