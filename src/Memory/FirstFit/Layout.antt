-- ===== src/Memory/FirstFit/Layout.antt =====
-- How the blocks lie in memory: side by side from the start of the heap to its end.
use tp2_so_nuevo.Prelude.{
  subst, ◌^◌, ◌||◌, ℕ, ◌+◌, ◌-◌, ◌%◌, ◌≤◌, ◌<◌, ◌≡◌, Bool, true, [], ◌∷◌, ◌++◌, inl, inr, arith,
  leb, ◌==◌, Bool-cases, ◌⊎◌, false,
}
use tp2_so_nuevo.Memory.FirstFit.{
  Block, Heap, header, word, min_split, is_null, mm_init, align, carve, fits, first_fit,
  malloc_impl, absorb, has_block, mark_free, merge_back, mm_free,
}

-- The blocks fill the addresses from `a` to `e`, with no gap and no overlap.
abbrev pub Tiles : ℕ → Heap → ℕ → Type 0
Tiles a [] e = a ≡ e
Tiles a (b ∷ bs) e = (b.addr ≡ a) × Tiles (a + header + b.size) bs e

-- Memory ends here at the latest, so that no sum of sizes wraps.
abbrev pub max_end : ℕ
max_end = 2 ^ 63

pub Tiles-le : (a : ℕ) (h : Heap) (e : ℕ) → Tiles a h e → a ≤ e
Tiles-le a [] e t = omega arith
Tiles-le a (b ∷ bs) e t = omega (arith, Tiles-le (a + header + b.size) bs e t.1)

-- A fresh heap fills the memory that it is given.
pub mm_init-Tiles :
    (start size : ℕ) (h : Heap) → header < size → Tiles start (mm_init start size h) (start + size)
unfolding mm_init
mm_init-Tiles start size h big = ground arith

carve-Tiles :
    (size : ℕ) (kernel : Bool) (b : Block) (bs : Heap) (a e : ℕ)
    → size ≤ b.size
    → e ≤ max_end
    → Tiles a (b ∷ bs) e
    → Tiles a (carve size kernel b ++ bs) e
unfolding carve
carve-Tiles size kernel b bs a e le end t =
    let beyond = Tiles-le (a + header + b.size) bs e t.1 in
    elim (Bool-cases (leb ((size + min_split) % word) b.size)) [
      | inl split ↦
          rw split (t.0, (omega arith, subst (λ x. Tiles x bs e) (split_room split beyond) t.1))
      | inr whole ↦ rw whole t
    ]
  where
    split_room :
        leb ((size + min_split) % word) b.size ≡ true
        → a + header + b.size ≤ e
        → a + header + b.size ≡ a + header + size + header + (b.size - size - header)
    split_room split beyond = ground arith

pub fits_le : (size : ℕ) (b : Block) → fits size b ≡ true → size ≤ b.size
fits_le size b h = ground arith

first_fit-Tiles :
    (size : ℕ) (kernel : Bool) (h : Heap) (a e : ℕ)
    → e ≤ max_end
    → Tiles a h e
    → Tiles a (first_fit size kernel h).1 e
unfolding first_fit
first_fit-Tiles size kernel [] a e end t = t
first_fit-Tiles size kernel (b ∷ bs) a e end t = elim (Bool-cases (fits size b)) [
  | inl fit ↦ rw fit (carve-Tiles size kernel b bs a e (fits_le size b fit) end t)
  | inr skip ↦ rw skip (t.0, first_fit-Tiles size kernel bs (a + header + b.size) e end t.1)
]

-- An allocation keeps the blocks side by side over the same memory.
pub malloc_impl-Tiles :
    (size : ℕ) (kernel : Bool) (h : Heap) (a e : ℕ)
    → e ≤ max_end
    → Tiles a h e
    → Tiles a (malloc_impl size kernel h).1 e
unfolding malloc_impl
malloc_impl-Tiles size kernel h a e end t = elim (Bool-cases (size == 0 || is_null h)) [
  | inl refused ↦ rw refused t
  | inr asked ↦ rw asked (first_fit-Tiles (align size) kernel h a e end t)
]

absorb-Tiles : (b : Block) (bs : Heap) (a e : ℕ) → Tiles a (b ∷ bs) e → Tiles a (absorb b bs) e
unfolding absorb
absorb-Tiles b [] a e t = t
absorb-Tiles b (n ∷ ns) a e t = elim (Bool-cases n.is_free) [
  | inl free ↦ rw free (
      absorb-Tiles (record b { size = b.size + (header + n.size) }) ns a e
        (t.0, subst (λ x. Tiles x ns e) (omega arith) t.1.1))
  | inr used ↦ rw used t
]

pub mark_free-Tiles : (p : ℕ) (h : Heap) (a e : ℕ) → Tiles a h e → Tiles a (mark_free p h) e
unfolding mark_free
mark_free-Tiles p [] a e t = t
mark_free-Tiles p (b ∷ bs) a e t = elim (Bool-cases (b.addr == p)) [
  | inl here ↦ rw here (absorb-Tiles (record b { is_free = true }) bs a e t)
  | inr later ↦ rw later (t.0, mark_free-Tiles p bs (a + header + b.size) e t.1)
]

merge_back-Tiles : (p : ℕ) (h : Heap) (a e : ℕ) → Tiles a h e → Tiles a (merge_back p h) e
unfolding merge_back
merge_back-Tiles p [] a e t = t
merge_back-Tiles p (q ∷ []) a e t = t
merge_back-Tiles p (q ∷ b ∷ bs) a e t = elim (Bool-cases (b.addr == p)) [
  | inl here ↦ elim (Bool-cases q.is_free) [
    | inl free ↦ rw (here, free) (t.0, subst (λ x. Tiles x bs e) (omega arith) t.1.1)
    | inr used ↦ rw (here, used) t
  ]
  | inr later ↦ rw later (t.0, merge_back-Tiles p (b ∷ bs) (a + header + q.size) e t.1)
]

-- NULL, or the pointer to a block of the list.
abbrev pub IsPointer : ℕ → Heap → Type 0
IsPointer ptr h = (ptr ≡ 0) ⊎ (has_block (ptr - header) h ≡ true)

pub IsPointer-has_block :
    (ptr : ℕ) (h : Heap) → (ptr == 0) ≡ false → IsPointer ptr h → has_block (ptr - header) h ≡ true
IsPointer-has_block ptr h given (inl null) = absurd (ground arith)
IsPointer-has_block ptr h given (inr here) = here

-- So does a release of NULL or of a block.
pub mm_free-Tiles :
    (stray : ℕ → Heap → Heap) (ptr : ℕ) (h : Heap) (a e : ℕ)
    → IsPointer ptr h
    → Tiles a h e
    → Tiles a (mm_free stray ptr h) e
unfolding mm_free
mm_free-Tiles stray ptr h a e ok t = elim (Bool-cases (ptr == 0)) [
  | inl null ↦ rw null t
  | inr given ↦
      rw (given, IsPointer-has_block ptr h given ok)
        (merge_back-Tiles (ptr - header) (mark_free (ptr - header) h) a e
          (mark_free-Tiles (ptr - header) h a e t))
]
