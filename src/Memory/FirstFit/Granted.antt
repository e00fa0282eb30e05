-- ===== src/Memory/FirstFit/Granted.antt =====
-- The pointers that first fit hands out.
use tp2_so_nuevo.Prelude.{
  ℕ, ◌+◌, ◌-◌, ◌%◌, ◌≡◌, refl, ap, subst, Bool, true, ◌||◌, [], ◌∷◌, ◌++◌, none, some, inl, inr,
  arith, leb, ◌==◌, Bool-cases, ==_refl,
}
use tp2_so_nuevo.Memory.FirstFit.{
  Block, Heap, header, word, min_split, is_null, align, carve, fits, first_fit, malloc_impl,
  has_block,
}

has_block-carve :
    (size : ℕ) (kernel : Bool) (b : Block) (bs : Heap)
    → has_block b.addr (carve size kernel b ++ bs) ≡ true
unfolding has_block carve
has_block-carve size kernel b bs = elim (Bool-cases (leb ((size + min_split) % word) b.size)) [
  | inl split ↦ rw (split, ==_refl b.addr) refl
  | inr whole ↦ rw (whole, ==_refl b.addr) refl
]

has_block_later :
    (a : ℕ) (b : Block) (bs : Heap) → has_block a bs ≡ true → has_block a (b ∷ bs) ≡ true
unfolding has_block
has_block_later a b bs h = elim (Bool-cases (b.addr == a)) [
  | inl here ↦ rw here refl
  | inr later ↦ rw later h
]

pub first_fit-has_block :
    (size : ℕ) (kernel : Bool) (h : Heap) (p : ℕ)
    → (first_fit size kernel h).0 ≡ some p
    → has_block (p - header) (first_fit size kernel h).1 ≡ true
unfolding first_fit
first_fit-has_block size kernel [] p e = absurd (ground arith)
first_fit-has_block size kernel (b ∷ bs) p e = elim (Bool-cases (fits size b)) [
  | inl fit ↦
      let same : some (b.addr + header) ≡ some p = rw fit at e in
      let at : b.addr + header ≡ p = ground arith in
      let here : b.addr ≡ p - header = omega arith in
      rw fit (
        subst (λ a. has_block a (carve size kernel b ++ bs) ≡ true) here
          (has_block-carve size kernel b bs))
  | inr skip ↦ rw skip (
      has_block_later (p - header) b (first_fit size kernel bs).1
        (first_fit-has_block size kernel bs p (rw skip at e)))
]

-- A pointer that is handed out belongs to a block.
pub malloc_impl-has_block :
    (size : ℕ) (kernel : Bool) (h : Heap) (p : ℕ)
    → (malloc_impl size kernel h).0 ≡ some p
    → has_block (p - header) (malloc_impl size kernel h).1 ≡ true
unfolding malloc_impl
malloc_impl-has_block size kernel h p e = elim (Bool-cases (size == 0 || is_null h)) [
  | inl refused ↦ let bad : none ≡ some p = rw refused at e in absurd (ground arith)
  | inr asked ↦ rw asked (first_fit-has_block (align size) kernel h p (rw asked at e))
]

first_fit_fails :
    (size : ℕ) (kernel : Bool) (h : Heap)
    → (first_fit size kernel h).0 ≡ none
    → (first_fit size kernel h).1 ≡ h
unfolding first_fit
first_fit_fails size kernel [] e = refl
first_fit_fails size kernel (b ∷ bs) e = elim (Bool-cases (fits size b)) [
  | inl fit ↦ let bad : some (b.addr + header) ≡ none = rw fit at e in absurd (ground arith)
  | inr skip ↦ rw skip (ap (◌∷◌ b) (first_fit_fails size kernel bs (rw skip at e)))
]

-- A request that fails leaves the heap as it was.
pub malloc_impl_fails :
    (size : ℕ) (kernel : Bool) (h : Heap)
    → (malloc_impl size kernel h).0 ≡ none
    → (malloc_impl size kernel h).1 ≡ h
unfolding malloc_impl
malloc_impl_fails size kernel h e = elim (Bool-cases (size == 0 || is_null h)) [
  | inl refused ↦ rw refused refl
  | inr asked ↦ rw asked (first_fit_fails (align size) kernel h (rw asked at e))
]
