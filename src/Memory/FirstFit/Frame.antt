-- ===== src/Memory/FirstFit/Frame.antt =====
-- What an allocation leaves alone, and the request that wraps.
use tp2_so_nuevo.Prelude.{
  ◌||◌, ℕ, ◌+◌, ◌%◌, ◌≤◌, ◌<◌, ◌≡◌, refl, Bool, true, false, [], ◌∷◌, ◌++◌, ◌∙◌, some, inl, inr,
  arith, leb, ◌==◌, Bool-cases, ==_refl,
}
use tp2_so_nuevo.Memory.FirstFit.{
  Block, Heap, header, word, min_split, is_null, align, carve, fits, first_fit, malloc_impl,
}
use tp2_so_nuevo.Memory.FirstFit.Layout.{Tiles, max_end, fits_le, Tiles-le}
use tp2_so_nuevo.Memory.FirstFit.Allocation.{find, find_later, find-le}

carve_frame :
    (size : ℕ) (kernel : Bool) (c : Block) (bs : Heap) (q : ℕ) (b : Block)
    → size ≤ c.size
    → (c.addr == q) ≡ false
    → c.addr + header + c.size ≤ max_end
    → c.addr + header + c.size ≤ q
    → find q bs ≡ some b
    → find q (carve size kernel c ++ bs) ≡ some b
unfolding find carve
carve_frame size kernel c bs q b le later end beyond f =
    elim (Bool-cases (leb ((size + min_split) % word) c.size)) [
      | inl split ↦ rw (split, later) (find_later q _ bs (ground arith) ∙ f)
      | inr whole ↦ rw (whole, later) f
    ]

first_fit_frame :
    (size : ℕ) (kernel : Bool) (h : Heap) (a e q : ℕ) (b : Block)
    → e ≤ max_end
    → Tiles a h e
    → find q h ≡ some b
    → b.is_free ≡ false
    → find q (first_fit size kernel h).1 ≡ some b
unfolding first_fit find carve
first_fit_frame size kernel [] a e q b end t f used = cc
first_fit_frame size kernel (c ∷ bs) a e q b end t f used = elim (Bool-cases (c.addr == q)) [
  | inl here ↦
      let f' = rw here at f in
      let same : c ≡ b = cc in
      let taken : c.is_free ≡ false = rw same used in
      let skip : fits size c ≡ false = ground arith in rw (skip, here) f'
  | inr later ↦
      let f' = rw later at f in
      let beyond = find-le q (a + header + c.size) bs e b t.1 f' in
      elim (Bool-cases (fits size c)) [
        | inr skip ↦
            rw (skip, later)
              (first_fit_frame size kernel bs (a + header + c.size) e q b end t.1 f' used)
        | inl fit ↦ rw fit (
            carve_frame size kernel c bs q b (fits_le size c fit) later
              (omega (arith, Tiles-le (a + header + c.size) bs e t.1)) (omega arith) f')
      ]
]

-- No block in use is touched by an allocation.
pub malloc_impl_frame :
    (size : ℕ) (kernel : Bool) (h : Heap) (a e q : ℕ) (b : Block)
    → e ≤ max_end
    → Tiles a h e
    → find q h ≡ some b
    → b.is_free ≡ false
    → find q (malloc_impl size kernel h).1 ≡ some b
unfolding malloc_impl
malloc_impl_frame size kernel h a e q b end t f used = elim (Bool-cases (size == 0 || is_null h)) [
  | inl refused ↦ rw refused f
  | inr asked ↦ rw asked (first_fit_frame (align size) kernel h a e q b end t f used)
]

align-wraps : (size : ℕ) → size < word → word ≤ size + 7 → align size ≡ 0
unfolding align
align-wraps size small near = omega arith

-- The rounding of a request within seven bytes of 2^64 wraps to 0, so that a free block at the
-- front of the heap with room for a header is granted, cut down to no bytes at all.
pub malloc_impl_wraps :
    (size : ℕ) (kernel : Bool) (b : Block) (bs : Heap)
    → size < word
    → word ≤ size + 7
    → b.is_free ≡ true
    → min_split ≤ b.size
    → let (p, h') = malloc_impl size kernel (b ∷ bs) in
      (p ≡ some (b.addr + header))
      × (find b.addr h'
          ≡ some (record { addr = b.addr; size = 0; is_free = false; is_kernel = kernel }))
unfolding malloc_impl first_fit carve find
malloc_impl_wraps size kernel b bs small near free room =
    let asked : (size == 0 || false) ≡ false = ground arith in
    let fit : fits 0 b ≡ true = ground arith in
    let split : leb ((0 + min_split) % word) b.size ≡ true = ground arith in
    rw (asked, align-wraps size small near, fit, split, ==_refl b.addr) (refl, refl)
