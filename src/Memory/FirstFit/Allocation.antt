-- ===== src/Memory/FirstFit/Allocation.antt =====
-- What an allocation returns, and when it fails.
use tp2_so_nuevo.Prelude.{
  ◌||◌, ℕ, ◌+◌, ◌-◌, ◌%◌, ◌≤◌, ◌<◌, ◌≡◌, refl, Bool, true, false, [], ◌∷◌, ◌++◌, Option, dec_lt, ap,
  ◌∙◌, none, some, inl, inr, ◌≢◌, arith, leb, ◌==◌, if◌then◌else◌, Bool-cases, All, ==_of_ne,
  ==_refl,
}
use tp2_so_nuevo.Memory.FirstFit.{
  Block, Heap, header, word, min_split, is_null, align, carve, fits, first_fit, malloc_impl,
}
use tp2_so_nuevo.Memory.FirstFit.Layout.{Tiles, fits_le}

-- The block whose header stands at an address.
unfoldable pub find : ℕ → Heap → Option Block
find a [] = none
find a (b ∷ bs) = if b.addr == a then some b else find a bs

pub find_below : (p a : ℕ) (h : Heap) (e : ℕ) → Tiles a h e → p < a → find p h ≡ none
unfolding find
find_below p a [] e t lt = refl
find_below p a (b ∷ bs) e t lt =
    rw (==_of_ne b.addr p (omega arith)) (find_below p (a + header + b.size) bs e t.1 (omega arith))

pub find-le : (p a : ℕ) (h : Heap) (e : ℕ) (b : Block) → Tiles a h e → find p h ≡ some b → a ≤ p
find-le p a h e b t f = elim (dec_lt p a) [
  | yes below ↦ cc (f, find_below p a h e t below)
  | no above ↦ omega arith
]

-- `p` is the payload of a block that was free in `h`, and that in `h'` belongs to `kernel` and has
-- room for `size` bytes.
pub record Grants (size : ℕ) (kernel : Bool) (p : ℕ) (h h' : Heap) : Type 0 where
  pub before : Block
  pub after : Block
  pub payload : header ≤ p
  pub was : find (p - header) h ≡ some before
  pub was_free : before.is_free ≡ true
  pub now : find (p - header) h' ≡ some after
  pub now_used : after.is_free ≡ false
  pub owner : after.is_kernel ≡ kernel
  pub enough : size ≤ after.size

pub find_self : (b : Block) (bs : Heap) → find b.addr (b ∷ bs) ≡ some b
unfolding find
find_self b bs = rw (==_refl b.addr)

pub find_later : (p : ℕ) (b : Block) (bs : Heap) → b.addr ≢ p → find p (b ∷ bs) ≡ find p bs
unfolding find
find_later p b bs ne = rw (==_of_ne b.addr p ne)

carve_head :
    (size : ℕ) (kernel : Bool) (b : Block) (bs : Heap)
    → fits size b ≡ true
    → (c : Block) × (find b.addr (carve size kernel b ++ bs) ≡ some c)
      × (c.is_free ≡ false)
      × (c.is_kernel ≡ kernel)
      × (size ≤ c.size)
unfolding carve find
carve_head size kernel b bs fit = elim (Bool-cases (leb ((size + min_split) % word) b.size)) [
  | inl split ↦
      rw (split, ==_refl b.addr)
        (
          record { addr = b.addr; size = size; is_free = false; is_kernel = kernel },
          refl,
          refl,
          refl,
          omega arith,
        )
  | inr whole ↦
      rw (whole, ==_refl b.addr)
        (record b { is_free = false; is_kernel = kernel }, refl, refl, refl, fits_le size b fit)
]

pub first_fit-Grants :
    (size : ℕ) (kernel : Bool) (h : Heap) (a e p : ℕ)
    → Tiles a h e
    → (first_fit size kernel h).0 ≡ some p
    → Grants size kernel p h (first_fit size kernel h).1
unfolding first_fit
first_fit-Grants size kernel [] a e p t f = cc
first_fit-Grants size kernel (b ∷ bs) a e p t f = elim (Bool-cases (fits size b)) [
  | inl fit ↦ rw fit (granted (ground (arith, rw fit at f)) (carve_head size kernel b bs fit) fit)
  | inr skip ↦
      rw skip
        (skipped (first_fit-Grants size kernel bs (a + header + b.size) e p t.1 (rw skip at f)))
]
  where
    granted :
        p ≡ b.addr + header
        → ((c : Block) × (find b.addr (carve size kernel b ++ bs) ≡ some c)
            × (c.is_free ≡ false)
            × (c.is_kernel ≡ kernel)
            × (size ≤ c.size))
        → fits size b ≡ true
        → Grants size kernel p (b ∷ bs) (carve size kernel b ++ bs)
    granted at (c, now, used, owner, enough) fit =
        let back : p - header ≡ b.addr = omega arith in
        record {
          before = b;
          after = c;
          payload = omega arith;
          was = rw back (find_self b bs);
          was_free = ground arith;
          now = rw back now;
          now_used = used;
          owner = owner;
          enough = enough;
        }

    skipped :
        Grants size kernel p bs (first_fit size kernel bs).1
        → Grants size kernel p (b ∷ bs) (b ∷ (first_fit size kernel bs).1)
    skipped g =
        let beyond = find-le (p - header) (a + header + b.size) bs e g.before t.1 g.was in
        let other : b.addr ≢ p - header = omega arith in
        record {
          before = g.before;
          after = g.after;
          payload = g.payload;
          was = find_later (p - header) b bs other ∙ g.was;
          was_free = g.was_free;
          now = find_later (p - header) b (first_fit size kernel bs).1 other ∙ g.now;
          now_used = g.now_used;
          owner = g.owner;
          enough = g.enough;
        }

-- The wanted sizes for which `align` does not wrap.
align-le : (size : ℕ) → size + 7 < word → (size ≤ align size)
unfolding align
align-le size h = omega arith

-- A request that is not so large that its rounding wraps gets, if it gets anything, a block that was
-- free, marked for its owner, with at least the bytes asked for.
pub malloc_impl-Grants :
    (size : ℕ) (kernel : Bool) (h : Heap) (a e p : ℕ)
    → size + 7 < word
    → Tiles a h e
    → (malloc_impl size kernel h).0 ≡ some p
    → Grants size kernel p h (malloc_impl size kernel h).1
unfolding malloc_impl
malloc_impl-Grants size kernel h a e p small t f = elim (Bool-cases (size == 0 || is_null h)) [
  | inl refused ↦ let f' = rw refused at f in cc
  | inr asked ↦
      let g = first_fit-Grants (align size) kernel h a e p t (rw asked at f) in
      rw asked (record {
        before = g.before;
        after = g.after;
        payload = g.payload;
        was = g.was;
        was_free = g.was_free;
        now = g.now;
        now_used = g.now_used;
        owner = g.owner;
        enough = omega (arith, g.enough, align-le size small);
      })
]

-- A heap in which no free block holds the rounded size.
abbrev pub NoFit : ℕ → Heap → Type 0
NoFit size h = All (λ b. fits size b ≡ false) h

first_fit-none :
    (size : ℕ) (kernel : Bool) (h : Heap)
    → (first_fit size kernel h).0 ≡ none
    → NoFit size h × ((first_fit size kernel h).1 ≡ h)
unfolding first_fit
first_fit-none size kernel [] f = (tt, refl)
first_fit-none size kernel (b ∷ bs) f = elim (Bool-cases (fits size b)) [
  | inl fit ↦ let f' = rw fit at f in cc
  | inr skip ↦
      let (none_later, same) = first_fit-none size kernel bs (rw skip at f) in
      ((skip, none_later), rw skip (ap (◌∷◌ b) same))
]

-- A request for some bytes fails only if no free block has room for them, and then nothing changes.
pub malloc_impl-none :
    (size : ℕ) (kernel : Bool) (h : Heap)
    → 0 < size
    → (malloc_impl size kernel h).0 ≡ none
    → NoFit (align size) h × ((malloc_impl size kernel h).1 ≡ h)
unfolding malloc_impl
malloc_impl-none size kernel [] pos f = (tt, ground arith)
malloc_impl-none size kernel (b ∷ bs) pos f =
    let asked : (size == 0 || is_null (b ∷ bs)) ≡ false = ground arith in
    rw asked (first_fit-none (align size) kernel (b ∷ bs) (rw asked at f))
