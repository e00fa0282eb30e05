-- ===== src/Memory/Buddy/Granting.antt =====
-- What the buddy allocator hands out, and the bytes in its free lists.
use tp2_so_nuevo.Prelude.{
  ℕ, zero, suc, ◌+◌, ◌-◌, ◌*◌, ◌%◌, ◌^◌, ◌≤◌, ◌<◌, ◌≡◌, ◌≢◌, refl, sym, ap, ap₂, ◌∙◌, Bool, true,
  false, ◌||◌, List, [], ◌∷◌, none, some, inl, inr, arith, ◌==◌, length, update, update_same,
  update_other, Bool-cases, Option-cases, absurd_test, ℕ_discrete, first_index,
}
use native.Mathlib.Nat.{two-pow-succ, mod-eq_of_lt, mul-suc}
use tp2_so_nuevo.Prelude.Search.{first_index_found, first_index-none}
use tp2_so_nuevo.Memory.Buddy.{
  min_order, max_order, orders, block_hdr_size, BlockHdr, Buddy, order_idx, size_to_order, add_free,
  is_listed, set_order, split, take_block, malloc_from, malloc_order, malloc_impl,
}
use tp2_so_nuevo.Memory.Buddy.Orders.{IsOrder, size_to_order-IsOrder, size_to_order_small}

-- The bytes in the lists from index `i` on, `n` of them.
abbrev pub bytes_in : (ℕ → List ℕ) → ℕ → ℕ → ℕ
bytes_in f i zero = 0
bytes_in f i (suc n) = 2 ^ (min_order + i) * length (f i) + bytes_in f (i + 1) n

abbrev pub free_bytes : Buddy → ℕ
free_bytes s = bytes_in s.free_lists 0 orders

bytes_in-below :
    (n i j : ℕ) (f : ℕ → List ℕ) (xs : List ℕ)
    → j < i
    → bytes_in (update f j xs) i n ≡ bytes_in f i n
bytes_in-below zero i j f xs lt = refl
bytes_in-below (suc n) i j f xs lt =
    let ne : j ≢ i = omega arith in
    ap₂ (λ ys b. 2 ^ (min_order + i) * length ys + b) (update_other f j i xs ne)
      (bytes_in-below n (i + 1) j f xs (omega arith))

-- One list changes.
bytes_in-update :
    (n i j : ℕ) (f : ℕ → List ℕ) (xs : List ℕ)
    → i ≤ j
    → j < i + n
    → bytes_in (update f j xs) i n + 2 ^ (min_order + j) * length (f j)
      ≡ bytes_in f i n + 2 ^ (min_order + j) * length xs
bytes_in-update zero i j f xs lo hi = absurd (omega arith)
bytes_in-update (suc n) i j f xs lo hi = elim (ℕ_discrete i j) [
  | yes e ↦
      let here =
        ap (λ ys. 2 ^ (min_order + i) * length ys) (ap (update f j xs) e ∙ update_same f j xs) in
      let rest = bytes_in-below n (i + 1) j f xs (omega (arith, e)) in
      let old = ap (λ k. 2 ^ (min_order + k) * length (f k)) e in
      let new = ap (λ k. 2 ^ (min_order + k) * length xs) e in omega arith
  | no ne ↦
      let here =
        ap (λ ys. 2 ^ (min_order + i) * length ys) (update_other f j i xs (λ e. ne (sym e))) in
      let rest = bytes_in-update n (i + 1) j f xs (omega (arith, ne)) (omega arith) in omega arith
]

add_free-bytes :
    (order block : ℕ) (s : Buddy)
    → min_order ≤ order
    → order ≤ max_order
    → free_bytes (add_free order block s) ≡ free_bytes s + 2 ^ order
unfolding add_free
add_free-bytes order block s lo hi =
    let i = order_idx order in
    let h =
      bytes_in-update orders 0 i s.free_lists (block ∷ s.free_lists i) (omega arith)
        (omega arith) in
    let e : min_order + i ≡ order = omega arith in
    let p = ap (λ k. 2 ^ k) e in
    let m = mul-suc (2 ^ (min_order + i)) (length (s.free_lists i)) in omega arith

-- Halving gives back all but the part that stays.
split-bytes :
    (n order block : ℕ) (s : Buddy)
    → min_order ≤ order
    → order + n ≤ max_order
    → free_bytes (split n order block s) + 2 ^ order ≡ free_bytes s + 2 ^ (order + n)
unfolding split
split-bytes zero order block s lo hi =
    let e : order + 0 ≡ order = omega arith in let p = ap (λ k. 2 ^ k) e in omega arith
split-bytes (suc n) order block s lo hi =
    let a = add_free-bytes (order + n) (block + 2 ^ (order + n)) s (omega arith) (omega arith) in
    let s1 = set_order block (order + n) (add_free (order + n) (block + 2 ^ (order + n)) s) in
    let b = split-bytes n order block s1 lo (omega arith) in
    let e : order + suc n ≡ suc (order + n) = omega arith in
    let p = ap (λ k. 2 ^ k) e in let q = two-pow-succ (order + n) in omega arith

-- The block of a grant: in use, noted for its owner, and as many bytes gone from the free lists as its
-- order has.
pub record Taken (order : ℕ) (kernel : Bool) (s : Buddy) (p : ℕ) (s' : Buddy) : Type 0 where
  pub block : ℕ
  pub pointer : p ≡ block + block_hdr_size
  pub in_use : (s'.hdr block).is_free ≡ false
  pub owner : (s'.hdr block).is_kernel ≡ kernel
  pub bytes : free_bytes s ≡ free_bytes s' + 2 ^ order

take_block-Taken :
    (order found : ℕ) (kernel : Bool) (xs : List ℕ) (s : Buddy) (p : ℕ)
    → min_order ≤ order
    → order ≤ found
    → found ≤ max_order
    → s.free_lists (order_idx found) ≡ xs
    → (take_block order found kernel xs s).0 ≡ some p
    → Taken order kernel s p (take_block order found kernel xs s).1
unfolding take_block
take_block-Taken order found kernel [] s p lo le hi at e = absurd (ground arith)
take_block-Taken order found kernel (block ∷ rest) s p lo le hi at e =
    let i = order_idx found in
    let s1 : Buddy = record s { free_lists = update s.free_lists i rest } in
    let s2 = split (found - order) order block s1 in
    let q = record (s2.hdr block) { is_free = false; is_kernel = kernel } in
    let h = bytes_in-update orders 0 i s.free_lists rest (omega arith) (omega arith) in
    let o : min_order + i ≡ found = omega arith in
    let po = ap (λ k. 2 ^ k) o in
    let up : order + (found - order) ≡ found = omega arith in
    let pu = ap (λ k. 2 ^ k) up in
    let halves = split-bytes (found - order) order block s1 lo (omega arith) in
    let l = ap length at in
    let n = ap (λ k. 2 ^ (min_order + i) * k) l in
    let m = mul-suc (2 ^ (min_order + i)) (length rest) in
    record {
      block = block;
      pointer = let same : some (block + block_hdr_size) ≡ some p = e in cc;
      in_use = ap {A = BlockHdr} (λ r. r.is_free) (update_same s2.hdr block q);
      owner = ap {A = BlockHdr} (λ r. r.is_kernel) (update_same s2.hdr block q);
      bytes = omega arith;
    }

granted :
    (order : ℕ) (kernel : Bool) (s : Buddy) (p : ℕ)
    → min_order ≤ order
    → (malloc_order (some order) kernel s).0 ≡ some p
    → Taken order kernel s p (malloc_order (some order) kernel s).1
unfolding malloc_order malloc_from
granted order kernel s p lo e =
    elim (Option-cases (first_index (is_listed s) order (max_order + 1 - order))) [
      | inl nothing ↦ let bad : none ≡ some p = rw nothing at e in absurd (ground arith)
      | inr (found, hit) ↦
          let (listed, from, to) =
            first_index_found (is_listed s) order (max_order + 1 - order) found hit in
          rw hit (
            take_block-Taken order found kernel (s.free_lists (order_idx found)) s p lo from
              (omega arith) refl (rw hit at e))
    ]

impl_granted :
    (size p order : ℕ) (kernel : Bool) (s : Buddy)
    → min_order ≤ order
    → size_to_order ((size + block_hdr_size) % 2 ^ 64) ≡ some order
    → (malloc_impl size kernel s).0 ≡ some p
    → Taken order kernel s p (malloc_impl size kernel s).1
unfolding malloc_impl
impl_granted size p order kernel s lo fits e = elim (Bool-cases (size == 0 || s.heap_base == 0)) [
  | inl nothing ↦ let bad : none ≡ some p = rw nothing at e in absurd (ground arith)
  | inr request ↦ rw (request, fits) (granted order kernel s p lo (rw (request, fits) at e))
]

impl_grants :
    (size p order : ℕ) (kernel : Bool) (s : Buddy)
    → (s.heap_base == 0) ≡ false
    → 0 < size
    → size_to_order ((size + block_hdr_size) % 2 ^ 64) ≡ some order
    → (malloc_order (some order) kernel s).0 ≡ some p
    → (malloc_impl size kernel s).0 ≡ some p
unfolding malloc_impl
impl_grants size p order kernel s heap some_size fits e =
    let asked : (size == 0) ≡ false = ground arith in rw (asked, heap, fits) e

-- A list that is not empty gives its first block.
first_listed :
    (order found : ℕ) (kernel : Bool) (s : Buddy) (xs : List ℕ)
    → (elim xs [ [] ↦ false | x ∷ rest ↦ true ]) ≡ true
    → (p : ℕ) × ((take_block order found kernel xs s).0 ≡ some p)
unfolding take_block
first_listed order found kernel s [] listed = absurd_test refl listed
first_listed order found kernel s (x ∷ xs) listed = (x + block_hdr_size, refl)

ungranted :
    (size p : ℕ) (kernel : Bool) (s : Buddy)
    → size_to_order ((size + block_hdr_size) % 2 ^ 64) ≡ none
    → (malloc_impl size kernel s).0 ≡ some p
    → ⊥
unfolding malloc_impl malloc_order
ungranted size p kernel s big e = elim (Bool-cases (size == 0 || s.heap_base == 0)) [
  | inl nothing ↦ let bad : none ≡ some p = rw nothing at e in ground arith
  | inr request ↦ let bad : none ≡ some p = rw (request, big, malloc_order) at e in ground arith
]

-- A request that is granted gets a block that is marked as used for its owner; the free lists have
-- lost as many bytes as the smallest order has that holds the request with its header, where these
-- do not wrap at 2^64.
pub malloc_impl-Taken :
    (size p : ℕ) (kernel : Bool) (s : Buddy)
    → (malloc_impl size kernel s).0 ≡ some p
    → size + block_hdr_size < 2 ^ 64
    → (order : ℕ) × IsOrder (size + block_hdr_size) order
      × Taken order kernel s p (malloc_impl size kernel s).1
malloc_impl-Taken size p kernel s e small =
    let wrap : (size + block_hdr_size) % 2 ^ 64 ≡ size + block_hdr_size = mod-eq_of_lt small in
    elim (Option-cases (size_to_order (size + block_hdr_size))) [
      | inl big ↦ absurd (ungranted size p kernel s (ap size_to_order wrap ∙ big) e)
      | inr (order, fits) ↦
          let is_order = (size_to_order-IsOrder (size + block_hdr_size)).0 order fits in
          (
            order,
            is_order,
            impl_granted size p order kernel s is_order.0 (ap size_to_order wrap ∙ fits) e,
          )
    ]

listed_grants :
    (order j : ℕ) (kernel : Bool) (s : Buddy)
    → order ≤ j
    → j ≤ max_order
    → is_listed s j ≡ true
    → (p : ℕ) × ((malloc_order (some order) kernel s).0 ≡ some p)
unfolding malloc_order malloc_from take_block
listed_grants order j kernel s lo hi listed =
    elim (Option-cases (first_index (is_listed s) order (max_order + 1 - order))) [
      | inl nothing ↦
          let miss =
            first_index-none (is_listed s) order (max_order + 1 - order) j nothing lo
              (omega arith) in
          absurd_test miss listed
      | inr (found, hit) ↦
          let (here, from, to) =
            first_index_found (is_listed s) order (max_order + 1 - order) found hit in
          rw hit (first_listed order found kernel s (s.free_lists (order_idx found)) here)
    ]

-- A request within eight bytes of 2^64 is granted as long as there is a heap and any block of it
-- is free: with the header the size wraps, and the block that it gets has 16 bytes, is marked as
-- used for its owner, and is all that the free lists lose.
pub malloc_impl-Taken_wraps :
    (size j : ℕ) (kernel : Bool) (s : Buddy)
    → (s.heap_base == 0) ≡ false
    → min_order ≤ j
    → j ≤ max_order
    → is_listed s j ≡ true
    → size < 2 ^ 64
    → 2 ^ 64 ≤ size + block_hdr_size
    → (p : ℕ) × ((malloc_impl size kernel s).0 ≡ some p)
      × Taken min_order kernel s p (malloc_impl size kernel s).1
malloc_impl-Taken_wraps size j kernel s heap lo hi listed word over =
    let fits = size_to_order_small ((size + block_hdr_size) % 2 ^ 64) (omega arith) in
    let (p, e) = listed_grants min_order j kernel s lo hi listed in
    let given = impl_grants size p min_order kernel s heap (omega arith) fits e in
    (p, given, impl_granted size p min_order kernel s (omega arith) fits given)
