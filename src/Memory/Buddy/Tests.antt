-- ===== src/Memory/Buddy/Tests.antt =====
-- Runs of the buddy allocator, and its theorems at a heap of 64 bytes.
use tp2_so_nuevo.Prelude.{
  ℕ, ◌-◌, ◌^◌, ◌≡◌, refl, true, false, [], ◌∷◌, some, arith, ◌==◌, if◌then◌else◌,
}
use tp2_so_nuevo.Prelude.Search.{first_index}
use tp2_so_nuevo.Memory.Buddy.{
  Buddy, order_from, size_to_order, get_buddy, list_remove, add_free, decompose, mm_init, split,
  take_block, malloc_from, malloc_order, malloc_impl, merge, mm_free,
}
use tp2_so_nuevo.Memory.Buddy.Orders.{IsOrder}
use tp2_so_nuevo.Memory.Buddy.Granting.{Taken, malloc_impl-Taken, malloc_impl-Taken_wraps}

abbrev empty : Buddy
empty = record {
  heap_base = 0;
  heap_total = 0;
  alloc_count = 0;
  hdr = λ _. record { order = 0; is_free = false; is_kernel = false };
  free_lists = λ _. [];
}

-- One free block of order 6.
abbrev one_block : Buddy
one_block = record empty {
  heap_base = 0x1000;
  heap_total = 64;
  hdr = λ _. record { order = 6; is_free = true; is_kernel = false };
  free_lists = λ i. if i == 2 then 0x1000 ∷ [] else [];
}

initial : (mm_init 0x1000 64 empty).free_lists 2 ≡ 0x1000 ∷ []
unfolding mm_init decompose add_free
initial = refl

-- The upper half of 32 bytes stays free.
halves :
    let (p, s) = malloc_impl 20 false one_block in
    (p ≡ some 0x1008) × (s.free_lists 1 ≡ 0x1020 ∷ []) × (s.alloc_count ≡ 1)
unfolding malloc_impl malloc_order malloc_from take_block split add_free size_to_order order_from
    first_index
halves = (refl, refl, refl)

-- A release joins the halves again.
joins_again : (mm_free 0x1008 (malloc_impl 20 false one_block).1).free_lists 2 ≡ 0x1000 ∷ []
unfolding malloc_impl malloc_order malloc_from take_block split add_free size_to_order order_from
    first_index mm_free merge get_buddy list_remove
joins_again = refl

malloc_impl-Taken_example :
    (order : ℕ) × IsOrder 28 order
    × Taken order false one_block 0x1008 (malloc_impl 20 false one_block).1
malloc_impl-Taken_example = malloc_impl-Taken 20 0x1008 false one_block halves.0 (omega arith)

malloc_impl-Taken_wraps_example :
    let (r, s) = malloc_impl (2 ^ 64 - 1) false one_block in
    (p : ℕ) × (r ≡ some p) × Taken 4 false one_block p s
malloc_impl-Taken_wraps_example =
    malloc_impl-Taken_wraps (2 ^ 64 - 1) 6 false one_block refl (omega arith) (omega arith) refl
      (omega arith) (omega arith)
