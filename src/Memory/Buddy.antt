-- ===== src/Memory/Buddy.antt =====
-- Kernel/c/memoryManager/memoryManagerBuddy.c. An address of 0 is NULL. The headers are a function
-- from the addresses of the blocks, and a free list is the list of the addresses along `next`.
pub mod Orders
pub mod Granting
mod Tests
use tp2_so_nuevo.Prelude.{
  ℕ, zero, suc, ◌+◌, ◌-◌, ◌%◌, ◌^◌, Bool, true, false, ◌&&◌, ◌||◌, List, [], ◌∷◌, Option, none,
  some, ltb, leb, ◌==◌, if◌then◌else◌, update, min, first_index, ==_refl, ==→≡, ==_of_ne,
}
use Prim.Native.Nat.{bit_xor}
use tp2_so_nuevo.Memory.FirstFit.{MemStatus}

abbrev pub min_order : ℕ
min_order = 4

abbrev pub max_order : ℕ
max_order = 23

abbrev pub orders : ℕ
orders = max_order - min_order + 1

abbrev pub block_hdr_size : ℕ
block_hdr_size = 8

pub record BlockHdr : Type 0 where
  pub order : ℕ
  pub is_free : Bool
  pub is_kernel : Bool

pub record Buddy : Type 0 where
  pub heap_base : ℕ
  pub heap_total : ℕ
  pub alloc_count : ℕ
  pub hdr : ℕ → BlockHdr
  pub free_lists : ℕ → List ℕ

abbrev pub order_idx : ℕ → ℕ
order_idx order = order - min_order

-- At most `n` rounds, from this order on; none is left when the order passes `max_order`.
pub order_from : ℕ → ℕ → ℕ → Option ℕ
order_from zero order size = none
order_from (suc n) order size =
    let rest = order_from n (order + 1) size in
    if ltb (2 ^ order) size then (if ltb max_order (order + 1) then none else rest) else some order

pub size_to_order : ℕ → Option ℕ
size_to_order size = order_from orders min_order size

pub get_buddy : ℕ → ℕ → Buddy → Option ℕ
get_buddy block order s =
    let buddy_off = bit_xor (block - s.heap_base) (2 ^ order) in
    if ltb s.heap_total (buddy_off + 2 ^ order) then none else some (s.heap_base + buddy_off)

abbrev pub without_first : ℕ → List ℕ → List ℕ
without_first target [] = []
without_first target (x ∷ xs) =
    let rest = without_first target xs in if x == target then xs else x ∷ rest

pub list_remove : ℕ → ℕ → Buddy → Buddy
list_remove order target s = record s {
  free_lists =
      update s.free_lists (order_idx order) (without_first target (s.free_lists (order_idx order)));
}

-- A free block at the front of its list.
pub add_free : ℕ → ℕ → Buddy → Buddy
add_free order block s = record s {
  hdr = update s.hdr block (record { order = order; is_free = true; is_kernel = false });
  free_lists = update s.free_lists (order_idx order) (block ∷ s.free_lists (order_idx order));
}

-- The orders below `min_order + n`, from the highest down.
pub decompose : ℕ → ℕ → ℕ → ℕ → Buddy → Buddy
decompose zero start size offset s = s
decompose (suc n) start size offset s =
    let order = min_order + n in
    let taken = decompose n start size (offset + 2 ^ order) (add_free order (start + offset) s) in
    let left = decompose n start size offset s in
    if leb size offset then s else if leb (offset + 2 ^ order) size then taken else left

pub mm_init : ℕ → ℕ → Buddy → Buddy
mm_init start size s = decompose orders start size 0 (record s {
  heap_base = start;
  heap_total = size;
  alloc_count = 0;
  free_lists = λ i. if ltb i orders then [] else s.free_lists i;
})

abbrev pub is_listed : Buddy → ℕ → Bool
is_listed s order = elim (s.free_lists (order_idx order)) [ [] ↦ false | x ∷ xs ↦ true ]

-- The order of the block at `block`.
abbrev pub set_order : ℕ → ℕ → Buddy → Buddy
set_order block order s = record s {
  hdr = update s.hdr block (record (s.hdr block) { order = order });
}

-- A block `n` orders above `order` is halved `n` times; the upper halves become free.
pub split : ℕ → ℕ → ℕ → Buddy → Buddy
split zero order block s = s
split (suc n) order block s =
    split n order block
      (set_order block (order + n) (add_free (order + n) (block + 2 ^ (order + n)) s))

abbrev pub mark_used : ℕ → Bool → Buddy → Buddy
mark_used block kernel s = record s {
  hdr = update s.hdr block (record (s.hdr block) { is_free = false; is_kernel = kernel });
  alloc_count = if kernel then s.alloc_count else s.alloc_count + 1;
}

-- The first block of list `found`, cut down to `order`.
pub take_block : ℕ → ℕ → Bool → List ℕ → Buddy → Option ℕ × Buddy
take_block order found kernel [] s = (none, s)
take_block order found kernel (block ∷ rest) s =
    let s' = record s { free_lists = update s.free_lists (order_idx found) rest } in
    (some (block + block_hdr_size), mark_used block kernel (split (found - order) order block s'))

pub malloc_from : Option ℕ → ℕ → Bool → Buddy → Option ℕ × Buddy
malloc_from none order kernel s = (none, s)
malloc_from (some found) order kernel s =
    take_block order found kernel (s.free_lists (order_idx found)) s

pub malloc_order : Option ℕ → Bool → Buddy → Option ℕ × Buddy
malloc_order none kernel s = (none, s)
malloc_order (some order) kernel s =
    malloc_from (first_index (is_listed s) order (max_order + 1 - order)) order kernel s

pub malloc_impl : ℕ → Bool → Buddy → Option ℕ × Buddy
malloc_impl size kernel s =
    if size == 0 || s.heap_base == 0
    then (none, s)
    else malloc_order (size_to_order ((size + block_hdr_size) % 2 ^ 64)) kernel s

pub mm_malloc : ℕ → Buddy → Option ℕ × Buddy
mm_malloc size s = malloc_impl size false s

pub mm_malloc_kernel : ℕ → Buddy → Option ℕ × Buddy
mm_malloc_kernel size s = malloc_impl size true s

abbrev pub joins : ℕ → Option ℕ → Buddy → Bool
joins order none s = false
joins order (some buddy) s = (s.hdr buddy).is_free && ((s.hdr buddy).order == order)

abbrev pub address : Option ℕ → ℕ
address none = 0
address (some a) = a

-- The free buddies that follow one another are absorbed, for at most `n` orders.
pub merge : ℕ → ℕ → ℕ → Buddy → ℕ × ℕ × Buddy
merge zero order block s = (order, block, s)
merge (suc n) order block s =
    let buddy = get_buddy block order s in
    let low = min (address buddy) block in
    let joined =
      merge n (order + 1) low (set_order low (order + 1) (list_remove order (address buddy) s)) in
    if joins order buddy s then joined else (order, block, s)

pub mm_free : ℕ → Buddy → Buddy
mm_free ptr s =
    let block = ptr - block_hdr_size in
    let h = s.hdr block in
    let s1 = record s {
      alloc_count = if h.is_kernel then s.alloc_count else (s.alloc_count + 2 ^ 64 - 1) % 2 ^ 64;
      hdr = update s.hdr block (record h { is_free = true });
    } in
    let (order, first, s2) = merge (max_order - h.order) h.order block s1 in
    if ptr == 0 then s else record s2 {
      free_lists = update s2.free_lists (order_idx order) (first ∷ s2.free_lists (order_idx order));
    }

-- The walk over the blocks from `off` on: bytes free, of the user and of the kernel. A block has at
-- least one byte, so `heap_total` rounds are enough.
pub walk : ℕ → ℕ → Buddy → ℕ × ℕ × ℕ
walk zero off s = (0, 0, 0)
walk (suc n) off s =
    let h = s.hdr (s.heap_base + off) in
    let bsz = 2 ^ h.order in
    let (unused, user, kernel) = walk n (off + bsz) s in
    if leb s.heap_total off
    then (0, 0, 0)
    else if h.is_free
    then (unused + bsz, user, kernel)
    else if h.is_kernel
    then (unused, user, kernel + bsz)
    else (unused, user + bsz, kernel)

pub mm_status : MemStatus → Buddy → MemStatus
mm_status t s =
    let (unused, user, kernel) = walk s.heap_total 0 s in
    if s.heap_base == 0 then t else record {
      total = s.heap_total;
      free = unused;
      used = user;
      used_kernel = kernel;
      alloc_count = s.alloc_count;
    }
