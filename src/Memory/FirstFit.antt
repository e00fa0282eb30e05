-- ===== src/Memory/FirstFit.antt =====
-- Kernel/c/memoryManager/memoryManagerFF.c. The heap is the linked list from `heap_start`, in the
-- order of `next`, each block with its own address; the empty list is a `heap_start` of NULL.
pub mod Layout
pub mod Allocation
pub mod Frame
pub mod Granted
pub mod Steps
pub mod Release
pub mod RoundTrip
pub mod Status
pub mod Interface
mod Tests
use tp2_so_nuevo.Prelude.{
  ℕ, zero, suc, ◌+◌, ◌-◌, ◌*◌, ◌/◌, ◌%◌, ◌^◌, Bool, true, false, ◌&&◌, ◌||◌, List, [], ◌∷◌, ◌++◌,
  Option, none, some, leb, ◌==◌, if◌then◌else◌,
}

-- `MemBlock`: two words and two `int` flags make a header of 24 bytes.
pub record Block : Type 0 where
  pub addr : ℕ
  pub size : ℕ
  pub is_free : Bool
  pub is_kernel : Bool

abbrev pub Heap : Type 0
Heap = List Block

abbrev pub header : ℕ
header = 24

abbrev pub min_split : ℕ
min_split = header + 8

abbrev pub word : ℕ
word = 2 ^ 64

pub mm_init : ℕ → ℕ → Heap → Heap
mm_init start size h =
    if leb size header
    then h
    else record { addr = start; size = size - header; is_free = true; is_kernel = false } ∷ []

-- `(size + 7) & ~7` on 64 bits.
pub align : ℕ → ℕ
align size = (size + 7) % word / 8 * 8

-- The block that is handed out, behind it what is split off.
pub carve : ℕ → Bool → Block → List Block
carve size kernel b =
    if leb ((size + min_split) % word) b.size
    then record { addr = b.addr; size = size; is_free = false; is_kernel = kernel }
      ∷ record {
        addr = b.addr + header + size;
        size = b.size - size - header;
        is_free = true;
        is_kernel = false;
      }
      ∷ []
    else record b { is_free = false; is_kernel = kernel } ∷ []

abbrev pub fits : ℕ → Block → Bool
fits size b = b.is_free && leb size b.size

-- The loop over the blocks.
pub first_fit : ℕ → Bool → Heap → Option ℕ × Heap
first_fit size kernel [] = (none, [])
first_fit size kernel (b ∷ bs) =
    let (p, bs') = first_fit size kernel bs in
    if fits size b then (some (b.addr + header), carve size kernel b ++ bs) else (p, b ∷ bs')

abbrev pub is_null : Heap → Bool
is_null [] = true
is_null (b ∷ bs) = false

pub malloc_impl : ℕ → Bool → Heap → Option ℕ × Heap
malloc_impl size kernel h =
    if size == 0 || is_null h then (none, h) else first_fit (align size) kernel h

pub mm_malloc : ℕ → Heap → Option ℕ × Heap
mm_malloc size h = malloc_impl size false h

pub mm_malloc_kernel : ℕ → Heap → Option ℕ × Heap
mm_malloc_kernel size h = malloc_impl size true h

-- Forward: the free blocks that follow join the block.
pub absorb : Block → List Block → List Block
absorb b [] = b ∷ []
absorb b (n ∷ ns) =
    let joined = absorb (record b { size = b.size + (header + n.size) }) ns in
    if n.is_free then joined else b ∷ n ∷ ns

-- A block of the list starts at `a`.
pub has_block : ℕ → Heap → Bool
has_block a [] = false
has_block a (b ∷ bs) = let rest = has_block a bs in if b.addr == a then true else rest

-- `is_free` of the block at `a`, which the list holds, and the joining behind it.
pub mark_free : ℕ → Heap → Heap
mark_free a [] = []
mark_free a (b ∷ bs) =
    let rest = mark_free a bs in
    if b.addr == a then absorb (record b { is_free = true }) bs else b ∷ rest

-- Backward: the block at `a` joins the one before it, if that is free.
pub merge_back : ℕ → Heap → Heap
merge_back a [] = []
merge_back a (p ∷ []) = p ∷ []
merge_back a (p ∷ b ∷ bs) =
    let rest = merge_back a (b ∷ bs) in
    if b.addr == a
    then (if p.is_free then record p { size = p.size + (header + b.size) } ∷ bs else p ∷ b ∷ bs)
    else p ∷ rest

-- A pointer of 0 is NULL. A pointer that belongs to no block is not refused: the code takes the 24
-- bytes before it for a header and writes there. What that makes of the list is the parameter
-- `stray`, of which nothing is known.
pub mm_free : (ℕ → Heap → Heap) → ℕ → Heap → Heap
mm_free stray ptr h =
    let a = ptr - header in
    if ptr == 0 then h else if has_block a h then merge_back a (mark_free a h) else stray ptr h

pub record MemStatus : Type 0 where
  pub total : ℕ
  pub free : ℕ
  pub used : ℕ
  pub used_kernel : ℕ
  pub alloc_count : ℕ

pub count_block : Block → MemStatus → MemStatus
count_block b t =
    let bsz = b.size + header in
    let t' = record t { total = t.total + bsz } in
    if b.is_free
    then record t' { free = t.free + bsz }
    else if b.is_kernel
    then record t' { used_kernel = t.used_kernel + bsz }
    else record t' { used = t.used + bsz; alloc_count = t.alloc_count + 1 }

pub count_blocks : MemStatus → Heap → MemStatus
count_blocks t [] = t
count_blocks t (b ∷ bs) = count_blocks (count_block b t) bs

-- The status that the caller passes is left alone if there is no heap.
pub mm_status : MemStatus → Heap → MemStatus
mm_status t h =
    if is_null h
    then t
    else count_blocks (record { total = 0; free = 0; used = 0; used_kernel = 0; alloc_count = 0 }) h
