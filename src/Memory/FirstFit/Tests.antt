-- ===== src/Memory/FirstFit/Tests.antt =====
-- Runs of first fit, and its theorems at concrete heaps.
use tp2_so_nuevo.Prelude.{◌+◌, ◌-◌, ◌^◌, ◌≡◌, refl, true, false, [], ◌∷◌, some, inr, arith, ℕ}
use tp2_so_nuevo.Memory.FirstFit.{
  Block, Heap, mm_init, align, carve, first_fit, malloc_impl, mm_malloc, absorb, has_block,
  mark_free, merge_back, mm_free, MemStatus, mm_status,
}
use tp2_so_nuevo.Memory.FirstFit.Allocation.{find, Grants, malloc_impl-Grants}
use tp2_so_nuevo.Memory.FirstFit.Frame.{malloc_impl_wraps}
use tp2_so_nuevo.Memory.FirstFit.RoundTrip.{shape, mm_free-malloc_impl}
use tp2_so_nuevo.Memory.FirstFit.Status.{mm_status_lem}
use tp2_so_nuevo.Memory.FirstFit.Interface.{IsHeap, first_fit-IsHeap}

-- 4096 bytes at 0x600000: a user block, a free one and a kernel block.
abbrev user_block : Block
user_block = record { addr = 0x600000; size = 104; is_free = false; is_kernel = false }

abbrev gap : Block
gap = record { addr = 0x600080; size = 232; is_free = true; is_kernel = false }

abbrev stack_block : Block
stack_block = record { addr = 0x600180; size = 3688; is_free = false; is_kernel = true }

abbrev busy : Heap
busy = user_block ∷ gap ∷ stack_block ∷ []

-- A writing at a stray pointer that does no harm.
abbrev unchanged : ℕ → Heap → Heap
unchanged ptr h = h

abbrev fresh : Heap
fresh = record { addr = 0x600000; size = 4072; is_free = true; is_kernel = false } ∷ []

init_runs : mm_init 0x600000 4096 [] ≡ fresh
unfolding mm_init
init_runs = refl

allocate_splits : (mm_malloc 100 fresh).0 ≡ some 0x600018
unfolding mm_malloc malloc_impl first_fit align carve
allocate_splits = refl

allocate_and_release : mm_free unchanged 0x600018 (mm_malloc 100 fresh).1 ≡ fresh
unfolding mm_malloc malloc_impl first_fit align carve mm_free has_block mark_free merge_back absorb
allocate_and_release = refl

busy-IsHeap : IsHeap 0x600000 0x601000 busy
busy-IsHeap = record {
  end = omega arith;
  tiles = (refl, (refl, (refl, refl)));
  coalesced = ((λ free. cc), ((λ free. refl), ((λ free. tt), tt)));
}

first_fit-IsHeap_example :
    IsHeap 0x600000 0x601000 (malloc_impl 200 false busy).1
    × IsHeap 0x600000 0x601000 (mm_free unchanged 0x600018 busy)
unfolding has_block
first_fit-IsHeap_example =
    first_fit-IsHeap unchanged 0x600000 0x601000 200 0x600018 false busy busy-IsHeap (inr refl)

malloc_impl-Grants_example : Grants 30 true 0x600098 busy (malloc_impl 30 true busy).1
unfolding malloc_impl first_fit align carve
malloc_impl-Grants_example =
    malloc_impl-Grants 30 true busy 0x600000 0x601000 0x600098 (omega arith) busy-IsHeap.tiles refl

malloc_impl_wraps_example :
    let (p, h') = malloc_impl (2 ^ 64 - 1) false fresh in
    (p ≡ some 0x600018)
    × (find 0x600000 h'
        ≡ some (record { addr = 0x600000; size = 0; is_free = false; is_kernel = false }))
malloc_impl_wraps_example =
    malloc_impl_wraps (2 ^ 64 - 1) false
      (record { addr = 0x600000; size = 4072; is_free = true; is_kernel = false }) [] (omega arith)
      (omega arith) refl (omega arith)

mm_free-malloc_impl_example :
    shape (mm_free unchanged 0x600098 (malloc_impl 30 true busy).1) ≡ shape busy
unfolding malloc_impl first_fit align carve
mm_free-malloc_impl_example =
    mm_free-malloc_impl unchanged 30 true busy 0x600000 0x601000 0x600098 (omega arith)
      busy-IsHeap.tiles busy-IsHeap.coalesced refl

abbrev blank_status : MemStatus
blank_status = record { total = 9; free = 9; used = 9; used_kernel = 9; alloc_count = 9 }

mm_status_lem_example :
    let t = mm_status blank_status busy in
    (t.total ≡ t.free + t.used + t.used_kernel)
    × (t.total + 0x600000 ≡ 0x601000)
    × (t.alloc_count ≡ 1)
mm_status_lem_example = mm_status_lem blank_status 0x600000 busy 0x601000 refl busy-IsHeap.tiles
