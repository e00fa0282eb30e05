-- ===== src/Memory/FirstFit/Interface.antt =====
-- First fit as the memory manager that the kernel links by default.
use tp2_so_nuevo.Prelude.{ℕ, ◌-◌, ◌≤◌, ◌≡◌, sym, subst, Bool, true, none, some, inr}
use tp2_so_nuevo.Allocator.{Allocator}
use tp2_so_nuevo.Memory.FirstFit.{Heap, header, malloc_impl, mm_malloc_kernel, has_block, mm_free}
use tp2_so_nuevo.Memory.FirstFit.Granted.{malloc_impl-has_block, malloc_impl_fails}
use tp2_so_nuevo.Memory.FirstFit.Layout.{
  Tiles, IsPointer, max_end, malloc_impl-Tiles, mm_free-Tiles,
}
use tp2_so_nuevo.Memory.FirstFit.Release.{Coalesced, malloc_impl-Coalesced, mm_free-Coalesced}

-- The blocks lie side by side from `a` to `e`, and no two neighbours are free.
pub record IsHeap (a e : ℕ) (h : Heap) : Type 0 where
  pub end : e ≤ max_end
  pub tiles : Tiles a h e
  pub coalesced : Coalesced h

malloc-IsHeap :
    (a e size : ℕ) (kernel : Bool) (h : Heap)
    → IsHeap a e h
    → IsHeap a e (malloc_impl size kernel h).1
malloc-IsHeap a e size kernel h v = record {
  end = v.end;
  tiles = malloc_impl-Tiles size kernel h a e v.end v.tiles;
  coalesced = malloc_impl-Coalesced size kernel h v.coalesced;
}

pub free-IsHeap :
    (stray : ℕ → Heap → Heap) (a e ptr : ℕ) (h : Heap)
    → IsPointer ptr h
    → IsHeap a e h
    → IsHeap a e (mm_free stray ptr h)
free-IsHeap stray a e ptr h ok v = record {
  end = v.end;
  tiles = mm_free-Tiles stray ptr h a e ok v.tiles;
  coalesced = mm_free-Coalesced stray ptr h a e ok v.tiles v.coalesced;
}

-- Every request, granted or not, and every release of NULL or of a block of the heap keep the blocks
-- side by side over the same memory, with no two free neighbours.
pub first_fit-IsHeap :
    (stray : ℕ → Heap → Heap) (a e size ptr : ℕ) (kernel : Bool) (h : Heap)
    → IsHeap a e h
    → IsPointer ptr h
    → IsHeap a e (malloc_impl size kernel h).1 × IsHeap a e (mm_free stray ptr h)
first_fit-IsHeap stray a e size ptr kernel h v ok =
    (malloc-IsHeap a e size kernel h v, free-IsHeap stray a e ptr h ok v)

pub malloc_kernel-IsHeap :
    (a e size : ℕ) (h : Heap) → IsHeap a e h → IsHeap a e (mm_malloc_kernel size h).1
unfolding mm_malloc_kernel
malloc_kernel-IsHeap a e size h v = malloc-IsHeap a e size true h v

pub malloc_kernel-has_block :
    (size : ℕ) (h : Heap) (p : ℕ)
    → (mm_malloc_kernel size h).0 ≡ some p
    → has_block (p - header) (mm_malloc_kernel size h).1 ≡ true
unfolding mm_malloc_kernel
malloc_kernel-has_block size h p e = malloc_impl-has_block size true h p e

pub malloc_kernel_fails :
    (size : ℕ) (h : Heap) → (mm_malloc_kernel size h).0 ≡ none → (mm_malloc_kernel size h).1 ≡ h
unfolding mm_malloc_kernel
malloc_kernel_fails size h e = malloc_impl_fails size true h e

-- The memory manager over the memory from `a` to `e`.
abbrev pub first_fit_allocator : (ℕ → Heap → Heap) → ℕ → ℕ → Allocator
first_fit_allocator stray a e = record {
  Heap = Heap;
  malloc_kernel = mm_malloc_kernel;
  free = mm_free stray;
  IsValid = IsHeap a e;
  IsGranted = λ ptr h. has_block (ptr - header) h ≡ true;
  malloc_kernel-IsValid = λ size h v. malloc_kernel-IsHeap a e size h v;
  malloc_kernel-IsGranted = λ size h p e. malloc_kernel-has_block size h p e;
  malloc_kernel-keeps = λ size h refused p held.
      subst (λ h'. has_block (p - header) h' ≡ true) (sym (malloc_kernel_fails size h refused))
        held;
  free-IsValid = λ ptr h granted v. free-IsHeap stray a e ptr h (inr granted) v;
}
