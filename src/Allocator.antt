-- ===== src/Allocator.antt =====
-- What the rest of the kernel takes of the memory manager that the build links
-- (Kernel/include/memoryManager.h).
use tp2_so_nuevo.Prelude.{ℕ, ◌≡◌, Option, none, some}

pub record Allocator : Type 1 where
  pub Heap : Type 0
  -- `none` is NULL.
  pub malloc_kernel : ℕ → Heap → Option ℕ × Heap
  pub free : ℕ → Heap → Heap
  pub IsValid : Heap → Type 0
  -- The pointer was handed out, and its block is still there.
  pub IsGranted : ℕ → Heap → Type 0
  pub malloc_kernel-IsValid : (size : ℕ) (h : Heap) → IsValid h → IsValid (malloc_kernel size h).1
  pub malloc_kernel-IsGranted :
      (size : ℕ) (h : Heap) (ptr : ℕ)
      → (malloc_kernel size h).0 ≡ some ptr
      → IsGranted ptr (malloc_kernel size h).1
  -- A request that fails takes nothing back.
  pub malloc_kernel-keeps :
      (size : ℕ) (h : Heap)
      → (malloc_kernel size h).0 ≡ none
      → (ptr : ℕ) → IsGranted ptr h
      → IsGranted ptr (malloc_kernel size h).1
  -- Nothing is promised for other pointers.
  pub free-IsValid : (ptr : ℕ) (h : Heap) → IsGranted ptr h → IsValid h → IsValid (free ptr h)
