-- ===== src/Memory/FirstFit/Status.antt =====
-- The totals of `mm_status`.
use tp2_so_nuevo.Prelude.{ℕ, ◌+◌, ◌≡◌, refl, false, [], ◌∷◌, arith, ◌&&◌, not, if◌then◌else◌}
use tp2_so_nuevo.Memory.FirstFit.{
  Heap, header, is_null, MemStatus, count_block, count_blocks, mm_status,
}
use tp2_so_nuevo.Memory.FirstFit.Layout.{Tiles}

-- The number of blocks in use that belong to the user.
abbrev pub user_blocks : Heap → ℕ
user_blocks [] = 0
user_blocks (b ∷ bs) = (if not b.is_free && not b.is_kernel then 1 else 0) + user_blocks bs

count_blocks_lem :
    (s : MemStatus) (a : ℕ) (h : Heap) (e : ℕ)
    → Tiles a h e
    → s.total ≡ s.free + s.used + s.used_kernel
    → let t = count_blocks s h in
      (t.total ≡ t.free + t.used + t.used_kernel)
      × (t.total + a ≡ s.total + e)
      × (t.alloc_count ≡ s.alloc_count + user_blocks h)
unfolding count_blocks count_block
count_blocks_lem s a [] e t balance = (balance, omega arith, omega arith)
count_blocks_lem s a (b ∷ bs) e t balance =
    ground (arith, count_blocks_lem (count_block b s) (a + header + b.size) bs e)

-- For a heap that fills the memory from `a` to `e`: the total is the size of that memory, free, used
-- and kernel bytes make it up, and the count is that of the user's blocks.
pub mm_status_lem :
    (s : MemStatus) (a : ℕ) (h : Heap) (e : ℕ)
    → is_null h ≡ false
    → Tiles a h e
    → let t = mm_status s h in
      (t.total ≡ t.free + t.used + t.used_kernel)
      × (t.total + a ≡ e)
      × (t.alloc_count ≡ user_blocks h)
unfolding mm_status
mm_status_lem s a h e set_up t =
    let zeros : MemStatus = record {
      total = 0;
      free = 0;
      used = 0;
      used_kernel = 0;
      alloc_count = 0;
    } in
    let (balance, size, users) = count_blocks_lem zeros a h e t refl in
    rw set_up (balance, omega arith, omega arith)
