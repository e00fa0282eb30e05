-- ===== src/Memory.antt =====
-- The two memory managers of Kernel/c/memoryManager, of which a build links one.
pub mod FirstFit
pub mod Buddy
