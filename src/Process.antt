-- ===== src/Process.antt =====
-- The process table of Kernel/include/process.h and Kernel/c/process/process.c.
pub mod Pcb
pub mod Control
pub mod Listing
