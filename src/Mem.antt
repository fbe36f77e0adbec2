-- ===== src/Mem.antt =====
-- core/mem: arenas, raw allocations, weak references and layout calculations.
pub mod Alloc
pub mod Arena
pub mod Layout
pub mod Weak
