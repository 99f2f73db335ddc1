-- ===== src/Memory.antt =====
-- Physical pages, the kernel heap, page tables and the areas of a process (`src/memory/`).
pub mod Page
pub mod Store
pub mod Pmm
pub mod Heap
pub mod Vmm
pub mod BsTree
pub mod Vma
mod Tests
