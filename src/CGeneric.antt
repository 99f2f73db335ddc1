-- ===== src/CGeneric.antt =====
-- The memory and string functions of C (`src/kernel_common/c_generic/`), on bytes by address.
pub mod Mem
pub mod Str
mod Tests
