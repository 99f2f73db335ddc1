-- ===== src/Terminal/Tests.antt =====
-- Numbers printed (`src/kernel_common/terminal.c`, `src/kernel_common/c_generic/itoa.c`).
