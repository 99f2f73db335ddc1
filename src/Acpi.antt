-- ===== src/Acpi.antt =====
-- What the kernel gives to the uACPI library (`src/acpi/uacpi_kernel.c`): locks, events, and the
-- queue of deferred work.
pub mod Sync
pub mod WorkQueue
mod Tests
