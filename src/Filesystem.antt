-- ===== src/Filesystem.antt =====
-- The virtual file system and the tables of open files (`src/filesystem/`, `src/syscalls/fs/`).
pub mod Vfs
pub mod File
pub mod Mount
pub mod Fd
pub mod Calls
mod Tests
