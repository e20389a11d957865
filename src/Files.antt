-- ===== src/Files.antt =====
-- The open files of a process: kernel/fs/file.c, `get_empty_fd` of kernel/fs/open.c, and the
-- calls of kernel/fs/vfs_syscall.c on a file descriptor.
pub mod Table
pub mod Calls
pub mod Open
pub mod Count
pub mod Invariant
pub mod CallLaws
pub mod Dup2
pub mod Offsets
pub mod Getdent
mod Tests
