-- ===== src/Namev.antt =====
-- Path names and the calls that take them: kernel/fs/namev.c and kernel/fs/vfs_syscall.c.
pub mod Vnode
pub mod Lookup
pub mod Calls
mod Tests
