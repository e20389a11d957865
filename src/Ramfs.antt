-- ===== src/Ramfs.antt =====
-- The file system in memory, and the table of vnodes above it: kernel/fs/ramfs/ramfs.c and
-- kernel/fs/vnode.c.
pub mod Vnodes
pub mod Inode
pub mod Ops
pub mod Links
pub mod Steps
pub mod Alloc
pub mod Create
pub mod Nodes
pub mod Removal
pub mod Names
pub mod Data
pub mod DataLaws
pub mod Mount
pub mod Listing
mod Tests
