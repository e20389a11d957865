-- ===== src/Vm.antt =====
-- Virtual memory: the address space of a process (proc/vm/vmmap.c) and what is built on it.
pub mod Area
pub mod VmMap
pub mod Space
pub mod Insert
pub mod Empty
pub mod FindRange
pub mod Remove
pub mod Mapping
pub mod Map
pub mod Clone
pub mod Copy
pub mod CopyLaws
pub mod Brk
pub mod Mmap
pub mod MmapLaws
pub mod Pagefault
mod Tests
mod CallTests
mod FaultTests
