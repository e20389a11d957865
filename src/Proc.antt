-- ===== src/Proc.antt =====
-- Processes: kernel/proc/proc.c.
pub mod Table
pub mod Ids
pub mod Tree
pub mod Wait
pub mod Cleanup
pub mod Exit
pub mod ExitLaws
pub mod Create
pub mod NewProcess
pub mod CreateLaws
pub mod Thread
pub mod ThreadLaws
mod Tests
