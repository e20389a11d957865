-- ===== src/Lib.antt =====
-- The kernel of CS402-OS (kernel/): address spaces and page faults, open files, path names,
-- processes, threads and mutexes; the list and the sorting of warmup1/, and the token bucket of
-- Threading/.
--
-- Parts, and the files that model them:
-- - Base: shared names, Boolean tests, 32-bit arithmetic, lists over the native numbers, signed
--   integers, and Exec, the outcome of kernel code: a value, or a panic for a failed KASSERT or
--   a NULL pointer that is followed.
-- - Vm: Area (vmarea_t, vmmap_t, and the constants and calls that kernel/proc/vm/vmmap.c takes
--   from elsewhere), VmMap and Mapping (vmmap.c, each function under its own name), Copy
--   (vmmap_read, vmmap_write, and kernel/api/access.c), Brk (kernel/proc/vm/brk.c), Mmap
--   (kernel/proc/vm/mmap.c), Pagefault (kernel/proc/vm/pagefault.c, with its proof). Space says
--   what an address space is: the partial function from page numbers to pages of objects.
--   Insert, Empty, FindRange, Remove, Map, Clone, CopyLaws and MmapLaws hold the proofs.
-- - Files: Table (file_t, the descriptor table, and kernel/fs/file.c; get_empty_fd of
--   kernel/fs/open.c), Calls (do_close, do_dup, do_dup2, do_lseek, do_read and do_write of
--   kernel/fs/vfs_syscall.c), Getdent (do_getdent), Open (do_open of kernel/fs/open.c), Count
--   and Invariant (what a reference count has to be), CallLaws, Dup2 and Offsets (proofs).
-- - Namev: Vnode (vref and vput of kernel/fs/vnode.c, and the operations of a vnode), Lookup
--   (lookup, dir_namev and open_namev of kernel/fs/namev.c), Calls (the calls of
--   kernel/fs/vfs_syscall.c that take a path), with runs of them and no theorems.
-- - Ramfs: Vnodes (vget and vput of kernel/fs/vnode.c over a file system), Inode and Ops
--   (inodes, directories and the operations on them of kernel/fs/ramfs/ramfs.c), Data (read,
--   write, readdir, stat, mount and umount of the same file), Links (what a link count has to
--   be), Steps, Alloc, Create, Nodes, Removal, Names, DataLaws, Mount and Listing (proofs).
-- - Sched: Queue and Ops (kernel/proc/sched.c), Mutex (kernel/proc/kmutex.c), Invariant and
--   MutexLaws (proofs).
-- - Proc: Table (the process table, _proc_getid, proc_lookup, do_waitpid and the reparenting of
--   kernel/proc/proc.c), Exit (proc_cleanup as a whole), Create (proc_create), Thread
--   (kernel/proc/kthread.c, and proc_thread_exited, do_exit, proc_kill and proc_kill_all), Ids,
--   Tree, Wait, Cleanup, ExitLaws, NewProcess, CreateLaws and ThreadLaws (proofs).
-- - TokenBucket: Threads (the packet thread, the bucket thread and the two servers of
--   Threading/warmup2.c, as steps over their shared state), Balance, Order and Waits (proofs).
-- - My402List: Ops (warmup1/my402list.c on a store of cells) and Links (proofs).
-- - Transactions: Sort (sortList of warmup1/warmup1.c, whose swap of two neighbours
--   BubbleForward makes) and SortLaws (proofs).
-- The parts meet as in the code: do_mmap, do_munmap and do_brk call the operations on maps, the
-- copies look areas up in them, mutexes sleep and wake on the thread queues, and proc_cleanup
-- acts on the process table, the thread queues and the open files at once.
--
-- How the code is read:
-- - The kernel's header files are not in the repository. Their constants (PAGE_SIZE,
--   USER_MEM_LOW, USER_MEM_HIGH, the MAP_, PROT_ and FMODE_ bits, NFILES, errno numbers, the
--   address of kt_runq) are parameters. IsLayout says what proofs need of the memory constants.
-- - The slab allocators, memory objects, page frames, page tables, the TLB, and the file systems
--   below the vnodes are parameters too: records of functions over an abstract state (Memory,
--   Frames, Pages, Mmu, Vnodes, Names, VnodeOps). No law is supposed of them, but that an
--   allocation succeeds, or a frame has an address, where a theorem names that as a condition.
--   What they return as a pointer may be NULL: vmmap_map follows the objects that it has made,
--   and proc_create the map, and both panic where there is none. The operations of a vnode
--   (VnodeOps) may fail an assertion, which is then one of the call. Files sees vnodes and path
--   lookup only as such parameters.
-- - The intrusive lists of util/list.h are read as sequences. Objects are named by their
--   addresses.
-- - Page numbers and user addresses wrap at 2^32, as uint32_t does; sums of file offsets wrap as
--   an off_t of 32 bits (add_off); reference counts are unbounded, since the code does not check
--   them. Debug output is left out, and so are the tests of maps and threads for NULL, which are
--   records here.
-- - References to a vnode are vn_refcount less vn_nrespages: vput tests that they are positive,
--   and a resident page takes no part in them. A name is the rest of the path with a length, as
--   in the code. The operations that a directory lacks (KASSERTs on vn_ops members) are taken to
--   be there, except lookup.
-- - Ramfs is one file system. A vnode is named by its number, a vnode in use is not busy and
--   finds memory, and each operation is one step. The page of an inode is read as the entries of
--   a directory, the bytes of a file, or the number of a device; a name is its characters up to
--   the NUL. name_match and the allocators are parameters, link counts are natural numbers, and
--   a failed memcpy of ramfs_write is a panic. Namev sees a file system only as the parameter
--   VnodeOps.
-- - What a thread of warmup2.c does under token_mutex is one step, which only starts where no
--   server is about to wait with the mutex. Times are left out, and so each thread may take its
--   next step at any time; the tokens that a packet requires are a function of its number. A
--   packet is made, and counted in total_packet_count, in a step of its own before the mutex is
--   taken; the counters that several threads change without it (packet_served and
--   packets_processed_by_token_and_packet_thread) are left out, and the departures that the
--   servers print are counted instead.
-- - sortList works on the sequence of transactions, in one moment of time(NULL); a time is the
--   bits of a long, and is compared as an int (int_time).
-- - The state of a process, p_state, stands in the process table, and Sched.p_dead is the copy
--   of it that the thread queues read for the current process.
-- - Identifiers of processes are natural numbers, so that proc_create ends without a table where
--   _proc_getid returns -1; the code goes on.
-- - all_exited of a process stands for the test of its threads that do_waitpid makes. The
--   operations on threads, which know p_threads, do not set it.
-- - proc_cleanup takes the process table, the thread queues and the descriptors as separate
--   parts of the state, and keeps the order of the steps on each part.
-- - A sleep ends where the thread gives up the processor. What the thread does when it runs
--   again is a function of its own (after_cancellable_sleep, lock_cancellable_resumes);
--   do_waitpid ends its round there, and kthread_exit ends where it would switch. A flag says
--   whether kthread_cancel and the calls on top of it have returned. Interrupt levels are not
--   modelled: each operation is one step.
--
-- Fuel: the rounds of the page count, of sched_broadcast_on and of the copies are bounded by the
-- length, the number of waiting threads, and 2. Each round takes a page, a thread or the whole
-- rest of the bytes away. get_empty_fd counts down from NFILES. The rounds of dir_namev are
-- bounded by the length of the path, each of which takes a character away, and those of
-- _proc_getid by PROC_MAX_COUNT.
-- My402ListUnlinkAll and My402ListFind take as many rounds as num_members says, and one more for
-- the anchor.
-- Not modelled: fork, the stacks and contexts of threads, memory objects, the allocators and
-- page tables of kernel/mm, flushing of vnodes, special files, mounting, the S5 file system
-- (most of its functions have no body in the source), program loading, kmain and the test
-- programs, the times, options and output of Threading/warmup2.c, and the parsing and printing
-- of warmup1/warmup1.c. They are large parts of their own, hardware access, or tests.
pub mod Base
pub mod Vm
pub mod Files
pub mod Namev
pub mod Ramfs
pub mod Sched
pub mod Proc
pub mod TokenBucket
pub mod My402List
pub mod Transactions
