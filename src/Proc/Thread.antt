-- ===== src/Proc/Thread.antt =====
-- kernel/proc/kthread.c, and the calls of kernel/proc/proc.c that end threads. A call that does not
-- return ends where the thread gives up the processor.
use cs402_os.Base.{
  ℕ, ◌&&◌, Bool, true, false, not, none, some, List, [], ◌∷◌, ◌==◌, if◌then◌else◌, ℤ, pos, Exec,
  done, panic, ◌>>=◌, ◌>>◌, kassert,
}
use cs402_os.Files.Table.{Vnodes}
use cs402_os.Sched.Queue.{
  KtState, kt_no_state, kt_run, kt_exited, Thread, Sched, update, is_none, set_thread, unlink,
}
use cs402_os.Sched.Ops.{is_cancellable, set_state, sched_cancel}
use cs402_os.Proc.Table.{set_process}
use cs402_os.Proc.Exit.{Kernel, proc_cleanup}

-- The other fields of threads, and the threads of each process.
pub record Threads (V : Type 0) : Type 0 where
  pub kernel : Kernel V
  pub kt_retval : ℕ → ℤ
  pub p_threads : ℕ → List ℕ

abbrev pub set_sched : {V : Type 0} → Sched → Threads V → Threads V
set_sched x s = record s { kernel = record s.kernel { sched = x } }

abbrev pub set_status : {V : Type 0} → ℕ → ℤ → Threads V → Threads V
set_status p status s =
    let t = s.kernel.table in
    let x = record (t.process p) { p_status = status } in
    record s { kernel = record s.kernel { table = set_process p x t } }

abbrev pub is_running : KtState → Bool
is_running kt_run = true
is_running _ = false

-- The thread that `kthread_create` has made at the address `new`, with its stack and context.
unfoldable pub kthread_create : {V : Type 0} → ℕ → ℕ → Threads V → Threads V
kthread_create p new s =
    let x : Thread = record {
      kt_state = kt_no_state;
      kt_cancelled = false;
      kt_wchan = none;
      kt_proc = p;
    } in
    let s1 = set_sched (set_thread new x s.kernel.sched) s in
    record s1 {
      kt_retval = update s.kt_retval new (pos 0);
      p_threads = update s.p_threads p (new ∷ s.p_threads p);
    }

unfoldable pub kthread_clone : {V : Type 0} → ℕ → ℕ → Threads V → Exec (Threads V)
kthread_clone t new s = do
  let x = s.kernel.sched.threads t
  kassert (is_running x.kt_state)
  let s1 = set_sched (set_thread new x s.kernel.sched) s
  done (record s1 { kt_retval = update s.kt_retval new (s.kt_retval t) })

unfoldable pub kthread_destroy : {V : Type 0} → ℕ → ℕ → Threads V → Threads V
kthread_destroy p t s = record s { p_threads = update s.p_threads p (unlink t (s.p_threads p)) }

module _ {V : Type 0} (vn : Vnodes V) (nfiles : ℕ) (wait_queue : ℕ → ℕ) (vmmap_destroy : V → V)
    (runq pid_init : ℕ) where
  -- `proc_thread_exited`, up to `sched_switch`.
  unfoldable pub proc_thread_exited : ℤ → Kernel V → Exec (Kernel V)
  proc_thread_exited retval k =
      let x = set_state k.sched.curthr kt_exited k.sched in
      proc_cleanup vn nfiles wait_queue vmmap_destroy runq pid_init k.sched.curproc retval
        (record k { sched = x })

  -- The links of a thread are set where it is on a queue, as `kt_wchan` is.
  unfoldable pub kthread_exit : ℤ → Threads V → Exec (Threads V)
  kthread_exit retval s = do
    let me = s.kernel.sched.curthr
    let x = set_state me kt_exited s.kernel.sched
    kassert (is_none ((x.threads me).kt_wchan))
    kassert ((x.threads me).kt_proc == x.curproc)
    k ← proc_thread_exited retval (record s.kernel { sched = x })
    done (record s { kernel = k; kt_retval = update s.kt_retval me retval })

  -- `kthread_cancel`: `false` where the call does not return.
  unfoldable pub kthread_cancel : ℕ → ℤ → Threads V → Exec (Bool × Threads V)
  kthread_cancel t retval s =
      let left = (kthread_exit retval s >>= λ s'. done (false, s')) in
      let x = record (s.kernel.sched.threads t) { kt_cancelled = true } in
      let s1 = record s { kt_retval = update s.kt_retval t retval } in
      let marked = set_thread t x s.kernel.sched in
      let woken = (sched_cancel runq t marked >>= λ y. done (true, set_sched y s1)) in
      if t == s.kernel.sched.curthr
      then left
      else if is_cancellable x.kt_state
      then woken
      else done (true, set_sched marked s1)

  -- The loop of `proc_kill` and of `do_exit` over the threads of a process.
  unfoldable pub cancel_loop : ℤ → List ℕ → Threads V → Exec (Bool × Threads V)
  cancel_loop status [] s = done (true, s)
  cancel_loop status (t ∷ later) s =
      kthread_cancel t status s >>= λ r. if r.0 then cancel_loop status later r.1 else done r

  unfoldable pub do_exit : ℤ → Threads V → Exec (Threads V)
  do_exit status s = cancel_loop status (s.p_threads s.kernel.sched.curproc) s >>= λ r.
      if r.0 then kthread_exit status r.1 else done r.1

  unfoldable pub proc_kill : ℕ → ℤ → Threads V → Exec (Bool × Threads V)
  proc_kill p status s =
      let exits = (do_exit status s >>= λ s'. done (false, s')) in
      let cancels =
        (cancel_loop status (s.p_threads p) s >>= λ r.
        if r.0 then done (true, set_status p status r.1) else done r) in
      if p == s.kernel.sched.curproc then exits else cancels

  -- The loop of `proc_kill_all` over the process list. The parent is followed without a test.
  unfoldable pub kill_loop : ℕ → List ℕ → Threads V → Exec (Bool × Threads V)
  kill_loop pid_idle [] s = done (true, s)
  kill_loop pid_idle (p ∷ later) s =
      let t = s.kernel.table in
      let x = t.process p in
      let other = not (p == s.kernel.sched.curproc) && not (x.p_pid == pid_idle) in
      let killed =
        (proc_kill p x.p_status s >>= λ r. if r.0 then kill_loop pid_idle later r.1 else done r) in
      let left = kill_loop pid_idle later s in
      if x.p_pid == pid_idle then left else elim (x.p_pproc) [
        | none ↦ panic
        | some parent ↦ if not ((t.process parent).p_pid == pid_idle) && other then killed else left
      ]

  unfoldable pub proc_kill_all : ℕ → Threads V → Exec (Threads V)
  proc_kill_all pid_idle s = kill_loop pid_idle s.kernel.table.proc_list s >>= λ r.
      let k = r.1.kernel in
      if r.0 then do_exit (k.table.process k.sched.curproc).p_status r.1 else done r.1
