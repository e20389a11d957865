-- ===== src/Sched/Ops.antt =====
-- The operations of kernel/proc/sched.c. A sleep ends where the thread gives up the processor;
-- what it does when it runs again is a function of its own.
use cs402_os.Base.{
  ℕ, zero, suc, Bool, true, false, not, Option, none, some, ◌==◌, if◌then◌else◌, length, Exec, done,
  panic, ◌>>=◌, ◌>>◌, kassert,
}
use cs402_os.Sched.Queue.{
  KtState, kt_run, kt_sleep, kt_sleep_cancellable, kt_exited, Sched, update, set_thread,
  ktqueue_enqueue, ktqueue_dequeue, ktqueue_remove, sched_queue_empty,
}

-- `tmp->kt_state == KT_SLEEP || tmp->kt_state == KT_SLEEP_CANCELLABLE`.
abbrev pub is_asleep : KtState → Bool
is_asleep kt_sleep = true
is_asleep kt_sleep_cancellable = true
is_asleep _ = false

abbrev pub is_cancellable : KtState → Bool
is_cancellable kt_sleep_cancellable = true
is_cancellable _ = false

abbrev pub set_state : ℕ → KtState → Sched → Sched
set_state t k s = set_thread t (record (s.threads t) { kt_state = k }) s

abbrev pub on_queue : Option ℕ → ℕ → Bool
on_queue none q = false
on_queue (some p) q = p == q

-- `runq` is the address of `kt_runq`.
module _ (runq : ℕ) where
  unfoldable pub sched_make_runnable : ℕ → Sched → Exec Sched
  sched_make_runnable t s = do
    kassert (not (on_queue ((s.threads t).kt_wchan) runq))
    ktqueue_enqueue runq t (set_state t kt_run s)

  -- `sched_switch` to the next thread. No state stands for a wait: while the run queue is empty,
  -- the processor waits for an interrupt and looks again.
  unfoldable pub sched_switch : Sched → Option Sched
  sched_switch s =
      let (next, s1) = ktqueue_dequeue runq s in
      elim next [
        | none ↦ none
        | some t ↦ some (record s1 { curthr = t; curproc = (s1.threads t).kt_proc })
      ]

  -- `sched_sleep_on`, up to `sched_switch`, behind which it only returns.
  unfoldable pub sched_sleep_on : ℕ → Sched → Exec Sched
  sched_sleep_on q s = ktqueue_enqueue q s.curthr (set_state s.curthr kt_sleep s)

  -- What a thread that was cancelled does with itself and its process, before it returns -EINTR.
  unfoldable pub interrupted : Sched → Sched
  interrupted s =
      set_state s.curthr kt_exited (record s { p_dead = update s.p_dead s.curproc true })

  -- `sched_cancellable_sleep_on` up to `sched_switch`: `true` if the thread sleeps, `false` if it
  -- was cancelled before and the call returns -EINTR.
  unfoldable pub sched_cancellable_sleep_on : ℕ → Sched → Exec (Bool × Sched)
  sched_cancellable_sleep_on q s =
      if (s.threads s.curthr).kt_cancelled
      then done (false, interrupted s)
      else (ktqueue_enqueue q s.curthr (set_state s.curthr kt_sleep_cancellable s) >>= λ s'.
          done (true, s'))

  -- The rest of `sched_cancellable_sleep_on`, when the thread runs again: `true` for 0, `false`
  -- for -EINTR.
  unfoldable pub after_cancellable_sleep : Sched → Bool × Sched
  after_cancellable_sleep s =
      if (s.threads s.curthr).kt_cancelled then (false, interrupted s) else (true, s)

  unfoldable pub sched_wakeup_on : ℕ → Sched → Exec (Option ℕ × Sched)
  sched_wakeup_on q s =
      let (tmp, s1) = ktqueue_dequeue q s in
      if sched_queue_empty q s then done (none, s) else elim tmp [
        | none ↦ panic
        | some t ↦ do
          kassert (is_asleep ((s1.threads t).kt_state))
          s2 ← sched_make_runnable t s1
          done (some t, s2)
      ]

  -- The loop of `sched_broadcast_on`. Each round takes a thread from the queue, so that its length
  -- is fuel enough; no state stands for want of fuel.
  unfoldable pub broadcast_loop : ℕ → ℕ → Sched → Exec (Option Sched)
  broadcast_loop zero q s = done (if sched_queue_empty q s then some s else none)
  broadcast_loop (suc fuel) q s =
      let more = (sched_wakeup_on q s >>= λ r. broadcast_loop fuel q r.1) in
      if sched_queue_empty q s then done (some s) else more

  unfoldable pub sched_broadcast_on : ℕ → Sched → Exec (Option Sched)
  sched_broadcast_on q s = broadcast_loop (length (s.queues q).tq_list) q s

  unfoldable pub sched_cancel : ℕ → Sched → Exec Sched
  sched_cancel t s =
      let x = record (s.threads t) { kt_cancelled = true } in
      let s1 = set_thread t x s in
      if is_cancellable x.kt_state
      then elim (x.kt_wchan) [
        | none ↦ panic
        | some q ↦ ktqueue_remove q t s1 >>= sched_make_runnable t
      ]
      else done s1
