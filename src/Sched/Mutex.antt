-- ===== src/Sched/Mutex.antt =====
-- kernel/proc/kmutex.c. A mutex is given by the address of its wait queue.
use cs402_os.Base.{
  ℕ, Bool, not, Option, none, some, if◌then◌else◌, Exec, done, ◌>>=◌, ◌>>◌, kassert,
}
use cs402_os.Sched.Queue.{Sched, update, sched_queue_init}
use cs402_os.Sched.Ops.{
  on_queue, sched_sleep_on, sched_cancellable_sleep_on, after_cancellable_sleep, sched_wakeup_on,
}

abbrev pub set_holder : ℕ → Option ℕ → Sched → Sched
set_holder m t s = record s { km_holder = update s.km_holder m t }

-- `curthr == mtx->km_holder`.
abbrev pub holds : ℕ → Sched → Bool
holds m s = on_queue (s.km_holder m) s.curthr

-- How a lock ends: it is taken, the thread sleeps for it, or the call returns -EINTR.
pub data Locked : Type 0 where
  taken asleep eintr : Locked

unfoldable pub kmutex_init : ℕ → Sched → Sched
kmutex_init m s = sched_queue_init m (set_holder m none s)

module _ (runq : ℕ) where
  unfoldable pub kmutex_lock : ℕ → Sched → Exec (Locked × Sched)
  kmutex_lock m s = do
    kassert (not (holds m s))
    elim (s.km_holder m) [
      | none ↦ done (taken, set_holder m (some s.curthr) s)
      | some t ↦ sched_sleep_on runq m s >>= λ s'. done (asleep, s')
    ]

  unfoldable pub kmutex_lock_cancellable : ℕ → Sched → Exec (Locked × Sched)
  kmutex_lock_cancellable m s = do
    kassert (not (holds m s))
    elim (s.km_holder m) [
      | none ↦ done (taken, set_holder m (some s.curthr) s)
      | some t ↦ sched_cancellable_sleep_on runq m s >>= λ r.
          done (if r.0 then (asleep, r.1) else (eintr, r.1))
    ]

  -- The rest of `kmutex_lock_cancellable`, when the thread that has slept for it runs again.
  unfoldable pub lock_cancellable_resumes : Sched → Locked × Sched
  lock_cancellable_resumes s =
      let (ok, s') = after_cancellable_sleep runq s in if ok then (taken, s') else (eintr, s')

  unfoldable pub kmutex_unlock : ℕ → Sched → Exec Sched
  kmutex_unlock m s = do
    kassert (holds m s)
    r ← sched_wakeup_on runq m s
    let s' = set_holder m r.0 r.1
    kassert (not (holds m s'))
    done s'
