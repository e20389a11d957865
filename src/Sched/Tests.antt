-- ===== src/Sched/Tests.antt =====
-- The theorems on threads and mutexes, where threads 2 and 3 wait for a mutex that 1 holds.
use cs402_os.Base.{
  ℕ, ◌≡◌, refl, true, false, none, some, List, [], ◌∷◌, ◌==◌, if◌then◌else◌, arith, done, ◌⊎◌,
}
use cs402_os.Sched.Queue.{set_thread, kt_run, kt_sleep_cancellable, Thread, Sched, unsnoc, leave}
use cs402_os.Sched.Ops.{is_cancellable, sched_broadcast_on, sched_cancel}
use cs402_os.Sched.Mutex.{set_holder, kmutex_unlock, lock_cancellable_resumes, eintr}
use cs402_os.Sched.Invariant.{links}
use cs402_os.Sched.MutexLaws.{
  IsSettled, runnable, sched_broadcast_on_lem, kmutex_unlock_lem, lock_cancellable-keeps_holder,
  sched_cancel_lem,
}

abbrev running : Thread
running = record { kt_state = kt_run; kt_cancelled = false; kt_wchan = none; kt_proc = 0 }

abbrev waiting : Thread
waiting = record running { kt_state = kt_sleep_cancellable; kt_wchan = some 9 }

-- The run queue is 8, the mutex's queue 9.
abbrev contended : Sched
contended = record {
  threads = λ t. if t == 2 then waiting else if t == 3 then waiting else running;
  queues = λ q.
      if q == 9
      then record { tq_list = 3 ∷ 2 ∷ []; tq_size = 2 }
      else record { tq_list = []; tq_size = 0 };
  km_holder = λ m. if m == 9 then some 1 else none;
  p_dead = λ p. false;
  curthr = 1;
  curproc = 0;
}

contended-IsSettled : IsSettled 8 contended
unfolding links
contended-IsSettled = record {
  links_right = record { size = λ q. ground arith; linked = λ q t. ground arith };
  states_right = λ t q e. ground arith;
}

broadcast_example :
    (s' : Sched) × (sched_broadcast_on 8 9 contended ≡ done (some s'))
    × ((s'.queues 9).tq_list ≡ [])
    × IsSettled 8 s'
broadcast_example = sched_broadcast_on_lem 8 9 contended contended-IsSettled (omega arith)

unlock_example :
    (((contended.queues 9).tq_list ≡ [])
      × (kmutex_unlock 8 9 contended ≡ done (set_holder 9 none contended)))
    ⊎ ((front : List ℕ) × (y : ℕ) × (unsnoc (contended.queues 9).tq_list ≡ some (front, y))
        × (let s' = set_holder 9 (some y) (runnable 8 y (leave 9 front y contended)) in
            (kmutex_unlock 8 9 contended ≡ done s') × IsSettled 8 s'))
unlock_example = kmutex_unlock_lem 8 9 contended contended-IsSettled (omega arith) refl refl

cancel_example :
    (s' : Sched) × (sched_cancel 8 3 contended ≡ done s')
    × ((s'.threads 3).kt_cancelled ≡ true)
    × (is_cancellable (s'.threads 3).kt_state ≡ false)
    × IsSettled 8 s'
    × (((is_cancellable (contended.threads 3).kt_state ≡ true)
          × ((s'.threads 3).kt_state ≡ kt_run)
          × ((q : ℕ) → links 3 (s'.queues q).tq_list ≡ (if 8 == q then 1 else 0)))
        ⊎ ((is_cancellable (contended.threads 3).kt_state ≡ false)
            × (s' ≡ set_thread 3 (record (contended.threads 3) { kt_cancelled = true }) contended)))
cancel_example = sched_cancel_lem 8 3 contended contended-IsSettled (λ e out. cc)

-- Thread 2 has been handed the mutex.
abbrev handed : Sched
handed = set_holder 9 (some 2) (runnable 8 2 (leave 9 (3 ∷ []) 2 contended))

keeps_holder_example :
    (s1 : Sched) × (sched_cancel 8 2 handed ≡ done s1)
    × (let r = lock_cancellable_resumes 8 (record s1 { curthr = 2; curproc = 0 }) in
        (r.0 ≡ eintr) × (r.1.km_holder 9 ≡ some 2))
keeps_holder_example = lock_cancellable-keeps_holder 8 9 2 0 handed refl refl
