-- ===== src/Sched/MutexLaws.antt =====
-- Waking, broadcasting, cancelling, and what a mutex promises.
use cs402_os.Base.{
  ℕ, zero, suc, ◌+◌, ◌≡◌, ◌≢◌, refl, true, false, not, none, some, List, [], ◌==◌, if◌then◌else◌,
  length, arith, done, Option-cases, inl, inr, Bool-cases, ◌⊎◌,
}
use cs402_os.Sched.Queue.{
  kt_run, Sched, set_thread, unsnoc, member, unlink, leave, ktqueue_dequeue, ktqueue_remove,
  sched_queue_empty,
}
use cs402_os.Sched.Ops.{
  is_asleep, is_cancellable, set_state, sched_make_runnable, sched_wakeup_on, broadcast_loop,
  sched_broadcast_on, sched_cancel, after_cancellable_sleep, interrupted,
}
use cs402_os.Sched.Mutex.{set_holder, holds, eintr, kmutex_unlock, lock_cancellable_resumes}
use cs402_os.Sched.Invariant.{
  links, WellFormed, unsnoc-none, links-unsnoc, links-unlink, links-member, enqueued, enqueue_lem,
  leave-WellFormed,
}

-- The links are right, threads on the run queue do not sleep, and threads on any other queue do.
pub record IsSettled (runq : ℕ) (s : Sched) : Type 0 where
  pub links_right : WellFormed s
  pub states_right :
      (t q : ℕ)
      → (s.threads t).kt_wchan ≡ some q
      → is_asleep (s.threads t).kt_state ≡ not (q == runq)

-- The state with `t` on the run queue.
abbrev pub runnable : ℕ → ℕ → Sched → Sched
runnable runq t s = enqueued runq t (set_state t kt_run s)

queue_is_empty : (q : ℕ) (s : Sched) → (s.queues q).tq_list ≡ [] → sched_queue_empty q s ≡ true
unfolding sched_queue_empty
queue_is_empty q s e = rw (e, sched_queue_empty) refl

module _ (runq : ℕ) where
  make_runnable_lem :
      (t : ℕ) (s : Sched)
      → IsSettled runq s
      → (s.threads t).kt_wchan ≡ none
      → (sched_make_runnable runq t s ≡ done (runnable runq t s))
        × IsSettled runq (runnable runq t s)
  unfolding sched_make_runnable
  make_runnable_lem t s ok out =
      let wf : WellFormed (set_state t kt_run s) = record {
        size = ok.links_right.size;
        linked = λ p u. ground (arith, ok.links_right.linked p u);
      } in
      let free : ((set_state t kt_run s).threads t).kt_wchan ≡ none = ground arith in
      let (r, wf') = enqueue_lem runq t (set_state t kt_run s) wf free in
      (
        ground (arith, r),
        record { links_right = wf'; states_right = λ u p e. ground (arith, ok.states_right u p) },
      )

  -- A thread that is linked on `q` and leaves it to run.
  depart_lem :
      (q y : ℕ) (front : List ℕ) (s : Sched)
      → IsSettled runq s
      → ((u : ℕ)
          → (links u (s.queues q).tq_list ≡ links u front + (if u == y then 1 else 0))
            × (length (s.queues q).tq_list ≡ suc (length front)))
      → let s' = runnable runq y (leave q front y s) in
        (sched_make_runnable runq y (leave q front y s) ≡ done s') × IsSettled runq s'
  depart_lem q y front s ok cut =
      make_runnable_lem y (leave q front y s)
        (record {
          links_right = leave-WellFormed q y front s ok.links_right cut;
          states_right = λ u p e. ground (arith, ok.states_right u p);
        })
        (ground arith)

  -- `sched_wakeup_on` on a queue other than the run queue wakes the thread that has waited
  -- longest, the last of the list, and makes it runnable; on an empty queue it changes nothing.
  pub wakeup_lem :
      (q : ℕ) (s : Sched)
      → IsSettled runq s
      → q ≢ runq
      → (((s.queues q).tq_list ≡ []) × (sched_wakeup_on runq q s ≡ done (none, s)))
        ⊎ ((front : List ℕ) × (y : ℕ) × (unsnoc (s.queues q).tq_list ≡ some (front, y))
            × (let s' = runnable runq y (leave q front y s) in
                (sched_wakeup_on runq q s ≡ done (some y, s')) × IsSettled runq s'))
  unfolding sched_wakeup_on ktqueue_dequeue sched_queue_empty
  wakeup_lem q s ok ne = elim (Option-cases (unsnoc (s.queues q).tq_list)) [
    | inl empty ↦
        let e = unsnoc-none (s.queues q).tq_list empty in inl (e, rw (queue_is_empty q s e) refl)
    | inr ((front, y), e) ↦
        let cut = λ (u : ℕ). links-unsnoc u (s.queues q).tq_list front y e in
        let (r, ok') = depart_lem q y front s ok cut in
        let here : (s.threads y).kt_wchan ≡ some q =
          ground (arith, ok.links_right.linked q y, cut y) in
        let sleeps : is_asleep (s.threads y).kt_state ≡ true =
          ground (arith, ok.states_right y q here) in
        let full : sched_queue_empty q s ≡ false = ground (arith, cut y) in
        let taken_off : ktqueue_dequeue q s ≡ (some y, leave q front y s) =
          rw (e, ktqueue_dequeue) refl in
        inr (front, y, e, (ground (arith, r, full, taken_off, sleeps), ok'))
  ]

  broadcast_loop_lem :
      (fuel q : ℕ) (s : Sched)
      → IsSettled runq s
      → q ≢ runq
      → length (s.queues q).tq_list ≡ fuel
      → (s' : Sched) × (broadcast_loop runq fuel q s ≡ done (some s'))
        × ((s'.queues q).tq_list ≡ [])
        × IsSettled runq s'
  unfolding broadcast_loop sched_queue_empty
  broadcast_loop_lem zero q s ok ne n =
      let e : (s.queues q).tq_list ≡ [] = ground (arith, n) in
      (s, rw (queue_is_empty q s e) refl, e, ok)
  broadcast_loop_lem (suc fuel) q s ok ne n = elim (wakeup_lem q s ok ne) [
    | inl (e, r) ↦ (s, rw (queue_is_empty q s e) refl, e, ok)
    | inr (front, y, e, (r, ok1)) ↦
        let s1 = runnable runq y (leave q front y s) in
        let cut = links-unsnoc y (s.queues q).tq_list front y e in
        let shorter : length (s1.queues q).tq_list ≡ fuel = ground (arith, cut) in
        let (s', rest, empty, ok') = broadcast_loop_lem fuel q s1 ok1 ne shorter in
        (s', ground (arith, r, rest), empty, ok')
  ]

  -- Where the links are right and the threads on a queue other than the run queue sleep,
  -- `sched_broadcast_on` ends without a failed assertion, its fuel is enough, and the queue is
  -- empty behind it.
  pub sched_broadcast_on_lem :
      (q : ℕ) (s : Sched)
      → IsSettled runq s
      → q ≢ runq
      → (s' : Sched) × (sched_broadcast_on runq q s ≡ done (some s'))
        × ((s'.queues q).tq_list ≡ [])
        × IsSettled runq s'
  unfolding sched_broadcast_on
  sched_broadcast_on_lem q s ok ne = broadcast_loop_lem (length (s.queues q).tq_list) q s ok ne refl

  -- `kmutex_unlock`, where the current thread holds the mutex and is on no queue: no assertion
  -- fails, and the mutex passes to the thread that has waited longest, which becomes runnable, or
  -- to nobody where nobody waits.
  pub kmutex_unlock_lem :
      (m : ℕ) (s : Sched)
      → IsSettled runq s
      → m ≢ runq
      → holds m s ≡ true
      → (s.threads s.curthr).kt_wchan ≡ none
      → (((s.queues m).tq_list ≡ []) × (kmutex_unlock runq m s ≡ done (set_holder m none s)))
        ⊎ ((front : List ℕ) × (y : ℕ) × (unsnoc (s.queues m).tq_list ≡ some (front, y))
            × (let s' = set_holder m (some y) (runnable runq y (leave m front y s)) in
                (kmutex_unlock runq m s ≡ done s') × IsSettled runq s'))
  unfolding kmutex_unlock
  kmutex_unlock_lem m s ok ne held out = elim (wakeup_lem m s ok ne) [
    | inl (e, r) ↦ inl (e, ground (arith, r))
    | inr (front, y, e, (r, ok')) ↦
        let cut = links-unsnoc y (s.queues m).tq_list front y e in
        let other : (y == s.curthr) ≡ false = ground (arith, cut, ok.links_right.linked m y) in
        let settled : IsSettled runq (set_holder m (some y) (runnable runq y (leave m front y s))) =
          record {
            links_right = record { size = ok'.links_right.size; linked = ok'.links_right.linked };
            states_right = ok'.states_right;
          } in
        inr (front, y, e, (ground (arith, r, other), settled))
  ]

  -- A thread that is handed the mutex while it waits in `kmutex_lock_cancellable`, and is
  -- cancelled before it runs again, returns -EINTR and still holds the mutex.
  pub lock_cancellable-keeps_holder :
      (m w p : ℕ) (s : Sched)
      → s.km_holder m ≡ some w
      → (s.threads w).kt_state ≡ kt_run
      → (s1 : Sched) × (sched_cancel runq w s ≡ done s1)
        × (let r = lock_cancellable_resumes runq (record s1 { curthr = w; curproc = p }) in
            (r.0 ≡ eintr) × (r.1.km_holder m ≡ some w))
  unfolding sched_cancel lock_cancellable_resumes after_cancellable_sleep interrupted
  lock_cancellable-keeps_holder m w p s holder runs = (
    set_thread w (record (s.threads w) { kt_cancelled = true }) s,
    ground arith,
    (ground arith, ground arith),
  )

  -- `sched_cancel` of a thread that is on a queue whenever it is in a cancellable sleep: no
  -- assertion fails, the links stay right, the thread is marked cancelled, and it is in no
  -- cancellable sleep any more.
  pub sched_cancel_lem :
      (t : ℕ) (s : Sched)
      → IsSettled runq s
      → (is_cancellable (s.threads t).kt_state ≡ true → (s.threads t).kt_wchan ≢ none)
      → (s' : Sched) × (sched_cancel runq t s ≡ done s')
        × ((s'.threads t).kt_cancelled ≡ true)
        × (is_cancellable (s'.threads t).kt_state ≡ false)
        × IsSettled runq s'
        × (((is_cancellable (s.threads t).kt_state ≡ true)
              × ((s'.threads t).kt_state ≡ kt_run)
              × ((q : ℕ) → links t (s'.queues q).tq_list ≡ (if runq == q then 1 else 0)))
            ⊎ ((is_cancellable (s.threads t).kt_state ≡ false)
                × (s' ≡ set_thread t (record (s.threads t) { kt_cancelled = true }) s)))
  unfolding sched_cancel ktqueue_remove
  sched_cancel_lem t s ok linked =
      let s1 = set_thread t (record (s.threads t) { kt_cancelled = true }) s in
      let ok1 : IsSettled runq s1 = record {
        links_right = record {
          size = ok.links_right.size;
          linked = λ p u. ground (arith, ok.links_right.linked p u);
        };
        states_right = λ u p e. ground (arith, ok.states_right u p);
      } in
      elim (Bool-cases (is_cancellable (s.threads t).kt_state)) [
        | inr awake ↦ (s1, ground arith, ground arith, ground arith, ok1, inr (awake, refl))
        | inl sleeps ↦ elim (Option-cases (s.threads t).kt_wchan) [
          | inl out ↦ absurd (linked sleeps out)
          | inr (q, at) ↦
              let list = (s.queues q).tq_list in
              let on : member t list ≡ true =
                links-member t list (ground (arith, ok.links_right.linked q t)) in
              let cut = λ (u : ℕ). links-unlink t u list on in
              let (r, ok') = depart_lem q t (unlink t list) s1 ok1 cut in
              (
                runnable runq t (leave q (unlink t list) t s1),
                ground (arith, r, on),
                ground arith,
                ground arith,
                ok',
                inl (sleeps, ground arith, λ p. ground (arith, ok'.links_right.linked p t)),
              )
        ]
      ]
