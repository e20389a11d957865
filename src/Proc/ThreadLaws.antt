-- ===== src/Proc/ThreadLaws.antt =====
-- A thread that exits gives its process to its parent and the processor to another thread.
use cs402_os.Base.{
  ℕ, ◌<◌, ◌≡◌, ◌≢◌, refl, true, Option, none, some, List, [], ◌∷◌, ℤ, done, arith, Option-cases,
  inl, inr, ◌∙◌, ◌⊎◌, ap, sym,
}
use cs402_os.Files.Table.{Vnodes}
use cs402_os.Files.Invariant.{WellFormed}
use cs402_os.Sched.Queue.{kt_exited, Thread, Sched, update, unsnoc, leave, ktqueue_dequeue}
use cs402_os.Sched.Ops.{set_state, sched_wakeup_on, sched_switch}
use cs402_os.Sched.Invariant.{links-unsnoc}
use cs402_os.Sched.MutexLaws.{IsSettled, runnable, wakeup_lem}
use cs402_os.Proc.Tree.{IsTree}
use cs402_os.Proc.Exit.{Kernel, proc_cleanup}
use cs402_os.Proc.ExitLaws.{proc_cleanup_lem}
use cs402_os.Proc.Thread.{Threads, proc_thread_exited, kthread_exit}

unsnoc-cons :
    (x : ℕ) (xs : List ℕ) → (front : List ℕ) × (y : ℕ) × (unsnoc (x ∷ xs) ≡ some (front, y))
unfolding unsnoc
unsnoc-cons x xs = elim (Option-cases (unsnoc xs)) [
  | inl e ↦ ([], x, rw e refl)
  | inr ((front, y), e) ↦ (x ∷ front, y, rw e refl)
]

switch_from :
    (runq y : ℕ) (s t : Sched)
    → ktqueue_dequeue runq s ≡ (some y, t)
    → sched_switch runq s ≡ some (record t { curthr = y; curproc = (t.threads y).kt_proc })
unfolding sched_switch
switch_from runq y s t taken =
    ap
      (λ (r : Option ℕ × Sched). elim (r.0) [
        | none ↦ none
        | some u ↦ some (record r.1 { curthr = u; curproc = (r.1.threads u).kt_proc })
      ])
      taken

switch_runs :
    (runq y : ℕ) (front : List ℕ) (s : Sched)
    → unsnoc (s.queues runq).tq_list ≡ some (front, y)
    → sched_switch runq s
      ≡ some (record (leave runq front y s) {
        curthr = y;
        curproc = ((leave runq front y s).threads y).kt_proc;
      })
unfolding ktqueue_dequeue
switch_runs runq y front s e =
    switch_from runq y s (leave runq front y s) (rw (e, ktqueue_dequeue) refl)

-- A switch away from a thread that is on no queue, while another is on the run queue.
switch_lem :
    (runq t : ℕ) (s : Sched) (x : ℕ) (xs : List ℕ)
    → IsSettled runq s
    → (s.queues runq).tq_list ≡ x ∷ xs
    → (s.threads t).kt_wchan ≡ none
    → (s' : Sched) × (sched_switch runq s ≡ some s') × (s'.curthr ≢ t)
switch_lem runq t s x xs ok full out =
    let (front, y, e) = unsnoc-cons x xs in
    let e' : unsnoc (s.queues runq).tq_list ≡ some (front, y) = rw full e in
    let linked : (s.threads y).kt_wchan ≡ some runq =
      ground
        (arith, ok.links_right.linked runq y, links-unsnoc y (s.queues runq).tq_list front y e') in
    let other : y ≢ t =
      λ same. ground (arith, linked, out, ap (λ (u : ℕ). (s.threads u).kt_wchan) same) in
    let s1 = leave runq front y s in
    (
      record s1 { curthr = y; curproc = (s1.threads y).kt_proc },
      switch_runs runq y front s e',
      other,
    )

-- After a wakeup of another queue, a thread that was on no queue has the state that it had, and if
-- a thread was woken, the processor can pass on.
wakeup-switch :
    (runq q t : ℕ) (s s' : Sched) (w : Option ℕ)
    → IsSettled runq s
    → q ≢ runq
    → (s.threads t).kt_wchan ≡ none
    → sched_wakeup_on runq q s ≡ done (w, s')
    → (s'.threads t ≡ s.threads t)
      × (((s.queues q).tq_list ≡ [])
          ⊎ ((s'' : Sched) × (sched_switch runq s' ≡ some s'') × (s''.curthr ≢ t)))
wakeup-switch runq q t s s' w ok ne out e = elim (wakeup_lem runq q s ok ne) [
  | inl (empty, r) ↦
      let same : s ≡ s' = ground (arith, e, r) in
      (ap (λ (u : Sched). u.threads t) (sym same), inl empty)
  | inr (front, y, cut, (r, ok')) ↦
      let same : runnable runq y (leave q front y s) ≡ s' = ground (arith, e, r) in
      let linked : (s.threads y).kt_wchan ≡ some q =
        ground
          (arith, ok.links_right.linked q y, links-unsnoc y (s.queues q).tq_list front y cut) in
      let other : y ≢ t =
        λ eq. ground (arith, linked, out, ap (λ (u : ℕ). (s.threads u).kt_wchan) eq) in
      let kept : (runnable runq y (leave q front y s)).threads t ≡ s.threads t =
        ground (arith, other) in
      (
        rw (← same) kept,
        inr (
            rw (← same) (
              switch_lem runq t (runnable runq y (leave q front y s)) y
                ((leave q front y s).queues runq).tq_list ok' (ground arith)
                (ground (arith, other, out)))),
      )
]

module _ {V : Type 0} (vn : Vnodes V) (nfiles : ℕ) (others : ℕ → ℕ) (wait_queue : ℕ → ℕ)
    (vmmap_destroy : V → V) (runq pid_init : ℕ) where
  kthread_exit_runs :
      (retval : ℤ) (s : Threads V) (k : Kernel V)
      → let me = s.kernel.sched.curthr in
        let x = set_state me kt_exited (set_state me kt_exited s.kernel.sched) in
        (s.kernel.sched.threads me).kt_wchan ≡ none
        → (s.kernel.sched.threads me).kt_proc ≡ s.kernel.sched.curproc
        → proc_cleanup vn nfiles wait_queue vmmap_destroy runq pid_init s.kernel.sched.curproc
            retval
            (record s.kernel { sched = x })
          ≡ done k
        → kthread_exit vn nfiles wait_queue vmmap_destroy runq pid_init retval s
          ≡ done (record s { kernel = k; kt_retval = update s.kt_retval me retval })
  unfolding kthread_exit proc_thread_exited
  kthread_exit_runs retval s k out mine cleaned = ground (arith, out, mine, cleaned)

  -- Where the process tree, the thread queues and the reference counts are right, for a current
  -- thread that is on no queue, of a process with a positive identifier other than that of init,
  -- with a parent whose wait queue is not the run queue: `kthread_exit` fails no assertion. The
  -- thread has exited with the value given, its process has no children, and the tree and the queues
  -- are right. If a thread waits on the wait queue of the parent, then `sched_switch` finds a thread
  -- to run, other than the one that has exited.
  pub kthread_exit_lem :
      (init parent : ℕ) (retval : ℤ) (s : Threads V)
      → let k = s.kernel in
        let me = k.sched.curproc in
        IsTree k.table
        → IsSettled runq k.sched
        → WellFormed nfiles others k.files
        → k.table.initproc ≡ some init
        → init ≢ me
        → 0 < (k.table.process me).p_pid
        → (k.table.process me).p_pid ≢ pid_init
        → (k.table.process me).p_pproc ≡ some parent
        → wait_queue parent ≢ runq
        → (k.sched.threads k.sched.curthr).kt_wchan ≡ none
        → (k.sched.threads k.sched.curthr).kt_proc ≡ me
        → (s' : Threads V) × (kthread_exit vn nfiles wait_queue vmmap_destroy runq pid_init retval s
            ≡ done s')
          × ((s'.kernel.sched.threads k.sched.curthr).kt_state ≡ kt_exited)
          × (s'.kt_retval k.sched.curthr ≡ retval)
          × ((s'.kernel.table.process me).p_children ≡ [])
          × IsTree s'.kernel.table
          × IsSettled runq s'.kernel.sched
          × (((k.sched.queues (wait_queue parent)).tq_list ≡ [])
              ⊎ ((next : Sched) × (sched_switch runq s'.kernel.sched ≡ some next)
                  × (next.curthr ≢ k.sched.curthr)))
  kthread_exit_lem init parent retval s tree settled wf set ne given other has ok out mine =
      let me = s.kernel.sched.curthr in
      let x = set_state me kt_exited (set_state me kt_exited s.kernel.sched) in
      let settled' : IsSettled runq x = record {
        links_right = record {
          size = settled.links_right.size;
          linked = λ q t. ground (arith, settled.links_right.linked q t);
        };
        states_right = λ t q e. ground (arith, settled.states_right t q, out);
      } in
      let dead = record x { p_dead = update x.p_dead x.curproc true } in
      let settled2 : IsSettled runq dead = record {
        links_right = record {
          size = settled'.links_right.size;
          linked = settled'.links_right.linked;
        };
        states_right = settled'.states_right;
      } in
      let (k', e, tree', alone, wf', all, ok', woken, (w, passed)) =
        proc_cleanup_lem nfiles vn others wait_queue vmmap_destroy runq pid_init
          s.kernel.sched.curproc init parent retval (record s.kernel { sched = x }) tree settled' wf
          set ne given other has ok in
      let (same, next) =
        wakeup-switch runq (wait_queue parent) me dead k'.sched w settled2 ok (ground (arith, out))
          passed in
      (
        record s { kernel = k'; kt_retval = update s.kt_retval me retval },
        kthread_exit_runs retval s k' out mine e,
        ap (λ (t : Thread). t.kt_state) same ∙ ground arith,
        ground arith,
        alone,
        tree',
        ok',
        next,
      )
