-- ===== src/Proc/ExitLaws.antt =====
-- What `proc_cleanup` leaves: no child, no open descriptor, right counts, and the parent awake.
use cs402_os.Base.{
  ℕ, zero, suc, ◌+◌, ◌<◌, ◌≡◌, ◌≢◌, refl, true, false, Option, none, some, List, [], ◌==◌, ℤ, done,
  arith, Bool-cases, Option-cases, inl, inr, ◌∙◌, get_elem?, set, get_elem?-some,
  get_elem?-set_self, get_elem?-set_ne, length, ◌⊎◌,
}
use cs402_os.Files.Table.{Vnodes, State, slot, is_some}
use cs402_os.Files.Invariant.{WellFormed}
use cs402_os.Files.CallLaws.{close_slot}
use cs402_os.Sched.Queue.{Sched, update, kt_run, unsnoc, leave}
use cs402_os.Sched.Ops.{sched_wakeup_on}
use cs402_os.Sched.MutexLaws.{IsSettled, wakeup_lem, runnable}
use cs402_os.Proc.Table.{Table, cleanup_table}
use cs402_os.Proc.Tree.{IsTree}
use cs402_os.Proc.Cleanup.{cleanup_table_lem}
use cs402_os.Proc.Exit.{Kernel, close_loop, put_cwd, proc_cleanup}

module _ (nfiles : ℕ) {V : Type 0} (vn : Vnodes V) (others : ℕ → ℕ) where
  close_loop_lem :
      (left fd : ℕ) (s : State V)
      → WellFormed nfiles others s
      → fd + left ≡ nfiles
      → ((j : ℕ) → j < fd → get_elem? s.fds j ≡ some none)
      → (s' : State V) × (close_loop vn nfiles left fd s ≡ done s')
        × WellFormed nfiles others s'
        × ((j : ℕ) → j < nfiles → get_elem? s'.fds j ≡ some none)
  unfolding close_loop
  close_loop_lem zero fd s wf sum empty = (s, refl, wf, λ j lt. empty j (omega arith))
  close_loop_lem (suc left) fd s wf sum empty =
      let (x, at) = get_elem?-some s.fds fd (ground (arith, wf.table)) in
      elim (Option-cases x) [
        | inl free ↦
            let here : get_elem? s.fds fd ≡ some none = rw (← free) at in
            let unused : is_some (slot s fd) ≡ false = ground (arith, here) in
            let (t, e, wf', all) = close_loop_lem left (fd + 1) s wf (omega arith) (λ j lt.
              elim (Bool-cases (j == fd)) [
                | inl same ↦ let eq : j ≡ fd = ground (arith, same) in rw eq here
                | inr other ↦ empty j (ground arith)
              ]) in
            (t, rw unused e, wf', all)
        | inr (f, full) ↦
            let here : get_elem? s.fds fd ≡ some (some f) = rw (← full) at in
            let used : is_some (slot s fd) ≡ true = ground (arith, here) in
            let inside : fd < length s.fds = ground (arith, wf.table) in
            let (s1, closed, fds, past, wf1) =
              close_slot nfiles vn others s fd f wf (omega arith) here in
            let (t, e, wf', all) = close_loop_lem left (fd + 1) s1 wf1 (omega arith) (λ j lt.
              rw fds (elim (Bool-cases (fd == j)) [
                | inl same ↦
                    let eq : fd ≡ j = ground (arith, same) in
                    rw (← eq) (get_elem?-set_self s.fds fd none inside)
                | inr other ↦
                    get_elem?-set_ne s.fds none (λ (e : fd ≡ j). ground (arith, e, other))
                    ∙ empty j (ground arith)
              ])) in
            (t, rw used (rw closed e), wf', all)
      ]

  put_cwd-WellFormed :
      (cwd : Option ℕ) (s : State V)
      → WellFormed nfiles others s
      → WellFormed nfiles others (put_cwd vn nfiles cwd s)
  unfolding put_cwd
  put_cwd-WellFormed none s wf = wf
  put_cwd-WellFormed (some v) s wf = record { table = wf.table; counted = wf.counted }

  module _ (wait_queue : ℕ → ℕ) (vmmap_destroy : V → V) (runq pid_init : ℕ) where
    proc_cleanup_runs :
        (me parent : ℕ) (status : ℤ) (k : Kernel V) (t : Table) (w : Option ℕ × Sched) (f : State V)
        → cleanup_table pid_init me status k.table ≡ done t
        → (k.table.process me).p_pproc ≡ some parent
        → sched_wakeup_on runq
            (wait_queue parent)
            (record k.sched { p_dead = update k.sched.p_dead me true })
          ≡ done w
        → close_loop vn nfiles nfiles 0 (put_cwd vn nfiles k.p_cwd k.files) ≡ done f
        → proc_cleanup vn nfiles wait_queue vmmap_destroy runq pid_init me status k
          ≡ done (record k {
            table = t;
            sched = w.1;
            files = record f { rest = vmmap_destroy f.rest };
          })
    unfolding proc_cleanup
    proc_cleanup_runs me parent status k t w f cleaned has woken closed =
        rw (cleaned, has, woken, closed) refl

    -- Where the process tree, the thread queues and the reference counts are right, for a process
    -- with a positive identifier other than that of init, with a parent whose wait queue is not the
    -- run queue: `proc_cleanup` fails no assertion and keeps all three right. The process has no
    -- children and no open descriptor any more, and if a thread waits on the wait queue of the
    -- parent, then the one that has waited longest is runnable. Nothing else happens to the thread
    -- queues.
    pub proc_cleanup_lem :
        (me init parent : ℕ) (status : ℤ) (k : Kernel V)
        → IsTree k.table
        → IsSettled runq k.sched
        → WellFormed nfiles others k.files
        → k.table.initproc ≡ some init
        → init ≢ me
        → 0 < (k.table.process me).p_pid
        → (k.table.process me).p_pid ≢ pid_init
        → (k.table.process me).p_pproc ≡ some parent
        → wait_queue parent ≢ runq
        → (k' : Kernel V) × (proc_cleanup vn nfiles wait_queue vmmap_destroy runq pid_init me status
              k
            ≡ done k')
          × IsTree k'.table
          × ((k'.table.process me).p_children ≡ [])
          × WellFormed nfiles others k'.files
          × ((j : ℕ) → j < nfiles → get_elem? k'.files.fds j ≡ some none)
          × IsSettled runq k'.sched
          × (((k.sched.queues (wait_queue parent)).tq_list ≡ [])
              ⊎ ((front : List ℕ) × (y : ℕ) × (unsnoc (k.sched.queues (wait_queue parent)).tq_list
                    ≡ some (front, y))
                  × ((k'.sched.threads y).kt_state ≡ kt_run)))
          × ((w : Option ℕ) × (sched_wakeup_on runq
                  (wait_queue parent)
                  (record k.sched { p_dead = update k.sched.p_dead me true })
                ≡ done (w, k'.sched)))
    proc_cleanup_lem me init parent status k tree settled wf set ne given other has ok =
        let dead = record k.sched { p_dead = update k.sched.p_dead me true } in
        let settled' : IsSettled runq dead = record {
          links_right = record {
            size = settled.links_right.size;
            linked = settled.links_right.linked;
          };
          states_right = settled.states_right;
        } in
        let (t, cleaned, tree', is_dead, stat, alone) =
          cleanup_table_lem pid_init me init status k.table tree set ne given (λ e. cc) in
        let (f, closed, wf', all) =
          close_loop_lem nfiles 0 (put_cwd vn nfiles k.p_cwd k.files)
            (put_cwd-WellFormed k.p_cwd k.files wf) (omega arith) (λ j lt. absurd (omega arith)) in
        let wf2 : WellFormed nfiles others (record f { rest = vmmap_destroy f.rest }) = record {
          table = wf'.table;
          counted = wf'.counted;
        } in
        elim (wakeup_lem runq (wait_queue parent) dead settled' ok) [
          | inl (e, r) ↦ (
            record k { table = t; sched = dead; files = record f { rest = vmmap_destroy f.rest } },
            proc_cleanup_runs me parent status k t (none, dead) f cleaned has r closed,
            tree',
            (alone other).0,
            wf2,
            all,
            settled',
            inl e,
            (none, r),
          )
          | inr (front, y, e, (r, ok')) ↦ (
            record k {
              table = t;
              sched = runnable runq y (leave (wait_queue parent) front y dead);
              files = record f { rest = vmmap_destroy f.rest };
            },
            proc_cleanup_runs me parent status k t
                (some y, runnable runq y (leave (wait_queue parent) front y dead)) f cleaned has r
                closed,
            tree',
            (alone other).0,
            wf2,
            all,
            ok',
            inr (front, y, e, ground arith),
            (some y, r),
          )
        ]
