-- ===== src/Proc/CreateLaws.antt =====
-- A process that `proc_create` has made can be found under its identifier, and is a child of its
-- creator.
use cs402_os.Base.{
  Bool, ℕ, ◌+◌, ◌%◌, ◌<◌, ◌≡◌, ◌≢◌, refl, true, false, none, some, [], done, arith, ◌∙◌, ap,
  get_elem?, zero, suc,
}
use cs402_os.Sched.Invariant.{links}
use cs402_os.Proc.Table.{Table, PidResult, pid_is, no_pid, pid_used, proc_getid, proc_lookup}
use cs402_os.Proc.Ids.{IsAnswer, proc_getid_lem}
use cs402_os.Proc.Tree.{IsTree}
use cs402_os.Proc.Create.{
  link_process, create_entry, Inherited, no_files, inherited, take_cwd, proc_create,
}
use cs402_os.Sched.Queue.{update, sched_queue_init}
use cs402_os.Proc.Exit.{Kernel}
use cs402_os.Proc.NewProcess.{
  Unique, link_process-IsTree, link_process-Unique, link_process-lookup, link_process-state,
  link_process-initproc, proc_getid-next, claim_pid_lem,
}

module _ (pid_idle pid_init count me new : ℕ) (s : Table) where
  -- What a new process has to be: listed under an identifier that no other process has, a child of
  -- `me` without children, and found by `proc_lookup`.
  abbrev pub Creates : ℕ → Table → Type 0
  Creates pid s' =
      IsTree s'
      × Unique s'
      × (pid < count)
      × (pid_used s.process pid s.proc_list ≡ false)
      × (proc_lookup pid s' ≡ some new)
      × ((s'.process new).p_pproc ≡ some me)
      × (s'.initproc ≡ s.initproc)

  create_entry_lem :
      IsTree s
      → Unique s
      → s.next_pid < count
      → 0 < links me s.proc_list
      → links new s.proc_list ≡ 0
      → ((c : ℕ) → 0 < links c s.proc_list → (s.process c).p_pproc ≢ some new)
      → pid_used s.process pid_idle s.proc_list ≡ true
      → pid_used s.process pid_init s.proc_list ≡ true
      → (unused : ℕ) → unused < count
      → pid_used s.process unused s.proc_list ≡ false
      → (pid : ℕ) × (s' : Table) × (create_entry count pid_idle pid_init (some me) new s
          ≡ done (some s'))
        × Creates pid s'
  unfolding create_entry
  create_entry_lem tree unique below listed unknown orphans idle init k within free =
      let (r, t, e, answer, next, same) = proc_getid_lem count s below in named r t e answer
    where
      named :
          (r : PidResult) (t : Table)
          → proc_getid count s ≡ some (r, t)
          → IsAnswer count s below r
          → (pid : ℕ) × (s' : Table) × (create_entry count pid_idle pid_init (some me) new s
              ≡ done (some s'))
            × Creates pid s'
      named no_pid t e full = absurd (ground (arith, full k, within, free))
      named (pid_is pid) t e (small, unused) =
          let s1 = record s { next_pid = (pid + 1) % count } in
          let found : proc_getid count s ≡ some (pid_is pid, s1) =
            e ∙ ap (λ (u : Table). some (pid_is pid, u)) (proc_getid-next count pid s t e) in
          let not_idle : pid ≢ pid_idle =
            λ h. ground (arith, ap (λ (j : ℕ). pid_used s.process j s.proc_list) h) in
          let not_init : pid ≢ pid_init =
            λ h. ground (arith, ap (λ (j : ℕ). pid_used s.process j s.proc_list) h) in
          let claimed = claim_pid_lem pid_idle pid_init new pid (some me) s1 not_idle not_init in
          let tree1 : IsTree s1 = record { once = tree.once; linked = tree.linked } in
          (
            pid,
            link_process pid_idle (some me) new pid s1,
            rw (found, create_entry) (rw claimed refl),
            (
              link_process-IsTree pid_idle me new pid s1 tree1 listed unknown orphans not_idle,
              link_process-Unique pid_idle me new pid s1 tree1 listed unknown orphans not_idle
                  unique unused,
              small,
              unused,
              link_process-lookup pid_idle me new pid s1 tree1 listed unknown orphans not_idle
                  unused,
              (link_process-state pid_idle me new pid s1 tree1 listed unknown orphans not_idle
                    new).1
                  ∙ ground arith,
              link_process-initproc pid_idle me new pid s1,
            ),
          )

no_files_lem : (n j : ℕ) → j < n → get_elem? (no_files n) j ≡ some none
unfolding no_files
no_files_lem zero j lt = absurd (omega arith)
no_files_lem (suc n) zero lt = refl
no_files_lem (suc n) (suc j) lt = no_files_lem n j (omega arith)

module _ (pid_idle pid_init count me new nfiles : ℕ) {V : Type 0} (vref : ℕ → V → V)
    (vmmap_create : V → Bool × V) (allocates : (v : V) → (vmmap_create v).0 ≡ true)
    (wait_queue : ℕ → ℕ) (k : Kernel V) where
  proc_create_runs :
      (t : Table)
      → create_entry count pid_idle pid_init (some me) new k.table ≡ done (some t)
      → let cwd = inherited (some me) k.p_cwd in
        let awake = record k.sched { p_dead = update k.sched.p_dead new false } in
        proc_create vref vmmap_create wait_queue nfiles count pid_idle pid_init (some me) new k
        ≡ done (
            some (
              record { p_files = no_files nfiles; p_cwd = cwd },
              record k {
                table = t;
                sched = sched_queue_init (wait_queue new) awake;
                files = record k.files { rest = (vmmap_create (take_cwd vref cwd k.files.rest)).1 };
              },
            ))
  unfolding proc_create
  proc_create_runs t e =
      ground (arith, e, allocates (take_cwd vref (inherited (some me) k.p_cwd) k.files.rest))

  -- Where the process tree is right, no two processes share an identifier, `me` is the current
  -- process, the idle and the init process have their identifiers, some identifier is unused,
  -- `vmmap_create` has memory, and the new process is an object that the table does not know: `proc_create` fails no assertion and
  -- lists the new process under an identifier in range that no other has, by which `proc_lookup`
  -- finds it. It is a child of the current process and has its working directory, no open
  -- descriptor, and an empty wait queue, and the tree and the identifiers are right again.
  pub proc_create_lem :
      IsTree k.table
      → Unique k.table
      → k.table.next_pid < count
      → 0 < links me k.table.proc_list
      → links new k.table.proc_list ≡ 0
      → ((c : ℕ) → 0 < links c k.table.proc_list → (k.table.process c).p_pproc ≢ some new)
      → pid_used k.table.process pid_idle k.table.proc_list ≡ true
      → pid_used k.table.process pid_init k.table.proc_list ≡ true
      → (unused : ℕ) → unused < count
      → pid_used k.table.process unused k.table.proc_list ≡ false
      → (pid : ℕ) × (o : Inherited) × (k' : Kernel V) × (proc_create vref vmmap_create wait_queue
            nfiles count pid_idle pid_init
            (some me)
            new
            k
          ≡ done (some (o, k')))
        × Creates pid_idle pid_init count me new k.table pid k'.table
        × ((j : ℕ) → j < nfiles → get_elem? o.p_files j ≡ some none)
        × (o.p_cwd ≡ k.p_cwd)
        × ((k'.sched.queues (wait_queue new)).tq_list ≡ [])
  unfolding sched_queue_init
  proc_create_lem tree unique below listed unknown orphans idle init unused within free =
      let (pid, t, e, created) =
        create_entry_lem pid_idle pid_init count me new k.table tree unique below listed unknown
          orphans idle init unused within free in
      (
        pid,
        record { p_files = no_files nfiles; p_cwd = k.p_cwd },
        record k {
          table = t;
          sched =
              sched_queue_init (wait_queue new)
                (record k.sched { p_dead = update k.sched.p_dead new false });
          files = record k.files {
            rest = (vmmap_create (take_cwd vref (inherited (some me) k.p_cwd) k.files.rest)).1;
          };
        },
        proc_create_runs t e,
        created,
        no_files_lem nfiles,
        refl,
        ground arith,
      )
