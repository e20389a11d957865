-- ===== src/Proc/NewProcess.antt =====
-- The links that `proc_create` makes: a new process is in the table and a child of its creator.
use cs402_os.Base.{
  ℕ, ◌+◌, ◌%◌, ◌<◌, ◌≡◌, ◌≢◌, refl, true, false, Option, some, List, [], ◌∷◌, ◌++◌, ◌==◌,
  if◌then◌else◌, done, arith,
}
use cs402_os.Sched.Invariant.{links}
use cs402_os.Proc.Table.{Process, Table, pid_is, pid_used, proc_getid, lookup_loop, proc_lookup}
use cs402_os.Proc.Tree.{IsTree, links-append}
use cs402_os.Proc.Create.{claim_pid, add_child, link_process}

-- No two processes of the list have one identifier.
abbrev pub Unique : Table → Type 0
Unique s =
    (c d : ℕ)
    → 0 < links c s.proc_list
    → 0 < links d s.proc_list
    → (s.process c).p_pid ≡ (s.process d).p_pid
    → c ≡ d

-- An identifier that is in use is that of a process of the list.
pid_used-links :
    (process : ℕ → Process) (c : ℕ) (ps : List ℕ)
    → 0 < links c ps
    → pid_used process (process c).p_pid ps ≡ true
unfolding pid_used links
pid_used-links process c [] h = absurd (omega arith)
pid_used-links process c (p ∷ later) h = ground (arith, pid_used-links process c later)

-- A process at the end is found, if no other has the identifier.
lookup_loop-append :
    (f g : ℕ → Process) (pid new : ℕ) (ps : List ℕ)
    → ((c : ℕ) → 0 < links c ps → (g c).p_pid ≡ (f c).p_pid)
    → pid_used f pid ps ≡ false
    → (g new).p_pid ≡ pid
    → lookup_loop g pid (ps ++ new ∷ []) ≡ some new
unfolding lookup_loop pid_used links
lookup_loop-append f g pid new [] same unused h = ground (arith, h)
lookup_loop-append f g pid new (p ∷ later) same unused h = ground (
  arith,
  same p,
  lookup_loop-append f g pid new later (λ c l. same c (ground (arith, l))) (ground (arith, unused))
      h,
)

module _ (pid_idle me new pid : ℕ) (s : Table) (tree : IsTree s) (listed : 0 < links me s.proc_list)
    (unknown : links new s.proc_list ≡ 0)
    (orphans : (c : ℕ) → 0 < links c s.proc_list → (s.process c).p_pproc ≢ some new)
    (not_idle : pid ≢ pid_idle) where
  -- The table with the new process.
  abbrev state : Table
  state = link_process pid_idle (some me) new pid s

  link_process-list :
      (c : ℕ) → links c state.proc_list ≡ links c s.proc_list + (if new == c then 1 else 0)
  unfolding link_process add_child links
  link_process-list c = ground (arith, links-append c s.proc_list (new ∷ []))

  pub link_process-state :
      (c : ℕ)
      → ((state.process c).p_pid ≡ (if new == c then pid else (s.process c).p_pid))
        × ((state.process c).p_pproc ≡ (if new == c then some me else (s.process c).p_pproc))
  unfolding link_process add_child links
  link_process-state c = ground (arith, listed, unknown)

  link_process-children :
      (p c : ℕ)
      → links c (state.process p).p_children ≡ (
          if me == p
          then links c (s.process p).p_children + (if new == c then 1 else 0)
          else if new == p
          then 0
          else links c (s.process p).p_children)
  unfolding link_process add_child links
  link_process-children p c =
      ground (arith, listed, unknown, links-append c (s.process me).p_children (new ∷ []))

  pub link_process-IsTree : IsTree state
  link_process-IsTree = record {
    once = λ c. ground (arith, link_process-list c, tree.once c, unknown);
    linked = λ p c. ground (
      arith,
      link_process-children p c,
      link_process-list c,
      (link_process-state c).1,
      tree.linked p c,
      orphans c,
      listed,
      unknown,
    );
  }

  pub link_process-Unique : Unique s → pid_used s.process pid s.proc_list ≡ false → Unique state
  link_process-Unique unique unused c d lc ld e = ground (
    arith,
    unique c d,
    link_process-list c,
    link_process-list d,
    (link_process-state c).0,
    (link_process-state d).0,
    pid_used-links s.process c s.proc_list,
    pid_used-links s.process d s.proc_list,
  )

  pub link_process-lookup :
      pid_used s.process pid s.proc_list ≡ false → proc_lookup pid state ≡ some new
  unfolding proc_lookup link_process add_child
  link_process-lookup unused =
      lookup_loop-append s.process state.process pid new s.proc_list
        (λ c l. ground (arith, (link_process-state c).0, unknown, l)) unused
        (ground (arith, (link_process-state new).0))

pub link_process-initproc :
    (pid_idle me new pid : ℕ) (s : Table)
    → (link_process pid_idle (some me) new pid s).initproc ≡ s.initproc
unfolding link_process add_child
link_process-initproc pid_idle me new pid s = refl

pub proc_getid-next :
    (count pid : ℕ) (s s1 : Table)
    → proc_getid count s ≡ some (pid_is pid, s1)
    → s1 ≡ record s { next_pid = (pid + 1) % count }
unfolding proc_getid
proc_getid-next count pid s s1 e = ground (arith, e)

pub claim_pid_lem :
    (pid_idle pid_init new pid : ℕ) (curproc : Option ℕ) (s : Table)
    → pid ≢ pid_idle
    → pid ≢ pid_init
    → claim_pid pid_idle pid_init curproc new pid s ≡ done s
unfolding claim_pid
claim_pid_lem pid_idle pid_init new pid curproc s idle init = ground arith
