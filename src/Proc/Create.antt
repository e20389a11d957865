-- ===== src/Proc/Create.antt =====
-- `proc_create` of kernel/proc/proc.c: the entry of the process table, and the other fields.
use cs402_os.Base.{
  ℕ, zero, suc, Bool, true, false, ◌||◌, not, Option, none, some, List, [], ◌∷◌, ◌++◌, ◌==◌,
  if◌then◌else◌, pos, Exec, done, panic, ◌>>=◌, ◌>>◌, kassert,
}
use cs402_os.Sched.Queue.{update, sched_queue_init}
use cs402_os.Proc.Table.{Process, Table, set_process, pid_is, no_pid, proc_getid}
use cs402_os.Proc.Exit.{Kernel}

abbrev pub is_empty : List ℕ → Bool
is_empty [] = true
is_empty (p ∷ later) = false

-- `PID_IDLE == curproc->p_pid`; a test of an unset `curproc` follows a NULL pointer.
unfoldable pub current_is : ℕ → Option ℕ → Table → Exec Bool
current_is pid none s = panic
current_is pid (some me) s = done ((s.process me).p_pid == pid)

-- The assertions of `proc_create` on the new identifier, and what it does to `proc_initproc`.
unfoldable pub claim_pid : ℕ → ℕ → Option ℕ → ℕ → ℕ → Table → Exec Table
claim_pid pid_idle pid_init curproc new pid s = do
  kassert (not (pid_idle == pid) || is_empty s.proc_list)
  let claimed =
      (current_is pid_idle curproc s >>= λ idle.
      kassert idle >> done (record s { initproc = some new }))
  (if pid == pid_init then claimed else done s)

-- The fields of the new process. `p_pproc` is not set for the idle process, and `all_exited` holds
-- as there are no threads.
abbrev pub fresh : ℕ → Option ℕ → ℕ → Process → Process
fresh pid_idle curproc pid old = record {
  p_pid = pid;
  p_dead = false;
  p_status = pos 0;
  p_pproc = if pid == pid_idle then old.p_pproc else curproc;
  p_children = [];
  all_exited = true;
}

-- The new process becomes a child of the current one, if there is one.
unfoldable pub add_child : Option ℕ → ℕ → Table → Table
add_child none new s = s
add_child (some me) new s =
    let m = s.process me in set_process me (record m { p_children = m.p_children ++ new ∷ [] }) s

unfoldable pub link_process : ℕ → Option ℕ → ℕ → ℕ → Table → Table
link_process pid_idle curproc new pid s =
    let s1 = set_process new (fresh pid_idle curproc pid (s.process new)) s in
    let s2 = add_child curproc new s1 in record s2 { proc_list = s2.proc_list ++ new ∷ [] }

-- What `proc_create` does to the process table. `new` is the address that the allocator has given.
-- No table stands for a process with the identifier -1, which the source goes on with where
-- `_proc_getid` has none left: it has no place among the identifiers here. It stands for want of
-- fuel too.
unfoldable pub create_entry : ℕ → ℕ → ℕ → Option ℕ → ℕ → Table → Exec (Option Table)
create_entry count pid_idle pid_init curproc new s = elim (proc_getid count s) [
  | none ↦ done none
  | some (no_pid, s1) ↦ done none
  | some (pid_is pid, s1) ↦ claim_pid pid_idle pid_init curproc new pid s1 >>= λ s2.
      done (some (link_process pid_idle curproc new pid s2))
]

-- The other fields of the new process: `p_files` and `p_cwd`.
pub record Inherited : Type 0 where
  pub p_files : List (Option ℕ)
  pub p_cwd : Option ℕ

unfoldable pub no_files : ℕ → List (Option ℕ)
no_files zero = []
no_files (suc n) = none ∷ no_files n

-- `p_cwd` of the current process, if there is one.
abbrev pub inherited : Option ℕ → Option ℕ → Option ℕ
inherited none cwd = none
inherited (some me) cwd = cwd

abbrev pub take_cwd : {V : Type 0} → (ℕ → V → V) → Option ℕ → V → V
take_cwd vref none v = v
take_cwd vref (some n) v = vref n v

-- `vref` and `vmmap_create` act on the state of the vnodes and memory objects; a map that is NULL, for
-- which `vmmap_create` says false, is followed. `wait_queue p` is
-- the address of `p_wait` of process `p`.
unfoldable pub proc_create :
    {V : Type 0}
    → (ℕ → V → V)
    → (V → Bool × V)
    → (ℕ → ℕ)
    → ℕ
    → ℕ
    → ℕ
    → ℕ
    → Option ℕ
    → ℕ
    → Kernel V
    → Exec (Option (Inherited × Kernel V))
proc_create vref vmmap_create wait_queue nfiles count pid_idle pid_init curproc new k =
    let cwd = inherited curproc k.p_cwd in
    let awake = record k.sched { p_dead = update k.sched.p_dead new false } in
    create_entry count pid_idle pid_init curproc new k.table >>= λ made. elim made [
      | none ↦ done none
      | some t ↦
          let map = vmmap_create (take_cwd vref cwd k.files.rest) in
          kassert (map.0)
          >> done (
              some (
                record { p_files = no_files nfiles; p_cwd = cwd },
                record k {
                  table = t;
                  sched = sched_queue_init (wait_queue new) awake;
                  files = record k.files { rest = map.1 };
                },
              ))
    ]
