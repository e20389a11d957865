-- ===== src/Proc/Table.antt =====
-- The process table of kernel/proc/proc.c: identifiers, parents and children. A process, and a
-- thread, is given by its address; `_proc_list` and `p_children` are sequences.
use cs402_os.Base.{
  ℕ, zero, suc, ◌+◌, ◌%◌, Bool, true, false, ◌||◌, not, Option, none, some, List, [], ◌∷◌, ◌++◌,
  leb, ◌==◌, if◌then◌else◌, ℤ, pos, negsuc, Exec, done, panic, ◌>>◌, kassert,
}
use cs402_os.Sched.Queue.{unlink}

pub record Process : Type 0 where
  pub p_pid : ℕ
  pub p_dead : Bool
  pub p_status : ℤ
  pub p_pproc : Option ℕ
  pub p_children : List ℕ
  -- whether all threads of the process have exited
  pub all_exited : Bool

pub record Table : Type 0 where
  pub process : ℕ → Process
  pub proc_list : List ℕ
  pub next_pid : ℕ
  pub initproc : Option ℕ

abbrev pub set_process : ℕ → Process → Table → Table
set_process p x s = record s { process = λ q. if p == q then x else s.process q }

unfoldable pub lookup_loop : (ℕ → Process) → ℕ → List ℕ → Option ℕ
lookup_loop process pid [] = none
lookup_loop process pid (p ∷ later) =
    if (process p).p_pid == pid then some p else lookup_loop process pid later

unfoldable pub proc_lookup : ℕ → Table → Option ℕ
proc_lookup pid s = lookup_loop s.process pid s.proc_list

-- The scan of `_proc_getid` for `pid`.
unfoldable pub pid_used : (ℕ → Process) → ℕ → List ℕ → Bool
pid_used process pid [] = false
pid_used process pid (p ∷ later) = ((process p).p_pid == pid) || pid_used process pid later

-- How `_proc_getid` ends: with an identifier, or with -1.
pub data PidResult : Type 0 where
  pid_is : ℕ → PidResult
  no_pid : PidResult

-- The loop of `_proc_getid`, where `count` is PROC_MAX_COUNT. No result stands for want of fuel.
unfoldable pub getid_loop : ℕ → ℕ → ℕ → Table → Option PidResult
getid_loop count zero pid s = none
getid_loop count (suc fuel) pid s =
    let pid' = (pid + 1) % count in
    let again = getid_loop count fuel pid' s in
    if not (pid_used s.process pid s.proc_list)
    then some (pid_is pid)
    else if pid' == s.next_pid
    then some no_pid
    else again

unfoldable pub proc_getid : ℕ → Table → Option (PidResult × Table)
proc_getid count s = elim (getid_loop count count s.next_pid s) [
  | none ↦ none
  | some no_pid ↦ some (no_pid, s)
  | some (pid_is pid) ↦ some (pid_is pid, record s { next_pid = (pid + 1) % count })
]

-- What `do_waitpid` has come to: the identifier and the status of a child that it has reaped,
-- -ECHILD, or a sleep on `p_wait`, after which it goes on with the child it has found, or with
-- the search for any.
pub data Waited : Type 0 where
  reaped : ℕ → ℤ → Waited
  echild : Waited
  sleeps : Waited

-- The end of `do_waitpid` for a dead child `c` of `me`.
unfoldable pub reap : ℕ → ℕ → Table → Exec (Waited × Table)
reap me c s = do
  let x = s.process c
  let m = s.process me
  kassert x.all_exited
  let s1 = set_process me (record m { p_children = unlink c m.p_children }) s
  done (reaped x.p_pid x.p_status, record s1 { proc_list = unlink c s.proc_list })

-- The first child that is dead, in the order of the list.
unfoldable pub first_dead : (ℕ → Process) → List ℕ → Option ℕ
first_dead process [] = none
first_dead process (c ∷ later) = if (process c).p_dead then some c else first_dead process later

-- A round of `do_waitpid` with -1.
unfoldable pub wait_any : ℕ → Table → Exec (Waited × Table)
wait_any me s = elim ((s.process me).p_children) [
  | [] ↦ done (echild, s)
  | c ∷ later ↦ elim (first_dead s.process (c ∷ later)) [
    | none ↦ done (sleeps, s)
    | some d ↦ reap me d s
  ]
]

-- A round of `do_waitpid` for the child `c`.
unfoldable pub wait_child : ℕ → ℕ → Table → Exec (Waited × Table)
wait_child me c s = if (s.process c).p_dead then reap me c s else done (sleeps, s)

-- The first round of `do_waitpid`, behind its assertion.
unfoldable pub wait_round : ℕ → ℤ → Table → Exec (Waited × Table)
wait_round me (negsuc zero) s = wait_any me s
wait_round me (negsuc (suc k)) s = done (echild, s)
wait_round me (pos pid) s = elim (lookup_loop s.process pid (s.process me).p_children) [
  | none ↦ done (echild, s)
  | some c ↦ wait_child me c s
]

unfoldable pub do_waitpid : ℕ → ℤ → Table → Exec (Waited × Table)
do_waitpid me pid s = do
  kassert (elim (s.initproc) [ none ↦ false | some _ ↦ true ])
  wait_round me pid s

-- The loop of `proc_cleanup` that gives the children of `me` to the init process.
unfoldable pub adopt : ℕ → ℕ → ℕ → Table → Table
adopt init me c s =
    let m = s.process me in
    let s1 = set_process me (record m { p_children = unlink c m.p_children }) s in
    let i = s1.process init in
    let s2 = set_process init (record i { p_children = i.p_children ++ c ∷ [] }) s1 in
    set_process c (record (s2.process c) { p_pproc = some init }) s2

unfoldable pub adopt_loop : ℕ → ℕ → List ℕ → Table → Table
adopt_loop init me [] s = s
adopt_loop init me (c ∷ later) s = adopt_loop init me later (adopt init me c s)

-- What `proc_cleanup` does to the process table; `pid_init` is PID_INIT.
unfoldable pub cleanup_table : ℕ → ℕ → ℤ → Table → Exec Table
cleanup_table pid_init me status s = do
  let m = s.process me
  let s1 = set_process me (record m { p_status = status; p_dead = true }) s
  elim (s.initproc) [
    | none ↦ panic
    | some init ↦ do
      kassert (leb 1 m.p_pid)
      kassert (elim (m.p_pproc) [ none ↦ false | some _ ↦ true ])
      done (if m.p_pid == pid_init then s1 else adopt_loop init me m.p_children s1)
  ]
