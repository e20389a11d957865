-- ===== src/Proc/Exit.antt =====
-- `proc_cleanup` of kernel/proc/proc.c as a whole, over the process table, the scheduler and the
-- descriptors of the current process. These are separate parts of the state, so that only the order
-- of the steps within each part is kept.
use cs402_os.Base.{
  ℕ, zero, suc, ◌+◌, true, Option, none, some, if◌then◌else◌, ℤ, pos, Exec, done, panic, ◌>>=◌,
}
use cs402_os.Files.Table.{Vnodes, State, slot, is_some}
use cs402_os.Files.Calls.{do_close}
use cs402_os.Sched.Queue.{Sched, update}
use cs402_os.Sched.Ops.{sched_wakeup_on}
use cs402_os.Proc.Table.{Table, cleanup_table}

pub record Kernel (V : Type 0) : Type 0 where
  pub table : Table
  pub sched : Sched
  pub files : State V
  pub p_cwd : Option ℕ

module _ {V : Type 0} (vn : Vnodes V) (nfiles : ℕ) where
  -- The loop of `proc_cleanup` over the descriptors, with `left` to go from `fd` on.
  unfoldable pub close_loop : ℕ → ℕ → State V → Exec (State V)
  close_loop zero fd s = done s
  close_loop (suc left) fd s =
      if is_some (slot s fd)
      then (do_close vn nfiles (pos fd) s >>= λ r. close_loop left (fd + 1) r.1)
      else (done s >>= close_loop left (fd + 1))

  -- The working directory is put.
  unfoldable pub put_cwd : Option ℕ → State V → State V
  put_cwd none s = s
  put_cwd (some v) s = record s { rest = vn.vput v s.rest }

  -- `wait_queue p` is the address of `p_wait` of process `p`; `vmmap_destroy` acts on the state of
  -- the memory objects and vnodes; `me` is `curproc`.
  unfoldable pub proc_cleanup : (ℕ → ℕ) → (V → V) → ℕ → ℕ → ℕ → ℤ → Kernel V → Exec (Kernel V)
  proc_cleanup wait_queue vmmap_destroy runq pid_init me status k = do
    t ← cleanup_table pid_init me status k.table
    elim ((k.table.process me).p_pproc) [
      | none ↦ panic
      | some parent ↦
          let dead = record k.sched { p_dead = update k.sched.p_dead me true } in
          sched_wakeup_on runq (wait_queue parent) dead >>= λ w.
          close_loop nfiles 0 (put_cwd k.p_cwd k.files) >>= λ f.
          done
            (record k { table = t; sched = w.1; files = record f { rest = vmmap_destroy f.rest } })
    ]
