-- ===== src/Proc/Wait.antt =====
-- What `do_waitpid` and `proc_cleanup` do to the process tree.
use cs402_os.Base.{ℕ, zero, suc, ◌≤◌, ◌<◌, ◌≡◌, true, false, List, ℤ, pos, negsuc, Exec, done}
use cs402_os.Sched.Invariant.{links}
use cs402_os.Proc.Table.{Table, Waited, reaped, echild, sleeps}
use cs402_os.Proc.Tree.{IsTree}

module _ (me : ℕ) (s : Table) where
  abbrev pub children : List ℕ
  children = (s.process me).p_children

  -- A child that a wait for `pid` asks for: any for -1, and the one with that identifier otherwise.
  abbrev pub Suits : ℤ → ℕ → Type 0
  Suits (pos n) c = (0 < links c children) × ((s.process c).p_pid ≡ n)
  Suits (negsuc zero) c = 0 < links c children
  Suits (negsuc (suc k)) c = 1 ≤ 0

  -- A wait for any child goes to sleep only where all children are alive.
  abbrev pub Alive : ℤ → Type 0
  Alive (negsuc zero) = (c : ℕ) → 0 < links c children → (s.process c).p_dead ≡ false
  Alive _ = Unit

  -- A round of `do_waitpid` that does what it should: it reaps a dead child that suits and returns
  -- its identifier and status, or there is none that suits, or one that suits is alive, and for -1
  -- all are; and then nothing changes.
  abbrev pub Waits : ℤ → Waited → Table → Type 0
  Waits pid (reaped p status) s' =
      (c : ℕ) × Suits pid c
      × ((s.process c).p_dead ≡ true)
      × ((s.process c).p_pid ≡ p)
      × ((s.process c).p_status ≡ status)
      × (links c s'.proc_list ≡ 0)
  Waits pid echild s' = (s' ≡ s) × ((c : ℕ) → ¬ Suits pid c)
  Waits pid sleeps s' =
      (s' ≡ s) × ((c : ℕ) × Suits pid c × ((s.process c).p_dead ≡ false)) × Alive pid

  module _ (tree : IsTree s)
      (exited : (c : ℕ) → (s.process c).p_dead ≡ true → (s.process c).all_exited ≡ true) where
    abbrev Round : ℤ → Exec (Waited × Table) → Type 0
    Round pid e = (r : Waited) × (s' : Table) × (e ≡ done (r, s')) × Waits pid r s' × IsTree s'
