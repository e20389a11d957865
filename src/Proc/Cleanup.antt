-- ===== src/Proc/Cleanup.antt =====
-- `proc_cleanup` gives the children of a process that exits to the init process.
use cs402_os.Base.{
  ℕ, ◌<◌, ◌≡◌, ◌≢◌, refl, true, none, some, List, [], ◌∷◌, ltb, ◌==◌, if◌then◌else◌, ℤ, done, arith,
  Bool-cases, inl, inr, ◌∙◌,
}
use cs402_os.Sched.Invariant.{links}
use cs402_os.Proc.Table.{Table, set_process, adopt, adopt_loop, cleanup_table}
use cs402_os.Proc.Tree.{IsTree, adopt_loop_lem}

-- The loop leaves the state, the status and the identifier of every process alone.
adopt-state :
    (init me c : ℕ) (s : Table) (u : ℕ)
    → let x = (adopt init me c s).process u in
      let y = s.process u in (x.p_dead ≡ y.p_dead) × (x.p_status ≡ y.p_status) × (x.p_pid ≡ y.p_pid)
unfolding adopt
adopt-state init me c s u = ground arith

adopt_loop-state :
    (init me : ℕ) (cs : List ℕ) (s : Table) (u : ℕ)
    → let x = (adopt_loop init me cs s).process u in
      let y = s.process u in (x.p_dead ≡ y.p_dead) × (x.p_status ≡ y.p_status) × (x.p_pid ≡ y.p_pid)
unfolding adopt_loop
adopt_loop-state init me [] s u = (refl, refl, refl)
adopt_loop-state init me (c ∷ later) s u =
    let ih = adopt_loop-state init me later (adopt init me c s) u in
    let now = adopt-state init me c s u in (ih.0 ∙ now.0, ih.1 ∙ now.1, ih.2 ∙ now.2)

-- In a process tree that is right, for a process with a positive identifier and a parent that is
-- not the init process, `cleanup_table` fails no assertion and keeps the tree right. The process is
-- dead and has its status, and no children; those that it had are children of the init process, and
-- all other processes keep their parents. The init process itself keeps its children.
pub cleanup_table_lem :
    (pid_init me init : ℕ) (status : ℤ) (s : Table)
    → IsTree s
    → s.initproc ≡ some init
    → init ≢ me
    → 0 < (s.process me).p_pid
    → (s.process me).p_pproc ≢ none
    → (s' : Table) × (cleanup_table pid_init me status s ≡ done s')
      × IsTree s'
      × ((s'.process me).p_dead ≡ true)
      × ((s'.process me).p_status ≡ status)
      × ((s.process me).p_pid ≢ pid_init
          → ((s'.process me).p_children ≡ [])
            × ((u : ℕ)
                → (s'.process u).p_pproc ≡ (
                    if ltb 0 (links u (s.process me).p_children)
                    then some init
                    else (s.process u).p_pproc)))
unfolding cleanup_table
cleanup_table_lem pid_init me init status s tree set ne given parent =
    let m = s.process me in
    let s1 = set_process me (record m { p_status = status; p_dead = true }) s in
    let tree1 : IsTree s1 = record {
      once = tree.once;
      linked = λ p c. ground (arith, tree.linked p c);
    } in
    elim (Bool-cases (m.p_pid == pid_init)) [
      | inl first ↦
          (s1, ground (arith, first), tree1, ground arith, ground arith, λ h. absurd (ground arith))
      | inr other ↦
          let (tree2, empty, parents) =
            adopt_loop_lem init me m.p_children s1 tree1 ne (ground arith) in
          let same = adopt_loop-state init me m.p_children s1 me in
          (
            adopt_loop init me m.p_children s1,
            ground (arith, other),
            tree2,
            same.0 ∙ ground arith,
            same.1 ∙ ground arith,
            λ h. (empty, λ u. parents u ∙ ground arith),
          )
    ]
