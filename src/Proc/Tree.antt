-- ===== src/Proc/Tree.antt =====
-- Parents and children agree: a process is linked once in the list of its parent, and in no other.
use cs402_os.Base.{
  ℕ, ◌+◌, ◌≤◌, ◌≡◌, ◌≢◌, refl, Bool, true, false, ◌&&◌, Option, none, some, List, [], ◌∷◌, ◌++◌,
  ltb, ◌==◌, if◌then◌else◌, done, arith, ap,
}
use cs402_os.Sched.Queue.{unlink}
use cs402_os.Sched.Invariant.{links, links-unlink, links-member}
use cs402_os.Proc.Table.{Table, set_process, reaped, reap, adopt, adopt_loop}

abbrev pub is_parent : Option ℕ → ℕ → Bool
is_parent none p = false
is_parent (some q) p = q == p

pub record IsTree (s : Table) : Type 0 where
  pub once : (c : ℕ) → links c s.proc_list ≤ 1
  pub linked :
      (p c : ℕ)
      → links c (s.process p).p_children
        ≡ (if is_parent ((s.process c).p_pproc) p && ltb 0 (links c s.proc_list) then 1 else 0)

pub links-append : (t : ℕ) (xs ys : List ℕ) → links t (xs ++ ys) ≡ links t xs + links t ys
unfolding links
links-append t [] ys = omega arith
links-append t (x ∷ xs) ys = omega (arith, links-append t xs ys)

-- `reap` of a child takes it from the list of its parent and from the table.
pub reap_lem :
    (me c : ℕ) (s : Table)
    → IsTree s
    → links c (s.process me).p_children ≡ 1
    → (s.process c).all_exited ≡ true
    → (s' : Table) × (reap me c s ≡ done (reaped (s.process c).p_pid (s.process c).p_status, s'))
      × (links c s'.proc_list ≡ 0)
      × IsTree s'
unfolding reap
reap_lem me c s tree child exited =
    let m = s.process me in
    let s1 = set_process me (record m { p_children = unlink c m.p_children }) s in
    let cut = λ (u : ℕ). links-unlink c u m.p_children (links-member c m.p_children child) in
    let listed : links c s.proc_list ≡ 1 = ground (arith, tree.once c, tree.linked me c) in
    let gone = λ (u : ℕ). links-unlink c u s.proc_list (links-member c s.proc_list listed) in
    (
      record s1 { proc_list = unlink c s.proc_list },
      ground arith,
      ground (arith, gone c),
      record {
        once = λ u. ground (arith, gone u, tree.once u);
        linked = λ p u.
            ground (arith, gone u, cut u, tree.linked p u, tree.linked me u, tree.linked p c);
      },
    )

unlink_head : (c : ℕ) (xs later : List ℕ) → xs ≡ c ∷ later → unlink c xs ≡ later
unfolding unlink
unlink_head c xs later e = rw e (ground arith)

module _ (init me c : ℕ) (later : List ℕ) (s : Table) (ne : init ≢ me)
    (e : (s.process me).p_children ≡ c ∷ later) where
  adopt-children :
      (p : ℕ)
      → ((adopt init me c s).process p).p_children ≡ (
          if init == p
          then (s.process init).p_children ++ c ∷ []
          else if me == p
          then later
          else (s.process p).p_children)
  unfolding adopt
  adopt-children p = ground (arith, unlink_head c (s.process me).p_children later e)

  adopt-pproc :
      (u : ℕ)
      → ((adopt init me c s).process u).p_pproc
        ≡ (if c == u then some init else (s.process u).p_pproc)
  unfolding adopt
  adopt-pproc u = ground arith

  adopt-proc_list : (adopt init me c s).proc_list ≡ s.proc_list
  unfolding adopt
  adopt-proc_list = refl

  adopt-links :
      (p u : ℕ)
      → links u ((adopt init me c s).process p).p_children ≡ (
          if init == p
          then links u (s.process init).p_children + (if u == c then 1 else 0)
          else if me == p
          then links u later
          else links u (s.process p).p_children)
  unfolding links
  adopt-links p u =
      rw (adopt-children p) (ground (arith, links-append u (s.process init).p_children (c ∷ [])))

  adopt-IsTree : IsTree s → IsTree (adopt init me c s)
  unfolding links
  adopt-IsTree tree =
      let mine = λ (u : ℕ). ap (links u) e in
      record {
        once = λ u. rw adopt-proc_list (tree.once u);
        linked = λ p u.
            rw (adopt-proc_list, adopt-pproc u, adopt-links p u)
              (ground (
                arith,
                mine u,
                mine c,
                tree.once u,
                tree.linked p u,
                tree.linked me u,
                tree.linked me c,
                tree.linked init u,
              ));
      }

-- The children of `me` become children of `init`.
pub adopt_loop_lem :
    (init me : ℕ) (cs : List ℕ) (s : Table)
    → IsTree s
    → init ≢ me
    → (s.process me).p_children ≡ cs
    → let s' = adopt_loop init me cs s in
      IsTree s'
      × ((s'.process me).p_children ≡ [])
      × ((u : ℕ)
          → (s'.process u).p_pproc
            ≡ (if ltb 0 (links u cs) then some init else (s.process u).p_pproc))
unfolding adopt_loop links
adopt_loop_lem init me [] s tree ne e = (tree, e, λ u. refl)
adopt_loop_lem init me (c ∷ later) s tree ne e =
    let mine : ((adopt init me c s).process me).p_children ≡ later =
      ground (arith, adopt-children init me c later s ne e me) in
    let (tree', none_left, parents) =
      adopt_loop_lem init me later (adopt init me c s) (adopt-IsTree init me c later s ne e tree) ne
        mine in
    (tree', none_left, λ u. ground (arith, parents u, adopt-pproc init me c later s ne e u))
