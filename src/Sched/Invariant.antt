-- ===== src/Sched/Invariant.antt =====
-- A thread is linked on the queue that its `kt_wchan` names, once, and on no other.
use cs402_os.Base.{
  ℕ, suc, ◌+◌, ◌≡◌, refl, true, none, some, List, [], ◌∷◌, ◌==◌, if◌then◌else◌, length, arith, done,
  Option-cases, inl, inr,
}
use cs402_os.Sched.Queue.{
  Sched, set_thread, set_queue, unsnoc, member, unlink, ktqueue_enqueue, leave,
}
use cs402_os.Sched.Ops.{on_queue}

-- How often `t` is linked.
unfoldable pub links : ℕ → List ℕ → ℕ
links t [] = 0
links t (x ∷ xs) = (if t == x then 1 else 0) + links t xs

pub record WellFormed (s : Sched) : Type 0 where
  pub size : (q : ℕ) → (s.queues q).tq_size ≡ length (s.queues q).tq_list
  pub linked :
      (q t : ℕ)
      → links t (s.queues q).tq_list ≡ (if on_queue ((s.threads t).kt_wchan) q then 1 else 0)

pub unsnoc-none : (xs : List ℕ) → unsnoc xs ≡ none → xs ≡ []
unfolding unsnoc
unsnoc-none [] h = refl
unsnoc-none (x ∷ xs) h = ground arith

-- What `unsnoc` takes from a list is one thread, its last.
pub links-unsnoc :
    (t : ℕ) (xs front : List ℕ) (y : ℕ)
    → unsnoc xs ≡ some (front, y)
    → (links t xs ≡ links t front + (if t == y then 1 else 0)) × (length xs ≡ suc (length front))
unfolding unsnoc links
links-unsnoc t [] front y e = cc
links-unsnoc t (x ∷ xs) front y e = elim (Option-cases (unsnoc xs)) [
  | inl last ↦ let alone = unsnoc-none xs last in ground (arith, alone, last)
  | inr ((rest, z), found) ↦ ground (arith, links-unsnoc t xs rest z found)
]

pub links-unlink :
    (t u : ℕ) (xs : List ℕ)
    → member t xs ≡ true
    → (links u xs ≡ links u (unlink t xs) + (if u == t then 1 else 0))
      × (length xs ≡ suc (length (unlink t xs)))
unfolding member unlink links
links-unlink t u [] h = cc
links-unlink t u (x ∷ xs) h = ground (arith, links-unlink t u xs)

pub links-member : (t : ℕ) (xs : List ℕ) → links t xs ≡ 1 → member t xs ≡ true
unfolding member links
links-member t [] h = cc
links-member t (x ∷ xs) h = ground (arith, links-member t xs)

-- The state with `t` put on queue `q`.
abbrev pub enqueued : ℕ → ℕ → Sched → Sched
enqueued q t s =
    set_thread t (record (s.threads t) { kt_wchan = some q })
      (set_queue q
        (record { tq_list = t ∷ (s.queues q).tq_list; tq_size = (s.queues q).tq_size + 1 }) s)

pub enqueue_lem :
    (q t : ℕ) (s : Sched)
    → WellFormed s
    → (s.threads t).kt_wchan ≡ none
    → (ktqueue_enqueue q t s ≡ done (enqueued q t s)) × WellFormed (enqueued q t s)
unfolding ktqueue_enqueue links
enqueue_lem q t s wf out = (
  ground arith,
  record { size = λ p. ground (arith, wf.size p); linked = λ p u. ground (arith, wf.linked p u) },
)

-- A thread that leaves the queue it is linked on.
pub leave-WellFormed :
    (q y : ℕ) (front : List ℕ) (s : Sched)
    → WellFormed s
    → ((u : ℕ)
        → (links u (s.queues q).tq_list ≡ links u front + (if u == y then 1 else 0))
          × (length (s.queues q).tq_list ≡ suc (length front)))
    → WellFormed (leave q front y s)
unfolding links
leave-WellFormed q y front s wf cut = record {
  size = λ p. ground (arith, wf.size p, cut y);
  linked = λ p u. ground (arith, wf.linked p u, wf.linked q u, wf.linked q y, cut u, cut y);
}
