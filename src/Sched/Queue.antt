-- ===== src/Sched/Queue.antt =====
-- The thread queues of kernel/proc/sched.c. `tq_list` is a sequence, its head first: threads are
-- put in at the head and taken out at the tail.
use cs402_os.Base.{
  ℕ, ◌+◌, ◌-◌, Bool, true, false, ◌||◌, Option, none, some, List, [], ◌∷◌, ◌==◌, if◌then◌else◌,
  Exec, done, ◌>>◌, kassert,
}

pub data KtState : Type 0 where
  kt_no_state kt_run kt_sleep kt_sleep_cancellable kt_exited : KtState

-- The fields of `kthread_t` that the scheduler uses. A thread, a queue and a process are given by
-- their addresses.
pub record Thread : Type 0 where
  pub kt_state : KtState
  pub kt_cancelled : Bool
  pub kt_wchan : Option ℕ
  pub kt_proc : ℕ

pub record KtQueue : Type 0 where
  pub tq_list : List ℕ
  pub tq_size : ℕ

-- `km_holder` is kept by the address of the mutex's wait queue, `p_dead` is the test
-- `p_state == PROC_DEAD`. The interrupt level is raised and restored round each change of the run
-- queue, and is no part of the state.
pub record Sched : Type 0 where
  pub threads : ℕ → Thread
  pub queues : ℕ → KtQueue
  pub km_holder : ℕ → Option ℕ
  pub p_dead : ℕ → Bool
  pub curthr : ℕ
  pub curproc : ℕ

abbrev pub update {ℓ} : {A : Type ℓ} → (ℕ → A) → ℕ → A → ℕ → A
update f i a j = if i == j then a else f j

abbrev pub is_none {ℓ} : {A : Type ℓ} → Option A → Bool
is_none none = true
is_none (some a) = false

abbrev pub set_thread : ℕ → Thread → Sched → Sched
set_thread t x s = record s { threads = update s.threads t x }

abbrev pub set_queue : ℕ → KtQueue → Sched → Sched
set_queue q x s = record s { queues = update s.queues q x }

-- The last thread of a list, `l_prev` of its head, and those before it.
unfoldable pub unsnoc : List ℕ → Option (List ℕ × ℕ)
unsnoc [] = none
unsnoc (x ∷ xs) = elim (unsnoc xs) [ none ↦ some ([], x) | some (front, y) ↦ some (x ∷ front, y) ]

unfoldable pub member : ℕ → List ℕ → Bool
member t [] = false
member t (x ∷ xs) = (t == x) || member t xs

-- `list_remove`: a linked thread goes from its list.
unfoldable pub unlink : ℕ → List ℕ → List ℕ
unlink t [] = []
unlink t (x ∷ xs) = if t == x then xs else x ∷ unlink t xs

unfoldable pub ktqueue_enqueue : ℕ → ℕ → Sched → Exec Sched
ktqueue_enqueue q t s = do
  let x = s.threads t
  let k = s.queues q
  kassert (is_none x.kt_wchan)
  let s1 = set_queue q (record { tq_list = t ∷ k.tq_list; tq_size = k.tq_size + 1 }) s
  done (set_thread t (record x { kt_wchan = some q }) s1)

-- The thread `y` goes from queue `q`, which then holds `front`.
abbrev pub leave : ℕ → List ℕ → ℕ → Sched → Sched
leave q front y s =
    set_thread y (record (s.threads y) { kt_wchan = none })
      (set_queue q (record { tq_list = front; tq_size = (s.queues q).tq_size - 1 }) s)

unfoldable pub ktqueue_dequeue : ℕ → Sched → Option ℕ × Sched
ktqueue_dequeue q s = elim (unsnoc (s.queues q).tq_list) [
  | none ↦ (none, s)
  | some (front, y) ↦ (some y, leave q front y s)
]

-- The assertion is that the links of `t` are set; they are where `t` is on the queue.
unfoldable pub ktqueue_remove : ℕ → ℕ → Sched → Exec Sched
ktqueue_remove q t s = do
  let list = (s.queues q).tq_list
  kassert (member t list)
  done (leave q (unlink t list) t s)

unfoldable pub sched_queue_init : ℕ → Sched → Sched
sched_queue_init q s = set_queue q (record { tq_list = []; tq_size = 0 }) s

unfoldable pub sched_queue_empty : ℕ → Sched → Bool
sched_queue_empty q s = elim ((s.queues q).tq_list) [ [] ↦ true | x ∷ xs ↦ false ]
