-- ===== src/My402List/Ops.antt =====
-- The operations of warmup1/my402list.c on a store of cells. The fields of the list are its anchor,
-- at address `anchor`, and `num_members`; address 0 is NULL, and NULL and freed cells are followed
-- to a panic. What `malloc` returns is an argument `p` of the operations that call it; the links
-- that they set to NULL first and then to their values are set once.
use cs402_os.Base.{
  ℕ, zero, suc, ◌+◌, ◌-◌, Bool, true, false, Option, none, some, ◌==◌, if◌then◌else◌, Exec, done,
  panic, ◌>>=◌,
}

pub record My402ListElem : Type 0 where
  pub obj : ℕ
  pub next : ℕ
  pub prev : ℕ

pub record My402List : Type 0 where
  pub cells : ℕ → Option My402ListElem
  pub num_members : ℕ

abbrev pub write : ℕ → Option My402ListElem → My402List → My402List
write a c s = record s { cells = λ b. if a == b then c else s.cells b }

unfoldable pub cell : ℕ → My402List → Exec My402ListElem
cell a s = elim (s.cells a) [ none ↦ panic | some c ↦ done c ]

unfoldable pub set_next : ℕ → ℕ → My402List → Exec My402List
set_next a b s = cell a s >>= λ c. done (write a (some (record c { next = b })) s)

unfoldable pub set_prev : ℕ → ℕ → My402List → Exec My402List
set_prev a b s = cell a s >>= λ c. done (write a (some (record c { prev = b })) s)

abbrev pub one_more : My402List → My402List
one_more s = record s { num_members = s.num_members + 1 }

module _ (anchor : ℕ) where
  unfoldable pub init : My402List → Exec My402List
  init s = do s1 ← set_next anchor anchor (record s { num_members = 0 }); set_prev anchor anchor s1

  unfoldable pub empty : My402List → Exec Bool
  empty s = cell anchor s >>= λ a. done (a.next == anchor)

  -- `false` for FALSE: `malloc` has failed.
  unfoldable pub append : Option ℕ → ℕ → My402List → Exec (Bool × My402List)
  append none object s = done (false, s)
  append (some temp) object s = do
    a ← cell anchor s
    if a.next == anchor
        then (do
          let fresh : My402ListElem = record { obj = object; next = anchor; prev = anchor }
          s1 ← set_next anchor temp (write temp (some fresh) s)
          s2 ← set_prev anchor temp s1
          done (true, one_more s2))
        else (do
          let fresh : My402ListElem = record { obj = object; next = anchor; prev = a.prev }
          s1 ← set_next a.prev temp (write temp (some fresh) s)
          s2 ← set_prev anchor temp s1
          done (true, one_more s2))

  unfoldable pub prepend : Option ℕ → ℕ → My402List → Exec (Bool × My402List)
  prepend none elem s = done (false, s)
  prepend (some temp) elem s = do
    a ← cell anchor s
    if a.next == anchor
        then (do
          let fresh : My402ListElem = record { obj = elem; next = anchor; prev = anchor }
          s1 ← set_next anchor temp (write temp (some fresh) s)
          s2 ← set_prev anchor temp s1
          done (true, one_more s2))
        else (do
          let fresh : My402ListElem = record { obj = elem; next = a.next; prev = anchor }
          s1 ← set_next anchor temp (write temp (some fresh) s)
          s2 ← set_prev a.next temp s1
          done (true, one_more s2))

  -- A list with a member counts at least 1, so that the count is above 0 here.
  unfoldable pub unlink_cell : ℕ → My402List → Exec My402List
  unlink_cell elem s = do
    e ← cell elem s
    s1 ← set_next e.prev e.next s
    s2 ← set_prev e.next e.prev s1
    let s3 = write elem none s2
    done (record s3 { num_members = s.num_members - 1 })

  -- The loop of `My402ListUnlinkAll`, which frees one element in each round. No state stands for
  -- want of fuel.
  unfoldable pub unlink_loop : ℕ → ℕ → My402List → Exec (Option My402List)
  unlink_loop zero header s = done none
  unlink_loop (suc fuel) header s = do
    h ← cell header s
    if h.next == anchor
        then (do
          s1 ← set_next anchor anchor (write header none s)
          s2 ← set_prev anchor anchor s1
          done (some (record s2 { num_members = 0 })))
        else (do
          s1 ← set_prev h.next header s
          s2 ← set_next anchor h.next s1
          s3 ← set_prev h.next anchor s2
          unlink_loop fuel h.next (write header none s3))

  -- `My402ListUnlinkAll`; the list has as many rounds to go as it has members.
  unfoldable pub unlink_all : My402List → Exec (Option My402List)
  unlink_all s =
      if s.num_members == 0
      then done (some s)
      else (cell anchor s >>= λ a. unlink_loop s.num_members a.next s)

  -- The loop of `My402ListFind`, from `temp` on.
  unfoldable pub find_loop : ℕ → ℕ → ℕ → My402List → Exec (Option ℕ)
  find_loop zero object temp s = done none
  find_loop (suc fuel) object temp s = do
    t ← cell temp s
    if t.next == anchor
        then done (some (if t.obj == object then temp else 0))
        else if t.obj == object
        then done (some temp)
        else find_loop fuel object t.next s

  -- `My402ListFind`: the anchor and the members are at most so many rounds.
  unfoldable pub find : ℕ → My402List → Exec (Option ℕ)
  find object s = cell anchor s >>= λ a. find_loop (s.num_members + 1) object a.next s

  unfoldable pub insert_after : Option ℕ → ℕ → ℕ → My402List → Exec (Bool × My402List)
  insert_after p object zero s = append p object s
  insert_after none object element s = done (false, s)
  insert_after (some temp) object element s = do
    e ← cell element s
    let fresh : My402ListElem = record { obj = object; next = e.next; prev = element }
    s1 ← set_next element temp (write temp (some fresh) s)
    s2 ← set_prev e.next temp s1
    done (true, one_more s2)

  unfoldable pub insert_before : Option ℕ → ℕ → ℕ → My402List → Exec (Bool × My402List)
  insert_before p object zero s = prepend p object s
  insert_before none object element s = done (false, s)
  insert_before (some temp) object element s = do
    e ← cell element s
    let fresh : My402ListElem = record { obj = object; next = element; prev = e.prev }
    s1 ← set_prev element temp (write temp (some fresh) s)
    s2 ← set_next e.prev temp s1
    done (true, one_more s2)

  -- NULL is address 0.
  unfoldable pub first : My402List → Exec ℕ
  first s = if s.num_members == 0 then done 0 else (cell anchor s >>= λ a. done a.next)

  unfoldable pub last : My402List → Exec ℕ
  last s = if s.num_members == 0 then done 0 else (cell anchor s >>= λ a. done a.prev)

  unfoldable pub next_of : ℕ → My402List → Exec ℕ
  next_of element s = cell element s >>= λ e. done (if e.next == anchor then 0 else e.next)

  unfoldable pub prev_of : ℕ → My402List → Exec ℕ
  prev_of element s = cell element s >>= λ e. done (if e.prev == anchor then 0 else e.prev)
