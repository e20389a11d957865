-- ===== src/Files/Invariant.antt =====
-- Every file object is counted: its reference count is the number of descriptors that name it
-- and of the references held elsewhere. `fref` and `fput` move one reference.
use cs402_os.Base.{
  ℕ, zero, suc, ◌+◌, ◌-◌, ◌<◌, ◌≡◌, refl, true, Option, none, some, ◌==◌, if◌then◌else◌, get_elem?,
  set, length, length-set, arith, ℤ, pos, negsuc, done, Option-cases, inl, inr, ◌∙◌, Bool-cases,
  get_elem?-some,
}
use cs402_os.Files.Table.{
  File, Vnodes, State, update, is_some, pos_ok, fref, fput, release, get_empty_fd, empty_loop,
  open_file,
}
use cs402_os.Files.Count.{count, count-set}

-- A file object that `n` references name, and a freed one that none names.
abbrev pub Counted : Option File → ℕ → Type 0
Counted none n = n ≡ 0
Counted (some x) n =
    (x.f_refcount ≡ n)
    × (0 < n)
    × (x.f_mode < 8)
    × (pos_ok x.f_pos ≡ true)
    × (is_some x.f_vnode ≡ true)

-- The table has its size and names live files; `others` counts the references from outside it.
pub record WellFormed (nfiles : ℕ) {V : Type 0} (others : ℕ → ℕ) (s : State V) : Type 0 where
  pub table : length s.fds ≡ nfiles
  pub counted : (f : ℕ) → Counted (s.files f) (count f s.fds + others f)

-- One more reference to `f` from outside the table.
abbrev pub give : ℕ → (ℕ → ℕ) → ℕ → ℕ
give f others g = if f == g then others g + 1 else others g

abbrev pub with_fd : {V : Type 0} → ℕ → Option ℕ → State V → State V
with_fd n f s = record s { fds = set s.fds n f }

module _ (nfiles : ℕ) {V : Type 0} (vn : Vnodes V) (others : ℕ → ℕ) (s : State V) where
  pub fref_lem :
      (f : ℕ) (x : File)
      → WellFormed nfiles others s
      → s.files f ≡ some x
      → let y = record x { f_refcount = x.f_refcount + 1 } in
        let s' = record s { files = update s.files f (some y) } in
        (fref vn f s ≡ done s') × WellFormed nfiles (give f others) s'
  unfolding fref
  fref_lem f x wf e = (
    ground (arith, wf.counted f),
    record { table = wf.table; counted = λ g. ground (arith, wf.counted g, wf.counted f) },
  )

  pub fput_lem :
      (f : ℕ)
      → WellFormed nfiles (give f others) s
      → (s' : State V) × (fput vn f s ≡ done s')
        × (s'.fds ≡ s.fds)
        × (s'.past_end ≡ s.past_end)
        × WellFormed nfiles others s'
  unfolding fput release
  fput_lem f wf = elim (Option-cases (s.files f)) [
    | inl e ↦ absurd (ground (arith, wf.counted f))
    | inr (x, e) ↦ elim (Bool-cases (x.f_refcount == 1)) [
      | inl last ↦ (
        release vn f x s,
        ground (arith, wf.counted f),
        refl,
        refl,
        record { table = wf.table; counted = λ g. ground (arith, wf.counted g, wf.counted f) },
      )
      | inr more ↦
          let y : File = record x { f_refcount = x.f_refcount - 1 } in
          (
            record s { files = update s.files f (some y) },
            ground (arith, wf.counted f),
            refl,
            refl,
            record { table = wf.table; counted = λ g. ground (arith, wf.counted g, wf.counted f) },
          )
    ]
  ]

  -- The reference of a table slot, taken out of the table, and one put in.
  pub take_slot :
      (n f : ℕ)
      → WellFormed nfiles others s
      → get_elem? s.fds n ≡ some (some f)
      → WellFormed nfiles (give f others) (with_fd n none s)
  take_slot n f wf e = record {
    table = length-set s.fds n none ∙ wf.table;
    counted = λ g.
        let c = count-set g s.fds n (some f) none e in
        let same : count g (set s.fds n none) + give f others g ≡ count g s.fds + others g =
          ground (arith, c) in
        rw same (wf.counted g);
  }

  pub fill_slot :
      (n f : ℕ)
      → WellFormed nfiles (give f others) s
      → get_elem? s.fds n ≡ some none
      → WellFormed nfiles others (with_fd n (some f) s)
  fill_slot n f wf e = record {
    table = length-set s.fds n (some f) ∙ wf.table;
    counted = λ g.
        let c = count-set g s.fds n none (some f) e in
        let same : count g (set s.fds n (some f)) + others g ≡ count g s.fds + give f others g =
          ground (arith, c) in
        rw same (wf.counted g);
  }

  -- A named file is live.
  pub live :
      (n f : ℕ)
      → WellFormed nfiles others s
      → get_elem? s.fds n ≡ some (some f)
      → (x : File) × (s.files f ≡ some x)
  live n f wf e = elim (Option-cases (s.files f)) [
    | inl gone ↦ absurd (ground (arith, wf.counted f, count-set f s.fds n (some f) none e))
    | inr found ↦ found
  ]

-- A descriptor that `open_file` accepts is a place of the table.
pub open_file_slot :
    (nfiles : ℕ) {V : Type 0} (vn : Vnodes V) (s : State V) (fd : ℤ) (f : ℕ)
    → length s.fds ≡ nfiles
    → open_file vn nfiles fd s ≡ some f
    → (n : ℕ) × (fd ≡ pos n) × (n < nfiles) × (get_elem? s.fds n ≡ some (some f))
unfolding open_file
open_file_slot nfiles vn s (negsuc k) f t e = cc
open_file_slot nfiles vn s (pos n) f t e =
    let at = get_elem?-some s.fds n (ground (arith, e)) in
    (n, refl, ground arith, ground (arith, at.1))

-- What `get_empty_fd` finds is an empty place, and the first one.
empty_loop_slot :
    {V : Type 0} (vn : Vnodes V) (s : State V) (left fd n nfiles : ℕ)
    → length s.fds ≡ nfiles
    → fd + left ≡ nfiles
    → empty_loop vn nfiles left fd s ≡ some n
    → (n < nfiles) × (get_elem? s.fds n ≡ some none)
unfolding empty_loop
empty_loop_slot vn s zero fd n nfiles t sum e = cc
empty_loop_slot vn s (suc left) fd n nfiles t sum e =
    ground (arith, empty_loop_slot vn s left (fd + 1) n nfiles t, get_elem?-some s.fds fd)

pub get_empty_fd_slot :
    (nfiles : ℕ) {V : Type 0} (vn : Vnodes V) (s : State V) (n : ℕ)
    → length s.fds ≡ nfiles
    → get_empty_fd vn nfiles s ≡ some n
    → (n < nfiles) × (get_elem? s.fds n ≡ some none)
unfolding get_empty_fd
get_empty_fd_slot nfiles vn s n t e = empty_loop_slot vn s nfiles 0 n nfiles t (omega arith) e
