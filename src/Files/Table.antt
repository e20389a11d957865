-- ===== src/Files/Table.antt =====
-- `file_t`, the descriptor table of the current process, and `fref`, `fget`, `fput`.
use cs402_os.Base.{
  ℕ, zero, suc, ◌+◌, ◌-◌, Bool, true, false, ◌||◌, Option, none, some, List, ltb, leb, ◌==◌,
  if◌then◌else◌, get_elem?, ℤ, pos, negsuc, neg_part, Exec, done, panic, ◌>>=◌, ◌>>◌, kassert,
}

-- `file_t`. Offsets are taken as unbounded integers: the code has no check for their overflow.
pub record File : Type 0 where
  pub f_pos : ℤ
  pub f_mode : ℕ
  pub f_refcount : ℕ
  pub f_vnode : Option ℕ

-- What these calls use of the vnode layer and of the slab allocator, over an abstract state `V`.
-- A vnode is given by its address.
pub record Vnodes (V : Type 0) : Type 0 where
  pub vput : ℕ → V → V
  pub vn_len : ℕ → V → ℤ
  pub is_dir : ℕ → V → Bool
  pub is_reg : ℕ → V → Bool
  -- a character or a block device
  pub is_special : ℕ → V → Bool
  -- `vn_ops->read(vnode, pos, buf, nbytes)` and `vn_ops->write(vnode, pos, buf, nbytes)`
  pub read : ℕ → ℤ → ℕ → V → ℤ × V
  pub write : ℕ → ℤ → List ℕ → V → ℤ × V
  -- `slab_obj_alloc(file_allocator)` and `slab_obj_free(file_allocator, f)`
  pub file_alloc : V → Option ℕ × V
  pub file_free : ℕ → V → V

-- `files` holds the file objects by address, `fds` the table `p_files` of the current process, and
-- `past_end` what is read just behind that table.
pub record State (V : Type 0) : Type 0 where
  pub files : ℕ → Option File
  pub fds : List (Option ℕ)
  pub past_end : Option ℕ
  pub rest : V

abbrev pub update : (ℕ → Option File) → ℕ → Option File → ℕ → Option File
update files f x g = if f == g then x else files g

abbrev pub is_some {ℓ} : {A : Type ℓ} → Option A → Bool
is_some none = false
is_some (some a) = true

-- `f_pos >= -1`.
abbrev pub pos_ok : ℤ → Bool
pos_ok p = leb (neg_part p) 1

-- `p_files[n]`, within the table or just behind it.
abbrev pub slot : {V : Type 0} → State V → ℕ → Option ℕ
slot s n = elim (get_elem? s.fds n) [ none ↦ s.past_end | some f ↦ f ]

module _ {V : Type 0} (vn : Vnodes V) where
  unfoldable pub fref : ℕ → State V → Exec (State V)
  fref f s = elim (s.files f) [
    | none ↦ panic
    | some x ↦ do
      kassert (ltb x.f_mode 8)
      kassert (pos_ok x.f_pos)
      kassert ((x.f_refcount == 0) || is_some x.f_vnode)
      let y = record x { f_refcount = x.f_refcount + 1 }
      done (record s { files = update s.files f (some y) })
  ]

  -- What `fput` does when the count has come to 0.
  unfoldable pub release : ℕ → File → State V → State V
  release f x s =
      let v : V = elim (x.f_vnode) [ none ↦ s.rest | some n ↦ vn.vput n s.rest ] in
      record s { files = update s.files f none; rest = vn.file_free f v }

  unfoldable pub fput : ℕ → State V → Exec (State V)
  fput f s = elim (s.files f) [
    | none ↦ panic
    | some x ↦ do
      kassert (ltb x.f_mode 8)
      kassert (pos_ok x.f_pos)
      kassert (ltb 0 x.f_refcount)
      kassert ((x.f_refcount == 1) || is_some x.f_vnode)
      let y = record x { f_refcount = x.f_refcount - 1 }
      done (
          if y.f_refcount == 0
          then release f x s
          else record s { files = update s.files f (some y) })
  ]

  -- `fget(-1)`: a new file object with every field 0.
  unfoldable pub fget_new : State V → Exec (Option ℕ × State V)
  fget_new s =
      let (p, v) = vn.file_alloc s.rest in
      let fresh : File = record { f_pos = pos 0; f_mode = 0; f_refcount = 0; f_vnode = none } in
      elim p [
        | none ↦ done (none, record s { rest = v })
        | some f ↦ fref f (record s { files = update s.files f (some fresh); rest = v }) >>= λ s'.
            done (some f, s')
      ]

  module _ (nfiles : ℕ) where
    -- `fget(fd)` for any other descriptor.
    unfoldable pub fget : ℤ → State V → Exec (Option ℕ × State V)
    fget (negsuc n) s = done (none, s)
    fget (pos n) s = if leb nfiles n then done (none, s) else elim (slot s n) [
      | none ↦ done (none, s)
      | some f ↦ fref f s >>= λ s'. done (some f, s')
    ]

    -- The loop of `get_empty_fd`, which has `left` descriptors to try from `fd` on. No descriptor
    -- stands for -EMFILE.
    unfoldable pub empty_loop : ℕ → ℕ → State V → Option ℕ
    empty_loop zero fd s = none
    empty_loop (suc left) fd s =
        let next = empty_loop left (fd + 1) s in if is_some (slot s fd) then next else some fd

    unfoldable pub get_empty_fd : State V → Option ℕ
    get_empty_fd s = empty_loop nfiles 0 s

    -- The test of most calls, `fd < 0 || fd >= NFILES || p_files[fd] == NULL`: the file behind `fd`.
    unfoldable pub open_file : ℤ → State V → Option ℕ
    open_file (negsuc n) s = none
    open_file (pos n) s = if leb nfiles n then none else slot s n
