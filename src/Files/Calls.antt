-- ===== src/Files/Calls.antt =====
-- `do_close`, `do_dup`, `do_dup2`, `do_lseek`, `do_read` and `do_write` of vfs_syscall.c.
use cs402_os.Base.{
  ◌-◌, ◌%◌, ◌^◌, ℕ, Bool, true, false, ◌&&◌, ◌||◌, not, Option, none, some, List, bit_and, ltb,
  ◌==◌, if◌then◌else◌, set, ℤ, pos, negsuc, ◌+ℤ◌, is_neg, pos_part, neg_part, leb, ◌+◌, Exec, done,
  panic, ◌>>=◌, ◌>>◌, kassert,
}
use cs402_os.Files.Table.{
  File, Vnodes, State, update, slot, is_some, fput, fget, get_empty_fd, open_file,
}

pub data Errno : Type 0 where
  ebadf emfile einval eisdir enomem enametoolong : Errno

-- The `int` that a call returns: a value, or -errno.
pub data Ret : Type 0 where
  value : ℤ → Ret
  fail : Errno → Ret

pub data Whence : Type 0 where
  seek_set seek_cur seek_end other : Whence

-- The bits of fs/file.h and the numbers of errno.h, which the repository does not hold.
pub record Modes : Type 0 where
  pub fmode_read : ℕ
  pub fmode_write : ℕ
  pub fmode_append : ℕ
  -- the negated error number, as an `int`
  pub errno_code : Errno → ℤ

abbrev pub has_bit : ℕ → ℕ → Bool
has_bit mode bit = not (bit_and mode bit == 0)

abbrev pub leb_ℤ : ℤ → ℤ → Bool
leb_ℤ a b = leb (pos_part a + neg_part b) (pos_part b + neg_part a)

-- The sum of two offsets: an `off_t` has 32 bits and a sign.
unfoldable pub to_off : ℤ → ℤ
to_off (pos n) =
    let low = n % 2 ^ 32 in if ltb low (2 ^ 31) then pos low else negsuc (2 ^ 32 - 1 - low)
to_off (negsuc n) =
    let low = n % 2 ^ 32 in if ltb low (2 ^ 31) then negsuc low else pos (2 ^ 32 - 1 - low)

abbrev pub add_off : ℤ → ℤ → ℤ
add_off p q = to_off (p +ℤ q)

module _ {V : Type 0} (vn : Vnodes V) (nfiles : ℕ) where
  abbrev pub put_fd : ℕ → Option ℕ → State V → State V
  put_fd n f s = record s { fds = set s.fds n f }

  -- A change of the file object that a call holds.
  abbrev pub set_file : ℕ → File → State V → State V
  set_file f x s = record s { files = update s.files f (some x) }

  unfoldable pub do_close : ℤ → State V → Exec (Ret × State V)
  do_close fd s = elim (open_file vn nfiles fd s) [
    | none ↦ done (fail ebadf, s)
    | some f ↦ fput vn f s >>= λ s'. done (value (pos 0), put_fd (pos_part fd) none s')
  ]

  -- `do_dup`, from the place where `fget` has given `f`.
  unfoldable pub dup_into : ℕ → State V → Exec (Ret × State V)
  dup_into f s = elim (get_empty_fd vn nfiles s) [
    | none ↦ fput vn f s >>= λ s'. done (fail emfile, s')
    | some n ↦ done (value (pos n), put_fd n (some f) s)
  ]

  unfoldable pub do_dup : ℤ → State V → Exec (Ret × State V)
  do_dup fd s = elim (open_file vn nfiles fd s) [
    | none ↦ done (fail ebadf, s)
    | some _ ↦ fget vn nfiles fd s >>= λ r. elim (r.0) [ none ↦ panic | some f ↦ dup_into f r.1 ]
  ]

  -- `do_dup2`, from the place where `fget` has given `f`; `n` is `nfd`.
  unfoldable pub dup2_into : ℕ → ℤ → ℕ → State V → Exec (Ret × State V)
  dup2_into f ofd n s =
      if leb_ℤ ofd (pos n) && leb_ℤ (pos n) ofd
      then (fput vn f s >>= λ s'. done (value (pos n), s'))
      else if is_some (slot s n)
      then (do_close (pos n) s >>= λ r. elim (r.0) [
        | fail e ↦ done (fail e, r.1)
        | value v ↦ done (value (pos n), put_fd n (some f) r.1)
      ])
      else done (value (pos n), put_fd n (some f) s)

  unfoldable pub do_dup2 : ℤ → ℤ → State V → Exec (Ret × State V)
  do_dup2 ofd (negsuc k) s = done (fail ebadf, s)
  do_dup2 ofd (pos n) s = elim (open_file vn nfiles ofd s) [
    | none ↦ done (fail ebadf, s)
    | some _ ↦
        if leb nfiles n
        then done (fail ebadf, s)
        else (fget vn nfiles ofd s >>= λ r. elim (r.0) [
          | none ↦ panic
          | some f ↦ dup2_into f ofd n r.1
        ])
  ]

  -- Where `do_lseek` moves to, if `whence` is one of the three: a negative place is refused.
  unfoldable pub seek_target : File → ℤ → Whence → V → Exec ℤ
  seek_target x offset seek_set v = done offset
  seek_target x offset seek_cur v = done (add_off x.f_pos offset)
  seek_target x offset seek_end v = elim (x.f_vnode) [
    | none ↦ panic
    | some n ↦ done (add_off (vn.vn_len n v) offset)
  ]
  seek_target x offset other v = done x.f_pos

  -- `do_lseek`, from the place where `fget` has given `f`.
  unfoldable pub seek_file : ℕ → ℤ → Whence → State V → Exec (Ret × State V)
  seek_file f offset whence s = elim (s.files f) [
    | none ↦ panic
    | some x ↦ seek_target x offset whence s.rest >>= λ to.
        if is_neg to
        then (fput vn f s >>= λ s'. done (fail einval, s'))
        else (fput vn f (set_file f (record x { f_pos = to }) s) >>= λ s'. done (value to, s'))
  ]

  abbrev pub whence_ok : Whence → Bool
  whence_ok other = false
  whence_ok _ = true

  unfoldable pub do_lseek : ℤ → ℤ → Whence → State V → Exec (Ret × State V)
  do_lseek fd offset whence s = elim (open_file vn nfiles fd s) [
    | none ↦ done (fail ebadf, s)
    | some _ ↦
        if not (whence_ok whence)
        then done (fail einval, s)
        else (fget vn nfiles fd s >>= λ r. elim (r.0) [
          | none ↦ panic
          | some f ↦ seek_file f offset whence r.1
        ])
  ]

  module _ (modes : Modes) where
    open modes use {fmode_read, fmode_write, fmode_append}

    -- The vnode of a file, which the code follows without a test.
    unfoldable pub vnode_of : File → Exec ℕ
    vnode_of x = elim (x.f_vnode) [ none ↦ panic | some n ↦ done n ]

    -- The end of a call that holds `f`: `fput` and the result.
    unfoldable pub put_back : ℕ → Ret → State V → Exec (Ret × State V)
    put_back f r s = fput vn f s >>= λ s'. done (r, s')

    unfoldable pub file_of : ℕ → State V → Exec File
    file_of f s = elim (s.files f) [ none ↦ panic | some x ↦ done x ]

    -- `do_read`, from the place where `fget` has given `f`.
    unfoldable pub read_file : ℕ → ℕ → State V → Exec (Ret × State V)
    read_file nbytes f s = do
      x ← file_of f s
      if not (has_bit x.f_mode fmode_read) then put_back f (fail ebadf) s else do
        n ← vnode_of x
        let got = vn.read n x.f_pos nbytes s.rest
        let after = record s { rest = got.1 }
        let moved = record x { f_pos = add_off x.f_pos got.0 }
        if vn.is_dir n s.rest
            then put_back f (fail eisdir) s
            else if is_neg got.0
            then put_back f (value got.0) after
            else put_back f (value got.0) (set_file f moved after)

    unfoldable pub do_read : ℤ → ℕ → State V → Exec (Ret × State V)
    do_read fd nbytes s = elim (open_file vn nfiles fd s) [
      | none ↦ done (fail ebadf, s)
      | some _ ↦ fget vn nfiles fd s >>= λ r. elim (r.0) [
        | none ↦ done (fail ebadf, r.1)
        | some f ↦ read_file nbytes f r.1
      ]
    ]

    -- The write of `do_write` at `cursor`, with the assertion that follows it.
    unfoldable pub write_at : ℤ → List ℕ → ℕ → State V → Exec (Ret × State V)
    write_at cursor bytes f s = do
      x ← file_of f s
      n ← vnode_of x
      let put = vn.write n cursor bytes s.rest
      let moved = record x { f_pos = add_off x.f_pos put.0 }
      kassert (vn.is_special n put.1 || (vn.is_reg n put.1 && leb_ℤ x.f_pos (vn.vn_len n put.1)))
      put_back f (value put.0) (set_file f moved (record s { rest = put.1 }))

    -- A cursor of `do_write`: a failed `do_lseek` leaves the negated error number there.
    unfoldable pub write_from : Ret → List ℕ → ℕ → State V → Exec (Ret × State V)
    write_from (value cursor) bytes f s = write_at cursor bytes f s
    write_from (fail e) bytes f s = write_at (modes.errno_code e) bytes f s

    -- Where `do_write` writes: the second call of `do_lseek` overrides the first. A file that is
    -- open for neither has been refused before.
    unfoldable pub write_place : ℤ → List ℕ → ℕ → File → State V → Exec (Ret × State V)
    write_place fd bytes f x s =
        let at_end = do_lseek fd (pos 0) seek_end s in
        let go = λ (r : Ret × State V).
          if has_bit x.f_mode fmode_write
          then (do_lseek fd (pos 0) seek_cur r.1 >>= λ here. write_from here.0 bytes f here.1)
          else write_from r.0 bytes f r.1 in
        if has_bit x.f_mode fmode_append
        then (at_end >>= λ r. elim (r.0) [ fail e ↦ put_back f (fail e) r.1 | value v ↦ go r ])
        else go (value (pos 0), s)

    unfoldable pub write_file : ℤ → List ℕ → ℕ → State V → Exec (Ret × State V)
    write_file fd bytes f s = do
      x ← file_of f s
      if not (has_bit x.f_mode fmode_append) && not (has_bit x.f_mode fmode_write)
          then put_back f (fail ebadf) s
          else write_place fd bytes f x s

    -- `do_write`. The bound of its test is `fd > NFILES`.
    unfoldable pub do_write : ℤ → List ℕ → State V → Exec (Ret × State V)
    do_write (negsuc k) bytes s = done (fail ebadf, s)
    do_write (pos n) bytes s =
        if ltb nfiles n || not (is_some (slot s n))
        then done (fail ebadf, s)
        else (fget vn nfiles (pos n) s >>= λ r. elim (r.0) [
          | none ↦ done (fail ebadf, r.1)
          | some f ↦ write_file (pos n) bytes f r.1
        ])
