-- ===== src/Files/Open.antt =====
-- `do_open` of kernel/fs/open.c.
use Prim.Native.Nat.{bit_or}
use cs402_os.Base.{
  ℕ, Bool, ◌&&◌, ◌||◌, not, Option, none, some, bit_and, ltb, ◌==◌, if◌then◌else◌, ℤ, pos, is_neg,
  pos_part, Exec, done, panic, ◌>>=◌,
}
use cs402_os.Files.Table.{Vnodes, State, fput, fget_new, get_empty_fd}
use cs402_os.Files.Calls.{
  emfile, einval, eisdir, enametoolong, Ret, value, fail, Modes, put_fd, set_file, file_of,
  do_close,
}

-- The flags of fcntl.h, and NAME_LEN, which the repository does not hold.
pub record OpenFlags : Type 0 where
  pub o_rdonly : ℕ
  pub o_wronly : ℕ
  pub o_rdwr : ℕ
  pub o_creat : ℕ
  pub o_trunc : ℕ
  pub o_append : ℕ
  pub name_len : ℕ

-- `open_namev(filename, oflags, &res, NULL)`: its result and `res`, with `strlen(filename)`. A name
-- is given by a number.
pub record Names (V : Type 0) : Type 0 where
  pub open_namev : ℕ → ℕ → V → (ℤ × Option ℕ) × V
  pub strlen : ℕ → ℕ

module _ (o : OpenFlags) (modes : Modes) where
  -- `oflags` is `how`, alone, or with one of O_CREAT and O_TRUNC.
  unfoldable pub opens : ℕ → ℕ → Bool
  opens oflags how =
      (oflags == how) || ((oflags == bit_or how o.o_creat) || (oflags == bit_or how o.o_trunc))

  -- The mode that the flags ask for, by the tests in their order; no mode stands for -EINVAL.
  unfoldable pub mode_of : ℕ → Option ℕ
  mode_of oflags =
      let r = modes.fmode_read in
      let w = modes.fmode_write in
      let a = modes.fmode_append in
      if opens oflags o.o_rdonly
      then some r
      else if opens oflags o.o_wronly
      then some w
      else if oflags == bit_or o.o_rdwr o.o_append
      then some (bit_or (bit_or w r) a)
      else if oflags == bit_or o.o_rdonly o.o_append
      then some (bit_or r a)
      else if oflags == bit_or o.o_wronly o.o_append
      then some (bit_or w a)
      else if opens oflags o.o_rdwr
      then some (bit_or r w)
      else none

  module _ {V : Type 0} (vn : Vnodes V) (nv : Names V) (nfiles : ℕ) where
    -- `do_open` from the place where the vnode `n` is known; `f` is the new file.
    unfoldable pub open_vnode : ℕ → ℕ → ℕ → ℕ → State V → Exec (Ret × State V)
    open_vnode fd f n oflags s = do
      x ← file_of vn nfiles modes f s
      let s1 = set_file vn nfiles f (record x { f_vnode = some n }) s
      let access = bit_and oflags 3
      if ((access == o.o_wronly) || (access == o.o_rdwr)) && vn.is_dir n s1.rest
          then (do_close vn nfiles (pos fd) s1 >>= λ r.
              done (fail eisdir, record r.1 { rest = vn.vput n (r.1).rest }))
          else done (value (pos fd), put_fd vn nfiles fd (some f) s1)

    -- `do_open` from the place where the mode has been set.
    unfoldable pub open_named : ℕ → ℕ → ℕ → ℕ → State V → Exec (Ret × State V)
    open_named fd f filename oflags s = do
      let r = nv.open_namev filename oflags s.rest
      let s1 = record s { rest = r.1 }
      let give_up =
          (do_close vn nfiles (pos fd) s1 >>= λ c.
          done (value (r.0).0, put_fd vn nfiles fd none c.1))
      let failed = not (pos_part (r.0).0 == 0) || is_neg (r.0).0
      elim ((r.0).1) [
        | none ↦ give_up
        | some n ↦ if failed then give_up else open_vnode fd f n oflags s1
      ]

    -- `do_open`. Where no file object can be had, it calls `fput(NULL)`, which fails an assertion.
    unfoldable pub do_open : ℕ → ℕ → State V → Exec (Ret × State V)
    do_open filename oflags s = elim (get_empty_fd vn nfiles s) [
      | none ↦ done (fail emfile, s)
      | some fd ↦ fget_new vn s >>= λ new. elim (new.0) [
        | none ↦ panic
        | some f ↦
            if ltb o.name_len (nv.strlen filename)
            then (fput vn f new.1 >>= λ s1. done (fail enametoolong, s1))
            else elim (mode_of oflags) [
              | none ↦ done (fail einval, new.1)
              | some k ↦ file_of vn nfiles modes f new.1 >>= λ x.
                  open_named fd f filename oflags
                    (set_file vn nfiles f (record x { f_mode = k }) new.1)
            ]
      ]
    ]
