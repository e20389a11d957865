-- ===== src/Namev/Vnode.antt =====
-- References to vnodes, and what path lookup needs of a file system.
use cs402_os.Base.{
  ℕ, ◌+◌, ◌-◌, Bool, Option, List, ltb, ◌==◌, if◌then◌else◌, Exec, done, ◌>>◌, kassert,
}

-- Errors are returned as -errno.
pub data Err : Type 0 where
  enoent einval enametoolong enotdir eexist enotempty eisdir : Err
  other_err : ℕ → Err

-- A vnode is given by its address. `refs` is `vn_refcount` less `vn_nrespages`: the references that
-- are not those of resident pages. `rest` is the state of the file systems.
pub record Vfs (R : Type 0) : Type 0 where
  pub refs : ℕ → ℕ
  pub p_cwd : Option ℕ
  pub rest : R

-- What a lookup returns: 0 and a vnode, or an error.
pub data Looked : Type 0 where
  at : ℕ → Looked
  failed : Err → Looked

-- The operations of a file system on its vnodes. A name is passed as what is left of the path, with
-- its length. An operation that returns only a status returns none for 0. Each may fail an assertion.
pub record VnodeOps (R : Type 0) : Type 0 where
  pub nrespages : ℕ → R → ℕ
  pub is_dir : ℕ → R → Bool
  pub has_lookup : ℕ → R → Bool
  -- what `vput` does to a vnode that loses its last reference
  pub inactive : ℕ → R → R
  pub fs_lookup : ℕ → List ℕ → ℕ → Vfs R → Exec (Looked × Vfs R)
  pub fs_create : ℕ → List ℕ → ℕ → Vfs R → Exec (Looked × Vfs R)
  pub fs_mknod : ℕ → List ℕ → ℕ → ℕ → ℕ → Vfs R → Exec (Option Err × Vfs R)
  pub fs_mkdir : ℕ → List ℕ → ℕ → Vfs R → Exec (Option Err × Vfs R)
  pub fs_rmdir : ℕ → List ℕ → ℕ → Vfs R → Exec (Option Err × Vfs R)
  pub fs_unlink : ℕ → List ℕ → ℕ → Vfs R → Exec (Option Err × Vfs R)
  pub fs_link : ℕ → ℕ → List ℕ → ℕ → Vfs R → Exec (Option Err × Vfs R)
  pub fs_stat : ℕ → Vfs R → Exec (Option Err × Vfs R)

module _ {R : Type 0} (ops : VnodeOps R) where
  abbrev pub set_refs : ℕ → ℕ → Vfs R → Vfs R
  set_refs v n s = record s { refs = λ a. if v == a then n else s.refs a }

  unfoldable pub vref : ℕ → Vfs R → Exec (Vfs R)
  vref v s = do
    kassert (ltb 0 (s.refs v + ops.nrespages v s.rest))
    done (set_refs v (s.refs v + 1) s)

  unfoldable pub vput : ℕ → Vfs R → Exec (Vfs R)
  vput v s = do
    kassert (ltb 0 (s.refs v))
    let s1 = set_refs v (s.refs v - 1) s
    done (if s.refs v == 1 then record s1 { rest = ops.inactive v s1.rest } else s1)
