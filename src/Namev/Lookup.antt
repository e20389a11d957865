-- ===== src/Namev/Lookup.antt =====
-- `lookup`, `dir_namev` and `open_namev` of kernel/fs/namev.c. A path is the list of its characters,
-- and `pathname + i` is what is left of it.
use cs402_os.Base.{
  ℕ, zero, suc, Bool, true, false, ◌&&◌, ◌||◌, not, Option, none, some, List, [], ◌∷◌, ltb, ◌==◌,
  if◌then◌else◌, length, Exec, done, panic, ◌>>=◌,
}
use cs402_os.Namev.Vnode.{
  enoent, einval, enametoolong, enotdir, Err, Vfs, Looked, at, failed, VnodeOps, vref, vput,
}

abbrev pub slash : ℕ
slash = 47

abbrev pub dot : ℕ
dot = 46

-- `strcmp(name, ".") == 0` and `strcmp(name, "..") == 0`.
abbrev pub is_dot : List ℕ → Bool
is_dot (c ∷ []) = c == dot
is_dot _ = false

abbrev pub is_dot_dot : List ℕ → Bool
is_dot_dot (c ∷ d ∷ []) = (c == dot) && (d == dot)
is_dot_dot _ = false

abbrev pub is_nil : List ℕ → Bool
is_nil [] = true
is_nil (c ∷ p) = false

-- The count `j`: the characters up to the next slash.
unfoldable pub component_len : List ℕ → ℕ
component_len [] = 0
component_len (c ∷ p) = let more = suc (component_len p) in if c == slash then 0 else more

-- What stands behind them, and what stands behind the slashes that begin a path (the count `k`).
unfoldable pub behind_component : List ℕ → List ℕ
behind_component [] = []
behind_component (c ∷ p) = let more = behind_component p in if c == slash then c ∷ p else more

unfoldable pub skip_slashes : List ℕ → List ℕ
skip_slashes [] = []
skip_slashes (c ∷ p) = let more = skip_slashes p in if c == slash then more else c ∷ p

-- What is left of a path behind its first component and the slashes that follow it.
abbrev pub next_part : List ℕ → List ℕ
next_part p = skip_slashes (behind_component p)

abbrev pub is_enoent : Err → Bool
is_enoent enoent = true
is_enoent _ = false

-- What `dir_namev` returns: the directory, and the last component with its length.
pub data DirResult : Type 0 where
  in_dir : ℕ → List ℕ → ℕ → DirResult
  no_dir : Err → DirResult

-- NAME_LEN, MAXPATHLEN and `vfs_root_vn`.
pub record Limits : Type 0 where
  pub name_len : ℕ
  pub max_path : ℕ
  pub vfs_root_vn : ℕ

module _ {R : Type 0} (ops : VnodeOps R) where
  unfoldable pub lookup : ℕ → List ℕ → ℕ → Vfs R → Exec (Looked × Vfs R)
  lookup dir name len s =
      if not (ops.is_dir dir s.rest) || not (ops.has_lookup dir s.rest)
      then done (failed enotdir, s)
      else if is_dot name || (len == 0)
      then (vref ops dir s >>= λ s'. done (at dir, s'))
      else ops.fs_lookup dir name len s

  module _ (lim : Limits) where
    -- The end of `dir_namev`, at its last component.
    unfoldable pub dir_end : ℕ → List ℕ → Vfs R → Exec (Option (DirResult × Vfs R))
    dir_end base p s =
        if not (ops.is_dir base s.rest)
        then (vput ops base s >>= λ s'. done (some (no_dir enotdir, s')))
        else done (some (in_dir base p (component_len p), s))

    -- The loop of `dir_namev`, which holds a reference to `base`. Each round takes a component and
    -- a slash; no result stands for want of fuel.
    unfoldable pub dir_loop : ℕ → ℕ → List ℕ → Vfs R → Exec (Option (DirResult × Vfs R))
    dir_loop zero base p s = done none
    dir_loop (suc fuel) base p s =
        if ltb lim.name_len (component_len p)
        then (vput ops base s >>= λ s'. done (some (no_dir enametoolong, s')))
        else if is_nil (next_part p)
        then dir_end base p s
        else (lookup base p (component_len p) s >>= λ r. vput ops base r.1 >>= λ s'. elim (r.0) [
          | failed e ↦ done (some (no_dir e, s'))
          | at v ↦ dir_loop fuel v (next_part p) s'
        ])

    -- Where `dir_namev` starts: at the root for an absolute path, and at the working directory of
    -- the process otherwise, as all callers pass NULL for `base`.
    unfoldable pub dir_start : List ℕ → Vfs R → Option ℕ
    dir_start [] s = s.p_cwd
    dir_start (c ∷ p) s = if c == slash then some lim.vfs_root_vn else s.p_cwd

    unfoldable pub dir_namev : List ℕ → Vfs R → Exec (Option (DirResult × Vfs R))
    dir_namev path s =
        if length path == 0
        then done (some (no_dir einval, s))
        else if ltb lim.max_path (length path)
        then done (some (no_dir enametoolong, s))
        else elim (dir_start path s) [
          | none ↦ panic
          | some base ↦ vref ops base s >>= dir_loop (suc (length path)) base (skip_slashes path)
        ]

    -- `open_namev` from the place where `dir_namev` has found a directory; `creat` is
    -- `flag & O_CREAT`.
    unfoldable pub open_in : Bool → ℕ → List ℕ → ℕ → Vfs R → Exec (Looked × Vfs R)
    open_in creat dir name len s = do
      r ← lookup dir name len s
      elim (r.0) [
        | at v ↦ vput ops dir r.1 >>= λ s'. done (at v, s')
        | failed e ↦
            if creat && is_enoent e
            then (ops.fs_create dir name len r.1 >>= λ c. vput ops dir c.1 >>= λ s'. done (c.0, s'))
            else (vput ops dir r.1 >>= λ s'. done (failed e, s'))
      ]

    unfoldable pub open_namev : Bool → List ℕ → Vfs R → Exec (Option (Looked × Vfs R))
    open_namev creat path s = dir_namev path s >>= λ found. elim found [
      | none ↦ done none
      | some (no_dir e, s') ↦ done (some (failed e, s'))
      | some (in_dir d name len, s') ↦ open_in creat d name len s' >>= λ r. done (some r)
    ]
