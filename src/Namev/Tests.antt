-- ===== src/Namev/Tests.antt =====
-- Runs of the calls on paths, over a file system whose vnode 0 is the root and whose directory 0 has the
-- directory 1 and the file 2. The name of the directory begins with `a`, and that of the file with `f`.
use cs402_os.Base.{
  ℕ, ◌+◌, ◌≡◌, refl, true, false, Option, none, some, List, [], ◌∷◌, ltb, ◌==◌, if◌then◌else◌, Exec,
  done, panic,
}
use cs402_os.Namev.Vnode.{enoent, Vfs, Looked, at, failed, VnodeOps, vref, vput}
use cs402_os.Namev.Lookup.{
  no_dir, Limits, dir_namev, open_namev, open_in, dir_start, dir_loop, dir_end, lookup,
  skip_slashes, component_len, behind_component,
}
use cs402_os.Namev.Calls.{finish, rmdir_in, do_rmdir, unlink_found, unlink_in, do_unlink}

-- Where a name leads, from the root.
abbrev found : List ℕ → Looked
found [] = failed enoent
found (c ∷ name) = if c == 97 then at 1 else if c == 102 then at 2 else failed enoent

abbrev one_more : Looked → (ℕ → ℕ) → ℕ → ℕ
one_more (at v) refs a = if v == a then refs a + 1 else refs a
one_more (failed e) refs a = refs a

abbrev take : Looked → Vfs ℕ → Exec (Looked × Vfs ℕ)
take r s = done (r, record s { refs = one_more r s.refs })

abbrev small : VnodeOps ℕ
small = record {
  nrespages = λ v r. 0;
  is_dir = λ v r. ltb v 2;
  has_lookup = λ v r. true;
  inactive = λ v r. r + 1;
  fs_lookup = λ d name l s. take (if d == 0 then found name else failed enoent) s;
  fs_create = λ d name l s. take (at 7) s;
  fs_mknod = λ d name l mode dev s. done (none, record s { rest = s.rest + 1 });
  fs_mkdir = λ d name l s. done (none, s);
  fs_rmdir = λ d name l s. if d == 0 then done (none, s) else panic;
  fs_unlink = λ d name l s. done (none, record s { rest = s.rest + 1 });
  fs_link = λ v d name l s. done (none, s);
  fs_stat = λ v s. done (none, s);
}

abbrev limits : Limits
limits = record { name_len = 28; max_path = 1024; vfs_root_vn = 0 }

-- The root is the working directory.
abbrev start : Vfs ℕ
start = record { refs = λ a. if a == 0 then 2 else 0; p_cwd = some 0; rest = 0 }

-- `/a/b`.
abbrev deep : List ℕ
deep = 47 ∷ 97 ∷ 47 ∷ 98 ∷ []

-- The state behind a call that returns.
abbrev behind : {A : Type 0} → Exec (Option (A × Vfs ℕ)) → Vfs ℕ
behind (done (some (r, s))) = s
behind e = start

-- The vnode of `/f` is the file 2, and there is no directory for `/x/y`.
abbrev file_path : List ℕ
file_path = 47 ∷ 102 ∷ []

abbrev missing_path : List ℕ
missing_path = 47 ∷ 120 ∷ 47 ∷ 121 ∷ []

abbrev opened : Vfs ℕ
opened = behind (open_namev small limits false file_path start)

abbrev missed : Vfs ℕ
missed = behind (dir_namev small limits missing_path opened)

file_opens : open_namev small limits false file_path start ≡ done (some (at 2, opened))
unfolding open_namev open_in dir_namev dir_start dir_loop dir_end lookup vref vput skip_slashes
    component_len behind_component
file_opens = refl

directory_fails : dir_namev small limits missing_path opened ≡ done (some (no_dir enoent, missed))
unfolding open_namev open_in dir_namev dir_start dir_loop dir_end lookup vref vput skip_slashes
    component_len behind_component
directory_fails = refl

-- `/f` is removed.
abbrev removed : Vfs ℕ
removed = behind (do_unlink small limits file_path start)

unlinks_file : do_unlink small limits file_path start ≡ done (some (none, removed))
unfolding do_unlink unlink_in unlink_found finish dir_namev dir_start dir_loop dir_end lookup vref
    vput skip_slashes component_len behind_component
unlinks_file = refl

-- An assertion that the file system fails is one of the call.
rmdir_panics : do_rmdir small limits (47 ∷ 97 ∷ 47 ∷ 98 ∷ []) start ≡ panic
unfolding do_rmdir rmdir_in finish dir_namev dir_start dir_loop dir_end lookup vref vput
    skip_slashes component_len behind_component
rmdir_panics = refl
