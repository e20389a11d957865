-- ===== src/Files/Offsets.antt =====
-- `do_lseek` keeps every reference count right, and moves only the offset of its file.
use cs402_os.Base.{
  ℕ, ◌+◌, ◌-◌, ◌≡◌, refl, true, false, Option, none, some, ◌==◌, get_elem?, arith, ℤ, pos, negsuc,
  done, Option-cases, inl, inr,
}
use cs402_os.Files.Table.{File, Vnodes, State, update, pos_ok, fref, fput, fget}
use cs402_os.Files.Calls.{Whence, seek_set, seek_cur, seek_end, other, add_off, set_file}
use cs402_os.Files.Count.{count-set}
use cs402_os.Files.Invariant.{WellFormed, give}

module _ (nfiles : ℕ) {V : Type 0} (vn : Vnodes V) (others : ℕ → ℕ) where
  -- A file that a call holds has a vnode.
  pub held_vnode :
      (f : ℕ) (s : State V) (x : File)
      → WellFormed nfiles (give f others) s
      → s.files f ≡ some x
      → (n : ℕ) × (x.f_vnode ≡ some n)
  held_vnode f s x wf e = elim (Option-cases x.f_vnode) [
    | inl bare ↦ absurd (ground (arith, wf.counted f))
    | inr found ↦ found
  ]

  -- A new offset that is not below -1, and another state of the vnode layer.
  pub moved-WellFormed :
      (f : ℕ) (s : State V) (x : File) (to : ℤ) (v : V)
      → WellFormed nfiles (give f others) s
      → s.files f ≡ some x
      → pos_ok to ≡ true
      → WellFormed nfiles
          (give f others)
          (set_file vn nfiles f (record x { f_pos = to }) (record s { rest = v }))
  moved-WellFormed f s x to v wf e ok = record {
    table = wf.table;
    counted = λ g. ground (arith, wf.counted g, wf.counted f);
  }

  -- The last step of a call on a file that a descriptor names too: only the count changes.
  pub fput_shared :
      (f n : ℕ) (s : State V) (x : File)
      → WellFormed nfiles (give f others) s
      → get_elem? s.fds n ≡ some (some f)
      → s.files f ≡ some x
      → (s' : State V) × (fput vn f s ≡ done s')
        × (s'.fds ≡ s.fds)
        × (s'.files f ≡ some (record x { f_refcount = x.f_refcount - 1 }))
        × WellFormed nfiles others s'
  unfolding fput
  fput_shared f n s x wf held e =
      let c = count-set f s.fds n (some f) none held in
      let several : (x.f_refcount - 1 == 0) ≡ false = ground (arith, wf.counted f, c) in
      (
        record s { files = update s.files f (some (record x { f_refcount = x.f_refcount - 1 })) },
        ground (arith, wf.counted f, several),
        refl,
        ground arith,
        record {
          table = wf.table;
          counted = λ g. ground (arith, wf.counted g, wf.counted f, several);
        },
      )

  -- What `fget` does to the file.
  pub fget-files :
      (fd : ℤ) (s s1 : State V) (f : ℕ) (x : File)
      → fget vn nfiles fd s ≡ done (some f, s1)
      → s.files f ≡ some x
      → (s1.files f ≡ some (record x { f_refcount = x.f_refcount + 1 })) × (s1.rest ≡ s.rest)
  unfolding fget fref
  fget-files (negsuc k) s s1 f x r e = cc
  fget-files (pos n) s s1 f x r e = ground arith

  -- The place that `whence` and the offset name, for a file at `from` with the vnode `vnode`.
  abbrev pub Target : ℤ → Option ℕ → ℤ → Whence → V → ℤ → Type 0
  Target from vnode offset seek_set v to = to ≡ offset
  Target from vnode offset seek_cur v to = to ≡ add_off from offset
  Target from vnode offset seek_end v to =
      (n : ℕ) × (vnode ≡ some n) × (to ≡ add_off (vn.vn_len n v) offset)
  Target from vnode offset other v to = to ≡ from
