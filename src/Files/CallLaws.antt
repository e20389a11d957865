-- ===== src/Files/CallLaws.antt =====
-- The calls on descriptors keep every reference count right, and never stop the kernel.
use cs402_os.Base.{
  ℕ, ◌+◌, ◌<◌, ◌≡◌, refl, false, Option, none, some, leb, get_elem?, set, arith, ℤ, pos, negsuc,
  Exec, done, panic, ◌>>=◌, Option-cases, inl, inr, ◌∙◌, ◌⊎◌, ap, sym,
}
use cs402_os.Files.Table.{Vnodes, State, update, slot, fput, release, fget, get_empty_fd, open_file}
use cs402_os.Files.Calls.{Errno, ebadf, emfile, Ret, value, fail, do_close, dup_into, do_dup}
use cs402_os.Files.Invariant.{
  WellFormed, give, with_fd, fref_lem, fput_lem, take_slot, fill_slot, live, open_file_slot,
  get_empty_fd_slot,
}

-- `fput` does not look at the table.
fput-with_fd :
    {V : Type 0} (vn : Vnodes V) (f n : ℕ) (x : Option ℕ) (s : State V)
    → fput vn f (with_fd n x s) ≡ (fput vn f s >>= λ s'. done (with_fd n x s'))
unfolding fput release
fput-with_fd vn f n x s = ground arith

paired :
    {A B C : Type 0} (m : Exec A) (g : A → B) (c : C) {b : B}
    → (m >>= λ a. done (g a)) ≡ done b
    → ◌>>=◌ {B = C × B} m (λ a. done (c, g a)) ≡ done (c, b)
paired (done a) g c e = cc
paired panic g c e = cc

module _ (nfiles : ℕ) {V : Type 0} (vn : Vnodes V) (others : ℕ → ℕ) where
  -- `fget` of an open descriptor returns its file, with one more reference.
  pub fget_lem :
      (s : State V) (fd : ℤ) (f : ℕ)
      → WellFormed nfiles others s
      → open_file vn nfiles fd s ≡ some f
      → (s1 : State V) × (fget vn nfiles fd s ≡ done (some f, s1))
        × (s1.fds ≡ s.fds)
        × WellFormed nfiles (give f others) s1
  unfolding fget open_file
  fget_lem s (negsuc k) f wf e = cc
  fget_lem s (pos n) f wf e =
      let (m, at, lt, held) = open_file_slot nfiles vn s (pos n) f wf.table e in
      let same : n ≡ m = ground arith in
      let (x, found) = live nfiles vn others s m f wf held in
      let (r, wf') = fref_lem nfiles vn others s f x wf found in
      let inside : leb nfiles n ≡ false = ground arith in
      let here : slot s n ≡ some f = ground (arith, e) in
      (
        record s { files = update s.files f (some (record x { f_refcount = x.f_refcount + 1 })) },
        rw (inside, here, r),
        refl,
        wf',
      )

  -- `do_close` of an open descriptor, where `others` counts the references from outside the table.
  pub close_slot :
      (s : State V) (n f : ℕ)
      → WellFormed nfiles others s
      → n < nfiles
      → get_elem? s.fds n ≡ some (some f)
      → (s' : State V) × (do_close vn nfiles (pos n) s ≡ done (value (pos 0), s'))
        × (s'.fds ≡ set s.fds n none)
        × (s'.past_end ≡ s.past_end)
        × WellFormed nfiles others s'
  unfolding do_close open_file
  close_slot s n f wf lt e =
      let cut = take_slot nfiles vn others s n f wf e in
      let opened : open_file vn nfiles (pos n) s ≡ some f = ground arith in
      let (t, r, fds, past, wf') = fput_lem nfiles vn others (with_fd n none s) f cut in
      let moved = sym (fput-with_fd vn f n none s) ∙ r in
      (
        t,
        rw (opened, do_close) (paired (fput vn f s) (with_fd n none) (value (pos 0)) moved),
        fds,
        past,
        wf',
      )

  -- A call that returns leaves every count right.
  abbrev Keeps : Exec (Ret × State V) → Type 0
  Keeps e = (r : Ret) × (s' : State V) × (e ≡ done (r, s')) × WellFormed nfiles others s'

  -- Where every open file is counted, `do_close` returns: -EBADF for a descriptor that is not open,
  -- and otherwise 0 with the descriptor empty and the others as they were; and every open file is
  -- counted again, so that a file that nothing else names has been released.
  pub do_close_lem :
      (fd : ℤ) (s : State V)
      → WellFormed nfiles others s
      → ((open_file vn nfiles fd s ≡ none) × (do_close vn nfiles fd s ≡ done (fail ebadf, s)))
        ⊎ ((n : ℕ) × (s' : State V) × (fd ≡ pos n)
            × (do_close vn nfiles fd s ≡ done (value (pos 0), s'))
            × (s'.fds ≡ set s.fds n none)
            × WellFormed nfiles others s')
  unfolding do_close
  do_close_lem fd s wf = elim (Option-cases (open_file vn nfiles fd s)) [
    | inl shut ↦ inl (shut, rw (shut, do_close))
    | inr (f, e) ↦
        let (n, at, lt, held) = open_file_slot nfiles vn s fd f wf.table e in
        let (t, r, fds, past, wf') = close_slot s n f wf lt held in
        inr (n, t, at, rw at r, fds, wf')
  ]

  -- `do_dup` behind `fget`, which has taken a reference to `f`.
  dup_into_lem :
      (f : ℕ) (s : State V)
      → WellFormed nfiles (give f others) s
      → ((s' : State V) × (dup_into vn nfiles f s ≡ done (fail emfile, s'))
          × (s'.fds ≡ s.fds)
          × WellFormed nfiles others s')
        ⊎ ((n : ℕ) × (s' : State V) × (dup_into vn nfiles f s ≡ done (value (pos n), s'))
            × (get_elem? s.fds n ≡ some none)
            × (s'.fds ≡ set s.fds n (some f))
            × WellFormed nfiles others s')
  unfolding dup_into
  dup_into_lem f s wf = elim (Option-cases (get_empty_fd vn nfiles s)) [
    | inl full ↦
        let (t, put, fds, past, wf') = fput_lem nfiles vn others s f wf in
        inl (t, rw (full, dup_into) (rw put), fds, wf')
    | inr (k, free) ↦
        let (small, empty) = get_empty_fd_slot nfiles vn s k wf.table free in
        inr (
          k,
          with_fd k (some f) s,
          rw (free, dup_into),
          empty,
          refl,
          fill_slot nfiles vn others s k f wf empty,
        )
  ]

  do_dup-dup_into :
      (fd : ℤ) (s s1 : State V) (f : ℕ)
      → open_file vn nfiles fd s ≡ some f
      → fget vn nfiles fd s ≡ done (some f, s1)
      → do_dup vn nfiles fd s ≡ dup_into vn nfiles f s1
  unfolding do_dup
  do_dup-dup_into fd s s1 f e r = rw (e, do_dup) (rw r)

  -- Where every open file is counted, `do_dup` returns, and every open file is counted again: on
  -- failure the table is unchanged, and on success the new descriptor is one that was empty, and
  -- it names the file of the given one.
  pub do_dup_lem :
      (fd : ℤ) (s : State V)
      → WellFormed nfiles others s
      → ((e : Errno) × (s' : State V) × (do_dup vn nfiles fd s ≡ done (fail e, s'))
          × (s'.fds ≡ s.fds)
          × WellFormed nfiles others s')
        ⊎ ((n f : ℕ) × (s' : State V) × (do_dup vn nfiles fd s ≡ done (value (pos n), s'))
            × (open_file vn nfiles fd s ≡ some f)
            × (get_elem? s.fds n ≡ some none)
            × (s'.fds ≡ set s.fds n (some f))
            × WellFormed nfiles others s')
  unfolding do_dup
  do_dup_lem fd s wf = elim (Option-cases (open_file vn nfiles fd s)) [
    | inl shut ↦ inl (ebadf, s, rw (shut, do_dup), refl, wf)
    | inr (f, e) ↦
        let (s1, r, same, wf1) = fget_lem s fd f wf e in
        let step = do_dup-dup_into fd s s1 f e r in
        elim (dup_into_lem f s1 wf1) [
          | inl (t, full, fds, wf') ↦ inl (emfile, t, step ∙ full, fds ∙ same, wf')
          | inr (n, t, got, empty, fds, wf') ↦ inr (
            n,
            f,
            t,
            step ∙ got,
            e,
            rw (← same) empty,
            fds ∙ ap (λ t. set t n (some f)) same,
            wf',
          )
        ]
  ]
