-- ===== src/Files/Dup2.antt =====
-- `do_dup2` keeps every reference count right, and never stops the kernel.
use cs402_os.Base.{
  ℕ, ◌<◌, ◌≡◌, refl, true, false, ◌&&◌, Option, none, some, List, leb, get_elem?, set, arith, ℤ,
  pos, negsuc, done, Option-cases, inl, inr, ◌∙◌, Bool-cases, get_elem?-set_self, get_elem?-some,
  set-set, set_held, ◌⊎◌, ap, sym,
}
use cs402_os.Files.Table.{Vnodes, State, slot, is_some, open_file}
use cs402_os.Files.Calls.{ebadf, value, fail, dup2_into, do_dup2, leb_ℤ}
use cs402_os.Files.Invariant.{WellFormed, give, with_fd, fput_lem, fill_slot, open_file_slot}
use cs402_os.Files.CallLaws.{fget_lem, close_slot}

module _ (nfiles : ℕ) {V : Type 0} (vn : Vnodes V) (others : ℕ → ℕ) where
  -- `do_dup2` behind `fget`, which has taken a reference to `f`, the file of descriptor `m`.
  dup2_into_lem :
      (f n m : ℕ) (s : State V)
      → WellFormed nfiles (give f others) s
      → n < nfiles
      → get_elem? s.fds m ≡ some (some f)
      → (s' : State V) × (dup2_into vn nfiles f (pos m) n s ≡ done (value (pos n), s'))
        × (s'.fds ≡ set s.fds n (some f))
        × WellFormed nfiles others s'
  unfolding dup2_into
  dup2_into_lem f n m s wf lt held =
      let (g, at) = get_elem?-some s.fds n (ground (arith, wf.table)) in
      elim (Bool-cases (leb_ℤ (pos m) (pos n) && leb_ℤ (pos n) (pos m))) [
        | inl same ↦
            let (t, put, fds, past, wf') = fput_lem nfiles vn others s f wf in
            let here : get_elem? s.fds n ≡ some (some f) = ground (arith, held) in
            (t, rw same (rw put refl), fds ∙ sym (set_held s.fds n (some f) here), wf')
        | inr other ↦ elim (Option-cases g) [
          | inl free ↦
              let empty : get_elem? s.fds n ≡ some none = rw (← free) at in
              let unused : is_some (slot s n) ≡ false = ground (arith, empty) in
              (
                with_fd n (some f) s,
                rw (other, unused) refl,
                refl,
                fill_slot nfiles vn others s n f wf empty,
              )
          | inr (h, full) ↦
              let busy : get_elem? s.fds n ≡ some (some h) = rw (← full) at in
              let used : is_some (slot s n) ≡ true = ground (arith, busy) in
              let (t, closed, fds, past, wf') =
                close_slot nfiles vn (give f others) s n h wf lt busy in
              let empty : get_elem? t.fds n ≡ some none =
                rw fds (get_elem?-set_self s.fds n none (ground (arith, wf.table))) in
              (
                with_fd n (some f) t,
                rw (other, used) (rw closed refl),
                ap (λ (l : List (Option ℕ)). set l n (some f)) fds ∙ set-set s.fds n none (some f),
                fill_slot nfiles vn others t n f wf' empty,
              )
        ]
      ]

  -- Where every open file is counted, `do_dup2` returns, and every open file is counted again: it
  -- fails with -EBADF and changes nothing where the old descriptor is not open or the new one is out
  -- of range, and otherwise the new descriptor names the file of the old one, and the other
  -- descriptors are as they were.
  pub do_dup2_lem :
      (ofd nfd : ℤ) (s : State V)
      → WellFormed nfiles others s
      → ((do_dup2 vn nfiles ofd nfd s ≡ done (fail ebadf, s))
          × ((open_file vn nfiles ofd s ≡ none) ⊎ ¬ ((n : ℕ) × (nfd ≡ pos n) × (n < nfiles))))
        ⊎ ((n f : ℕ) × (s' : State V) × (nfd ≡ pos n)
            × (open_file vn nfiles ofd s ≡ some f)
            × (do_dup2 vn nfiles ofd nfd s ≡ done (value (pos n), s'))
            × (s'.fds ≡ set s.fds n (some f))
            × WellFormed nfiles others s')
  unfolding do_dup2
  do_dup2_lem ofd (negsuc k) s wf = inl (refl, inr (λ (n, e, lt). cc))
  do_dup2_lem ofd (pos n) s wf = elim (Option-cases (open_file vn nfiles ofd s)) [
    | inl shut ↦ inl (rw (shut, do_dup2) refl, inl shut)
    | inr (f, e) ↦ elim (Bool-cases (leb nfiles n)) [
      | inl out ↦ inl (rw (e, do_dup2) (rw out refl), inr (λ (k, same, lt). ground arith))
      | inr inside ↦
          let (m, at, lt, held) = open_file_slot nfiles vn s ofd f wf.table e in
          let (s1, r, same, wf1) = fget_lem nfiles vn others s ofd f wf e in
          let (t, got, fds, wf') = dup2_into_lem f n m s1 wf1 (ground arith) (rw same held) in
          inr (
            n,
            f,
            t,
            refl,
            e,
            rw (e, do_dup2) (rw inside (rw r (rw at got))),
            fds ∙ ap (λ (l : List (Option ℕ)). set l n (some f)) same,
            wf',
          )
    ]
  ]
