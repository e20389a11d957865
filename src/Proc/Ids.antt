-- ===== src/Proc/Ids.antt =====
-- The identifier that `_proc_getid` returns is not in use, and it finds one where there is one.
use cs402_os.Base.{
  ℕ, zero, suc, ◌+◌, ◌-◌, ◌%◌, ◌≤◌, ◌<◌, ◌≡◌, refl, Bool, true, false, ◌&&◌, ◌||◌, some, leb, ltb,
  ◌==◌, if◌then◌else◌, arith, Bool-cases, inl, inr, ◌⊎◌,
}
use cs402_os.Proc.Table.{Table, pid_used, PidResult, pid_is, no_pid, getid_loop, proc_getid}

wrap_lem :
    (pid count : ℕ) → pid < count → (pid + 1) % count ≡ (if pid + 1 == count then 0 else pid + 1)
wrap_lem pid count h = grind arith

-- The identifiers from `first` on, round the end, up to `pid`.
abbrev between : ℕ → ℕ → ℕ → Bool
between first pid k = if leb first pid then leb first k && ltb k pid else leb first k || ltb k pid

abbrev distance : ℕ → ℕ → ℕ → ℕ
distance count first pid = if leb first pid then pid - first else count - first + pid

module _ (count : ℕ) (s : Table) (below : s.next_pid < count) where
  -- An answer of `_proc_getid` that is right: an identifier in range that no process has, or none
  -- where processes have them all.
  abbrev pub IsAnswer : PidResult → Type 0
  IsAnswer (pid_is pid) = (pid < count) × (pid_used s.process pid s.proc_list ≡ false)
  IsAnswer no_pid = (k : ℕ) → k < count → pid_used s.process k s.proc_list ≡ true

  -- One step further round, all identifiers passed so far are in use.
  passed :
      (pid k : ℕ)
      → pid < count
      → pid_used s.process pid s.proc_list ≡ true
      → (between s.next_pid pid k ≡ true → k < count → pid_used s.process k s.proc_list ≡ true)
      → k < count
      → between s.next_pid ((pid + 1) % count) k ≡ true ⊎ ((pid + 1) % count ≡ s.next_pid)
      → pid_used s.process k s.proc_list ≡ true
  passed pid k lt used old small h = elim (Bool-cases (k == pid)) [
    | inl same ↦ let e : k ≡ pid = ground (arith, same) in rw e used
    | inr other ↦ old (ground (arith, wrap_lem pid count lt)) small
  ]

  getid_loop_lem :
      (fuel pid : ℕ)
      → pid < count
      → count ≤ fuel + distance count s.next_pid pid
      → ((k : ℕ)
          → between s.next_pid pid k ≡ true
          → k < count
          → pid_used s.process k s.proc_list ≡ true)
      → (r : PidResult) × (getid_loop count fuel pid s ≡ some r) × IsAnswer r
  unfolding getid_loop
  getid_loop_lem zero pid lt enough used = absurd (ground arith)
  getid_loop_lem (suc fuel) pid lt enough used =
      let next = (pid + 1) % count in
      let wrap = wrap_lem pid count lt in
      elim (Bool-cases (pid_used s.process pid s.proc_list)) [
        | inr free ↦ (pid_is pid, rw free refl, (lt, free))
        | inl taken ↦ elim (Bool-cases (next == s.next_pid)) [
          | inl round ↦ (
            no_pid,
            rw (taken, round) refl,
            λ k small. passed pid k lt taken (used k) small (inr (ground (arith, round))),
          )
          | inr more ↦
              let (r, e, answer) =
                getid_loop_lem fuel next (ground (arith, wrap)) (ground (arith, wrap, more))
                  (λ k within small. passed pid k lt taken (used k) small (inl within)) in
              (r, rw (taken, more) e, answer)
        ]
      ]

  -- Where the identifier to try first is in range, `_proc_getid` ends: its loop takes at most as
  -- many rounds as there are identifiers. It returns an identifier in range that no process of the
  -- list has, and -1 only where processes have them all. The one to try first stays in range.
  pub proc_getid_lem :
      (r : PidResult) × (s' : Table) × (proc_getid count s ≡ some (r, s'))
      × IsAnswer r
      × (s'.next_pid < count)
      × (s'.proc_list ≡ s.proc_list)
  unfolding proc_getid
  proc_getid_lem =
      let (r, e, answer) =
        getid_loop_lem count s.next_pid below (omega arith)
          (λ k within small. absurd (ground arith)) in
      finished r e answer
    where
      finished :
          (r : PidResult)
          → getid_loop count count s.next_pid s ≡ some r
          → IsAnswer r
          → (r : PidResult) × (s' : Table) × (proc_getid count s ≡ some (r, s'))
            × IsAnswer r
            × (s'.next_pid < count)
            × (s'.proc_list ≡ s.proc_list)
      finished no_pid e answer = (no_pid, s, ground (arith, e), answer, below, refl)
      finished (pid_is pid) e answer = (
        pid_is pid,
        record s { next_pid = (pid + 1) % count },
        ground (arith, e),
        answer,
        ground (arith, wrap_lem pid count),
        refl,
      )
