-- ===== src/Vm/Clone.antt =====
-- `vmmap_clone`: the new map shows the same address space.
use cs402_os.Base.{
  ℕ, ◌≤◌, ◌≡◌, ◌≢◌, refl, Option, none, some, List, [], ◌∷◌, arith, done, Option-cases, ◌∙◌, inl,
  inr,
}
use cs402_os.Vm.Area.{Layout, low_pn, high_pn, IsLayout, Area, VmMap, Memory}
use cs402_os.Vm.VmMap.{insert_loop, vmmap_create}
use cs402_os.Vm.Mapping.{clone_loop, vmmap_clone}
use cs402_os.Vm.Space.{IsChain, IsValid, Page, translate, IsFree, IsChain-le}
use cs402_os.Vm.Insert.{vmmap_insert-done, insert_loop-IsChain, insert_loop-translate}

-- From the end of a chain on, nothing is mapped.
translate-above :
    (lo hi : ℕ) (later : List Area) (vfn : ℕ)
    → IsChain lo hi later
    → hi ≤ vfn
    → translate later vfn ≡ none
unfolding translate
translate-above lo hi [] vfn c h = refl
translate-above lo hi (a ∷ later) vfn c h =
    ground (arith, translate-above a.end hi later vfn c.2, IsChain-le a.end hi later c.2)

IsChain-raise :
    (lo hi hi' : ℕ) (later : List Area) → IsChain lo hi later → hi ≤ hi' → IsChain lo hi' later
IsChain-raise lo hi hi' [] c h = omega arith
IsChain-raise lo hi hi' (a ∷ later) c h = (c.0, c.1, IsChain-raise a.end hi hi' later c.2 h)

-- The pages of `front`, and behind them those of `f`.
abbrev behind : List Area → (ℕ → Option Page) → ℕ → Option Page
behind front f vfn = elim (translate front vfn) [ none ↦ f vfn | some p ↦ some p ]

module _ (l : Layout) {W : Type 0} (mem : Memory W)
    (allocates : (w : W) → (mem.area_alloc w).0 ≢ none) where
  -- `new` is what has been copied so far, from below `mid`; `later` lies above.
  clone_loop_lem :
      (mid : ℕ) (new : VmMap) (later : List Area) (w : W)
      → IsChain (low_pn l) mid new.areas
      → IsChain mid (high_pn l) later
      → (new' : VmMap) × (w' : W) × (clone_loop l mem new later w ≡ done (some new', w'))
        × IsValid l new'
        × (new'.proc ≡ new.proc)
        × ((vfn : ℕ) → translate new'.areas vfn ≡ behind new.areas (translate later) vfn)
  unfolding clone_loop translate
  clone_loop_lem mid new [] w c d = (
    new,
    w,
    refl,
    IsChain-raise (low_pn l) mid (high_pn l) new.areas c d,
    refl,
    λ vfn. ground arith,
  )
  clone_loop_lem mid new (a ∷ later) w c d = elim (Option-cases (mem.area_alloc w).0) [
    | inl e ↦ absurd (allocates w e)
    | inr (q, e) ↦
        let copy : Area = record a { addr = q; vmmap = some new.addr } in
        let grown : VmMap = record new { areas = insert_loop copy new.areas } in
        let free : IsFree new.areas copy.start copy.end =
          λ vfn f s. translate-above (low_pn l) mid new.areas vfn c (omega arith) in
        let lo : low_pn l ≤ a.start = omega (arith, IsChain-le (low_pn l) mid new.areas c) in
        let hi : a.end ≤ high_pn l = IsChain-le a.end (high_pn l) later d.2 in
        let raised = IsChain-raise (low_pn l) mid a.end new.areas c (omega arith) in
        let c' =
          insert_loop-IsChain copy (low_pn l) a.end new.areas raised lo d.1 (omega arith) free in
        let w1 = mem.olink_init q (mem.ref a.obj (mem.area_alloc w).1) in
        let (new', w', r, v, p, t) = clone_loop_lem a.end grown later w1 c' d.2 in
        let shut = vmmap_insert-done l new (record a { addr = q; vmmap = none }) refl d.1 lo hi in
        (
          new',
          w',
          rw (e, clone_loop) (rw shut r),
          v,
          p,
          λ vfn.
              t vfn
              ∙ ground
                  (arith, insert_loop-translate copy (low_pn l) mid new.areas vfn c free, free vfn),
        )
  ]

  -- While maps and areas can be allocated, `vmmap_clone` of a well-formed map returns a
  -- well-formed map that belongs to no process and shows at every page what the original shows.
  pub vmmap_clone_lem :
      (m : VmMap) (w : W)
      → IsLayout l
      → IsValid l m
      → (mem.map_alloc w).0 ≢ none
      → (new : VmMap) × (w' : W) × (vmmap_clone l mem m w ≡ done (some new, w'))
        × IsValid l new
        × (new.proc ≡ none)
        × ((vfn : ℕ) → translate new.areas vfn ≡ translate m.areas vfn)
  unfolding vmmap_clone vmmap_create translate
  vmmap_clone_lem m w ok v has_map = elim (Option-cases (mem.map_alloc w).0) [
    | inl e ↦ absurd (has_map e)
    | inr (q, e) ↦
        let fresh : VmMap = record { addr = q; proc = none; areas = [] } in
        let (new, w', r, v', p, t) =
          clone_loop_lem (low_pn l) fresh m.areas (mem.map_alloc w).1 (omega arith) v in
        (new, w', rw (e, vmmap_create) r, v', p, t)
  ]
