-- ===== src/Vm/Empty.antt =====
-- `vmmap_is_range_empty` answers by the address space.
use cs402_os.Base.{
  ℕ, ◌+◌, ◌≤◌, ◌<◌, ◌≡◌, refl, Bool, true, false, none, List, [], ◌∷◌, arith, done, ◌↔◌, add_u32,
  ap,
}
use cs402_os.Vm.Area.{Layout, low_pn, high_pn, IsLayout, Area, VmMap}
use cs402_os.Vm.VmMap.{range_loop, range_empty, vmmap_is_range_empty}
use cs402_os.Vm.Space.{IsChain, IsValid, translate, IsFree}

range_loop-free :
    (first stop lo hi : ℕ) (range : Bool) (later : List Area) (vfn : ℕ)
    → IsChain lo hi later
    → range_loop first stop range later ≡ true
    → first ≤ vfn
    → vfn < stop
    → translate later vfn ≡ none
unfolding range_loop translate
range_loop-free first stop lo hi range [] vfn c h f s = refl
range_loop-free first stop lo hi range (a ∷ later) vfn c h f s =
    ground (arith, range_loop-free first stop a.end hi true later vfn c.2)

range_loop-true :
    (first stop lo hi : ℕ) (later : List Area)
    → IsChain lo hi later
    → IsFree later first stop
    → first < stop
    → range_loop first stop true later ≡ true
unfolding range_loop translate
range_loop-true first stop lo hi [] c free h = refl
range_loop-true first stop lo hi (a ∷ later) c free h = ground (
  arith,
  free first,
  free a.start,
  range_loop-true first stop a.end hi later c.2 (λ vfn f s. ground (arith, free vfn)),
)

module _ (first stop lo hi : ℕ) where
  pub range_empty-IsFree :
      (later : List Area)
      → IsChain lo hi later
      → range_empty first stop later ≡ true
      → IsFree later first stop
  unfolding range_empty translate
  range_empty-IsFree [] c h vfn f s = refl
  range_empty-IsFree (a ∷ later) c h vfn f s =
      range_loop-free first stop lo hi false (a ∷ later) vfn c h f s

  pub range_empty-true :
      (later : List Area)
      → IsChain lo hi later
      → first < stop
      → IsFree later first stop
      → range_empty first stop later ≡ true
  unfolding range_empty range_loop
  range_empty-true [] c h free = refl
  range_empty-true (a ∷ later) c h free = range_loop-true first stop lo hi (a ∷ later) c free h

module _ (l : Layout) (m : VmMap) (first npages : ℕ) (ok : IsLayout l) (pos : 0 < npages)
    (lo : low_pn l ≤ first) (hi : first + npages ≤ high_pn l) where
  pub vmmap_is_range_empty-done :
      vmmap_is_range_empty l m first npages ≡ done (range_empty first (first + npages) m.areas)
  unfolding vmmap_is_range_empty
  vmmap_is_range_empty-done =
      let e : add_u32 first npages ≡ first + npages = omega (arith, ok.small) in ground (arith, e)

  -- `vmmap_is_range_empty`, on a well-formed map and a range of at least one page in user memory,
  -- answers yes exactly when no page of the range is mapped.
  pub vmmap_is_range_empty_iff :
      IsValid l m
      → (vmmap_is_range_empty l m first npages ≡ done true) ↔ IsFree m.areas first (first + npages)
  vmmap_is_range_empty_iff v = rw vmmap_is_range_empty-done (
    λ e. range_empty-IsFree first (first + npages) (low_pn l) (high_pn l) m.areas v (cc e),
    λ free. ap done (
        range_empty-true first (first + npages) (low_pn l) (high_pn l) m.areas v (omega arith)
          free),
  )
