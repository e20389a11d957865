-- ===== src/Vm/FindRange.antt =====
-- `vmmap_find_range`: what it finds, and when it does not find what there is.
use mathlib.Core.List.{reverse, reverse_aux, reverse-append}
use cs402_os.Base.{
  ℕ, ◌+◌, ◌≤◌, ◌<◌, ◌≡◌, refl, Bool, true, false, none, List, [], ◌∷◌, ◌++◌, arith, done, add_u32,
  sub_u32, pos, panic,
}
use cs402_os.Vm.Area.{Layout, low_pn, high_pn, IsLayout, Area, VmMap}
use cs402_os.Vm.VmMap.{
  range_empty, vmmap_is_range_empty, find_loop, vmmap_find_range, Dir, lohi, hilo,
}
use cs402_os.Vm.Space.{IsChain, IsValid, translate, IsFree}
use cs402_os.Vm.Empty.{range_empty-IsFree}

-- The first area of a list ends at `top`.
abbrev HeadEnd : ℕ → List Area → Type 0
HeadEnd top [] = Unit
HeadEnd top (a ∷ later) = a.end ≡ top

module _ (l : Layout) (m : VmMap) (npages : ℕ) (ok : IsLayout l) (v : IsValid l m)
    (pos_pages : 0 < npages) (few : npages ≤ high_pn l) where
  -- A range of `npages` free pages of user memory, read at the page `vfn`.
  abbrev FreeRange : ℕ → ℕ → Type 0
  FreeRange vfn p =
      (low_pn l ≤ p)
      × (p + npages ≤ high_pn l)
      × (p ≤ vfn → vfn < p + npages → translate m.areas vfn ≡ none)

  find_loop-FreeRange :
      (top p vfn : ℕ) (last : Bool) (later : List Area)
      → low_pn l ≤ top
      → top ≤ high_pn l
      → (top ≤ vfn → translate m.areas vfn ≡ none)
      → (last ≡ true → HeadEnd top later)
      → find_loop l m npages last later ≡ done (pos p)
      → FreeRange vfn p
  unfolding find_loop vmmap_is_range_empty
  find_loop-FreeRange top p vfn last [] lo hi free head h = cc
  find_loop-FreeRange top p vfn last (a ∷ later) lo hi free head h =
      let below = sub_u32 a.start npages in
      let stop = add_u32 below npages in
      ground (
        arith,
        ok.small,
        head,
        λ (e : range_empty below stop m.areas ≡ true).
            range_empty-IsFree below stop (low_pn l) (high_pn l) m.areas v e vfn,
        find_loop-FreeRange top p vfn false later lo hi free (λ e. cc),
      )

-- The end of the last area of a chain from `lo` on.
chain_end : ℕ → List Area → ℕ
chain_end lo [] = lo
chain_end lo (a ∷ later) = chain_end a.end later

HeadEnd-reverse :
    (a : Area) (later acc : List Area)
    → HeadEnd (chain_end a.end later) (reverse_aux later (a ∷ acc))
unfolding chain_end
HeadEnd-reverse a [] acc = refl
HeadEnd-reverse a (b ∷ later) acc = HeadEnd-reverse b later (a ∷ acc)

chain_end_bounds :
    (lo hi : ℕ) (later : List Area)
    → IsChain lo hi later
    → (lo ≤ chain_end lo later) × (chain_end lo later ≤ hi)
unfolding chain_end
chain_end_bounds lo hi [] c = omega arith
chain_end_bounds lo hi (a ∷ later) c = omega (arith, chain_end_bounds a.end hi later c.2)

chain_end-free :
    (lo hi vfn : ℕ) (later : List Area)
    → IsChain lo hi later
    → chain_end lo later ≤ vfn
    → translate later vfn ≡ none
unfolding chain_end translate
chain_end-free lo hi vfn [] c h = refl
chain_end-free lo hi vfn (a ∷ later) c h =
    ground (arith, chain_end-free a.end hi vfn later c.2, chain_end_bounds a.end hi later c.2)

reverse-HeadEnd : (lo : ℕ) (later : List Area) → HeadEnd (chain_end lo later) (reverse later)
unfolding chain_end
reverse-HeadEnd lo [] = tt
reverse-HeadEnd lo (a ∷ later) = HeadEnd-reverse a later []

-- On a well-formed map, for a request of at least one page and at most the size of the page
-- numbers of user memory: a range that `vmmap_find_range` returns lies in user memory, and none
-- of its pages is mapped.
pub vmmap_find_range-IsFree :
    (l : Layout) (m : VmMap) (npages p : ℕ) (dir : Dir)
    → IsLayout l
    → IsValid l m
    → 0 < npages
    → npages ≤ high_pn l
    → vmmap_find_range l m npages dir ≡ done (pos p)
    → (low_pn l ≤ p) × (p + npages ≤ high_pn l) × IsFree m.areas p (p + npages)
unfolding vmmap_find_range
vmmap_find_range-IsFree l m npages p lohi ok v n few h = cc
vmmap_find_range-IsFree l m npages p hilo ok v n few h = ((at 0).0, (at 0).1, λ vfn. (at vfn).2)
  where
    top : ℕ
    top = chain_end (low_pn l) m.areas

    at : (vfn : ℕ) → FreeRange l m npages ok v n few vfn p
    at vfn =
        let b = chain_end_bounds (low_pn l) (high_pn l) m.areas v in
        find_loop-FreeRange l m npages ok v n few top p vfn true (reverse m.areas) b.0 b.1
          (chain_end-free (low_pn l) (high_pn l) vfn m.areas v)
          (λ e. reverse-HeadEnd (low_pn l) m.areas) h

-- Where the topmost area starts below page number `npages` and leaves less than `npages` pages
-- above it, `vma_start - npages` wraps round, and the search ends in a failed assertion of
-- `vmmap_is_range_empty`, whatever lies between the other areas.
pub vmmap_find_range-panic :
    (l : Layout) (m : VmMap) (front : List Area) (a : Area) (npages : ℕ)
    → IsLayout l
    → m.areas ≡ front ++ a ∷ []
    → a.start < npages
    → npages ≤ high_pn l
    → a.end ≤ high_pn l
    → high_pn l < a.end + npages
    → vmmap_find_range l m npages hilo ≡ panic
unfolding vmmap_find_range find_loop vmmap_is_range_empty
vmmap_find_range-panic l m front a npages ok e low few top room =
    rw (e, reverse-append) (ground (arith, ok.small, ok.order))
