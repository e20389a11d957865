-- ===== src/Vm/Insert.antt =====
-- What `vmmap_insert` does to an address space.
use cs402_os.Base.{ℕ, ◌≤◌, ◌<◌, ◌≡◌, refl, none, some, List, [], ◌∷◌, arith, if◌then◌else◌, done}
use cs402_os.Vm.Area.{Layout, low_pn, high_pn, Area, VmMap}
use cs402_os.Vm.VmMap.{insert_loop, vmmap_insert}
use cs402_os.Vm.Space.{
  IsChain, IsValid, page_of, covers, translate, translate-below, IsFree, IsChain-le,
}

module _ (new : Area) where
  pub insert_loop-IsChain :
      (lo hi : ℕ) (later : List Area)
      → IsChain lo hi later
      → lo ≤ new.start
      → new.start < new.end
      → new.end ≤ hi
      → IsFree later new.start new.end
      → IsChain lo hi (insert_loop new later)
  unfolding insert_loop translate
  insert_loop-IsChain lo hi [] c h n e free = ground arith
  insert_loop-IsChain lo hi (a ∷ later) c h n e free = ground (
    arith,
    free new.start,
    free a.start,
    IsChain-le a.end hi later c.2,
    insert_loop-IsChain a.end hi later c.2,
    λ (vfn : ℕ). translate-below a.end hi later vfn c.2,
  )

  pub insert_loop-translate :
      (lo hi : ℕ) (later : List Area) (vfn : ℕ)
      → IsChain lo hi later
      → IsFree later new.start new.end
      → translate (insert_loop new later) vfn
        ≡ (if covers vfn new then some (page_of vfn new) else translate later vfn)
  unfolding insert_loop translate
  insert_loop-translate lo hi [] vfn c free = refl
  insert_loop-translate lo hi (a ∷ later) vfn c free =
      ground (arith, free vfn, insert_loop-translate a.end hi later vfn c.2)

-- `vmmap_insert` of an area over free pages keeps a map well formed, puts the new area's pages
-- into its address space, and changes no other page.
pub vmmap_insert_lem :
    (l : Layout) (m : VmMap) (new : Area) {m' : VmMap}
    → IsValid l m
    → IsFree m.areas new.start new.end
    → vmmap_insert l m new ≡ done m'
    → IsValid l m'
      × ((vfn : ℕ)
          → translate m'.areas vfn
            ≡ (if covers vfn new then some (page_of vfn new) else translate m.areas vfn))
unfolding vmmap_insert
vmmap_insert_lem l m new v free h =
    let new' : Area = record new { vmmap = some m.addr } in
    (
      ground (arith, insert_loop-IsChain new' (low_pn l) (high_pn l) m.areas v),
      λ vfn. ground (arith, insert_loop-translate new' (low_pn l) (high_pn l) m.areas vfn v free),
    )

-- It goes through just where its assertions hold.
pub vmmap_insert-done :
    (l : Layout) (m : VmMap) (new : Area)
    → new.vmmap ≡ none
    → new.start < new.end
    → low_pn l ≤ new.start
    → new.end ≤ high_pn l
    → vmmap_insert l m new
      ≡ done (record m { areas = insert_loop (record new { vmmap = some m.addr }) m.areas })
unfolding vmmap_insert
vmmap_insert-done l m new e h lo hi = ground arith
