-- ===== src/Vm/Remove.antt =====
-- What `vmmap_remove` does to an address space.
use cs402_os.Base.{
  ℕ, ◌+◌, ◌≤◌, ◌<◌, ◌^◌, ◌≡◌, ◌≢◌, refl, Bool, true, ◌&&◌, Option, none, List, [], ◌∷◌, arith, ltb,
  leb, if◌then◌else◌, done, add_u32, Bool-cases, inl, inr,
}
use cs402_os.Vm.Area.{Layout, low_pn, high_pn, IsLayout, Area, VmMap, Memory}
use cs402_os.Vm.VmMap.{
  range_empty, range_loop, remove_loop, remove_area, split_area, Overlap, apart, inside, upper,
  lower, whole, overlap,
}
use cs402_os.Vm.Mapping.{vmmap_remove}
use cs402_os.Vm.Empty.{range_empty-IsFree, vmmap_is_range_empty-done}
use cs402_os.Vm.Space.{IsChain, IsValid, translate, translate-below, IsChain-mono}

-- An address space without the pages from `first` up to `stop`.
abbrev pub without {ℓ} : {A : Type ℓ} → ℕ → ℕ → (ℕ → Option A) → ℕ → Option A
without first stop f vfn = if leb first vfn && ltb vfn stop then none else f vfn

module _ {W : Type 0} (mem : Memory W) (lopage npages : ℕ) (pos_pages : 0 < npages)
    (allocates : (w : W) → (mem.area_alloc w).0 ≢ none) where
  -- The claim of `remove_loop-translate`, for one list and state.
  abbrev Removes : List Area → W → ℕ → Type 0
  Removes later w vfn =
      translate (remove_loop mem lopage npages later w).0 vfn
      ≡ without lopage (lopage + npages) (translate later) vfn

  remove_step :
      (lo hi : ℕ) (a : Area) (later : List Area) (w : W) (vfn : ℕ) (k : Overlap)
      → overlap lopage (add_u32 lopage npages) a ≡ k
      → IsChain lo hi (a ∷ later)
      → hi < 2 ^ 31
      → lopage + npages ≤ hi
      → Removes later w vfn
      → Removes later (remove_area mem a w) vfn
      → Removes (a ∷ later) w vfn
  unfolding remove_loop translate
  remove_step lo hi a later w vfn apart e c small top ih gone =
      rw (e, remove_loop) (unfold overlap in ground arith)
  remove_step lo hi a later w vfn inside e c small top ih gone =
      rw (e, remove_loop)
        (unfold overlap split_area in
          ground (arith, allocates w, translate-below a.end hi later vfn c.2))
  remove_step lo hi a later w vfn k e c small top ih gone =
      rw (e, remove_loop) (unfold overlap in ground (arith, translate-below a.end hi later vfn c.2))

  remove_loop-translate :
      (lo hi : ℕ) (later : List Area) (w : W) (vfn : ℕ)
      → IsChain lo hi later
      → hi < 2 ^ 31
      → lopage + npages ≤ hi
      → Removes later w vfn
  unfolding remove_loop translate
  remove_loop-translate lo hi [] w vfn c small top = ground arith
  remove_loop-translate lo hi (a ∷ later) w vfn c small top =
      remove_step lo hi a later w vfn (overlap lopage (add_u32 lopage npages) a) refl c small top
        (remove_loop-translate a.end hi later w vfn c.2 small top)
        (remove_loop-translate a.end hi later (remove_area mem a w) vfn c.2 small top)

module _ {W : Type 0} (mem : Memory W) (lopage npages : ℕ) (pos_pages : 0 < npages) where
  IsChain-step :
      (lo hi : ℕ) (a : Area) (later : List Area) (w : W) (k : Overlap)
      → overlap lopage (add_u32 lopage npages) a ≡ k
      → IsChain lo hi (a ∷ later)
      → hi < 2 ^ 31
      → lopage + npages ≤ hi
      → IsChain a.end hi (remove_loop mem lopage npages later w).0
      → IsChain a.end hi (remove_loop mem lopage npages later (remove_area mem a w)).0
      → IsChain lo hi (remove_loop mem lopage npages (a ∷ later) w).0
  unfolding remove_loop
  IsChain-step lo hi a later w apart e c small top ih gone =
      rw (e, remove_loop) (unfold overlap in ground arith)
  IsChain-step lo hi a later w inside e c small top ih gone =
      rw (e, remove_loop) (unfold overlap split_area in ground arith)
  IsChain-step lo hi a later w upper e c small top ih gone =
      rw (e, remove_loop)
        (unfold overlap in (c.0, ground arith, IsChain-mono a.end lopage hi _ ih (ground arith)))
  IsChain-step lo hi a later w lower e c small top ih gone =
      rw (e, remove_loop) (unfold overlap in ground arith)
  IsChain-step lo hi a later w whole e c small top ih gone =
      rw (e, remove_loop) (IsChain-mono a.end lo hi _ gone (omega arith))

  remove_loop-IsChain :
      (lo hi : ℕ) (later : List Area) (w : W)
      → IsChain lo hi later
      → hi < 2 ^ 31
      → lopage + npages ≤ hi
      → IsChain lo hi (remove_loop mem lopage npages later w).0
  unfolding remove_loop
  remove_loop-IsChain lo hi [] w c small top = c
  remove_loop-IsChain lo hi (a ∷ later) w c small top =
      IsChain-step lo hi a later w (overlap lopage (add_u32 lopage npages) a) refl c small top
        (remove_loop-IsChain a.end hi later w c.2 small top)
        (remove_loop-IsChain a.end hi later (remove_area mem a w) c.2 small top)

-- For a range of at least one page in user memory, and while areas can be allocated,
-- `vmmap_remove` goes through on a well-formed map: the map stays well formed, no page of the
-- range is mapped any more, and every other page shows what it showed before.
pub vmmap_remove_lem :
    (l : Layout) {W : Type 0} (mem : Memory W) (m : VmMap) (lopage npages : ℕ) (w : W)
    → IsLayout l
    → IsValid l m
    → ((w : W) → (mem.area_alloc w).0 ≢ none)
    → 0 < npages
    → low_pn l ≤ lopage
    → lopage + npages ≤ high_pn l
    → (m' : VmMap) × (w' : W) × (vmmap_remove l mem m lopage npages w ≡ done (m', w'))
      × IsValid l m'
      × ((vfn : ℕ)
          → translate m'.areas vfn ≡ without lopage (lopage + npages) (translate m.areas) vfn)
unfolding vmmap_remove
vmmap_remove_lem l {W} mem m lopage npages w ok v allocates n lo hi =
    rw (vmmap_is_range_empty-done l m lopage npages ok n lo hi) (elim (Bool-cases empty) [
      | inl yes' ↦ (m, w, rw yes', v, λ vfn. free yes' vfn)
      | inr no' ↦ (
        record m { areas = r.0 },
        r.1,
        rw no',
        remove_loop-IsChain mem lopage npages n (low_pn l) (high_pn l) m.areas w v ok.small hi,
        λ vfn.
            remove_loop-translate mem lopage npages n allocates (low_pn l) (high_pn l) m.areas w vfn
              v ok.small hi,
      )
    ])
  where
    empty : Bool
    empty = range_empty lopage (lopage + npages) m.areas

    r : List Area × W
    r = remove_loop mem lopage npages m.areas w

    free :
        empty ≡ true
        → (vfn : ℕ)
        → translate m.areas vfn ≡ without lopage (lopage + npages) (translate m.areas) vfn
    free e vfn =
        ground (
          arith,
          range_empty-IsFree lopage (lopage + npages) (low_pn l) (high_pn l) m.areas v e vfn,
        )

-- Where the range to unmap lies inside the first area that it meets and no second area can be
-- allocated, `vmmap_remove` returns as if it had succeeded, and unmaps nothing.
pub vmmap_remove-no_memory :
    (l : Layout) {W : Type 0} (mem : Memory W) (m : VmMap) (a : Area) (later : List Area)
    (lopage npages : ℕ) (w : W)
    → IsLayout l
    → m.areas ≡ a ∷ later
    → (mem.area_alloc w).0 ≡ none
    → 0 < npages
    → low_pn l ≤ lopage
    → lopage + npages ≤ high_pn l
    → a.start < lopage
    → lopage + npages < a.end
    → vmmap_remove l mem m lopage npages w ≡ done (m, (mem.area_alloc w).1)
unfolding vmmap_remove
vmmap_remove-no_memory l mem m a later lopage npages w ok e fails n lo hi s t =
    rw (vmmap_is_range_empty-done l m lopage npages ok n lo hi) (
      rw e
        (unfold range_empty range_loop remove_loop overlap split_area in ground (arith, ok.small)))
