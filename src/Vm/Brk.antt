-- ===== src/Vm/Brk.antt =====
-- `do_brk` of kernel/proc/vm/brk.c: the end of the heap of a process.
use cs402_os.Base.{
  ℕ, ◌+◌, ◌-◌, ◌%◌, ◌≤◌, ◌<◌, ◌≡◌, refl, false, ◌&&◌, ◌||◌, none, some, List, [], ◌∷◌, ltb, leb,
  ◌⊎◌, ◌==◌, if◌then◌else◌, add_u32, sub_u32, arith, Bool-cases, inl, inr, Exec, done, panic, ◌>>=◌,
  ◌∙◌, leb→le,
}
use cs402_os.Vm.Area.{Layout, addr_to_pn, low_pn, high_pn, IsLayout, Area, VmMap}
use cs402_os.Vm.VmMap.{lookup_loop, vmmap_lookup, range_empty, vmmap_is_range_empty}
use cs402_os.Vm.Space.{
  IsChain, IsValid, page_of, covers, translate, translate-below, IsFree, IsChain-le,
}
use cs402_os.Vm.Empty.{range_empty-IsFree, range_empty-true, vmmap_is_range_empty-done}

-- The fields of `proc_t` that `do_brk` uses.
pub record Heap : Type 0 where
  pub p_brk : ℕ
  pub p_start_brk : ℕ
  pub p_vmmap : VmMap

-- 0 and what `*ret` is set to, or -ENOMEM.
pub data BrkResult : Type 0 where
  brk_is : ℕ → BrkResult
  enomem : BrkResult

-- `vmarea->vma_end = stop`, for the area that the lookup of `vfn` has found.
unfoldable pub set_end : ℕ → ℕ → List Area → List Area
set_end vfn stop [] = []
set_end vfn stop (a ∷ later) =
    if covers vfn a then record a { end = stop } ∷ later else a ∷ set_end vfn stop later

module _ (l : Layout) where
  -- The page at which the heap area is looked up, `PAGE_ALIGN_DOWN(p_start_brk)`.
  abbrev pub heap_page : Heap → ℕ
  heap_page p = addr_to_pn l (p.p_start_brk - p.p_start_brk % l.page_size)

  -- The last page of a heap that ends at `addr`, which is not NULL.
  abbrev pub last_page : ℕ → ℕ
  last_page addr = addr_to_pn l (addr - 1)

  unfoldable pub move_brk : ℕ → Heap → BrkResult × Heap
  move_brk addr p =
      let m = p.p_vmmap in
      let moved = record m { areas = set_end (heap_page p) (last_page addr + 1) m.areas } in
      (brk_is addr, record p { p_brk = addr; p_vmmap = moved })

  unfoldable pub do_brk : ℕ → Heap → Exec (BrkResult × Heap)
  do_brk addr p =
      if addr == 0
      then done (brk_is p.p_brk, p)
      else if ltb addr p.p_start_brk || ltb l.user_mem_high addr
      then done (enomem, p)
      else elim (vmmap_lookup p.p_vmmap (heap_page p)) [
        | none ↦ panic
        | some a ↦
            let last = last_page addr in
            let grow = vmmap_is_range_empty l p.p_vmmap a.end (add_u32 (sub_u32 last a.end) 1) in
            if leb a.end last
            then (grow >>= λ free. if free then done (move_brk addr p) else done (enomem, p))
            else done (move_brk addr p)
      ]

-- Where the pages up to `stop` are free, a chain begins at `stop` at the earliest.
IsChain-from :
    (lo stop hi : ℕ) (later : List Area)
    → IsChain lo hi later
    → stop ≤ hi
    → IsFree later lo stop
    → IsChain stop hi later
unfolding translate
IsChain-from lo stop hi [] c t free = t
IsChain-from lo stop hi (a ∷ later) c t free = ground (arith, free a.start)

-- What a lookup finds starts in the chain, and covers the page.
lookup_start :
    (vfn lo hi : ℕ) (a : Area) (later : List Area)
    → IsChain lo hi later
    → lookup_loop vfn later ≡ some a
    → (lo ≤ a.start) × (a.start ≤ vfn) × (vfn < a.end) × (a.end ≤ hi)
unfolding lookup_loop
lookup_start vfn lo hi a [] c e = cc
lookup_start vfn lo hi a (b ∷ later) c e =
    ground (arith, lookup_start vfn b.end hi a later c.2, IsChain-le b.end hi later c.2)

module _ (stop hi : ℕ) (a : Area) (small : a.start < stop) (top : stop ≤ hi) where
  set_end-IsChain :
      (vfn lo : ℕ) (later : List Area)
      → IsChain lo hi later
      → lookup_loop vfn later ≡ some a
      → IsFree later a.end stop
      → IsChain lo hi (set_end vfn stop later)
  unfolding set_end lookup_loop translate
  set_end-IsChain vfn lo [] c e free = c
  set_end-IsChain vfn lo (b ∷ later) c e free = elim (Bool-cases (covers vfn b)) [
    | inl at ↦
        let above : IsChain stop hi later =
          IsChain-from b.end stop hi later c.2 top (λ v f s. ground (arith, free v)) in
        rw at (ground arith)
    | inr past ↦
        let e' : lookup_loop vfn later ≡ some a = ground arith in
        let free' : IsFree later a.end stop = λ v f s. ground (arith, free v) in
        rw past (c.0, c.1, set_end-IsChain vfn b.end later c.2 e' free')
  ]

  -- The area that was looked up shows its pages up to `stop`, and no others.
  pub set_end-translate :
      (vfn lo v : ℕ) (later : List Area)
      → IsChain lo hi later
      → lookup_loop vfn later ≡ some a
      → (a.end ≤ v → v < stop → translate later v ≡ none)
      → translate (set_end vfn stop later) v ≡ (
          if leb a.start v && ltb v stop
          then some (page_of v a)
          else if covers v a
          then none
          else translate later v)
  unfolding set_end lookup_loop translate
  set_end-translate vfn lo v [] c e free = cc
  set_end-translate vfn lo v (b ∷ later) c e free = elim (Bool-cases (covers vfn b)) [
    | inl at ↦ rw at (ground (arith, translate-below b.end hi later v c.2))
    | inr past ↦
        let e' : lookup_loop vfn later ≡ some a = ground arith in
        let ih = set_end-translate vfn b.end v later c.2 e' (λ f s. ground (arith, free f s)) in
        rw past (ground (arith, ih, lookup_start vfn b.end hi a later c.2 e'))
  ]

module _ (l : Layout) (p : Heap) (a : Area) (addr : ℕ) (ok : IsLayout l)
    (whole : l.user_mem_high % l.page_size ≡ 0) (v : IsValid l p.p_vmmap)
    (heap : vmmap_lookup p.p_vmmap (heap_page l p) ≡ some a) (given : 0 < addr)
    (from : p.p_start_brk ≤ addr) (to : addr ≤ l.user_mem_high) where
  last_page-lt-high : last_page l addr < high_pn l
  last_page-lt-high = grind (arith, ok.page)

  lookup_bounds : (low_pn l ≤ a.start) × (a.start < a.end) × (a.end ≤ high_pn l)
  unfolding vmmap_lookup
  lookup_bounds =
      let b = lookup_start (heap_page l p) (low_pn l) (high_pn l) a p.p_vmmap.areas v heap in
      omega (arith, b)

  -- The test for free pages, in the branch that grows the heap.
  grow_range :
      a.end ≤ last_page l addr
      → vmmap_is_range_empty l p.p_vmmap a.end (add_u32 (sub_u32 (last_page l addr) a.end) 1)
        ≡ done (range_empty a.end (last_page l addr + 1) p.p_vmmap.areas)
  grow_range up =
      let last = last_page l addr in
      let n : add_u32 (sub_u32 last a.end) 1 ≡ last - a.end + 1 =
        omega (arith, ok.small, last_page-lt-high) in
      let e : a.end + (last - a.end + 1) ≡ last + 1 = omega arith in
      let lo : low_pn l ≤ a.end = omega (arith, lookup_bounds) in
      rw n (
        vmmap_is_range_empty-done l p.p_vmmap a.end (last - a.end + 1) ok (omega arith) lo
          (omega (arith, last_page-lt-high))
        ∙ rw e)

  abbrev stop : ℕ
  stop = last_page l addr + 1

  -- The heap is moved, where its pages beyond the old end are free.
  moved_lem :
      a.start ≤ last_page l addr
      → IsFree p.p_vmmap.areas a.end stop
      → IsValid l (move_brk l addr p).1.p_vmmap
        × ((vfn : ℕ)
            → translate (move_brk l addr p).1.p_vmmap.areas vfn ≡ (
                if leb a.start vfn && ltb vfn stop
                then some (page_of vfn a)
                else if covers vfn a
                then none
                else translate p.p_vmmap.areas vfn))
  unfolding move_brk vmmap_lookup
  moved_lem low free =
      let below : a.start < stop = omega arith in
      let top : stop ≤ high_pn l = omega (arith, last_page-lt-high) in
      (
        set_end-IsChain stop (high_pn l) a below top (heap_page l p) (low_pn l) p.p_vmmap.areas v
            heap free,
        λ vfn.
            set_end-translate stop (high_pn l) a below top (heap_page l p) (low_pn l) vfn
              p.p_vmmap.areas v heap (λ f s. free vfn f s),
      )

  -- On a well-formed map, for a process whose heap area `a` starts below the new break, and a
  -- break in user memory at or above the initial one: `do_brk` fails with -ENOMEM and changes
  -- nothing if the heap would grow over a mapped page. Otherwise it sets the break and keeps the
  -- map well formed; the heap area then shows its pages up to that of the last byte below the
  -- break and no others, and every page outside shows what it showed before.
  pub do_brk_lem :
      a.start ≤ last_page l addr
      → ((do_brk l addr p ≡ done (enomem, p)) × ¬ IsFree p.p_vmmap.areas a.end stop)
        ⊎ ((p' : Heap) × (do_brk l addr p ≡ done (brk_is addr, p'))
            × IsFree p.p_vmmap.areas a.end stop
            × (p'.p_brk ≡ addr)
            × IsValid l p'.p_vmmap
            × ((vfn : ℕ)
                → translate p'.p_vmmap.areas vfn ≡ (
                    if leb a.start vfn && ltb vfn stop
                    then some (page_of vfn a)
                    else if covers vfn a
                    then none
                    else translate p.p_vmmap.areas vfn)))
  unfolding do_brk move_brk
  do_brk_lem low =
      let set : (addr == 0) ≡ false = ground arith in
      let inside : (ltb addr p.p_start_brk || ltb l.user_mem_high addr) ≡ false = ground arith in
      rw (set, inside, heap)
        (elim (Bool-cases (leb a.end (last_page l addr))) [
          | inl up ↦
              rw (up, grow_range (leb→le _ _ up))
                (elim (Bool-cases (range_empty a.end stop p.p_vmmap.areas)) [
                  | inl free ↦
                      let free' =
                        range_empty-IsFree a.end stop (low_pn l) (high_pn l) p.p_vmmap.areas v
                          free in
                      let (v', t) = moved_lem low free' in
                      rw free (inr ((move_brk l addr p).1, refl, free', refl, v', t))
                  | inr busy ↦ rw busy (
                      inl (
                        refl,
                        λ free. cc (
                            range_empty-true a.end stop (low_pn l) (high_pn l) p.p_vmmap.areas v
                              (ground arith) free),
                      ))
                ])
          | inr down ↦
              let free : IsFree p.p_vmmap.areas a.end stop = λ vfn f s. absurd (ground arith) in
              let (v', t) = moved_lem low free in
              rw down (inr ((move_brk l addr p).1, refl, free, refl, v', t))
        ])
