-- ===== src/Vm/VmMap.antt =====
-- The operations of kernel/proc/vm/vmmap.c on the list of areas. Page numbers are `uint32_t`.
use mathlib.Core.List.{reverse}
use cs402_os.Base.{
  ℕ, Bool, true, false, ◌&&◌, ◌||◌, Option, none, some, List, [], ◌∷◌, ltb, leb, ◌==◌,
  if◌then◌else◌, add_u32, sub_u32, ℤ, negsuc, to_int, Exec, done, ◌>>=◌, ◌>>◌, kassert,
}
use cs402_os.Vm.Area.{Layout, low_pn, high_pn, Area, VmMap, Memory}

-- The scan of `vmmap_insert`: the new area goes before the first that starts above it.
unfoldable pub insert_loop : Area → List Area → List Area
insert_loop new [] = new ∷ []
insert_loop new (a ∷ later) =
    if ltb new.start a.start then new ∷ a ∷ later else a ∷ insert_loop new later

-- The scan of `vmmap_is_range_empty`, with its variable `range`.
unfoldable pub range_loop : ℕ → ℕ → Bool → List Area → Bool
range_loop first stop range [] = range
range_loop first stop range (a ∷ later) =
    if leb stop a.start || leb a.end first then range_loop first stop true later else false

-- The answer of `vmmap_is_range_empty` once its assertion has held.
unfoldable pub range_empty : ℕ → ℕ → List Area → Bool
unfolding range_loop
range_empty first stop [] = true
range_empty first stop (a ∷ later) = range_loop first stop false (a ∷ later)

unfoldable pub lookup_loop : ℕ → List Area → Option Area
lookup_loop vfn [] = none
lookup_loop vfn (a ∷ later) =
    if leb a.start vfn && ltb vfn a.end then some a else lookup_loop vfn later

unfoldable pub vmmap_lookup : VmMap → ℕ → Option Area
vmmap_lookup m vfn = lookup_loop vfn m.areas

pub data Dir : Type 0 where
  lohi hilo : Dir

-- How the region that `vmmap_remove` unmaps lies to an area: outside it (the code's case 5),
-- inside it (case 1), over its upper end (case 2), over its lower end (case 3), or all over it
-- (case 4).
pub data Overlap : Type 0 where
  apart inside upper lower whole : Overlap

-- The tests of the loop, in their order. What passes none of them is skipped, as in case 5.
unfoldable pub overlap : ℕ → ℕ → Area → Overlap
overlap lopage stop a =
    if leb stop a.start || leb a.end lopage
    then apart
    else if ltb a.start lopage && ltb stop a.end
    then inside
    else if ltb a.start lopage && leb a.end stop
    then upper
    else if leb lopage a.start && ltb stop a.end
    then lower
    else if leb lopage a.start && leb a.end stop
    then whole
    else apart

module _ (l : Layout) where
  unfoldable pub vmmap_insert : VmMap → Area → Exec VmMap
  vmmap_insert m new = do
    kassert (elim (new.vmmap) [ none ↦ true | some _ ↦ false ])
    kassert (ltb new.start new.end)
    kassert (leb (low_pn l) new.start && leb new.end (high_pn l))
    done (record m { areas = insert_loop (record new { vmmap = some m.addr }) m.areas })

  unfoldable pub vmmap_is_range_empty : VmMap → ℕ → ℕ → Exec Bool
  vmmap_is_range_empty m first npages = do
    let stop = add_u32 first npages
    kassert (ltb first stop && (leb (low_pn l) first && leb stop (high_pn l)))
    done (range_empty first stop m.areas)

  -- The loop of `vmmap_find_range`, from the last area down; `last` holds at that one.
  unfoldable pub find_loop : VmMap → ℕ → Bool → List Area → Exec ℤ
  find_loop m npages last [] = done (negsuc 0)
  find_loop m npages last (a ∷ later) =
      let rest = find_loop m npages false later in
      let below = sub_u32 a.start npages in
      if last && leb (add_u32 a.end npages) (high_pn l)
      then done (to_int (sub_u32 (high_pn l) npages))
      else if leb (low_pn l) below
      then (vmmap_is_range_empty m below npages >>= λ e. if e then done (to_int below) else rest)
      else rest

  unfoldable pub vmmap_find_range : VmMap → ℕ → Dir → Exec ℤ
  vmmap_find_range m npages lohi = done (negsuc 0)
  vmmap_find_range m npages hilo = find_loop m npages true (reverse m.areas)

module _ {W : Type 0} (mem : Memory W) where
  -- `vmarea_alloc` and `vmmap_create`.
  unfoldable pub vmmap_create : W → Option VmMap × W
  vmmap_create w =
      let (p, w) = mem.map_alloc w in
      elim p [
        | none ↦ (none, w)
        | some q ↦ (some (record { addr = q; proc = none; areas = [] }), w)
      ]

  -- What `vmmap_destroy` and the fourth case of `vmmap_remove` do with an area that goes: the
  -- first unlinks it before it puts the object, the second after.
  unfoldable pub destroy_area : Area → W → W
  destroy_area a w =
      let w = if mem.olink_is_linked a.addr w then mem.olink_remove a.addr w else w in
      mem.area_free a.addr (mem.put a.obj w)

  unfoldable pub remove_area : Area → W → W
  remove_area a w =
      let w = mem.put a.obj w in
      let w = if mem.olink_is_linked a.addr w then mem.olink_remove a.addr w else w in
      mem.area_free a.addr w

  destroy_loop : List Area → W → W
  destroy_loop [] w = w
  destroy_loop (a ∷ later) w = destroy_loop later (destroy_area a w)

  unfoldable pub vmmap_destroy : VmMap → W → W
  unfolding destroy_loop
  vmmap_destroy m w = elim (m.areas) [
    | [] ↦ w
    | a ∷ later ↦ mem.map_free m.addr (destroy_loop (a ∷ later) w)
  ]

  -- Case 1 of `vmmap_remove`: the region lies inside the area, which is split in two. The loop
  -- ends here, also where no second area can be had.
  unfoldable pub split_area : ℕ → ℕ → Area → List Area → W → List Area × W
  split_area lopage npages a later w =
      let (p, w) = mem.area_alloc w in
      elim p [
        | none ↦ (a ∷ later, w)
        | some q ↦
            let second = record a { addr = q; end = lopage } in
            let w = mem.ref a.obj (mem.olink_init q w) in
            let bottom = mem.bottom_obj a.obj w in
            let w = if bottom == a.obj then w else mem.olink_insert bottom q w in
            let off = add_u32 (add_u32 (sub_u32 lopage a.start) npages) a.off in
            (second ∷ record a { off = off; start = add_u32 lopage npages } ∷ later, w)
      ]

  -- The loop of `vmmap_remove`. Every path returns 0, so only the areas and the state remain.
  unfoldable pub remove_loop : ℕ → ℕ → List Area → W → List Area × W
  remove_loop lopage npages [] w = ([], w)
  remove_loop lopage npages (a ∷ later) w =
      let stop = add_u32 lopage npages in
      let rest = remove_loop lopage npages later w in
      let gone = remove_loop lopage npages later (remove_area a w) in
      elim (overlap lopage stop a) [
        | apart ↦ (a ∷ rest.0, rest.1)
        | inside ↦ split_area lopage npages a later w
        | upper ↦ (record a { end = lopage } ∷ rest.0, rest.1)
        | lower ↦
            (record a { off = sub_u32 (add_u32 a.off stop) a.start; start = stop } ∷ rest.0, rest.1)
        | whole ↦ gone
      ]
