-- ===== src/Vm/Map.antt =====
-- What `vmmap_map` does to an address space.
use cs402_os.Base.{
  ℕ, ◌+◌, ◌%◌, ◌≤◌, ◌<◌, ◌≡◌, ◌≢◌, refl, true, false, ◌||◌, Option, none, some, arith, ltb, leb,
  ◌==◌, if◌then◌else◌, done, ◌>>=◌, add_u32, Bool-cases, inl, inr, ℤ, pos, negsuc, is_neg,
  Option-cases, ◌∙◌, ◌⊎◌, ap,
}
use cs402_os.Vm.Area.{Layout, addr_to_pn, low_pn, high_pn, IsLayout, Area, VmMap, Memory}
use cs402_os.Vm.VmMap.{insert_loop, Dir, vmmap_find_range, range_empty}
use cs402_os.Vm.Mapping.{
  Flags, has_bit, shadow, base_object, new_object, new_area, find_place, insert_area, map_at,
  vmmap_map,
}
use cs402_os.Vm.Space.{IsValid, Page, page_of, covers, translate, IsFree}
use cs402_os.Vm.Insert.{vmmap_insert-done, insert_loop-IsChain, insert_loop-translate}
use cs402_os.Vm.Empty.{range_empty-IsFree, vmmap_is_range_empty-done}
use cs402_os.Vm.FindRange.{vmmap_find_range-IsFree}
use cs402_os.Vm.Remove.{without, vmmap_remove_lem}

-- An address space in which the pages of one area hide those of another space.
abbrev pub over : Area → (ℕ → Option Page) → ℕ → Option Page
over a f vfn = if covers vfn a then some (page_of vfn a) else f vfn

-- Areas and objects can be made, by the allocators and by the files.
pub record IsSupplied {W : Type 0} (mem : Memory W) : Type 0 where
  pub areas : (w : W) → (mem.area_alloc w).0 ≢ none
  pub anons : (w : W) → (mem.anon_create w).0 ≢ none
  pub shadows : (w : W) → (mem.shadow_create w).0 ≢ none
  pub mmaps :
      (f : ℕ) (a : Area) (w : W) → (o : ℕ) × (w' : W) × (mem.vn_mmap f a w ≡ done (some o, w'))

module _ (l : Layout) {W : Type 0} (mem : Memory W) (supplied : IsSupplied mem) (fl : Flags)
    (file : Option ℕ) (npages prot flags off : ℕ) where
  -- The fields of the area that `vmmap_map` makes, but for its object.
  record IsNew (start : ℕ) (a : Area) : Type 0 where
    pub start_eq : a.start ≡ start
    pub end_eq : a.end ≡ add_u32 start npages
    pub off_eq : a.off ≡ addr_to_pn l off
    pub prot_eq : a.prot ≡ prot
    pub flags_eq : a.flags ≡ flags
    pub vmmap_eq : a.vmmap ≡ none

  base_object_lem :
      (f : Option ℕ) (a : Area) (w : W)
      → (o : ℕ) × (w' : W) × (base_object l mem f a w ≡ done (some o, w'))
  unfolding base_object
  base_object_lem (some f) a w = supplied.mmaps f a w
  base_object_lem none a w = elim (Option-cases (mem.anon_create w).0) [
    | inl e ↦ absurd (supplied.anons w e)
    | inr (o, e) ↦ (o, (mem.anon_create w).1, ground (arith, e))
  ]

  new_object_lem :
      (a : Area) (w : W) → (o : ℕ) × (w' : W) × (new_object l mem fl file a w ≡ done (o, w'))
  unfolding new_object shadow
  new_object_lem a w =
      let (b, w1, made) = base_object_lem file a w in
      elim (Bool-cases (has_bit a.flags fl.map_private)) [
        | inr shared ↦ (b, w1, ground (arith, made, shared))
        | inl private ↦ elim (Option-cases (mem.shadow_create w1).0) [
          | inl e ↦ absurd (supplied.shadows w1 e)
          | inr (s, e) ↦
              let w2 = mem.set_shadowed s b (mem.shadow_create w1).1 in
              (
                s,
                mem.olink_insert b a.addr (mem.set_bottom s (mem.bottom_obj b w2) w2),
                ground (arith, made, private, e),
              )
        ]
      ]

  new_area_lem :
      (start : ℕ) (w : W)
      → (a : Area) × (w' : W) × (new_area l mem fl file start npages prot flags off w
          ≡ done (some a, w'))
        × IsNew start a
  unfolding new_area
  new_area_lem start w = elim (Option-cases (mem.area_alloc w).0) [
    | inl e ↦ absurd (supplied.areas w e)
    | inr (q, e) ↦
        let (o, w', made) = new_object_lem (base q) (mem.olink_init q (mem.area_alloc w).1) in
        (
          record (base q) { obj = o },
          w',
          ground (arith, e, made),
          record {
            start_eq = refl;
            end_eq = refl;
            off_eq = refl;
            prot_eq = refl;
            flags_eq = refl;
            vmmap_eq = refl;
          },
        )
  ]
    where
      base : ℕ → Area
      base q = record {
        addr = q;
        start = start;
        end = add_u32 start npages;
        off = addr_to_pn l off;
        prot = prot;
        flags = flags;
        vmmap = none;
        obj = 0;
      }

  -- The end of `vmmap_map`, over a range that is free.
  record Mapped (start : ℕ) (m : VmMap) (w : W) : Type 0 where
    pub area : Area
    pub space : VmMap
    pub world : W
    pub returns :
        map_at l mem fl file npages prot flags off (some start) m w ≡ done (some area, space, world)
    pub valid : IsValid l space
    pub start_eq : area.start ≡ start
    pub end_eq : area.end ≡ start + npages
    pub off_eq : area.off ≡ addr_to_pn l off
    pub prot_eq : area.prot ≡ prot
    pub flags_eq : area.flags ≡ flags
    pub shows : (vfn : ℕ) → translate space.areas vfn ≡ over area (translate m.areas) vfn

  map_at-Mapped :
      (start : ℕ) (m : VmMap) (w : W)
      → IsLayout l
      → IsValid l m
      → 0 < npages
      → low_pn l ≤ start
      → start + npages ≤ high_pn l
      → IsFree m.areas start (start + npages)
      → Mapped start m w
  unfolding map_at insert_area
  map_at-Mapped start m w ok v n lo hi free =
      let (a, w', made, new) = new_area_lem start w in
      let fits : a.end ≡ start + npages = omega (arith, ok.small, new.end_eq) in
      let free' : IsFree m.areas a.start a.end = rw (new.start_eq, fits) free in
      record {
        area = record a { vmmap = some m.addr };
        space = record m { areas = insert_loop (record a { vmmap = some m.addr }) m.areas };
        world = w';
        returns = rw (
          made,
          vmmap_insert-done l m a new.vmmap_eq (omega (arith, new.start_eq))
              (omega (arith, new.start_eq)) (omega arith),
        );
        valid =
            insert_loop-IsChain (record a { vmmap = some m.addr }) (low_pn l) (high_pn l) m.areas v
              (omega (arith, new.start_eq)) (omega (arith, new.start_eq)) (omega arith) free';
        start_eq = new.start_eq;
        end_eq = fits;
        off_eq = new.off_eq;
        prot_eq = new.prot_eq;
        flags_eq = new.flags_eq;
        shows = λ vfn.
            insert_loop-translate (record a { vmmap = some m.addr }) (low_pn l) (high_pn l) m.areas
              vfn v free';
      }

  -- With its assertions met, `vmmap_map` finds a place and makes the area there.
  vmmap_map-find_place :
      (m : VmMap) (lopage : ℕ) (dir : Dir) (w : W)
      → 0 < npages
      → (has_bit flags fl.map_shared || has_bit flags fl.map_private) ≡ true
      → (lopage == 0 || leb (low_pn l) lopage) ≡ true
      → (lopage == 0 || leb (add_u32 lopage npages) (high_pn l)) ≡ true
      → off % l.page_size ≡ 0
      → vmmap_map l mem fl m file lopage npages prot flags off dir w ≡ (
          find_place l mem m lopage npages dir w >>= λ place.
          map_at l mem fl file npages prot flags off place.0 place.1 place.2)
  unfolding vmmap_map
  vmmap_map-find_place m lopage dir w n kind lo hi aligned =
      let some_page : ltb 0 npages ≡ true = ground arith in
      let at_page : (off % l.page_size == 0) ≡ true = ground arith in
      rw (some_page, kind, lo, hi, at_page)

  -- A given range is free once `vmmap_map` has found its place.
  find_place_fixed :
      (m : VmMap) (lopage : ℕ) (dir : Dir) (w : W)
      → IsLayout l
      → IsValid l m
      → 0 < npages
      → lopage ≢ 0
      → low_pn l ≤ lopage
      → lopage + npages ≤ high_pn l
      → (m' : VmMap) × (w' : W) × (find_place l mem m lopage npages dir w
          ≡ done (some lopage, m', w'))
        × IsValid l m'
        × ((vfn : ℕ)
            → translate m'.areas vfn ≡ without lopage (lopage + npages) (translate m.areas) vfn)
  unfolding find_place
  find_place_fixed m lopage dir w ok v n nz lo hi =
      let given : (lopage == 0) ≡ false = ground arith in
      rw (given, vmmap_is_range_empty-done l m lopage npages ok n lo hi)
        (elim (Bool-cases (range_empty lopage (lopage + npages) m.areas)) [
          | inl free ↦ (
            m,
            w,
            rw free,
            v,
            λ vfn.
                let none_at =
                  range_empty-IsFree lopage (lopage + npages) (low_pn l) (high_pn l) m.areas v free
                    vfn in
                ground (arith, none_at),
          )
          | inr taken ↦
              let (m', w', r, v', t) =
                vmmap_remove_lem l mem m lopage npages w ok v supplied.areas n lo hi in
              (m', w', rw (taken, r), v', t)
        ])

  -- `vmmap_map` at a given range of user memory, on a well-formed map, with a valid request and
  -- while areas and objects can be made, returns a new area at just that range, with the requested
  -- protection, flags and offset. The map stays well formed; the pages of the range show the new
  -- area, whatever they showed before, and all other pages show what they showed before.
  pub vmmap_map_fixed :
      (m : VmMap) (lopage : ℕ) (dir : Dir) (w : W)
      → IsLayout l
      → IsValid l m
      → 0 < npages
      → lopage ≢ 0
      → low_pn l ≤ lopage
      → lopage + npages ≤ high_pn l
      → (has_bit flags fl.map_shared || has_bit flags fl.map_private) ≡ true
      → off % l.page_size ≡ 0
      → (a : Area) × (m' : VmMap) × (w' : W) × (vmmap_map l mem fl m file lopage npages prot flags
            off dir w
          ≡ done (some a, m', w'))
        × (a.start ≡ lopage)
        × (a.end ≡ lopage + npages)
        × (a.off ≡ addr_to_pn l off)
        × (a.prot ≡ prot)
        × (a.flags ≡ flags)
        × IsValid l m'
        × ((vfn : ℕ) → translate m'.areas vfn ≡ over a (translate m.areas) vfn)
  vmmap_map_fixed m lopage dir w ok v n nz lo hi kind aligned =
      let (m1, w1, found, v1, cut) = find_place_fixed m lopage dir w ok v n nz lo hi in
      let free : IsFree m1.areas lopage (lopage + npages) = λ vfn f s. ground (arith, cut vfn) in
      let r = map_at-Mapped lopage m1 w1 ok v1 n lo hi free in
      (
        r.area,
        r.space,
        r.world,
        vmmap_map-find_place m lopage dir w n kind (ground arith) (ground (arith, ok.small)) aligned
            ∙ rw found r.returns,
        r.start_eq,
        r.end_eq,
        r.off_eq,
        r.prot_eq,
        r.flags_eq,
        r.valid,
        λ vfn. r.shows vfn ∙ ground (arith, cut vfn, r.start_eq, r.end_eq),
      )

  -- `vmmap_map` with no range given, on a well-formed map, with a valid request and while areas
  -- and objects can be made: where `vmmap_find_range` finds a page, the new area lies at the free range
  -- from that page on, the map stays well formed, and every page outside the range shows what it
  -- showed before; where it finds none, the call fails with -ENOMEM and changes nothing.
  pub vmmap_map_search :
      (m : VmMap) (dir : Dir) (w : W) (found : ℤ)
      → IsLayout l
      → IsValid l m
      → 0 < npages
      → npages ≤ high_pn l
      → (has_bit flags fl.map_shared || has_bit flags fl.map_private) ≡ true
      → off % l.page_size ≡ 0
      → vmmap_find_range l m npages dir ≡ done found
      → ((is_neg found ≡ true)
          × (vmmap_map l mem fl m file 0 npages prot flags off dir w ≡ done (none, m, w)))
        ⊎ ((a : Area) × (m' : VmMap) × (w' : W) × (vmmap_map l mem fl m file 0 npages prot flags off
                dir w
              ≡ done (some a, m', w'))
            × (pos a.start ≡ found)
            × (a.end ≡ a.start + npages)
            × IsFree m.areas a.start a.end
            × IsValid l m'
            × ((vfn : ℕ) → translate m'.areas vfn ≡ over a (translate m.areas) vfn))
  vmmap_map_search m dir w (negsuc k) ok v n few kind aligned e = inl (
    refl,
    vmmap_map-find_place m 0 dir w n kind refl refl aligned ∙ unfold find_place map_at in rw e,
  )
  vmmap_map_search m dir w (pos p) ok v n few kind aligned e =
      let (lo, hi, free) = vmmap_find_range-IsFree l m npages p dir ok v n few e in
      let r = map_at-Mapped p m w ok v n lo hi free in
      inr (
        r.area,
        r.space,
        r.world,
        vmmap_map-find_place m 0 dir w n kind refl refl aligned
            ∙ unfold find_place in rw e r.returns,
        ap pos r.start_eq,
        omega (arith, r.start_eq, r.end_eq),
        rw (r.start_eq, r.end_eq) free,
        r.valid,
        r.shows,
      )
