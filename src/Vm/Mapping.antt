-- ===== src/Vm/Mapping.antt =====
-- `vmmap_remove`, `vmmap_map` and `vmmap_clone` of kernel/proc/vm/vmmap.c.
use cs402_os.Base.{
  ℕ, ◌%◌, Bool, ◌||◌, not, Option, none, some, List, [], ◌∷◌, bit_and, ltb, leb, ◌==◌,
  if◌then◌else◌, add_u32, pos_part, is_neg, Exec, done, panic, ◌>>=◌, ◌>>◌, kassert,
}
use cs402_os.Vm.Area.{Layout, addr_to_pn, low_pn, high_pn, Area, VmMap, Memory}
use cs402_os.Vm.VmMap.{
  vmmap_insert, vmmap_is_range_empty, Dir, vmmap_find_range, vmmap_create, remove_loop,
}

-- The flag bits of mm/mman.h, which the repository does not hold.
pub record Flags : Type 0 where
  pub map_shared : ℕ
  pub map_private : ℕ

-- `flags & bit`, as a condition.
abbrev pub has_bit : ℕ → ℕ → Bool
has_bit flags bit = not (bit_and flags bit == 0)

module _ (l : Layout) {W : Type 0} (mem : Memory W) where
  unfoldable pub vmmap_remove : VmMap → ℕ → ℕ → W → Exec (VmMap × W)
  vmmap_remove m lopage npages w = do
    empty ← vmmap_is_range_empty l m lopage npages
    let r = remove_loop mem lopage npages m.areas w
    if empty then done (m, w) else done (record m { areas = r.0 }, r.1)

  -- The part of `vmmap_map` that makes a shadow object over the object `o` of area `q`. It follows
  -- both pointers without a test.
  unfoldable pub shadow : ℕ → Option ℕ → W → Exec (ℕ × W)
  shadow q o w =
      let (s, w) = mem.shadow_create w in
      elim s [
        | none ↦ panic
        | some s ↦ elim o [
          | none ↦ panic
          | some b ↦
              let w = mem.set_shadowed s b w in
              let w = mem.set_bottom s (mem.bottom_obj b w) w in done (s, mem.olink_insert b q w)
        ]
      ]

  -- `vma_obj`, 0 for NULL.
  abbrev pub obj_field : Option ℕ → ℕ
  obj_field none = 0
  obj_field (some o) = o

  -- `mmap` of the file, or an anonymous object.
  unfoldable pub base_object : Option ℕ → Area → W → Exec (Option ℕ × W)
  base_object none a w = done (mem.anon_create w)
  base_object (some f) a w = mem.vn_mmap f a w

  -- The object of a new area: that of the file or an anonymous one, under a shadow object if the
  -- mapping is private.
  unfoldable pub new_object : Flags → Option ℕ → Area → W → Exec (ℕ × W)
  new_object fl file a w = do
    r ← base_object file a w
    if has_bit a.flags fl.map_private then shadow a.addr r.0 r.1 else done (obj_field r.0, r.1)

  -- The part of `vmmap_map` that both of its branches have: a new area with its object. The
  -- object is not set when `mmap` of the file gets the area; 0 stands for that.
  unfoldable pub new_area : Flags → Option ℕ → ℕ → ℕ → ℕ → ℕ → ℕ → W → Exec (Option Area × W)
  new_area fl file start npages prot flags off w =
      let (p, w) = mem.area_alloc w in
      elim p [
        | none ↦ done (none, w)
        | some q ↦
            let a : Area = record {
              addr = q;
              start = start;
              end = add_u32 start npages;
              off = addr_to_pn l off;
              prot = prot;
              flags = flags;
              vmmap = none;
              obj = 0;
            } in
            new_object fl file a (mem.olink_init q w) >>= λ r.
            done (some (record a { obj = r.0 }), r.1)
      ]

  -- Where `vmmap_map` puts the new area: a range that it looks for, or the given one, which it
  -- unmaps first. No place stands for -ENOMEM.
  unfoldable pub find_place : VmMap → ℕ → ℕ → Dir → W → Exec (Option ℕ × VmMap × W)
  find_place m lopage npages dir w =
      if lopage == 0
      then (vmmap_find_range l m npages dir >>= λ start.
          done (if is_neg start then (none, m, w) else (some (pos_part start), m, w)))
      else (vmmap_is_range_empty l m lopage npages >>= λ empty.
          if empty
          then done (some lopage, m, w)
          else (vmmap_remove m lopage npages w >>= λ r. done (some lopage, r.0, r.1)))

  -- The end of `vmmap_map`: no area stands for -ENOMEM.
  unfoldable pub insert_area : VmMap → Option Area × W → Exec (Option Area × VmMap × W)
  insert_area m (none, w) = done (none, m, w)
  insert_area m (some a, w) = do
    m' ← vmmap_insert l m a
    done (some (record a { vmmap = some m.addr }), m', w)

  unfoldable pub map_at :
      Flags → Option ℕ → ℕ → ℕ → ℕ → ℕ → Option ℕ → VmMap → W → Exec (Option Area × VmMap × W)
  map_at fl file npages prot flags off none m w = done (none, m, w)
  map_at fl file npages prot flags off (some start) m w =
      new_area fl file start npages prot flags off w >>= insert_area m

  -- `vmmap_map`: no area stands for -ENOMEM, an area for 0 and what `*new` is set to.
  unfoldable pub vmmap_map :
      Flags → VmMap → Option ℕ → ℕ → ℕ → ℕ → ℕ → ℕ → Dir → W → Exec (Option Area × VmMap × W)
  vmmap_map fl m file lopage npages prot flags off dir w = do
    kassert (ltb 0 npages)
    kassert (has_bit flags fl.map_shared || has_bit flags fl.map_private)
    kassert (lopage == 0 || leb (low_pn l) lopage)
    kassert (lopage == 0 || leb (add_u32 lopage npages) (high_pn l))
    kassert (off % l.page_size == 0)
    place ← find_place m lopage npages dir w
    map_at fl file npages prot flags off place.0 place.1 place.2

  -- The loop of `vmmap_clone`; no map stands for NULL.
  unfoldable pub clone_loop : VmMap → List Area → W → Exec (Option VmMap × W)
  clone_loop new [] w = done (some new, w)
  clone_loop new (a ∷ later) w =
      let (p, w) = mem.area_alloc w in
      elim p [
        | none ↦ done (none, w)
        | some q ↦
            let w = mem.olink_init q (mem.ref a.obj w) in
            vmmap_insert l new (record a { addr = q; vmmap = none }) >>= λ new'.
            clone_loop new' later w
      ]

  unfoldable pub clone_into : List Area → Option VmMap × W → Exec (Option VmMap × W)
  unfolding clone_loop
  clone_into later (none, w) = done (none, w)
  clone_into later (some new, w) = clone_loop new later w

  unfoldable pub vmmap_clone : VmMap → W → Exec (Option VmMap × W)
  unfolding clone_into
  vmmap_clone m w = clone_into m.areas (vmmap_create mem w)
