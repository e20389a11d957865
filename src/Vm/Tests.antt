-- ===== src/Vm/Tests.antt =====
-- The theorems on address spaces at a map of two areas.
use cs402_os.Base.{
  ℕ, ◌+◌, ◌≤◌, ◌≡◌, ◌≢◌, refl, true, false, Option, none, some, [], ◌∷◌, arith, if◌then◌else◌, pos,
  is_neg, done, ◌⊎◌, ◌↔◌,
}
use cs402_os.Vm.Area.{Layout, addr_to_pn, low_pn, high_pn, IsLayout, Area, VmMap, Memory}
use cs402_os.Vm.VmMap.{
  hilo, vmmap_insert, vmmap_is_range_empty, vmmap_find_range, insert_loop, find_loop,
}
use cs402_os.Vm.Space.{IsValid, translate, covers, page_of, IsFree}
use cs402_os.Vm.Empty.{vmmap_is_range_empty_iff}
use cs402_os.Vm.Insert.{vmmap_insert_lem}
use cs402_os.Vm.FindRange.{vmmap_find_range-IsFree}
use cs402_os.Vm.Remove.{without, vmmap_remove_lem}
use cs402_os.Vm.Mapping.{Flags, vmmap_remove, vmmap_map, vmmap_clone}
use cs402_os.Vm.Map.{over, IsSupplied, vmmap_map_fixed, vmmap_map_search}
use cs402_os.Vm.Clone.{vmmap_clone_lem}

abbrev pub layout : Layout
layout = record { page_size = 4096; user_mem_low = 4194304; user_mem_high = 3221225472 }

pub layout-IsLayout : IsLayout layout
layout-IsLayout = record { page = omega arith; order = omega arith; small = omega arith }

abbrev area_at : ℕ → ℕ → Option ℕ → Area
area_at first stop m = record {
  addr = first;
  start = first;
  end = stop;
  off = 3;
  prot = 5;
  flags = 2;
  vmmap = m;
  obj = 7;
}

abbrev pub text_area : Area
text_area = area_at 1024 1028 (some 1)

abbrev pub heap_area : Area
heap_area = area_at 1032 1040 (some 1)

abbrev gap_area : Area
gap_area = area_at 1028 1030 none

abbrev pub space : VmMap
space = record { addr = 1; proc = none; areas = text_area ∷ heap_area ∷ [] }

abbrev low_space : VmMap
low_space = record { addr = 1; proc = none; areas = text_area ∷ [] }

pub space-IsValid : IsValid layout space
space-IsValid = (omega arith, omega arith, (omega arith, omega arith, omega arith))

-- A memory that hands out increasing addresses, and one that is out of areas.
abbrev pub mem : Memory ℕ
mem = record {
  map_alloc = λ w. (some w, w + 1);
  map_free = λ a w. w;
  area_alloc = λ w. (some w, w + 1);
  area_free = λ a w. w;
  ref = λ o w. w;
  put = λ o w. w;
  bottom_obj = λ o w. o;
  olink_init = λ a w. w;
  olink_is_linked = λ a w. false;
  olink_insert = λ o a w. w;
  olink_remove = λ a w. w;
  anon_create = λ w. (some w, w + 1);
  shadow_create = λ w. (some w, w + 1);
  set_shadowed = λ s o w. w;
  set_bottom = λ s o w. w;
  vn_mmap = λ f a w. done (some w, w + 1);
}

abbrev full_mem : Memory ℕ
full_mem = record mem { area_alloc = λ w. (none, w) }

pub mem-allocates : (w : ℕ) → (mem.area_alloc w).0 ≢ none
mem-allocates w e = cc

mem-IsSupplied : IsSupplied mem
mem-IsSupplied = record {
  areas = mem-allocates;
  anons = λ w e. cc;
  shadows = λ w e. cc;
  mmaps = λ f a w. (w, w + 1, refl);
}

abbrev flags : Flags
flags = record { map_shared = 1; map_private = 2 }

gap-IsFree : IsFree space.areas 1028 1030
unfolding translate
gap-IsFree vfn f s = ground arith

abbrev with_new : VmMap
with_new = record space { areas = text_area ∷ record gap_area { vmmap = some 1 } ∷ heap_area ∷ [] }

inserts : vmmap_insert layout space gap_area ≡ done with_new
unfolding vmmap_insert insert_loop
inserts = refl

vmmap_insert_example :
    IsValid layout with_new
    × ((vfn : ℕ)
        → translate with_new.areas vfn ≡ (
            if covers vfn gap_area then some (page_of vfn gap_area) else translate space.areas vfn))
vmmap_insert_example = vmmap_insert_lem layout space gap_area space-IsValid gap-IsFree inserts

finds : vmmap_find_range layout space 16 hilo ≡ done (pos 786416)
unfolding vmmap_find_range find_loop
finds = refl

vmmap_find_range_example :
    (low_pn layout ≤ 786416)
    × (786416 + 16 ≤ high_pn layout)
    × IsFree space.areas 786416 (786416 + 16)
vmmap_find_range_example =
    vmmap_find_range-IsFree layout space 16 786416 hilo layout-IsLayout space-IsValid (omega arith)
      (omega arith) finds

vmmap_is_range_empty_example :
    (vmmap_is_range_empty layout space 2000 16 ≡ done true) ↔ IsFree space.areas 2000 (2000 + 16)
vmmap_is_range_empty_example =
    vmmap_is_range_empty_iff layout space 2000 16 layout-IsLayout (omega arith) (omega arith)
      (omega arith) space-IsValid

-- The heap is split in two.
vmmap_remove_example :
    (m' : VmMap) × (w' : ℕ) × (vmmap_remove layout mem space 1034 2 50 ≡ done (m', w'))
    × IsValid layout m'
    × ((vfn : ℕ) → translate m'.areas vfn ≡ without 1034 (1034 + 2) (translate space.areas) vfn)
vmmap_remove_example =
    vmmap_remove_lem layout mem space 1034 2 50 layout-IsLayout space-IsValid mem-allocates
      (omega arith) (omega arith) (omega arith)

-- A private mapping of a file over the gap and a part of the heap.
vmmap_map_fixed_example :
    (a : Area) × (m' : VmMap) × (w' : ℕ) × (vmmap_map layout mem flags space
        (some 9)
        1030
        4
        5
        2
        8192
        hilo
        50
      ≡ done (some a, m', w'))
    × (a.start ≡ 1030)
    × (a.end ≡ 1030 + 4)
    × (a.off ≡ addr_to_pn layout 8192)
    × (a.prot ≡ 5)
    × (a.flags ≡ 2)
    × IsValid layout m'
    × ((vfn : ℕ) → translate m'.areas vfn ≡ over a (translate space.areas) vfn)
vmmap_map_fixed_example =
    vmmap_map_fixed layout mem mem-IsSupplied flags (some 9) 4 5 2 8192 space 1030 hilo 50
      layout-IsLayout space-IsValid (omega arith) (omega arith) (omega arith) (omega arith) refl
      refl

vmmap_map_search_example :
    ((is_neg (pos 786416) ≡ true)
      × (vmmap_map layout mem flags space none 0 16 5 2 0 hilo 50 ≡ done (none, space, 50)))
    ⊎ ((a : Area) × (m' : VmMap) × (w' : ℕ) × (vmmap_map layout mem flags space none 0 16 5 2 0 hilo
            50
          ≡ done (some a, m', w'))
        × (pos a.start ≡ pos 786416)
        × (a.end ≡ a.start + 16)
        × IsFree space.areas a.start a.end
        × IsValid layout m'
        × ((vfn : ℕ) → translate m'.areas vfn ≡ over a (translate space.areas) vfn))
vmmap_map_search_example =
    vmmap_map_search layout mem mem-IsSupplied flags none 16 5 2 0 space hilo 50 (pos 786416)
      layout-IsLayout space-IsValid (omega arith) (omega arith) refl refl finds

vmmap_clone_example :
    (new : VmMap) × (w' : ℕ) × (vmmap_clone layout mem space 50 ≡ done (some new, w'))
    × IsValid layout new
    × (new.proc ≡ none)
    × ((vfn : ℕ) → translate new.areas vfn ≡ translate space.areas vfn)
vmmap_clone_example =
    vmmap_clone_lem layout mem mem-allocates space 50 layout-IsLayout space-IsValid (λ e. cc)
