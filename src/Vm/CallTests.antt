-- ===== src/Vm/CallTests.antt =====
-- The theorems on `do_brk`, `do_munmap` and `do_mmap`, at a map of two areas.
use cs402_os.Base.{
  ℕ, ◌+◌, ◌-◌, ◌/◌, ◌≡◌, refl, true, false, ◌&&◌, Option, none, some, [], ◌∷◌, arith, ltb, leb,
  if◌then◌else◌, ℤ, negsuc, done, ◌⊎◌,
}
use cs402_os.Vm.Area.{Layout, IsLayout, VmMap}
use cs402_os.Vm.VmMap.{hilo, vmmap_lookup, lookup_loop, vmmap_find_range, find_loop}
use cs402_os.Vm.Space.{IsValid, translate, covers, page_of, IsFree}
use cs402_os.Vm.Remove.{without}
use cs402_os.Vm.Brk.{Heap, do_brk, brk_is, enomem, do_brk_lem}
use cs402_os.Vm.Mmap.{
  Mmu, MmapBits, OpenFile, do_munmap, mmap_invalid, mmap_denied, page_count, page_loop,
}
use cs402_os.Vm.MmapLaws.{IsRequest, page_count_lem, do_munmap_lem}
use cs402_os.Vm.Tests.{
  layout, layout-IsLayout, text_area, heap_area, space, space-IsValid, mem, mem-allocates,
}

-- The heap is pages 1032 to 1039, and starts within the first of them.
abbrev heap : Heap
heap = record { p_brk = 4259840; p_start_brk = 4227100; p_vmmap = space }

heap_found : vmmap_lookup space 1032 ≡ some heap_area
unfolding vmmap_lookup lookup_loop
heap_found = refl

-- The break moves up by a bit more than a page.
do_brk_example :
    ((do_brk layout 4264000 heap ≡ done (enomem, heap)) × ¬ IsFree space.areas 1040 1042)
    ⊎ ((p' : Heap) × (do_brk layout 4264000 heap ≡ done (brk_is 4264000, p'))
        × IsFree space.areas 1040 1042
        × (p'.p_brk ≡ 4264000)
        × IsValid layout p'.p_vmmap
        × ((vfn : ℕ)
            → translate p'.p_vmmap.areas vfn ≡ (
                if leb 1032 vfn && ltb vfn 1042
                then some (page_of vfn heap_area)
                else if covers vfn heap_area
                then none
                else translate space.areas vfn)))
do_brk_example =
    do_brk_lem layout heap heap_area 4264000 layout-IsLayout refl space-IsValid heap_found
      (omega arith) (omega arith) (omega arith) (omega arith)

abbrev mmu : Mmu ℕ
mmu = record { tlb_flush_range = λ a n w. w; pt_unmap_range = λ a b w. w }

heap-IsRequest : IsRequest layout 4231168 5000
heap-IsRequest = record {
  addr_set = omega arith;
  some_bytes = omega arith;
  aligned = refl;
  whole = refl;
  width = omega arith;
  fits = omega arith;
}

do_munmap_example :
    (m' : VmMap) × (w' : ℕ) × (do_munmap layout mem mmu space 4231168 5000 50 ≡ done (true, m', w'))
    × IsValid layout m'
    × ((vfn : ℕ) → translate m'.areas vfn ≡ without 1033 1035 (translate space.areas) vfn)
do_munmap_example =
    do_munmap_lem layout mem mmu space 4231168 5000 50 layout-IsLayout heap-IsRequest space-IsValid
      mem-allocates (omega arith)

low-IsRequest : IsRequest layout 8192 100
low-IsRequest = record {
  addr_set = omega arith;
  some_bytes = omega arith;
  aligned = refl;
  whole = refl;
  width = omega arith;
  fits = omega arith;
}

-- A small memory, in which one area leaves no place above it.
abbrev small : Layout
small = record { page_size = 4; user_mem_low = 8; user_mem_high = 40 }

small-IsLayout : IsLayout small
small-IsLayout = record { page = omega arith; order = omega arith; small = omega arith }

abbrev full : VmMap
full = record { addr = 1; proc = none; areas = record text_area { start = 2; end = 10 } ∷ [] }

abbrev bits : MmapBits
bits = record {
  map_flags = record { map_shared = 1; map_private = 2 };
  map_fixed = 4;
  map_anon = 8;
  map_type = 3;
  prot_write = 2;
  fmode_read = 1;
  fmode_write = 2;
}

abbrev no_files : ℤ → Option OpenFile
no_files fd = none

no_place : vmmap_find_range small full (page_count small 5) hilo ≡ done (negsuc 0)
unfolding vmmap_find_range find_loop page_count page_loop
no_place = refl

accepted : mmap_invalid small bits mem mmu 0 5 10 0 ≡ false
unfolding mmap_invalid
accepted = refl

allowed : mmap_denied small bits mem mmu no_files (negsuc 0) 3 10 ≡ done false
unfolding mmap_denied
allowed = refl

-- 10000 bytes take three pages.
page_count_example : page_count layout 10000 ≡ (10000 + 4096 - 1) / 4096
page_count_example = page_count_lem layout (omega arith) 10000
