-- ===== src/Vm/MmapLaws.antt =====
-- What `do_munmap` and `do_mmap` do to an address space, and where they stop the kernel.
use cs402_os.Base.{
  ℕ, zero, suc, ◌+◌, ◌-◌, ◌*◌, ◌/◌, ◌%◌, ◌^◌, ◌≤◌, ◌<◌, ◌≡◌, ◌≢◌, Bool, true, false, ◌||◌, Option,
  none, arith, ltb, leb, ◌==◌, ℤ, done, panic, ◌∙◌, Bool-cases, inl, inr, negsuc, ltb→lt,
}
use native.Mathlib.Nat.{zero-div, div-mul-le_self, div-add-mod', mul-le-mul_right}
use native.Mathlib.Decide.{dec_lt}
use cs402_os.Vm.Area.{Layout, addr_to_pn, low_pn, high_pn, IsLayout, VmMap, Memory}
use cs402_os.Vm.VmMap.{hilo, vmmap_is_range_empty, vmmap_find_range}
use cs402_os.Vm.Mapping.{has_bit, vmmap_remove, vmmap_map, find_place, map_at}
use cs402_os.Vm.Space.{IsValid, translate}
use cs402_os.Vm.Remove.{without, vmmap_remove_lem}
use cs402_os.Vm.Mmap.{
  Mmu, MmapBits, OpenFile, page_loop, page_count, mmap_invalid, mmap_vnode, mmap_denied,
  mmap_finish, do_mmap, munmap_invalid, munmap_flush, do_munmap,
}

-- Rounding up: at most one page, and one page more.
round_up_zero : (p : ℕ) → 0 < p → (0 + p - 1) / p ≡ 0
round_up_zero p h = grind arith

round_up_one : (len p : ℕ) → 0 < len → len ≤ p → (len + p - 1) / p ≡ 1
round_up_one len p h k = grind arith

round_up_more : (len p : ℕ) → 0 < p → p < len → (len + p - 1) / p ≡ 1 + (len - p + p - 1) / p
round_up_more len p h k = grind arith

ltb_round_up : (len p : ℕ) → 0 < p → 0 < len → ltb 0 ((len + p - 1) / p) ≡ true
ltb_round_up len p h k = let some_page : 0 < (len + p - 1) / p = grind arith in ground arith

-- Whole pages that fit, with a last one that is begun.
round_up_fits :
    (first stop len p : ℕ) → 0 < p → first * p + len ≤ stop * p → first + (len + p - 1) / p ≤ stop
round_up_fits first stop len p h k = elim (dec_lt stop (first + (len + p - 1) / p)) [
  | yes above ↦ absurd (omega (arith, mul-le-mul_right p above, div-mul-le_self (len + p - 1) p))
  | no fits ↦ omega arith
]

module _ (l : Layout) (page : 0 < l.page_size) where
  page_loop_lem :
      (fuel len pages : ℕ)
      → len ≤ fuel
      → page_loop l fuel len pages ≡ pages + (len + l.page_size - 1) / l.page_size
  unfolding page_loop
  page_loop_lem zero len pages h =
      let z : len ≡ 0 = omega arith in rw z (omega (arith, round_up_zero l.page_size page))
  page_loop_lem (suc fuel) len pages h = elim (Bool-cases (ltb l.page_size len)) [
    | inl more ↦
        let ih = page_loop_lem fuel (len - l.page_size) (pages + 1) (ground arith) in
        rw more (ih ∙ omega (arith, round_up_more len l.page_size page (ltb→lt _ _ more)))
    | inr last ↦ rw last (elim (Bool-cases (ltb 0 len)) [
      | inl some_left ↦
          rw some_left
            (omega (arith, round_up_one len l.page_size (ltb→lt _ _ some_left) (ground arith)))
      | inr none_left ↦
          let z : len ≡ 0 = ground arith in
          rw none_left (rw z (omega (arith, round_up_zero l.page_size page)))
    ])
  ]

  -- The loops of `do_mmap` and `do_munmap` count the pages that `len` bytes take, rounded up.
  pub page_count_lem : (len : ℕ) → page_count l len ≡ (len + l.page_size - 1) / l.page_size
  unfolding page_count
  page_count_lem len = omega (arith, page_loop_lem len len 0 (omega arith))

-- What the two theorems on `do_munmap` suppose of their arguments.
pub record IsRequest (l : Layout) (addr len : ℕ) : Type 0 where
  pub addr_set : 0 < addr
  pub some_bytes : 0 < len
  pub aligned : addr % l.page_size ≡ 0
  pub whole : l.user_mem_high % l.page_size ≡ 0
  pub width : l.user_mem_high < 2 ^ 32
  pub fits : addr + len ≤ l.user_mem_high

module _ (l : Layout) {W : Type 0} (mem : Memory W) (mmu : Mmu W) (m : VmMap) (addr len : ℕ) (w : W)
    (ok : IsLayout l) (req : IsRequest l addr len) where
  accepted : munmap_invalid l mem mmu addr len ≡ false
  unfolding munmap_invalid
  accepted = ground (arith, req.addr_set)

  some_pages : 0 < page_count l len
  some_pages = rw (page_count_lem l ok.page) (grind (arith, ok.page))

  pages_fit : addr_to_pn l addr + page_count l len ≤ high_pn l
  pages_fit = rw (page_count_lem l ok.page) (
      round_up_fits (addr_to_pn l addr) (high_pn l) len l.page_size ok.page (
        omega (
          arith,
          req.fits,
          req.aligned,
          req.whole,
          div-add-mod' addr l.page_size,
          div-add-mod' l.user_mem_high l.page_size,
        )))

  -- `do_munmap` of whole user pages, on a well-formed map and while areas can be allocated,
  -- succeeds: the map stays well formed, none of the pages that `len` bytes from `addr` on touch
  -- is mapped any more, and every other page shows what it showed before.
  pub do_munmap_lem :
      IsValid l m
      → ((w : W) → (mem.area_alloc w).0 ≢ none)
      → low_pn l ≤ addr_to_pn l addr
      → (m' : VmMap) × (w' : W) × (do_munmap l mem mmu m addr len w ≡ done (true, m', w'))
        × IsValid l m'
        × ((vfn : ℕ)
            → translate m'.areas vfn
              ≡ without
                  (addr_to_pn l addr)
                  (addr_to_pn l addr + (len + l.page_size - 1) / l.page_size)
                  (translate m.areas)
                  vfn)
  unfolding do_munmap
  do_munmap_lem v allocates lo =
      let pages = page_count l len in
      let (m', w1, r, v', t) =
        vmmap_remove_lem l mem m (addr_to_pn l addr) pages w ok v allocates some_pages lo
          pages_fit in
      (
        m',
        munmap_flush l mem mmu addr pages w1,
        rw (accepted, r),
        v',
        λ vfn. t vfn ∙ rw (page_count_lem l ok.page),
      )

  -- A request for pages below user memory passes the checks of `do_munmap`, and stops the kernel
  -- at an assertion, whatever is mapped.
  pub do_munmap-panic : addr_to_pn l addr < low_pn l → do_munmap l mem mmu m addr len w ≡ panic
  unfolding do_munmap vmmap_remove vmmap_is_range_empty
  do_munmap-panic below =
      let out : leb (low_pn l) (addr_to_pn l addr) ≡ false = ground arith in
      rw accepted (ground (arith, out))

-- Where `do_mmap` accepts its arguments, the mapping is anonymous and private or shared, and
-- `vmmap_find_range` has no place for the pages, `vmmap_map` fails and `do_mmap` follows a pointer
-- that nothing has set, in place of returning -ENOMEM.
pub do_mmap-no_range :
    (l : Layout) (bits : MmapBits) {W : Type 0} (mem : Memory W) (mmu : Mmu W)
    (files : ℤ → Option OpenFile) (m : VmMap) (len prot flags off k : ℕ) (fd : ℤ) (ret : Bool)
    (w : W)
    → IsLayout l
    → mmap_invalid l bits mem mmu 0 len flags off ≡ false
    → has_bit flags bits.map_anon ≡ true
    → mmap_denied l bits mem mmu files fd prot flags ≡ done false
    → (has_bit flags bits.map_flags.map_shared || has_bit flags bits.map_flags.map_private) ≡ true
    → vmmap_find_range l m (page_count l len) hilo ≡ done (negsuc k)
    → do_mmap l bits mem mmu files m 0 len prot flags fd off ret w ≡ panic
unfolding do_mmap mmap_vnode mmap_finish vmmap_map find_place map_at
do_mmap-no_range l bits mem mmu files m len prot flags off k fd ret w ok valid anon allowed kind
      none_found =
    let some_left : 0 < len = unfold mmap_invalid in ground arith in
    let aligned : (off % l.page_size == 0) ≡ true = unfold mmap_invalid in ground arith in
    let pages : ltb 0 (page_count l len) ≡ true =
      rw (page_count_lem l ok.page) (ltb_round_up len l.page_size ok.page some_left) in
    let at_zero : addr_to_pn l 0 ≡ 0 = zero-div l.page_size in
    rw (valid, anon, allowed) (rw at_zero (rw (pages, kind, aligned) (rw none_found)))
