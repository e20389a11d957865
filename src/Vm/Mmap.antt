-- ===== src/Vm/Mmap.antt =====
-- `do_mmap` and `do_munmap` of kernel/proc/vm/mmap.c.
use cs402_os.Base.{
  ℕ, zero, suc, ◌+◌, ◌-◌, ◌*◌, ◌%◌, ◌^◌, Bool, true, false, ◌&&◌, ◌||◌, not, Option, none, some,
  ltb, leb, ◌==◌, if◌then◌else◌, add_u32, ℤ, Exec, done, panic, ◌>>=◌,
}
use cs402_os.Vm.Area.{Layout, addr_to_pn, Area, VmMap, Memory}
use cs402_os.Vm.VmMap.{hilo}
use cs402_os.Vm.Mapping.{Flags, has_bit, vmmap_remove, vmmap_map}

-- `tlb_flush_range(addr, pages)` and `pt_unmap_range(pt_get(), from, to)`.
pub record Mmu (W : Type 0) : Type 0 where
  pub tlb_flush_range : ℕ → ℕ → W → W
  pub pt_unmap_range : ℕ → ℕ → W → W

-- The further bits of mm/mman.h and fs/file.h, which the repository does not hold.
pub record MmapBits : Type 0 where
  pub map_flags : Flags
  pub map_fixed : ℕ
  pub map_anon : ℕ
  pub map_type : ℕ
  pub prot_write : ℕ
  pub fmode_read : ℕ
  pub fmode_write : ℕ

-- What `do_mmap` reads of an open file.
pub record OpenFile : Type 0 where
  pub f_mode : ℕ
  pub f_vnode : ℕ

-- 0 with what `*ret` is set to, if it is set; a negative result otherwise.
pub data MmapResult : Type 0 where
  mapped : Option ℕ → MmapResult
  einval ebadf eacces minus_one : MmapResult

module _ (l : Layout) where
  -- The count of pages, `while (len > PAGE_SIZE) { len -= PAGE_SIZE; pages++; }` and the last page.
  -- Each round takes at least 1 from `len`, so that `len` rounds suffice.
  unfoldable pub page_loop : ℕ → ℕ → ℕ → ℕ
  page_loop zero len pages = if ltb 0 len then pages + 1 else pages
  page_loop (suc fuel) len pages =
      let more = page_loop fuel (len - l.page_size) (pages + 1) in
      if ltb l.page_size len then more else if ltb 0 len then pages + 1 else pages

  unfoldable pub page_count : ℕ → ℕ
  page_count len = page_loop len len 0

  abbrev pub pn_to_addr : ℕ → ℕ
  pn_to_addr pn = pn * l.page_size % 2 ^ 32

  module _ (bits : MmapBits) {W : Type 0} (mem : Memory W) (mmu : Mmu W) where
    -- The checks of the arguments of `do_mmap`.
    unfoldable pub mmap_invalid : ℕ → ℕ → ℕ → ℕ → Bool
    mmap_invalid addr len flags off =
        (not (addr == 0) && (ltb addr l.user_mem_low || ltb l.user_mem_high addr))
        || ((addr == 0)
            && ((flags == 0) || (has_bit flags bits.map_fixed || (flags == bits.map_type))))
        || (len == 0)
        || (len == 2 ^ 32 - 1)
        || ltb l.user_mem_high (add_u32 addr len)
        || not (off % l.page_size == 0)

    -- The open file behind `fd`, unless the mapping is anonymous. `fget` and `fput` cancel out.
    unfoldable pub mmap_vnode : (ℤ → Option OpenFile) → ℤ → ℕ → Option (Option ℕ)
    mmap_vnode files fd flags =
        if has_bit flags bits.map_anon
        then some none
        else elim (files fd) [ none ↦ none | some f ↦ some (some f.f_vnode) ]

    -- A shared writable mapping wants a file that is open for reading and writing.
    unfoldable pub mmap_denied : (ℤ → Option OpenFile) → ℤ → ℕ → ℕ → Exec Bool
    mmap_denied files fd prot flags =
        if (flags == bits.map_flags.map_shared) && has_bit prot bits.prot_write
        then elim (files fd) [
          | none ↦ panic
          | some f ↦
              done
                (not (has_bit f.f_mode bits.fmode_read) || not (has_bit f.f_mode bits.fmode_write))
        ]
        else done false

    -- What `do_mmap` does with the result of `vmmap_map`. Where that has failed, `vma` is not set
    -- and is followed all the same.
    unfoldable pub mmap_finish :
        ℕ → ℕ → Bool → Option Area × VmMap × W → Exec (MmapResult × VmMap × W)
    mmap_finish addr pages ret (none, m, w) = panic
    mmap_finish addr pages ret (some a, m, w) =
        let from = if addr == 0 then pn_to_addr a.start else addr in
        let to =
          if addr == 0
          then pn_to_addr (add_u32 a.start pages)
          else add_u32 addr (pages * l.page_size % 2 ^ 32) in
        if ltb l.user_mem_high (pn_to_addr a.end) || ltb (pn_to_addr a.start) l.user_mem_low
        then done (minus_one, m, w)
        else if ret
        then done
            (mapped (some from), m, mmu.pt_unmap_range from to (mmu.tlb_flush_range from pages w))
        else done (mapped none, m, w)

    unfoldable pub do_mmap :
        (ℤ → Option OpenFile)
        → VmMap
        → ℕ
        → ℕ
        → ℕ
        → ℕ
        → ℤ
        → ℕ
        → Bool
        → W
        → Exec (MmapResult × VmMap × W)
    do_mmap files m addr len prot flags fd off ret w =
        let pages = page_count len in
        if mmap_invalid addr len flags off
        then done (einval, m, w)
        else elim (mmap_vnode files fd flags) [
          | none ↦ done (ebadf, m, w)
          | some file ↦ mmap_denied files fd prot flags >>= λ denied.
              if denied
              then done (eacces, m, w)
              else (vmmap_map l mem bits.map_flags m file (addr_to_pn l addr) pages prot flags off
                    hilo w
                  >>= mmap_finish addr pages ret)
        ]

  module _ {W : Type 0} (mem : Memory W) (mmu : Mmu W) where
    unfoldable pub munmap_invalid : ℕ → ℕ → Bool
    munmap_invalid addr len =
        (len == 0)
        || (len == 2 ^ 32 - 1)
        || (addr == 0)
        || ltb l.user_mem_high (add_u32 addr len)
        || not (addr % l.page_size == 0)

    -- The state after the pages are gone: the TLB is flushed, and the page table where the range
    -- lies in user memory.
    unfoldable pub munmap_flush : ℕ → ℕ → W → W
    munmap_flush addr pages w =
        let w = mmu.tlb_flush_range addr pages w in
        let to = pn_to_addr (add_u32 (addr_to_pn l addr) pages) in
        if leb l.user_mem_low addr && leb to l.user_mem_high
        then mmu.pt_unmap_range addr to w
        else w

    -- `do_munmap`: `false` for -EINVAL, `true` for 0.
    unfoldable pub do_munmap : VmMap → ℕ → ℕ → W → Exec (Bool × VmMap × W)
    do_munmap m addr len w =
        let pages = page_count len in
        if munmap_invalid addr len
        then done (false, m, w)
        else (vmmap_remove l mem m (addr_to_pn l addr) pages w >>= λ r.
            done (true, r.0, munmap_flush addr pages r.1))
