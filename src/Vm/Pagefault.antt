-- ===== src/Vm/Pagefault.antt =====
-- `handle_pagefault` of kernel/proc/vm/pagefault.c, for a process with the map `m`, and what it does to
-- the address space.
use mathlib.Core.Option
use cs402_os.Base.{
  ℕ, ◌*◌, ◌≡◌, Bool, true, false, ◌&&◌, ◌||◌, not, none, some, ltb, leb, ◌==◌, if◌then◌else◌,
  add_u32, sub_u32, Exec, done, panic, ◌>>◌, kassert, ◌⊎◌,
}
use Prim.Native.Nat.{bit_or}
use cs402_os.Vm.Area.{Layout, addr_to_pn, Area, VmMap}
use cs402_os.Vm.VmMap.{vmmap_lookup}
use cs402_os.Vm.Mapping.{has_bit}
use cs402_os.Vm.Space.{Page, translate}

-- The bits of mm/mman.h, vm/pagefault.h and mm/pagetable.h, which the repository does not hold.
pub record FaultBits : Type 0 where
  pub prot_none : ℕ
  pub prot_read : ℕ
  pub prot_write : ℕ
  pub fault_write : ℕ
  -- PD_PRESENT | PD_USER and PT_PRESENT | PT_USER
  pub pd_user : ℕ
  pub pt_user : ℕ
  pub pd_write : ℕ
  pub pt_write : ℕ

-- What `pframe_lookup` returns: a negative status, or 0 and a frame, or 0 and NULL.
pub data Found : Type 0 where
  no_page null_frame : Found
  frame : ℕ → Found

-- Page frames and page tables, as far as the handler uses them, over an abstract state `W`.
pub record Pages (W : Type 0) : Type 0 where
  -- `pframe_lookup(obj, pagenum, forwrite, &frame)`
  pub find_frame : ℕ → ℕ → Bool → W → Found × W
  pub pf_addr : ℕ → W → ℕ
  pub pframe_dirty : ℕ → W → W
  pub pt_virt_to_phys : ℕ → W → ℕ
  -- `pt_map` in the page directory of the process
  pub pt_map : ℕ → ℕ → ℕ → ℕ → W → W

-- The process is killed with EFAULT, or the page is mapped.
pub data Fault : Type 0 where
  killed : Fault
  mapped : Fault

module _ (l : Layout) (bits : FaultBits) {W : Type 0} (pages : Pages W) where
  open bits use {
    prot_none, prot_read, prot_write, fault_write, pd_user, pt_user, pd_write, pt_write,
  }

  -- The tests on the protection of the area.
  unfoldable pub denied : ℕ → ℕ → Bool
  denied cause prot =
      has_bit prot prot_none
      || (not (has_bit prot prot_read)
          || (has_bit cause fault_write && not (has_bit prot prot_write)))

  -- `wrt`.
  unfoldable pub for_write : ℕ → ℕ → Bool
  for_write cause prot = has_bit prot prot_write && has_bit cause fault_write

  -- What `pt_map` is given: the page of the address, the place of the frame, and the bits.
  abbrev pub entered : ℕ → ℕ → ℕ → W → W
  entered vaddr cause f w =
      pages.pt_map (addr_to_pn l vaddr * l.page_size) (pages.pt_virt_to_phys (pages.pf_addr f w) w)
        (if has_bit cause fault_write then bit_or pd_user pd_write else pd_user)
        (if has_bit cause fault_write then bit_or pt_user pt_write else pt_user) w

  -- The end of the handler, with the frame that it has found.
  unfoldable pub map_frame : ℕ → ℕ → Bool → ℕ → W → Exec (Fault × W)
  map_frame vaddr cause wrt f w = do
    let w1 = if wrt then pages.pframe_dirty f w else w
    kassert (not (pages.pf_addr f w1 == 0))
    done (mapped, entered vaddr cause f w1)

  -- A NULL frame fails the assertion, or is followed before that for a write.
  unfoldable pub with_frame : ℕ → ℕ → Bool → Found × W → Exec (Fault × W)
  with_frame vaddr cause wrt (no_page, w) = done (killed, w)
  with_frame vaddr cause wrt (null_frame, w) = panic
  with_frame vaddr cause wrt (frame f, w) = map_frame vaddr cause wrt f w

  -- The handler in the area `a`, which permits the access.
  unfoldable pub fault_in : Area → ℕ → ℕ → W → Exec (Fault × W)
  fault_in a vaddr cause w =
      let wrt = for_write cause a.prot in
      with_frame vaddr cause wrt
        (pages.find_frame a.obj (add_u32 (sub_u32 (addr_to_pn l vaddr) a.start) a.off) wrt w)

  unfoldable pub handle_pagefault : VmMap → ℕ → ℕ → W → Exec (Fault × W)
  handle_pagefault m vaddr cause w =
      if ltb vaddr l.user_mem_low || leb l.user_mem_high vaddr
      then done (killed, w)
      else elim (vmmap_lookup m (addr_to_pn l vaddr)) [
        | none ↦ done (killed, w)
        | some a ↦ if denied cause a.prot then done (killed, w) else fault_in a vaddr cause w
      ]

  -- Why a fault kills the process.
  abbrev pub Refused : VmMap → ℕ → ℕ → W → Type 0
  Refused m vaddr cause w =
      ((ltb vaddr l.user_mem_low || leb l.user_mem_high vaddr) ≡ true)
      ⊎ ((translate m.areas (addr_to_pn l vaddr) ≡ none)
          ⊎ ((p : Page) × (translate m.areas (addr_to_pn l vaddr) ≡ some p)
              × ((denied cause p.prot ≡ true)
                  ⊎ ((pages.find_frame p.obj p.pagenum (for_write cause p.prot) w).0 ≡ no_page))))

  -- The two ways in which the handler ends.
  abbrev pub Handled : VmMap → ℕ → ℕ → W → Type 0
  Handled m vaddr cause w =
      ((w' : W) × (handle_pagefault m vaddr cause w ≡ done (killed, w')) × Refused m vaddr cause w)
      ⊎ ((p : Page) × (f : ℕ) × (w' : W) × ((ltb vaddr l.user_mem_low || leb l.user_mem_high vaddr)
            ≡ false)
          × (translate m.areas (addr_to_pn l vaddr) ≡ some p)
          × (denied cause p.prot ≡ false)
          × (pages.find_frame p.obj p.pagenum (for_write cause p.prot) w ≡ (frame f, w'))
          × (handle_pagefault m vaddr cause w
              ≡ done (
                mapped,
                entered vaddr cause f
                    (if has_bit cause fault_write then pages.pframe_dirty f w' else w'),
              )))
