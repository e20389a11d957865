-- ===== src/Vm/Copy.antt =====
-- `vmmap_read` and `vmmap_write` of kernel/proc/vm/vmmap.c, and the checks of kernel/api/access.c
-- that stand before them.
use cs402_os.Base.{
  ℕ, zero, suc, ◌+◌, ◌-◌, ◌%◌, Bool, true, false, not, Option, none, some, List, [], ◌∷◌, length,
  ◌==◌, if◌then◌else◌, add_u32, sub_u32,
}
use cs402_os.Vm.Area.{Layout, addr_to_pn, VmMap}
use cs402_os.Vm.VmMap.{vmmap_lookup}
use cs402_os.Vm.Mapping.{has_bit}

-- Page frames and physical memory, as far as vmmap.c uses them, over an abstract state `W`.
pub record Frames (W : Type 0) : Type 0 where
  -- `pframe_lookup(obj, pagenum, forwrite, &frame)`: the frame, or none for NULL
  pub pframe_lookup : ℕ → ℕ → Bool → W → Option ℕ × W
  pub pf_addr : ℕ → W → ℕ
  pub pframe_dirty : ℕ → W → W
  -- one byte of physical memory
  pub load : ℕ → W → ℕ
  pub store : ℕ → ℕ → W → W

-- What a copy returns: 0 with the bytes that it has put into the buffer, or -EFAULT.
pub data Copied : Type 0 where
  copied : List ℕ → Copied
  efault : Copied

module _ (l : Layout) where
  -- `addr_perm`, for a process whose map is `pm` (none for NULL).
  unfoldable pub addr_perm : Option VmMap → ℕ → ℕ → Bool
  addr_perm none vaddr perm = false
  addr_perm (some m) vaddr perm = elim (vmmap_lookup m (addr_to_pn l vaddr)) [
    | none ↦ false
    | some a ↦ has_bit a.prot perm
  ]

  -- The loop of `range_perm` over `i`, of which `left` is `len - i`. It asks for the first address
  -- in each round.
  unfoldable pub range_loop : Option VmMap → ℕ → ℕ → ℕ → Bool
  range_loop pm avaddr zero perm = true
  range_loop pm avaddr (suc left) perm =
      let rest = range_loop pm avaddr left perm in if addr_perm pm avaddr perm then rest else false

  unfoldable pub range_perm : Option VmMap → ℕ → ℕ → ℕ → Bool
  range_perm pm avaddr len perm = range_loop pm avaddr len perm

module _ (l : Layout) {W : Type 0} (fr : Frames W) where
  -- `memcpy` out of physical memory, and into it.
  unfoldable pub fetch : ℕ → ℕ → W → List ℕ
  fetch addr zero w = []
  fetch addr (suc n) w = fr.load addr w ∷ fetch (addr + 1) n w

  unfoldable pub deposit : ℕ → List ℕ → W → W
  deposit addr [] w = w
  deposit addr (b ∷ bytes) w = deposit (addr + 1) bytes (fr.store addr b w)

  -- The loop of `vmmap_read`. A round copies all that is left, `read_size = count`, to the start of
  -- the buffer, and so it is the last; `vaddr` stands for `new_addr`, of which `v_page` and
  -- `page_off` are the page and the offset.
  unfoldable pub read_loop : ℕ → VmMap → ℕ → ℕ → List ℕ → W → Option Copied × W
  read_loop zero m vaddr count buffer w = (none, w)
  read_loop (suc fuel) m vaddr count buffer w =
      if count == 0 then (some (copied buffer), w) else elim (vmmap_lookup m (addr_to_pn l vaddr)) [
        | none ↦ (some efault, w)
        | some a ↦
            let p_page = add_u32 (sub_u32 (addr_to_pn l vaddr) a.start) a.off in
            let (frame, w) = fr.pframe_lookup a.obj p_page false w in
            elim frame [
              | none ↦ (some efault, w)
              | some f ↦
                  let bytes = fetch (fr.pf_addr f w + vaddr % l.page_size) count w in
                  read_loop fuel m (add_u32 vaddr count) (count - count) bytes w
            ]
      ]

  -- The first round takes all bytes, the second finds none left.
  unfoldable pub vmmap_read : VmMap → ℕ → ℕ → W → Option Copied × W
  vmmap_read m vaddr count w = elim (m.areas) [
    | [] ↦ (some efault, w)
    | a ∷ later ↦ read_loop 2 m vaddr count [] w
  ]

  -- The loop of `vmmap_write`, which in the same way copies the whole of `bytes` in one round.
  unfoldable pub write_loop : ℕ → VmMap → ℕ → List ℕ → W → Option Copied × W
  write_loop zero m vaddr bytes w = (none, w)
  write_loop (suc fuel) m vaddr [] w = (some (copied []), w)
  write_loop (suc fuel) m vaddr (b ∷ bytes) w = elim (vmmap_lookup m (addr_to_pn l vaddr)) [
    | none ↦ (some efault, w)
    | some a ↦
        let p_page = add_u32 (sub_u32 (addr_to_pn l vaddr) a.start) a.off in
        let (frame, w) = fr.pframe_lookup a.obj p_page true w in
        elim frame [
          | none ↦ (some efault, w)
          | some f ↦
              let w = deposit (fr.pf_addr f w + vaddr % l.page_size) (b ∷ bytes) w in
              let next = add_u32 vaddr (length (b ∷ bytes)) in
              write_loop fuel m next [] (fr.pframe_dirty f w)
        ]
  ]

  unfoldable pub vmmap_write : VmMap → ℕ → List ℕ → W → Option Copied × W
  vmmap_write m vaddr bytes w = elim (m.areas) [
    | [] ↦ (some efault, w)
    | a ∷ later ↦ write_loop 2 m vaddr bytes w
  ]

  -- `copy_from_user` and `copy_to_user`; `prot_read` and `prot_write` are constants of mm/mman.h.
  -- `vmmap_read` and `vmmap_write` of a NULL map return 0 and copy nothing.
  unfoldable pub copy_from_user : ℕ → Option VmMap → ℕ → ℕ → W → Option Copied × W
  copy_from_user prot_read pm uaddr nbytes w =
      if not (range_perm l pm uaddr nbytes prot_read)
      then (some efault, w)
      else elim pm [ none ↦ (some (copied []), w) | some m ↦ vmmap_read m uaddr nbytes w ]

  unfoldable pub copy_to_user : ℕ → Option VmMap → ℕ → List ℕ → W → Option Copied × W
  copy_to_user prot_write pm uaddr bytes w =
      if not (range_perm l pm uaddr (length bytes) prot_write)
      then (some efault, w)
      else elim pm [ none ↦ (some (copied []), w) | some m ↦ vmmap_write m uaddr bytes w ]
