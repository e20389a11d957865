-- ===== src/Vm/CopyLaws.antt =====
-- What the copies between the kernel and user memory do.
use cs402_os.Base.{ℕ, zero, suc, ◌≡◌, ◌≢◌, refl, ◌||◌, Option, none, List, ◌==◌, arith}
use cs402_os.Vm.Area.{Layout, VmMap}
use cs402_os.Vm.Copy.{
  Frames, read_loop, vmmap_read, write_loop, vmmap_write, addr_perm, range_loop, range_perm,
}

module _ (l : Layout) {W : Type 0} (fr : Frames W) where
  -- `vmmap_read` and `vmmap_write` end after at most two rounds: their fuel does not run out, on any
  -- map and for any number of bytes.
  pub copies_end :
      (m : VmMap) (vaddr count : ℕ) (bytes : List ℕ) (w : W)
      → ((vmmap_read l fr m vaddr count w).0 ≢ none) × ((vmmap_write l fr m vaddr bytes w).0 ≢ none)
  unfolding vmmap_read vmmap_write read_loop write_loop
  copies_end m vaddr count bytes w = (ground arith, ground arith)

module _ (l : Layout) where
  range_loop-addr_perm :
      (pm : Option VmMap) (avaddr left perm : ℕ)
      → range_loop l pm avaddr left perm ≡ ((left == 0) || addr_perm l pm avaddr perm)
  unfolding range_loop
  range_loop-addr_perm pm avaddr zero perm = refl
  range_loop-addr_perm pm avaddr (suc left) perm =
      ground (arith, range_loop-addr_perm pm avaddr left perm)

  -- `range_perm` allows a range just where it is empty, or `addr_perm` allows its first address:
  -- what the rest of the range maps to, and with which protection, does not matter.
  pub range_perm-addr_perm :
      (pm : Option VmMap) (avaddr len perm : ℕ)
      → range_perm l pm avaddr len perm ≡ ((len == 0) || addr_perm l pm avaddr perm)
  unfolding range_perm
  range_perm-addr_perm pm avaddr len perm = range_loop-addr_perm pm avaddr len perm
