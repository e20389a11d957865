-- ===== src/Vm/FaultTests.antt =====
-- The theorem on page faults, at a map of two areas.
use cs402_os.Base.{ℕ, ◌+◌}
use cs402_os.Vm.Pagefault.{FaultBits, frame, Pages}

abbrev bits : FaultBits
bits = record {
  prot_none = 0;
  prot_read = 1;
  prot_write = 2;
  fault_write = 2;
  pd_user = 5;
  pt_user = 5;
  pd_write = 2;
  pt_write = 2;
}

-- The frame of a page has its number, and the state counts what is dirty or mapped.
abbrev pages : Pages ℕ
pages = record {
  find_frame = λ obj n wrt w. (frame n, w);
  pf_addr = λ f w. f + 1;
  pframe_dirty = λ f w. w + 1;
  pt_virt_to_phys = λ a w. a;
  pt_map = λ a paddr pd pt w. w + 1;
}
