-- ===== src/Vm/Area.antt =====
-- `vmarea_t`, `vmmap_t` and what vmmap.c calls on: the slab allocators and the memory objects.
use cs402_os.Base.{ℕ, ◌/◌, ◌<◌, ◌≤◌, ◌^◌, Bool, Option, List, Exec}

-- The constants of the memory headers, which the repository does not hold: PAGE_SIZE,
-- USER_MEM_LOW and USER_MEM_HIGH.
pub record Layout : Type 0 where
  pub page_size : ℕ
  pub user_mem_low : ℕ
  pub user_mem_high : ℕ

-- `ADDR_TO_PN`: the number of the page that an address lies in.
abbrev pub addr_to_pn : Layout → ℕ → ℕ
addr_to_pn l a = a / l.page_size

-- The first page of user memory, and the page at which it ends.
abbrev pub low_pn : Layout → ℕ
low_pn l = addr_to_pn l l.user_mem_low

abbrev pub high_pn : Layout → ℕ
high_pn l = addr_to_pn l l.user_mem_high

-- What the proofs need of the constants: user memory is not empty, and its page numbers are
-- below 2 ^ 31, so that they are positive as an `int`.
pub record IsLayout (l : Layout) : Type 0 where
  pub page : 0 < l.page_size
  pub order : low_pn l ≤ high_pn l
  pub small : high_pn l < 2 ^ 31

-- `vmarea_t`, with its address: pages `start` up to `end` show the pages of `obj` from `off` on.
pub record Area : Type 0 where
  pub addr : ℕ
  pub start : ℕ
  pub end : ℕ
  pub off : ℕ
  pub prot : ℕ
  pub flags : ℕ
  pub vmmap : Option ℕ
  pub obj : ℕ

-- `vmmap_t`, with its address. `areas` is the sequence that `vmm_list` links.
pub record VmMap : Type 0 where
  pub addr : ℕ
  pub proc : Option ℕ
  pub areas : List Area

-- The rest of the kernel, as far as vmmap.c calls it, over an abstract state `W`. An object, a
-- file or an area is given by its address.
pub record Memory (W : Type 0) : Type 0 where
  -- `slab_obj_alloc` and `slab_obj_free` on the allocators of maps and of areas
  pub map_alloc : W → Option ℕ × W
  pub map_free : ℕ → W → W
  pub area_alloc : W → Option ℕ × W
  pub area_free : ℕ → W → W
  -- `mmo_ops->ref` and `mmo_ops->put`
  pub ref : ℕ → W → W
  pub put : ℕ → W → W
  pub bottom_obj : ℕ → W → ℕ
  -- the link `vma_olink` of an area on the list `mmo_vmas` of an object
  pub olink_init : ℕ → W → W
  pub olink_is_linked : ℕ → W → Bool
  pub olink_insert : ℕ → ℕ → W → W
  pub olink_remove : ℕ → W → W
  -- none for NULL
  pub anon_create : W → Option ℕ × W
  pub shadow_create : W → Option ℕ × W
  -- the fields `mmo_shadowed` and `mmo_bottom_obj` of a shadow object
  pub set_shadowed : ℕ → ℕ → W → W
  pub set_bottom : ℕ → ℕ → W → W
  -- `file->vn_ops->mmap`: a panic for a file without it, none where it sets no object
  pub vn_mmap : ℕ → Area → W → Exec (Option ℕ × W)
