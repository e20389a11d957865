-- ===== src/Vm/Space.antt =====
-- The address space that a list of areas stands for: a partial function from page numbers to
-- pages of memory objects. What keeps it well formed, and what lookup and the test for an empty
-- range say of it.
use mathlib.Core.Option
use cs402_os.Base.{
  ℕ, ◌≤◌, ◌<◌, ◌≡◌, refl, Bool, ◌&&◌, Option, none, some, List, [], ◌∷◌, arith, ltb, leb,
  if◌then◌else◌, add_u32, sub_u32,
}
use cs402_os.Vm.Area.{Layout, low_pn, high_pn, Area, VmMap}
use cs402_os.Vm.VmMap.{lookup_loop}

-- The areas are not empty, do not overlap, are sorted by address, and lie between two pages.
abbrev pub IsChain : ℕ → ℕ → List Area → Type 0
IsChain lo hi [] = lo ≤ hi
IsChain lo hi (a ∷ later) = (lo ≤ a.start) × (a.start < a.end) × IsChain a.end hi later

-- A well-formed map lies in user memory.
abbrev pub IsValid : Layout → VmMap → Type 0
IsValid l m = IsChain (low_pn l) (high_pn l) m.areas

-- What a page of the address space shows.
pub record Page : Type 0 where
  pub obj : ℕ
  pub pagenum : ℕ
  pub prot : ℕ
  pub flags : ℕ

-- `pagenum` is what a reader of page `vfn` computes: `vfn - vma_start + vma_off`.
abbrev pub page_of : ℕ → Area → Page
page_of vfn a = record {
  obj = a.obj;
  pagenum = add_u32 (sub_u32 vfn a.start) a.off;
  prot = a.prot;
  flags = a.flags;
}

abbrev pub covers : ℕ → Area → Bool
covers vfn a = leb a.start vfn && ltb vfn a.end

unfoldable pub translate : List Area → ℕ → Option Page
translate [] vfn = none
translate (a ∷ later) vfn = if covers vfn a then some (page_of vfn a) else translate later vfn

pub translate-lookup :
    (as' : List Area) (vfn : ℕ) → Option.map (page_of vfn) (lookup_loop vfn as') ≡ translate as' vfn
unfolding translate lookup_loop
translate-lookup [] vfn = refl
translate-lookup (a ∷ later) vfn = ground (arith, translate-lookup later vfn)

-- Below the first area, and from `hi` on, nothing is mapped.
pub translate-below :
    (lo hi : ℕ) (later : List Area) (vfn : ℕ)
    → IsChain lo hi later
    → vfn < lo
    → translate later vfn ≡ none
unfolding translate
translate-below lo hi [] vfn c h = refl
translate-below lo hi (a ∷ later) vfn c h = ground (arith, translate-below a.end hi later vfn c.2)

pub IsChain-le : (lo hi : ℕ) (later : List Area) → IsChain lo hi later → lo ≤ hi
IsChain-le lo hi [] c = c
IsChain-le lo hi (a ∷ later) c = omega (arith, IsChain-le a.end hi later c.2)

pub IsChain-mono :
    (lo lo' hi : ℕ) (later : List Area) → IsChain lo hi later → lo' ≤ lo → IsChain lo' hi later
IsChain-mono lo lo' hi [] c h = omega arith
IsChain-mono lo lo' hi (a ∷ later) c h = (omega arith, c.1, c.2)

abbrev pub IsFree : List Area → ℕ → ℕ → Type 0
IsFree later first stop = (vfn : ℕ) → first ≤ vfn → vfn < stop → translate later vfn ≡ none
