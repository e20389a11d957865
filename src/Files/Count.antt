-- ===== src/Files/Count.antt =====
-- How often a descriptor table names a file.
use cs402_os.Base.{
  ℕ, zero, suc, ◌+◌, ◌≡◌, Option, none, some, List, [], ◌∷◌, arith, ◌==◌, if◌then◌else◌, get_elem?,
  set,
}

-- 1 where a slot of the table holds `f`.
abbrev pub names : ℕ → Option ℕ → ℕ
names f none = 0
names f (some g) = if f == g then 1 else 0

unfoldable pub count : ℕ → List (Option ℕ) → ℕ
count f [] = 0
count f (x ∷ fds) = names f x + count f fds

pub count-set :
    (f : ℕ) (fds : List (Option ℕ)) (n : ℕ) (x y : Option ℕ)
    → get_elem? fds n ≡ some x
    → count f (set fds n y) + names f x ≡ count f fds + names f y
unfolding count
count-set f [] n x y h = cc
count-set f (z ∷ fds) zero x y h = ground arith
count-set f (z ∷ fds) (suc n) x y h = omega (arith, count-set f fds n x y h)
