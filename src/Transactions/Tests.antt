-- ===== src/Transactions/Tests.antt =====
-- A run of `sortList` of warmup1/warmup1.c on three transactions.
use cs402_os.Base.{◌≡◌, refl, true, false, ◌⊎◌, none, some, List, [], ◌∷◌}
use mathlib.Core.List.{Perm}
use cs402_os.Transactions.Sort.{Transaction, int_time, bubble, pass, sort_loop, sort_list}
use cs402_os.Transactions.SortLaws.{IsSorted, IsWrong, sort_list_lem}

abbrev rent : Transaction
rent = record { symbol = false; time = 30; amount = 70000 }

abbrev wage : Transaction
wage = record { symbol = true; time = 10; amount = 200000 }

abbrev book : Transaction
book = record { symbol = false; time = 20; amount = 1250 }

sort_list_example :
    ((sort_list 100 3 (rent ∷ wage ∷ book ∷ []) ≡ none) × IsWrong 100 (rent ∷ wage ∷ book ∷ []))
    ⊎ ((ys : List Transaction) × (sort_list 100 3 (rent ∷ wage ∷ book ∷ []) ≡ some ys)
        × IsSorted ys
        × Perm (rent ∷ wage ∷ book ∷ []) ys)
sort_list_example = sort_list_lem 100 3 (rent ∷ wage ∷ book ∷ []) refl

sorts_three : sort_list 100 3 (rent ∷ wage ∷ book ∷ []) ≡ some (wage ∷ book ∷ rent ∷ [])
unfolding sort_list sort_loop pass bubble int_time
sorts_three = refl

-- The time of the last transaction is not looked at.
takes_late : sort_list 15 2 (wage ∷ book ∷ []) ≡ some (wage ∷ book ∷ [])
unfolding sort_list sort_loop pass bubble int_time
takes_late = refl

-- A time of 2 ^ 31 is negative as an `int`.
abbrev late : Transaction
late = record { symbol = true; time = 2147483648; amount = 100 }

sorts_overflow : sort_list 100 2 (wage ∷ late ∷ []) ≡ some (late ∷ wage ∷ [])
unfolding sort_list sort_loop pass bubble int_time
sorts_overflow = refl
