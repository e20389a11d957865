-- ===== src/Transactions/Sort.antt =====
-- `sortList` and `BubbleForward` of warmup1/warmup1.c, on the transactions in the order of the list.
-- None is an exit with an error, or a pointer to a next transaction that is not there.
use cs402_os.Base.{
  ℕ, zero, suc, ◌+◌, ◌%◌, ◌^◌, Bool, true, false, ◌||◌, Option, none, some, List, [], ◌∷◌, length,
  ltb, leb, ◌==◌, if◌then◌else◌,
}

-- A transaction: the bits of its time, which is a `long`, the amount and whether it is a deposit.
pub record Transaction : Type 0 where
  pub symbol : Bool
  pub time : ℕ
  pub amount : ℕ

-- `cur_val` and `next_val`: the time as an `int`, which drops all but 32 bits; and 2 ^ 31 more, which
-- keeps the order and is never negative.
unfoldable pub int_time : Transaction → ℕ
int_time x = (x.time + 2 ^ 31) % 2 ^ 32

-- The result of a pass: the list, and whether something was swapped.
abbrev pub before :
    Transaction → Option (List Transaction × Bool) → Option (List Transaction × Bool)
before x none = none
before x (some r) = some (x ∷ r.0, r.1)

abbrev pub swapped :
    Transaction → Option (List Transaction × Bool) → Option (List Transaction × Bool)
swapped x none = none
swapped x (some r) = some (x ∷ r.0, true)

-- `time(NULL)`, the same for a run.
module _ (now : ℕ) where
  -- A round of the outer loop with `n` comparisons left, where `x` is the current transaction.
  unfoldable pub bubble : ℕ → Transaction → List Transaction → Option (List Transaction × Bool)
  bubble zero x rest = some (x ∷ rest, false)
  bubble (suc n) x [] = none
  bubble (suc n) x (y ∷ rest) =
      let ahead = bubble n x rest in
      let stays = bubble n y rest in
      if (int_time x == int_time y) || leb (now + 2 ^ 31) (int_time x)
      then none
      else if ltb (int_time y) (int_time x)
      then swapped y ahead
      else before x stays

  unfoldable pub pass : ℕ → List Transaction → Option (List Transaction × Bool)
  pass n [] = none
  pass n (x ∷ rest) = bubble n x rest

  -- The outer loop with `n` rounds left; a round makes one comparison less than that.
  unfoldable pub sort_loop : ℕ → List Transaction → Option (List Transaction)
  sort_loop zero xs = some xs
  sort_loop (suc n) xs = elim (pass n xs) [
    | none ↦ none
    | some r ↦ let again = sort_loop n r.0 in if r.1 then again else some r.0
  ]

  unfoldable pub sort_list : ℕ → List Transaction → Option (List Transaction)
  sort_list num_items xs = if length xs == num_items then sort_loop num_items xs else none
