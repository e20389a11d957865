-- ===== src/Transactions/SortLaws.antt =====
-- Proofs on `sortList` of warmup1/warmup1.c.
use cs402_os.Base.{
  ℕ, zero, suc, ◌+◌, ◌^◌, ◌≤◌, ◌<◌, ◌≡◌, refl, Bool, true, false, ◌||◌, ◌⊎◌, inl, inr, none, some,
  List, [], ◌∷◌, ◌++◌, length, ltb, leb, if◌then◌else◌, ◌==◌, All, arith, ◌∙◌, ap, sym, subst,
  Bool-cases,
}
use mathlib.Core.List.{Perm, append_assoc, append-nil}
use mathlib.Core.List.Perm
use cs402_os.Transactions.Sort.{int_time, Transaction, before, bubble, pass, sort_loop, sort_list}

abbrev pub IsSorted : List Transaction → Type 0
IsSorted [] = Unit
IsSorted (x ∷ []) = Unit
IsSorted (x ∷ y ∷ rest) = (int_time x < int_time y) × IsSorted (y ∷ rest)

abbrev IsBefore : Transaction → Transaction → Type 0
IsBefore y x = int_time x < int_time y

unfoldable pub sum : (Transaction → ℕ) → List Transaction → ℕ
sum f [] = 0
sum f (x ∷ xs) = f x + sum f xs

sum-append :
    (f : Transaction → ℕ) (xs ys : List Transaction) → sum f (xs ++ ys) ≡ sum f xs + sum f ys
unfolding sum
sum-append f [] ys = omega arith
sum-append f (x ∷ xs) ys = omega (arith, sum-append f xs ys)

abbrev pub at : ℕ → Transaction → ℕ
at t x = if int_time x == t then 1 else 0

abbrev pub late : ℕ → Transaction → ℕ
late now x = if leb (now + 2 ^ 31) (int_time x) then 1 else 0

-- Two transactions have the same time, or one has a time that is not over.
abbrev pub IsWrong : ℕ → List Transaction → Type 0
IsWrong now xs = ((t : ℕ) × (2 ≤ sum (at t) xs)) ⊎ (1 ≤ sum (late now) xs)

-- A list with at least the same sums.
IsWrong-sums :
    (now : ℕ) (xs ys : List Transaction)
    → ((f : Transaction → ℕ) → sum f xs ≤ sum f ys)
    → IsWrong now xs
    → IsWrong now ys
IsWrong-sums now xs ys le (inl (t, two)) = inl (t, omega (arith, le (at t), two))
IsWrong-sums now xs ys le (inr one) = inr (omega (arith, le (late now), one))

IsWrong-pair :
    (now : ℕ) (x y : Transaction) (rest : List Transaction)
    → ((int_time x == int_time y) || leb (now + 2 ^ 31) (int_time x)) ≡ true
    → IsWrong now (x ∷ y ∷ rest)
unfolding sum
IsWrong-pair now x y rest h = elim (Bool-cases (leb (now + 2 ^ 31) (int_time x))) [
  | inl over ↦ inr (ground (arith, over))
  | inr early ↦ inl (int_time y, ground (arith, h, early))
]

module _ (now : ℕ) (P : Transaction → Type 0) where
  -- What a pass over `x ∷ front` makes of it: the latest transaction `m` behind the others.
  record Bubbled (n : ℕ) (x : Transaction) (front back : List Transaction) : Type 0 where
    others : List Transaction
    m : Transaction
    swaps : Bool
    runs : bubble now n x (front ++ back) ≡ some (others ++ m ∷ back, swaps)
    long : length others ≡ n
    all : All P others
    last : P m
    above : All (IsBefore m) others
    least : int_time x ≤ int_time m
    same : Perm (x ∷ front) (others ++ m ∷ [])
    sums : (f : Transaction → ℕ) → sum f others + f m ≡ f x + sum f front
    stays : swaps ≡ false → IsSorted (x ∷ front) × (others ++ m ∷ [] ≡ x ∷ front)

  abbrev Stops : ℕ → Transaction → List Transaction → List Transaction → Type 0
  Stops n x front back = (bubble now n x (front ++ back) ≡ none) × IsWrong now (x ∷ front)

  bubble_lem :
      (n : ℕ) (x : Transaction) (front back : List Transaction)
      → length front ≡ n
      → P x
      → All P front
      → Stops n x front back ⊎ Bubbled n x front back
  unfolding bubble sum
  bubble_lem zero x (y ∷ front) back e px pf = absurd (omega (arith, e))
  bubble_lem zero x [] back e px pf = inr (record {
    others = [];
    m = x;
    swaps = false;
    runs = refl;
    long = refl;
    all = tt;
    last = px;
    above = tt;
    least = omega arith;
    same = Perm.refl (x ∷ []);
    sums = λ f. omega arith;
    stays = λ h. (tt, refl);
  })
  bubble_lem (suc n) x [] back e px pf = absurd (omega (arith, e))
  bubble_lem (suc n) x (y ∷ front) back e px pf =
      elim (Bool-cases ((int_time x == int_time y) || leb (now + 2 ^ 31) (int_time x))) [
        | inl wrong ↦ inl (ground (arith, wrong), IsWrong-pair now x y front wrong)
        | inr right ↦ elim (Bool-cases (ltb (int_time y) (int_time x))) [
          | inl later ↦ swaps_on right later (bubble_lem n x front back (omega (arith, e)) px pf.1)
          | inr sooner ↦
              goes_on right sooner (bubble_lem n y front back (omega (arith, e)) pf.0 pf.1)
        ]
      ]
    where
      swaps_on :
          ((int_time x == int_time y) || leb (now + 2 ^ 31) (int_time x)) ≡ false
          → ltb (int_time y) (int_time x) ≡ true
          → Stops n x front back ⊎ Bubbled n x front back
          → Stops (suc n) x (y ∷ front) back ⊎ Bubbled (suc n) x (y ∷ front) back
      swaps_on right later (inl (out, wrong)) = inl (
        ground (arith, right, later, out),
        IsWrong-sums now (x ∷ front) (x ∷ y ∷ front) (λ f. omega arith) wrong,
      )
      swaps_on right later (inr b) = inr (record {
        others = y ∷ b.others;
        m = b.m;
        swaps = true;
        runs = ground (arith, right, later, b.runs);
        long = omega (arith, b.long);
        all = (pf.0, b.all);
        last = b.last;
        above = (ground (arith, later, b.least), b.above);
        least = b.least;
        same = Perm.trans (Perm.swap y x front) (Perm.cons y b.same);
        sums = λ f. omega (arith, b.sums f);
        stays = λ h. cc;
      })

      goes_on :
          ((int_time x == int_time y) || leb (now + 2 ^ 31) (int_time x)) ≡ false
          → ltb (int_time y) (int_time x) ≡ false
          → Stops n y front back ⊎ Bubbled n y front back
          → Stops (suc n) x (y ∷ front) back ⊎ Bubbled (suc n) x (y ∷ front) back
      goes_on right sooner (inl (out, wrong)) = inl (
        ground (arith, right, sooner, out),
        IsWrong-sums now (y ∷ front) (x ∷ y ∷ front) (λ f. omega arith) wrong,
      )
      goes_on right sooner (inr b) =
          let lt : int_time x < int_time y = ground (arith, right, sooner) in
          inr (record {
            others = x ∷ b.others;
            m = b.m;
            swaps = b.swaps;
            runs = ground (arith, right, sooner, b.runs);
            long = omega (arith, b.long);
            all = (px, b.all);
            last = b.last;
            above = (omega (arith, lt, b.least), b.above);
            least = omega (arith, lt, b.least);
            same = Perm.cons x b.same;
            sums = λ f. omega (arith, b.sums f);
            stays = λ h. ((lt, (b.stays h).0), ap (λ (l : List Transaction). x ∷ l) (b.stays h).1);
          })

-- `x` is before every one of `ys`.
abbrev BeforeAll : List Transaction → Transaction → Type 0
BeforeAll ys x = All (λ y. int_time x < int_time y) ys

IsSorted-cons :
    (m : Transaction) (ys : List Transaction) → BeforeAll ys m → IsSorted ys → IsSorted (m ∷ ys)
IsSorted-cons m [] before sorted = tt
IsSorted-cons m (y ∷ ys) before sorted = (before.0, sorted)

IsSorted-append :
    (xs ys : List Transaction)
    → IsSorted xs
    → IsSorted ys
    → All (BeforeAll ys) xs
    → IsSorted (xs ++ ys)
IsSorted-append [] ys hx hy before = hy
IsSorted-append (x ∷ []) ys hx hy before = IsSorted-cons x ys before.0 hy
IsSorted-append (x ∷ a ∷ xs) ys hx hy before = (hx.0, IsSorted-append (a ∷ xs) ys hx.1 hy before.1)

All-zip :
    (m : Transaction) (ys xs : List Transaction)
    → All (IsBefore m) xs
    → All (BeforeAll ys) xs
    → All (BeforeAll (m ∷ ys)) xs
All-zip m ys [] h g = tt
All-zip m ys (x ∷ xs) h g = ((h.0, g.0), All-zip m ys xs h.1 g.1)

module _ (now : ℕ) where
  Sorts : ℕ → List Transaction → Type 0
  Sorts n xs =
      ((sort_loop now n xs ≡ none) × IsWrong now xs)
      ⊎ ((ys : List Transaction) × (sort_loop now n xs ≡ some ys) × IsSorted ys × Perm xs ys)

  sort_loop_lem :
      (n : ℕ) (front back : List Transaction)
      → length front ≡ n
      → IsSorted back
      → All (BeforeAll back) front
      → Sorts n (front ++ back)
  unfolding sort_loop pass Sorts sum
  sort_loop_lem zero (x ∷ front) back e sorted before = absurd (omega (arith, e))
  sort_loop_lem zero [] back e sorted before = inr (back, refl, sorted, Perm.refl back)
  sort_loop_lem (suc n) [] back e sorted before = absurd (omega (arith, e))
  sort_loop_lem (suc n) (x ∷ front) back e sorted before =
      round
        (λ b.
          sort_loop_lem n b.others (b.m ∷ back) b.long (IsSorted-cons b.m back b.last sorted)
            (All-zip b.m back b.others b.above b.all))
        (bubble_lem now (BeforeAll back) n x front back (omega (arith, e)) before.0 before.1)
    where
      joined :
          (b : Bubbled now (BeforeAll back) n x front back)
          → Perm (x ∷ front ++ back) (b.others ++ b.m ∷ back)
      joined b =
          subst (λ l. Perm (x ∷ front ++ back) l) (append_assoc b.others (b.m ∷ []) back)
            (Perm.append_right back b.same)

      again :
          (b : Bubbled now (BeforeAll back) n x front back)
          → b.swaps ≡ true
          → Sorts n (b.others ++ b.m ∷ back)
          → Sorts (suc n) (x ∷ front ++ back)
      again b busy (inl (out, wrong)) = inl (
        ground (arith, b.runs, busy, out),
        IsWrong-sums now (b.others ++ b.m ∷ back) (x ∷ front ++ back)
            (λ f.
              omega (arith, b.sums f, sum-append f front back, sum-append f b.others (b.m ∷ back)))
            wrong,
      )
      again b busy (inr (ys, run, ordered, perm)) =
          inr (ys, ground (arith, b.runs, busy, run), ordered, Perm.trans (joined b) perm)

      round :
          ((b : Bubbled now (BeforeAll back) n x front back) → Sorts n (b.others ++ b.m ∷ back))
          → Stops now (BeforeAll back) n x front back ⊎ Bubbled now (BeforeAll back) n x front back
          → Sorts (suc n) (x ∷ front ++ back)
      round rest (inl (out, wrong)) = inl (
        ground (arith, out),
        IsWrong-sums now (x ∷ front) (x ∷ front ++ back)
            (λ f. omega (arith, sum-append f front back)) wrong,
      )
      round rest (inr b) = elim (Bool-cases b.swaps) [
        | inr quiet ↦
            let whole : b.others ++ b.m ∷ back ≡ x ∷ front ++ back =
              sym (append_assoc b.others (b.m ∷ []) back)
              ∙ ap (λ (l : List Transaction). l ++ back) (b.stays quiet).1 in
            inr (
              b.others ++ b.m ∷ back,
              ground (arith, b.runs, quiet),
              subst (λ l. IsSorted l) (sym whole)
                  (IsSorted-append (x ∷ front) back (b.stays quiet).0 sorted before),
              joined b,
            )
        | inl busy ↦ again b busy (rest b)
      ]

  -- For a list of as many transactions as it is told, `sortList` returns the same transactions in the
  -- order of their times as `int`s, no two of which are the same. Or it exits, and then two transactions have
  -- the same time or the time of one is not before the present.
  pub sort_list_lem :
      (num_items : ℕ) (xs : List Transaction)
      → length xs ≡ num_items
      → ((sort_list now num_items xs ≡ none) × IsWrong now xs)
        ⊎ ((ys : List Transaction) × (sort_list now num_items xs ≡ some ys)
            × IsSorted ys
            × Perm xs ys)
  unfolding sort_list Sorts
  sort_list_lem n xs e =
      ended (subst (λ l. Sorts n l) (append-nil xs) (sort_loop_lem n xs [] e tt (before_nil xs)))
    where
      before_nil : (xs : List Transaction) → All (BeforeAll []) xs
      before_nil [] = tt
      before_nil (x ∷ xs) = (tt, before_nil xs)

      ended :
          Sorts n xs
          → ((sort_list now n xs ≡ none) × IsWrong now xs)
            ⊎ ((ys : List Transaction) × (sort_list now n xs ≡ some ys) × IsSorted ys × Perm xs ys)
      ended (inl (out, wrong)) = inl (ground (arith, e, out), wrong)
      ended (inr (ys, run, ordered, perm)) = inr (ys, ground (arith, e, run), ordered, perm)
