-- ===== src/My402List/Tests.antt =====
-- The theorems on the list at a list of one member.
use cs402_os.Base.{ℕ, ◌≡◌, refl, true, none, some, ◌==◌, if◌then◌else◌, done, arith}
use cs402_os.My402List.Ops.{My402ListElem, My402List, unlink_cell, insert_after}
use cs402_os.My402List.Links.{unlink_cell-insert_after}

abbrev anchor_cell : My402ListElem
anchor_cell = record { obj = 0; next = 8; prev = 8 }

abbrev member_cell : My402ListElem
member_cell = record { obj = 70; next = 4; prev = 4 }

abbrev singleton : My402List
singleton = record {
  cells = λ a. if a == 4 then some anchor_cell else if a == 8 then some member_cell else none;
  num_members = 1;
}

unlink_cell-insert_after_example :
    (s1 s2 : My402List) × (insert_after 4 (some 12) 71 8 singleton ≡ done (true, s1))
    × (unlink_cell 4 12 s1 ≡ done s2)
    × (s2.num_members ≡ singleton.num_members)
    × ((a : ℕ) → s2.cells a ≡ singleton.cells a)
    × (s1.num_members ≡ 2)
    × (s1.cells 12 ≡ some (record { obj = 71; next = 4; prev = 8 }))
    × ((e1 n1 : My402ListElem) × (s1.cells 8 ≡ some e1)
        × (e1.next ≡ 12)
        × (e1.obj ≡ 70)
        × (s1.cells 4 ≡ some n1)
        × (n1.prev ≡ 12)
        × (n1.obj ≡ 0))
unlink_cell-insert_after_example =
    unlink_cell-insert_after 4 8 71 12 singleton member_cell anchor_cell (omega arith) refl refl
      refl refl
