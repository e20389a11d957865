-- ===== src/My402List/Links.antt =====
-- How the insertions and `My402ListUnlink` relate.
use cs402_os.Base.{
  ℕ, zero, suc, ◌+◌, ◌≡◌, refl, true, Option, none, some, ◌==◌, done, Bool-cases, inl, inr, arith,
  ◌<◌,
}
use cs402_os.My402List.Ops.{
  My402ListElem, My402List, write, cell, set_next, set_prev, one_more, append, unlink_cell,
  insert_after,
}

-- Where an element and the one that follows it link to each other, and `malloc` returns a cell that
-- is not in use, `My402ListInsertAfter` succeeds: the new element has the object, stands between the
-- two, which link to it and keep their objects, and is counted. `My402ListUnlink` of the new element brings
-- back every cell and the number of members.
pub unlink_cell-insert_after :
    (anchor element object temp : ℕ) (s : My402List) (e n : My402ListElem)
    → 0 < element
    → s.cells element ≡ some e
    → s.cells e.next ≡ some n
    → n.prev ≡ element
    → s.cells temp ≡ none
    → (s1 s2 : My402List) × (insert_after anchor (some temp) object element s ≡ done (true, s1))
      × (unlink_cell anchor temp s1 ≡ done s2)
      × (s2.num_members ≡ s.num_members)
      × ((a : ℕ) → s2.cells a ≡ s.cells a)
      × (s1.num_members ≡ s.num_members + 1)
      × (s1.cells temp ≡ some (record { obj = object; next = e.next; prev = element }))
      × ((e1 n1 : My402ListElem) × (s1.cells element ≡ some e1)
          × (e1.next ≡ temp)
          × (e1.obj ≡ e.obj)
          × (s1.cells e.next ≡ some n1)
          × (n1.prev ≡ temp)
          × (n1.obj ≡ n.obj))
unfolding insert_after unlink_cell set_next set_prev cell
unlink_cell-insert_after anchor zero object temp s e n nz here there back unused =
    absurd (omega arith)
unlink_cell-insert_after anchor (suc k) object temp s e n nz here there back unused =
    let element : ℕ = suc k in
    let fresh : My402ListElem = record { obj = object; next = e.next; prev = element } in
    let linked = write element (some (record e { next = temp })) (write temp (some fresh) s) in
    elim (Bool-cases (e.next == element)) [
      | inl alone ↦
          let s1 = one_more (write element (some (record e { next = temp; prev = temp })) linked) in
          let s2 =
            write temp none
              (write element (some e) (write element (some (record e { prev = temp })) s1)) in
          let e1 : My402ListElem = record e { next = temp; prev = temp } in
          (
            s1,
            record s2 { num_members = s.num_members },
            ground arith,
            ground arith,
            refl,
            λ a. ground arith,
            refl,
            ground arith,
            (e1, e1, ground arith, refl, refl, ground arith, refl, ground (arith, here, there)),
          )
      | inr more ↦
          let s1 = one_more (write e.next (some (record n { prev = temp })) linked) in
          let s2 = write temp none (write e.next (some n) (write element (some e) s1)) in
          (
            s1,
            record s2 { num_members = s.num_members },
            ground arith,
            ground arith,
            refl,
            λ a. ground arith,
            refl,
            ground arith,
            (
              record e { next = temp },
              record n { prev = temp },
              ground arith,
              refl,
              refl,
              ground arith,
              refl,
              refl,
            ),
          )
    ]

-- On a list whose anchor links to itself forwards only where it does backwards, and whose last
-- element links to the anchor, `My402ListAppend` is `My402ListInsertAfter` at the last element.
pub append-insert_after :
    (anchor object : ℕ) (p : Option ℕ) (s : My402List) (a l : My402ListElem)
    → s.cells anchor ≡ some a
    → s.cells a.prev ≡ some l
    → l.next ≡ anchor
    → 0 < a.prev
    → (a.next ≡ anchor → a.prev ≡ anchor)
    → append anchor p object s ≡ insert_after anchor p object a.prev s
unfolding append insert_after set_next set_prev cell
append-insert_after anchor object none s a l here last back nz ring = ground arith
append-insert_after anchor object (some temp) s a l here last back nz ring = ground arith
