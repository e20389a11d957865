-- ===== src/Ramfs/Steps.antt =====
-- What each step of an operation does to link counts and references.
use cs402_os.Base.{
  ℕ, zero, suc, ◌+◌, ◌-◌, ◌≤◌, ◌<◌, ◌≡◌, refl, Bool, true, false, Option, none, some, List, [], ◌∷◌,
  ltb, ◌==◌, if◌then◌else◌, get_elem?, arith, ◌∙◌, ap, sym, Option-cases, Bool-cases, inl, inr, ◌⊎◌,
  done,
}
use cs402_os.Ramfs.Vnodes.{
  FileType, data_file, Vnode, Vnodes, FsOps, vget, vput, vput_vnode, drop_vnode, set_inuse,
}
use cs402_os.Ramfs.Inode.{
  Dirent, Inode, Ram, Sizes, Allocators, inode_of, set_inode, copies, is_named, free_slot, behind,
  find_slot,
}
use cs402_os.Ramfs.Ops.{has_page, ramfs_read_vnode, ramfs_delete_vnode, ramfs_ops, set_file}
use cs402_os.Ramfs.Links.{
  at, one, count, inode_of-set, total-set_inode, used, no_extra, IsSafe, refs, used-inode,
}

pub count-copies : (i n : ℕ) → count i (copies n (record { rd_ino = 0; rd_name = [] })) ≡ 0
unfolding count copies
count-copies i zero = refl
count-copies i (suc n) = omega (arith, count-copies i n)

behind-some : (o : Option ℕ) (k : ℕ) → behind o ≡ some k → (j : ℕ) × (o ≡ some j) × (k ≡ suc j)
behind-some none k h = cc
behind-some (some j) k h = (j, refl, cc)

pub set_or :
    {A : Type 0} (v i : ℕ) (p q : Option A) (z : A)
    → (if v == i then p else q) ≡ some z
    → ((v ≡ i) × (p ≡ some z)) ⊎ (q ≡ some z)
set_or v i p q z h = elim (Bool-cases (v == i)) [
  | inl same ↦ inl (ground (arith, same), ground (arith, h, same))
  | inr other ↦ inr (ground (arith, h, other))
]

unnamed-one : (e : Dirent) (i : ℕ) → is_named e.rd_name ≡ false → one i e ≡ 0
unnamed-one e i h = go e.rd_name refl
  where
    go : (name : List ℕ) → e.rd_name ≡ name → one i e ≡ 0
    go [] same = rw same refl
    go (c ∷ name) same = absurd (ground (arith, h, same))

-- A free entry is there and names nothing.
pub free_slot_lem :
    (es : List Dirent) (k : ℕ)
    → free_slot es ≡ some k
    → (e : Dirent) × (get_elem? es k ≡ some e) × ((i : ℕ) → one i e ≡ 0)
unfolding free_slot
free_slot_lem [] k h = cc
free_slot_lem (e ∷ later) k h = elim (Bool-cases (is_named e.rd_name)) [
  | inr free ↦
      let first : k ≡ 0 = ground (arith, h, free) in (e, rw first refl, λ i. unnamed-one e i free)
  | inl named ↦
      let (j, there, next) = behind-some (free_slot later) k (ground (arith, h, named)) in
      let (f, at_j, none_named) = free_slot_lem later j there in (f, rw next at_j, none_named)
]

-- An entry that is found is there and matches.
pub find_slot_lem :
    (name_match : List ℕ → List ℕ → ℕ → Bool) (name : List ℕ) (len : ℕ) (es : List Dirent) (k : ℕ)
    → find_slot name_match name len es ≡ some k
    → (e : Dirent) × (get_elem? es k ≡ some e) × (name_match e.rd_name name len ≡ true)
unfolding find_slot
find_slot_lem name_match name len [] k h = cc
find_slot_lem name_match name len (e ∷ later) k h =
    elim (Bool-cases (name_match e.rd_name name len)) [
      | inl here ↦ let first : k ≡ 0 = ground (arith, h, here) in (e, rw first refl, here)
      | inr other ↦
          let (j, there, next) =
            behind-some (find_slot name_match name len later) k (ground (arith, h, other)) in
          let (f, at_j, fits) = find_slot_lem name_match name len later j there in
          (f, rw next at_j, fits)
    ]

abbrev pub mode_or : Option Inode → FileType
mode_or none = data_file
mode_or (some x) = x.rf_mode

module _ {M : Type 0} (sz : Sizes) (mem : Allocators M)
    (name_match : List ℕ → List ℕ → ℕ → Bool) where
  abbrev pub FS : FsOps (Ram M)
  FS = ramfs_ops sz mem name_match

  abbrev pub S : Type 0
  S = Vnodes (Ram M)

  -- Inodes are where they were, with their kind and their entries.
  abbrev pub Kept : S → S → Type 0
  Kept s t =
      (i : ℕ) (x : Inode)
      → inode_of i s.rest ≡ some x
      → (y : Inode) × (inode_of i t.rest ≡ some y)
        × (y.entries ≡ x.entries)
        × (y.rf_mode ≡ x.rf_mode)

  -- A change of an inode that leaves the sum of its needs and links in order.
  pub set_file_lem :
      (extra debt extra' debt' : ℕ → ℕ) (v : ℕ) (x y : Inode) (s : S)
      → IsSafe extra debt s
      → inode_of v s.rest ≡ some x
      → y.rf_ino ≡ x.rf_ino
      → y.rf_mode ≡ x.rf_mode
      → ((i : ℕ)
          → count i y.entries + extra' i + (if v == i then x.rf_linkcount else 0) + debt i
            ≤ count i x.entries + extra i + (if v == i then y.rf_linkcount else 0) + debt' i)
      → IsSafe extra' debt' (set_file sz mem name_match v y s)
  set_file_lem extra debt extra' debt' v x y s safe there ino mode order = record {
    numbered = λ i z e.
        elim (set_or v i (some y) (inode_of i s.rest) z
          (sym (inode_of-set s.rest v x there (some y) i) ∙ e)) [
            | inl (here, same) ↦
                let ends : z.rf_ino ≡ y.rf_ino =
                  ap (λ (o : Option Inode). elim o [ none ↦ 0 | some w ↦ w.rf_ino ]) (sym same) in
                ends ∙ ino ∙ safe.numbered v x there ∙ here
            | inr old ↦ safe.numbered i z old
          ];
    linked = λ i. ground (
      arith,
      inode_of-set s.rest v x there (some y) i,
      total-set_inode s.rest v x there (some y) i,
      safe.linked i,
      order i,
      there,
    );
    held = safe.held;
    modes = λ u w z used_u e.
        elim (set_or v u (some y) (inode_of u s.rest) z
          (sym (inode_of-set s.rest v x there (some y) u) ∙ e)) [
            | inl (here, same) ↦
                let ends : y.rf_mode ≡ z.rf_mode = ap (λ (o : Option Inode). mode_or o) same in
                safe.modes u w x used_u (rw (← here) there) ∙ sym mode ∙ ends
            | inr old ↦ safe.modes u w z used_u old
          ];
  }

  pub set_file-Kept :
      (v : ℕ) (x y : Inode) (s : S)
      → inode_of v s.rest ≡ some x
      → y.entries ≡ x.entries
      → y.rf_mode ≡ x.rf_mode
      → Kept s (set_file sz mem name_match v y s)
  set_file-Kept v x y s there same mode i z e = elim (Bool-cases (v == i)) [
    | inl here ↦
        let eq : v ≡ i = ground (arith, here) in
        let is_x : some x ≡ some z = sym there ∙ (rw eq e) in
        (
          y,
          inode_of-set s.rest v x there (some y) i ∙ rw here refl,
          same ∙ ap (λ (o : Option Inode). elim o [ none ↦ [] | some w ↦ w.entries ]) is_x,
          mode ∙ ap (λ (o : Option Inode). mode_or o) is_x,
        )
    | inr other ↦ (z, inode_of-set s.rest v x there (some y) i ∙ rw other e, refl, refl)
  ]

  -- A vnode is put into the list of those in use, or changed there.
  set_vnode_lem :
      (extra debt extra' : ℕ → ℕ) (v : ℕ) (w : Vnode) (s : S)
      → IsSafe extra debt s
      → w.vn_nrespages ≡ 0
      → 0 < w.vn_refcount
      → ((z : Inode) → inode_of v s.rest ≡ some z → w.vn_mode ≡ z.rf_mode)
      → ((i : ℕ) → (if v == i then 1 else used (s.inuse i)) + extra' i ≤ used (s.inuse i) + extra i)
      → IsSafe extra' debt (set_inuse FS v (some w) s)
  set_vnode_lem extra debt extra' v w s safe pages alive mode order = record {
    numbered = safe.numbered;
    linked = λ i. ground (arith, safe.linked i, order i);
    held = λ u y h. elim (set_or v u (some w) (s.inuse u) y h) [
      | inl (here, same) ↦ (
        ap (λ (o : Option Vnode). elim o [ none ↦ 0 | some z ↦ z.vn_nrespages ]) (sym same) ∙ pages,
        ground (arith, alive, ap refs same),
      )
      | inr old ↦ safe.held u y old
    ];
    modes = λ u y z h k. elim (set_or v u (some w) (s.inuse u) y h) [
      | inl (here, same) ↦
          ap (λ (o : Option Vnode). elim o [ none ↦ data_file | some q ↦ q.vn_mode ]) (sym same)
          ∙ mode z (rw here k)
      | inr old ↦ safe.modes u y z old k
    ];
  }

  vget_new :
      (v : ℕ) (x : Inode) (s : S)
      → s.inuse v ≡ none
      → inode_of v s.rest ≡ some x
      → x.rf_ino ≡ v
      → vget FS v s
        ≡ done (
            set_inuse FS v
              (some (record {
                vn_refcount = 1;
                vn_nrespages = 0;
                vn_len = x.rf_size;
                vn_mode = x.rf_mode;
              }))
              (set_file sz mem name_match v (record x { rf_linkcount = x.rf_linkcount + 1 }) s))
  unfolding vget ramfs_read_vnode
  vget_new v x s e there number = ground (arith, e, there, number)

  -- `vget` of a vnode whose inode is there takes a reference.
  pub vget_lem :
      (extra debt : ℕ → ℕ) (v : ℕ) (x : Inode) (s : S)
      → IsSafe extra debt s
      → inode_of v s.rest ≡ some x
      → (t : S) × (vget FS v s ≡ done t)
        × IsSafe extra debt t
        × Kept s t
        × ((u : ℕ) → refs (t.inuse u) ≡ refs (s.inuse u) + at v u)
  unfolding vget ramfs_read_vnode
  vget_lem extra debt v x s safe there = elim (Option-cases (s.inuse v)) [
    | inr (y, e) ↦
        let (pages, alive) = safe.held v y e in
        (
          set_inuse FS v (some (record y { vn_refcount = y.vn_refcount + 1 })) s,
          ground (arith, e, alive),
          set_vnode_lem extra debt extra v (record y { vn_refcount = y.vn_refcount + 1 }) s safe
              pages (omega arith) (λ z k. safe.modes v y z e k) (λ i. ground (arith, e)),
          λ i z k. (z, k, refl, refl),
          λ u. ground (arith, e),
        )
    | inl e ↦
        let x1 = record x { rf_linkcount = x.rf_linkcount + 1 } in
        let s1 = set_file sz mem name_match v x1 s in
        let number = safe.numbered v x there in
        let more =
          set_file_lem extra debt (λ i. extra i + at v i) debt v x x1 s safe there refl refl
            (λ i. ground arith) in
        let self : inode_of v s1.rest ≡ some x1 =
          inode_of-set s.rest v x there (some x1) v ∙ ground arith in
        let w : Vnode = record {
          vn_refcount = 1;
          vn_nrespages = 0;
          vn_len = x.rf_size;
          vn_mode = x.rf_mode;
        } in
        (
          set_inuse FS v (some w) s1,
          vget_new v x s e there number,
          set_vnode_lem (λ i. extra i + at v i) debt extra v w s1 more refl (omega arith)
              (λ z k. ap mode_or (sym self ∙ k)) (λ i. ground (arith, e)),
          set_file-Kept v x x1 s there refl refl,
          λ u. ground (arith, e),
        )
  ]

  drop_more :
      (v : ℕ) (x : Inode) (s : S)
      → inode_of v s.rest ≡ some x
      → (x.rf_linkcount == 1) ≡ false
      → drop_vnode FS v s
        ≡ done (
            set_file sz mem name_match v
              (record x { rf_linkcount = x.rf_linkcount - 1 })
              (set_inuse FS v none s))
  unfolding drop_vnode ramfs_delete_vnode
  drop_more v x s there more = ground (arith, there, more)

  -- The state without the inode and the vnode.
  abbrev freed : ℕ → Inode → S → S
  freed v x s =
      let h = if has_page x.rf_mode then mem.page_free s.rest.heap else s.rest.heap in
      set_inuse FS v none
        (record s { rest = set_inode v none (record s.rest { heap = mem.kfree h }) })

  drop_last :
      (v : ℕ) (x : Inode) (s : S)
      → inode_of v s.rest ≡ some x
      → (x.rf_linkcount == 1) ≡ true
      → drop_vnode FS v s ≡ done (freed v x s)
  unfolding drop_vnode ramfs_delete_vnode
  drop_last v x s there last = ground (arith, there, last)

  freed-IsSafe :
      (extra : ℕ → ℕ) (v : ℕ) (x : Inode) (s : S)
      → IsSafe (λ i. extra i + at v i) no_extra (set_inuse FS v none s)
      → inode_of v s.rest ≡ some x
      → x.rf_linkcount ≡ 1
      → IsSafe extra no_extra (freed v x s)
  freed-IsSafe extra v x s safe there last = record {
    numbered = λ i z e.
        elim (set_or v i none (inode_of i s.rest) z
          (sym (inode_of-set s.rest v x there none i) ∙ e)) [
            | inl (here, same) ↦ cc
            | inr old ↦ safe.numbered i z old
          ];
    linked = λ i. ground (
      arith,
      inode_of-set s.rest v x there none i,
      total-set_inode s.rest v x there none i,
      safe.linked i,
      there,
      last,
    );
    held = safe.held;
    modes = λ u y z h e.
        elim (set_or v u none (inode_of u s.rest) z
          (sym (inode_of-set s.rest v x there none u) ∙ e)) [
            | inl (here, same) ↦ cc
            | inr old ↦ safe.modes u y z h old
          ];
  }

  drop_vnode_lem :
      (extra : ℕ → ℕ) (v : ℕ) (s : S)
      → IsSafe extra no_extra s
      → 0 < used (s.inuse v)
      → (t : S) × (drop_vnode FS v s ≡ done t)
        × IsSafe extra no_extra t
        × ((u : ℕ) → refs (t.inuse u) ≡ (if v == u then 0 else refs (s.inuse u)))
  unfolding drop_vnode ramfs_delete_vnode
  drop_vnode_lem extra v s safe in_use =
      let s1 = set_inuse FS v none s in
      let set_aside : IsSafe (λ i. extra i + at v i) no_extra s1 = record {
        numbered = safe.numbered;
        linked = λ i. ground (arith, safe.linked i, in_use);
        held = λ u y h. elim (set_or v u none (s.inuse u) y h) [
          | inl (here, same) ↦ cc
          | inr old ↦ safe.held u y old
        ];
        modes = λ u y z h k. elim (set_or v u none (s.inuse u) y h) [
          | inl (here, same) ↦ cc
          | inr old ↦ safe.modes u y z old k
        ];
      } in
      let (x, there, linked) = used-inode s extra no_extra v safe refl (omega arith) in
      elim (Bool-cases (x.rf_linkcount == 1)) [
        | inl last ↦ (
          freed v x s,
          drop_last v x s there last,
          freed-IsSafe extra v x s set_aside there (ground (arith, last)),
          λ u. ground arith,
        )
        | inr more ↦
            let x1 = record x { rf_linkcount = x.rf_linkcount - 1 } in
            (
              set_file sz mem name_match v x1 s1,
              drop_more v x s there more,
              set_file_lem (λ i. extra i + at v i) no_extra extra no_extra v x x1 s1 set_aside there
                  refl refl (λ i. ground (arith, linked)),
              λ u. ground arith,
            )
      ]

  vput_more :
      (v : ℕ) (y : Vnode) (s : S)
      → s.inuse v ≡ some y
      → y.vn_nrespages ≡ 0
      → ltb 1 y.vn_refcount ≡ true
      → vput FS v s ≡ done (set_inuse FS v (some (record y { vn_refcount = y.vn_refcount - 1 })) s)
  unfolding vput vput_vnode
  vput_more v y s e pages more = ground (arith, e, pages, more)

  vput_last :
      (v : ℕ) (y : Vnode) (s : S)
      → s.inuse v ≡ some y
      → y.vn_nrespages ≡ 0
      → 0 < y.vn_refcount
      → ltb 1 y.vn_refcount ≡ false
      → vput FS v s ≡ drop_vnode FS v s
  unfolding vput vput_vnode
  vput_last v y s e pages alive last = ground (arith, e, pages, alive, last)

  -- `vput` of a vnode in use drops a reference.
  pub vput_lem :
      (extra : ℕ → ℕ) (v : ℕ) (s : S)
      → IsSafe extra no_extra s
      → 0 < used (s.inuse v)
      → (t : S) × (vput FS v s ≡ done t)
        × IsSafe extra no_extra t
        × ((u : ℕ) → refs (t.inuse u) + at v u ≡ refs (s.inuse u))
  vput_lem extra v s safe in_use = elim (Option-cases (s.inuse v)) [
    | inl e ↦ absurd (ground (arith, e))
    | inr (y, e) ↦
        let (pages, alive) = safe.held v y e in
        elim (Bool-cases (ltb 1 y.vn_refcount)) [
          | inl more ↦ (
            set_inuse FS v (some (record y { vn_refcount = y.vn_refcount - 1 })) s,
            vput_more v y s e pages more,
            set_vnode_lem extra no_extra extra v (record y { vn_refcount = y.vn_refcount - 1 }) s
                safe pages (ground (arith, more)) (λ z k. safe.modes v y z e k)
                (λ i. ground (arith, e)),
            λ u. ground (arith, e),
          )
          | inr last ↦
              let (t, dropped, safe', same) = drop_vnode_lem extra v s safe in_use in
              (
                t,
                vput_last v y s e pages alive last ∙ dropped,
                safe',
                λ u. ground (arith, same u, e, alive, last),
              )
        ]
  ]
