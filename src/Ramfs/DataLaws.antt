-- ===== src/Ramfs/DataLaws.antt =====
-- `ramfs_write` with a `ramfs_read` behind it: kernel/fs/ramfs/ramfs.c.
use cs402_os.Base.{
  ℕ, zero, suc, ◌+◌, ◌-◌, ◌≤◌, ◌<◌, ◌≡◌, refl, Bool, false, some, List, [], ◌∷◌, ◌++◌, min, ltb,
  if◌then◌else◌, get_elem?, length, arith, ◌∙◌, ap, sym, inl, inr, ◌⊎◌, done,
}
use cs402_os.Ramfs.Vnodes.{Vnode, set_inuse}
use cs402_os.Ramfs.Inode.{Inode, Sizes, Allocators, inode_of, take}
use cs402_os.Ramfs.Ops.{is_dir_file, ramfs_ops, State, set_file}
use cs402_os.Ramfs.Links.{inode_of-set}
use cs402_os.Ramfs.Data.{drop, overwrite, ramfs_read, ramfs_write}

drop-nil : (n : ℕ) → drop {A = ℕ} n [] ≡ []
unfolding drop
drop-nil zero = refl
drop-nil (suc n) = refl

length-take : (n : ℕ) (xs : List ℕ) → n ≤ length xs → length (take n xs) ≡ n
unfolding take
length-take zero xs h = refl
length-take (suc n) [] h = absurd (omega (arith, h))
length-take (suc n) (x ∷ xs) h = ap suc (length-take n xs (omega (arith, h)))

take-append : (xs ys : List ℕ) → take (length xs) (xs ++ ys) ≡ xs
unfolding take
take-append [] ys = refl
take-append (x ∷ xs) ys = ap (λ (l : List ℕ). x ∷ l) (take-append xs ys)

drop-overwrite :
    (offset : ℕ) (bytes mem : List ℕ)
    → offset ≤ length mem
    → drop offset (overwrite offset bytes mem) ≡ bytes ++ drop (length bytes) (drop offset mem)
unfolding drop overwrite
drop-overwrite zero bytes mem h = refl
drop-overwrite (suc offset) bytes [] h = absurd (omega (arith, h))
drop-overwrite (suc offset) bytes (b ∷ mem) h = drop-overwrite offset bytes mem (omega (arith, h))

get_elem?-behind :
    (bytes mem : List ℕ) (p : ℕ)
    → length bytes ≤ p
    → get_elem? (bytes ++ drop (length bytes) mem) p ≡ get_elem? mem p
unfolding drop
get_elem?-behind [] mem p h = refl
get_elem?-behind (b ∷ bytes) mem zero h = absurd (omega (arith, h))
get_elem?-behind (b ∷ bytes) [] (suc p) h =
    ap (λ (l : List ℕ). get_elem? (bytes ++ l) p) (sym (drop-nil (length bytes)))
    ∙ get_elem?-behind bytes [] p (omega (arith, h))
get_elem?-behind (b ∷ bytes) (c ∷ mem) (suc p) h = get_elem?-behind bytes mem p (omega (arith, h))

-- The places that an `overwrite` leaves alone.
get_elem?-overwrite :
    (offset : ℕ) (bytes mem : List ℕ) (p : ℕ)
    → (p < offset) ⊎ (offset + length bytes ≤ p)
    → get_elem? (overwrite offset bytes mem) p ≡ get_elem? mem p
unfolding overwrite
get_elem?-overwrite zero bytes mem p (inl h) = absurd (omega (arith, h))
get_elem?-overwrite zero bytes mem p (inr h) = get_elem?-behind bytes mem p (omega (arith, h))
get_elem?-overwrite (suc offset) bytes [] p h = refl
get_elem?-overwrite (suc offset) bytes (b ∷ mem) zero h = refl
get_elem?-overwrite (suc offset) bytes (b ∷ mem) (suc p) (inl h) =
    get_elem?-overwrite offset bytes mem p (inl (omega (arith, h)))
get_elem?-overwrite (suc offset) bytes (b ∷ mem) (suc p) (inr h) =
    get_elem?-overwrite offset bytes mem p (inr (omega (arith, h)))

module _ {M : Type 0} (sz : Sizes) (mem : Allocators M) (name_match : List ℕ → List ℕ → ℕ → Bool)
    (file offset : ℕ) (buf : List ℕ) (x : Inode) (v : Vnode)
    (s : State {M = M} sz mem name_match) where
  -- How many bytes `ramfs_write` writes.
  abbrev fits : ℕ
  fits = min (length buf) (sz.page_size - offset)

  -- For a file that is no directory, whose page has the size of a page and whose vnode has the length
  -- of its inode, and an offset within the page, `ramfs_write` writes as many bytes as the page has
  -- room for. Reading them back gives the bytes that were to be written, the other bytes of the page
  -- stay, and the file reaches at least behind the last byte that was written.
  pub ramfs_write-ramfs_read :
      inode_of file s.rest ≡ some x
      → s.inuse file ≡ some v
      → is_dir_file v.vn_mode ≡ false
      → v.vn_len ≡ x.rf_size
      → length x.bytes ≡ sz.page_size
      → offset ≤ sz.page_size
      → (y : Inode) × (t : State {M = M} sz mem name_match) × (ramfs_write sz mem name_match file
            offset buf s
          ≡ done (fits, t))
        × (inode_of file t.rest ≡ some y)
        × (ramfs_read sz mem name_match file offset fits t ≡ done (take fits buf))
        × ((p : ℕ) → (p < offset) ⊎ (offset + fits ≤ p) → get_elem? y.bytes p ≡ get_elem? x.bytes p)
        × (offset + fits ≤ y.rf_size)
        × (x.rf_size ≤ y.rf_size)
  unfolding ramfs_write ramfs_read
  ramfs_write-ramfs_read at_x used plain same whole within =
      let len = if ltb v.vn_len (offset + fits) then offset + fits else v.vn_len in
      let bytes' = overwrite offset (take fits buf) x.bytes in
      let y : Inode = record x { bytes = bytes'; rf_size = len } in
      let w : Vnode = record v { vn_len = len } in
      let s1 : State sz mem name_match = set_inuse (ramfs_ops sz mem name_match) file (some w) s in
      let t = set_file sz mem name_match file y s1 in
      let at_y : inode_of file t.rest ≡ some y =
        inode_of-set s.rest file x at_x (some y) file ∙ ground arith in
      let used_t : t.inuse file ≡ some w = ground arith in
      let long : length (take fits buf) ≡ fits = length-take fits buf (omega arith) in
      let back : take fits (drop offset bytes') ≡ take fits buf =
        ap (λ (n : ℕ). take n (drop offset bytes')) (sym long)
        ∙ ap (take (length (take fits buf)))
            (drop-overwrite offset (take fits buf) x.bytes (omega (arith, whole, within)))
        ∙ take-append (take fits buf) (drop (length (take fits buf)) (drop offset x.bytes)) in
      let outside : (p : ℕ)
          → (p < offset) ⊎ (offset + fits ≤ p)
          → get_elem? bytes' p ≡ get_elem? x.bytes p =
        λ p h.
          get_elem?-overwrite offset (take fits buf) x.bytes p
            (elim h [ inl below ↦ inl below | inr above ↦ inr (omega (arith, above, long)) ]) in
      let size : offset + fits ≤ len = ground arith in
      let size' : x.rf_size ≤ len = ground (arith, same) in
      let all : min fits (len - offset) ≡ fits = omega (arith, size) in
      (
        y,
        t,
        ground (arith, at_x, used, plain, same, within),
        at_y,
        ground (arith, at_y, used_t, plain, all, back),
        outside,
        size,
        size',
      )
