-- ===== src/HashTable/Removed.antt =====
-- What the deletion of an element does to the chains.
use go_libutp.Prelude.{
  ℕ, ◌+◌, ◌<◌, ◌≡◌, inl, inr, ap, sym, ◌∙◌, subst, true, Option, some, List, [], ◌∷◌, ◌==◌, ==_iff,
  arith, Bool-cases, Option-cases,
}
use go_libutp.HashTable.{Key, Elem, Table, Place, init, write, unlink, mkidx, delete}
use go_libutp.HashTable.Chains.{has, without, seek, KeysDiffer}
use go_libutp.HashTable.Layout.{Layout, IsValid, Models, value_at, length-le-used}
use go_libutp.HashTable.Unlink.{
  link_before, find_link-before, link_before_lem, unlink_key, unlink_value, unlink_rest,
}
use go_libutp.HashTable.Delete.{unlink-IsValid, link_before-none}

some_inj : (x y : ℕ) → some x ≡ some y → x ≡ y
some_inj x y h = cc h

module _ (key : Key) {V : Type 0} where
  open key use {Carrier, same, same_iff}

  -- The table is as before, less the element `e` of the bucket `b`.
  pub record Removed (t : Table Carrier V) (g : Layout) (b e : ℕ) (t' : Table Carrier V)
      : Type 0 where
    pub valid :
        IsValid key t'
          (record { chains = write g.chains b (without e (g.chains b)); frees = e ∷ g.frees })
    pub n_kept : t'.n ≡ t.n
    pub keys : (j : ℕ) → (t'.elems j).key ≡ (t.elems j).key
    pub values : (j : ℕ) → (t'.elems j).value ≡ (t.elems j).value

  -- The first element with the key of one is that one.
  seek_own :
      (m : ℕ → Elem Carrier V) (xs : List ℕ) (i : ℕ)
      → KeysDiffer key m xs
      → has i xs ≡ true
      → seek key m (m i).key xs ≡ some i
  seek_own m [] i d h = cc h
  seek_own m (j ∷ xs) i (first, d) h = elim (Bool-cases (same (m i).key (m j).key)) [
    | inr miss ↦ rw miss (
        seek_own m xs i d (elim (Bool-cases (i == j)) [
          | inr other ↦ ground arith
          | inl at ↦ cc (
              sym miss ∙ (same_iff (m i).key (m j).key).1 (ap (λ x. (m x).key) ((==_iff i j).0 at)))
        ]))
    | inl hit ↦ rw hit (elim (Bool-cases (i == j)) [
      | inl at ↦ ap some (sym ((==_iff i j).0 at))
      | inr other ↦ cc (
          sym (seek_own m xs i d (ground arith))
          ∙ ap (λ k. seek key m k xs) ((same_iff (m i).key (m j).key).0 hit)
          ∙ first)
    ])
  ]

  unlinked :
      (t : Table Carrier V) (g : Layout) (v : IsValid key t g) (k : Carrier) (p : Place) (c b e : ℕ)
      → mkidx key t k ≡ b
      → c ≡ e
      → link_before key t.elems k (init b) (g.chains b) ≡ some (p, c)
      → Removed t g b e (unlink t p c)
  unlinked t g v k p c b e home at found =
      let found' : link_before key t.elems k (init (mkidx key t k)) (g.chains (mkidx key t k))
          ≡ some (p, c) =
        subst (λ x. link_before key t.elems k (init x) (g.chains x) ≡ some (p, c)) (sym home)
          found in
      subst (λ x. Removed t g x e (unlink t p c)) home
        (subst (λ x. Removed t g (mkidx key t k) x (unlink t p c)) at
          (record {
            valid = unlink-IsValid key t g v k p c found';
            n_kept = (unlink_rest t p c).0;
            keys = λ j. unlink_key t p c j;
            values = λ j. unlink_value t p c j;
          }))

  -- An element of the table is removed with its key.
  pub delete-Removed :
      (t : Table Carrier V) (g : Layout) (b e : ℕ)
      → IsValid key t g
      → b < t.n
      → has e (g.chains b) ≡ true
      → Removed t g b e (delete key t (t.elems e).key).1
  unfolding delete
  delete-Removed t g b e v lt h =
      let k = (t.elems e).key in
      let home : mkidx key t k ≡ b = v.home b e lt h in
      let searched =
        find_link-before key t k (t.used + 1) (init b) (g.chains b) (v.chained b lt) (v.below b lt)
          (omega (arith, v.room, v.named)) (omega (arith, length-le-used key t g b v lt)) in
      let own = seek_own t.elems (g.chains b) e (v.differ b lt) h in
      elim (Option-cases (link_before key t.elems k (init b) (g.chains b))) [
        | inl absent ↦ cc (sym own ∙ link_before-none key t.elems k (init b) (g.chains b) absent)
        | inr ((p, c), found) ↦
            let here = link_before_lem key t.elems k (init b) (g.chains b) p c found in
            rw (delete, home, searched, found)
              (unlinked t g v k p c b e home (some_inj c e (sym here.found ∙ own)) found)
      ]

  -- An element of a table that stands for a map has the value that the map has for its key.
  pub Models-elem :
      (f : Carrier → Option V) (t : Table Carrier V) (m : Models key f t) (b e : ℕ)
      → b < t.n
      → has e (m.layout.chains b) ≡ true
      → f (t.elems e).key ≡ some (t.elems e).value
  Models-elem f t m b e lt h =
      let k = (t.elems e).key in
      let own = seek_own t.elems (m.layout.chains b) e (m.valid.differ b lt) h in
      sym (m.reads k)
      ∙ ap (λ x. value_at key t (seek key t.elems k (m.layout.chains x))) (m.valid.home b e lt h)
      ∙ ap (value_at key t) own
