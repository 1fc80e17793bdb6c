-- ===== src/HashTable/Cell.antt =====
-- The cell of a new element: a deleted one, or the next of the array, which grows.
use go_libutp.Prelude.{
  ℕ, ◌+◌, ◌*◌, ◌/◌, ◌<◌, ◌≤◌, ◌≡◌, inl, inr, refl, ap, sym, ◌∙◌, subst, false, ◌||◌, leb, some,
  List, [], ◌∷◌, ◌==◌, ==_iff, arith, length, Bool-cases,
}
use go_libutp.HashTable.{Key, Table, unused, grow, take_cell}
use go_libutp.HashTable.Chains.{has, Distinct, AllBelow, AllBelow-has, Chain}
use go_libutp.HashTable.Layout.{Layout, IsValid}

module _ {K V : Type 0} where
  -- Room is found, and nothing else changes.
  pub record Grown (t t' : Table K V) : Type 0 where
    pub same : t' ≡ record t { allocated = t'.allocated }
    pub room : t.used < t'.allocated
    pub named : t'.allocated ≤ unused

  grow-Grown :
      (t : Table K V)
      → t.used ≤ t.allocated
      → 0 < t.allocated
      → t.allocated ≤ unused
      → t.used < unused
      → (t' : Table K V) × (grow t ≡ some t') × Grown t t'
  unfolding grow
  grow-Grown t room nonempty named few = elim (Bool-cases (t.used == t.allocated)) [
    | inr spare ↦ (t, rw spare refl, record { same = refl; room = ground arith; named = named })
    | inl full ↦ elim (Bool-cases (leb t.allocated (unused / 2))) [
      | inl half ↦ (
        record t { allocated = t.allocated * 2 },
        rw (full, half) refl,
        record { same = refl; room = ground arith; named = ground arith },
      )
      | inr over ↦
          let other : (t.allocated == unused) ≡ false = ground arith in
          (
            record t { allocated = unused },
            rw (full, over, other) refl,
            record { same = refl; room = few; named = omega arith },
          )
    ]
  ]

abbrev pub layout_of : (ℕ → List ℕ) → List ℕ → Layout
layout_of chains frees = record { chains = chains; frees = frees }

not_below : (n : ℕ) (xs : List ℕ) → AllBelow n xs → has n xs ≡ false
not_below n xs b = elim (Bool-cases (has n xs)) [
  | inr out ↦ out
  | inl inside ↦ absurd (omega (arith, AllBelow-has n n xs b inside))
]

module _ (key : Key) {V : Type 0} where
  open key use {Carrier, same, same_iff}

  -- The cell is in no chain, and the deleted elements are those that are left.
  pub record Taken (t : Table Carrier V) (g : Layout) (e : ℕ) (t1 : Table Carrier V) (left : List ℕ)
      : Type 0 where
    pub elems_kept : t1.elems ≡ t.elems
    pub inits_kept : t1.inits ≡ t.inits
    pub n_kept : t1.n ≡ t.n
    pub count_kept : t1.count ≡ t.count
    pub inside : e < t1.used
    pub used_le : t.used ≤ t1.used
    pub freed : Chain t.elems t1.free left
    pub left_below : AllBelow t1.used left
    pub left_distinct : Distinct left
    pub fewer : (i : ℕ) → has i g.frees ≡ false → has i left ≡ false
    pub fresh : (x : ℕ) → x < t.n → has e (g.chains x) ≡ false
    pub not_left : has e left ≡ false
    pub cells : t.count + length left + 1 ≡ t1.used
    pub room : t1.used ≤ t1.allocated
    pub named : t1.allocated ≤ unused

  pub take_cell-Taken :
      (t : Table Carrier V) (chains : ℕ → List ℕ) (frees : List ℕ)
      → IsValid key t (layout_of chains frees)
      → t.count < unused
      → (e : ℕ) × (t1 : Table Carrier V) × (left : List ℕ) × (take_cell t ≡ some (e, t1))
        × Taken t (layout_of chains frees) e t1 left
  unfolding take_cell
  take_cell-Taken t chains [] v few =
      let last : t.used < unused = omega (arith, v.cells) in
      let (t', grown, r) = grow-Grown t v.room v.nonempty v.named last in
      let used_kept : t'.used ≡ t.used = ap (λ (x : Table Carrier V). x.used) r.same in
      (
        t'.used,
        record t' { used = t'.used + 1 },
        [],
        rw ((==_iff t.free unused).1 v.freed, grown, take_cell) refl,
        record {
          elems_kept = ap (λ (x : Table Carrier V). x.elems) r.same;
          inits_kept = ap (λ (x : Table Carrier V). x.inits) r.same;
          n_kept = ap (λ (x : Table Carrier V). x.n) r.same;
          count_kept = ap (λ (x : Table Carrier V). x.count) r.same;
          inside = omega arith;
          used_le = omega arith;
          freed = ap (λ (x : Table Carrier V). x.free) r.same ∙ v.freed;
          left_below = tt;
          left_distinct = tt;
          fewer = λ i h. refl;
          fresh = λ x h.
              subst (λ u. has u (chains x) ≡ false) (sym used_kept)
                (not_below t.used (chains x) (v.below x h));
          not_left = refl;
          cells = omega (arith, v.cells);
          room = omega (arith, r.room);
          named = r.named;
        },
      )
  take_cell-Taken t chains (e ∷ left) v few =
      let other : (t.free == unused) ≡ false =
        ground (arith, v.freed.0, v.frees_below.0, v.room, v.named) in
      (
        t.free,
        record t { free = (t.elems t.free).link },
        left,
        rw other refl,
        record {
          elems_kept = refl;
          inits_kept = refl;
          n_kept = refl;
          count_kept = refl;
          inside = omega (arith, v.freed.0, v.frees_below.0);
          used_le = omega arith;
          freed = subst (λ x. Chain t.elems (t.elems x).link left) (sym v.freed.0) v.freed.1;
          left_below = v.frees_below.1;
          left_distinct = v.frees_distinct.1;
          fewer = λ i h. ground (arith, h);
          fresh = λ x h. elim (Bool-cases (has t.free (chains x))) [
            | inr out ↦ out
            | inl inside ↦ cc (
                sym (v.apart x t.free h inside)
                ∙ ap (λ y. y || has t.free left) ((==_iff t.free e).1 v.freed.0))
          ];
          not_left = subst (λ x. has x left ≡ false) (sym v.freed.0) v.frees_distinct.0;
          cells = omega (arith, v.cells);
          room = v.room;
          named = v.named;
        },
      )
