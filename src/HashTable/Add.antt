-- ===== src/HashTable/Add.antt =====
-- What a new element does to the map.
use go_libutp.Prelude.{
  ℕ, ◌+◌, ◌%◌, ◌<◌, ◌≡◌, inl, inr, refl, ap, sym, ◌∙◌, subst, true, false, ◌||◌, Option, none, some,
  List, ◌∷◌, ◌==◌, ==_iff, if◌then◌else◌, arith, Bool-cases, Option-cases, if_both,
}
use go_libutp.HashTable.{
  Key, Table, unused, write, mkidx, take_cell, link_in, set_value, add, add_value,
}
use go_libutp.HashTable.Chains.{
  has, AllBelow, AllBelow-mono, Chain, Chain-frame, seek, KeysDiffer, seek-has, seek-frame,
  KeysDiffer-frame,
}
use go_libutp.HashTable.Layout.{Layout, total, IsValid, find, value_at, Models, mkidx-lt}
use go_libutp.HashTable.Exchange.{total-write}
use go_libutp.HashTable.Cell.{layout_of, Taken, take_cell-Taken}

module _ (key : Key) {V : Type 0} where
  open key use {Carrier, same, same_iff}

  module _ (t : Table Carrier V) (g : Layout) (v : IsValid key t g) (k : Carrier) (value : V)
      (e : ℕ) (t1 : Table Carrier V) (left : List ℕ) (taken : Taken key t g e t1 left)
      (absent : find key t g k ≡ none) where
    abbrev b : ℕ
    b = mkidx key t k

    abbrev t2 : Table Carrier V
    t2 = set_value key (link_in key t1 k e) e value

    abbrev wider : Layout
    wider = layout_of (write g.chains b (e ∷ g.chains b)) left

    lt : b < t.n
    lt = mkidx-lt key t k v.buckets

    same_bucket : mkidx key t1 k ≡ b
    unfolding mkidx
    same_bucket = ap (λ n. key.compute_hash k % n) taken.n_kept

    key_now : (j : ℕ) → (t2.elems j).key ≡ (if j == e then k else (t.elems j).key)
    unfolding link_in
    key_now j = ground (arith, ap (λ m. (m j).key) taken.elems_kept)

    value_now : (j : ℕ) → (t2.elems j).value ≡ (if j == e then value else (t.elems j).value)
    unfolding link_in
    value_now j = ground (arith, ap (λ m. (m j).value) taken.elems_kept)

    link_now : (j : ℕ) → (t2.elems j).link ≡ (if j == e then t.inits b else (t.elems j).link)
    unfolding link_in
    link_now j = ground (
      arith,
      ap (λ m. (m j).link) taken.elems_kept,
      ap (λ m. m (mkidx key t1 k)) taken.inits_kept,
      ap t.inits same_bucket,
    )

    inits_now : (x : ℕ) → t2.inits x ≡ (if x == b then e else t.inits x)
    unfolding link_in
    inits_now x =
        ap (λ y. if x == y then e else t1.inits x) same_bucket
        ∙ ap (λ m. if x == b then e else m x) taken.inits_kept

    n_now : t2.n ≡ t.n
    unfolding link_in
    n_now = taken.n_kept

    count_now : t2.count ≡ t.count + 1
    unfolding link_in
    count_now = ap (λ c. c + 1) taken.count_kept

    rest_now : (t2.used ≡ t1.used) × (t2.allocated ≡ t1.allocated) × (t2.free ≡ t1.free)
    unfolding link_in
    rest_now = (refl, refl, refl)

    -- The elements of the old chains are not the new one.
    old : (x j : ℕ) → x < t.n → has j (g.chains x) ≡ true → (j == e) ≡ false
    old x j h m = elim (Bool-cases (j == e)) [
      | inr other ↦ other
      | inl at ↦
          cc (sym (taken.fresh x h) ∙ ap (λ y. has y (g.chains x)) (sym ((==_iff j e).0 at)) ∙ m)
    ]

    old_key : (x j : ℕ) → x < t.n → has j (g.chains x) ≡ true → (t2.elems j).key ≡ (t.elems j).key
    old_key x j h m = key_now j ∙ rw (old x j h m) refl

    old_link :
        (x j : ℕ) → x < t.n → has j (g.chains x) ≡ true → (t2.elems j).link ≡ (t.elems j).link
    old_link x j h m = link_now j ∙ rw (old x j h m) refl

    new_key : (t2.elems e).key ≡ k
    new_key = key_now e ∙ rw ((==_iff e e).1 refl) refl

    new_link : (t2.elems e).link ≡ t.inits b
    new_link = link_now e ∙ rw ((==_iff e e).1 refl) refl

    old-Chain : (x : ℕ) → x < t.n → Chain t2.elems (t.inits x) (g.chains x)
    old-Chain x h =
        Chain-frame t.elems t2.elems (t.inits x) (g.chains x) (v.chained x h)
          (λ j m. old_link x j h m)

    chained : (x : ℕ) → x < t2.n → Chain t2.elems (t2.inits x) (wider.chains x)
    chained x h = elim (Bool-cases (x == b)) [
      | inl equal ↦
          rw (equal, inits_now x, equal)
            (refl, subst (λ q. Chain t2.elems q (g.chains b)) (sym new_link) (old-Chain b lt))
      | inr other ↦ rw (other, inits_now x, other) (old-Chain x (omega (arith, n_now)))
    ]

    mkidx_kept : (q : Carrier) → mkidx key t2 q ≡ mkidx key t q
    unfolding mkidx
    mkidx_kept q = ap (λ n. key.compute_hash q % n) n_now

    -- An element of a chain is the new one, in its bucket, or an old one.
    before :
        (x j : ℕ) → (j == e) ≡ false → has j (wider.chains x) ≡ true → has j (g.chains x) ≡ true
    before x j far m = elim (Bool-cases (x == b)) [
      | inr other ↦ rw other at m
      | inl equal ↦
          let m' : (j == e || has j (g.chains b)) ≡ true = rw equal at m in
          ap (λ y. has j (g.chains y)) ((==_iff x b).0 equal) ∙ (rw far at m')
    ]

    home : (x j : ℕ) → x < t2.n → has j (wider.chains x) ≡ true → mkidx key t2 (t2.elems j).key ≡ x
    home x j h m =
        mkidx_kept (t2.elems j).key ∙ ap (mkidx key t) (key_now j) ∙ elim (Bool-cases (j == e)) [
          | inl at ↦ elim (Bool-cases (x == b)) [
            | inl equal ↦ rw at (sym ((==_iff x b).0 equal))
            | inr other ↦
                let m' : has e (g.chains x) ≡ true =
                  ap (λ y. has y (g.chains x)) (sym ((==_iff j e).0 at)) ∙ (rw other at m) in
                cc (sym (taken.fresh x (omega (arith, n_now))) ∙ m')
          ]
          | inr far ↦ rw far (v.home x j (omega (arith, n_now)) (before x j far m))
        ]

    apart : (x i : ℕ) → x < t2.n → has i (wider.chains x) ≡ true → has i left ≡ false
    apart x i h m = elim (Bool-cases (i == e)) [
      | inl at ↦ ap (λ y. has y left) ((==_iff i e).0 at) ∙ taken.not_left
      | inr far ↦ taken.fewer i (v.apart x i (omega (arith, n_now)) (before x i far m))
    ]

    -- What holds of every chain, and of the chain with one element more.
    each_chain :
        (P : List ℕ → Type 0)
        → ((x : ℕ) → x < t.n → P (g.chains x))
        → (P (g.chains b) → P (e ∷ g.chains b))
        → (x : ℕ) → x < t2.n
        → P (wider.chains x)
    each_chain P all more x h = if_both P (x == b) (more (all b lt)) (all x (omega (arith, n_now)))

    freed : Chain t2.elems t2.free left
    freed =
        subst (λ q. Chain t2.elems q left) (sym rest_now.2)
          (Chain-frame t.elems t2.elems t1.free left taken.freed
            (λ j m. link_now j ∙ rw (not_new j m) refl))
      where
        not_new : (j : ℕ) → has j left ≡ true → (j == e) ≡ false
        not_new j m = elim (Bool-cases (j == e)) [
          | inr other ↦ other
          | inl at ↦ cc (sym taken.not_left ∙ ap (λ y. has y left) (sym ((==_iff j e).0 at)) ∙ m)
        ]

    add-IsValid : IsValid key t2 wider
    add-IsValid =
        let sums = total-write g.chains t.n b (e ∷ g.chains b) lt in
        let (used_now, allocated_now, free_now) = rest_now in
        record {
          buckets = omega (arith, v.buckets, n_now);
          chained = chained;
          home = home;
          below =
              each_chain (AllBelow t2.used)
                (λ x h.
                  AllBelow-mono t.used t2.used (g.chains x) (v.below x h)
                    (omega (arith, taken.used_le)))
                (λ old. (omega (arith, taken.inside), old));
          differ =
              each_chain (KeysDiffer key t2.elems)
                (λ x h.
                  KeysDiffer-frame key t.elems t2.elems (g.chains x) (v.differ x h)
                    (λ j m. old_key x j h m))
                (λ old. (
                  seek-frame key t.elems t2.elems (t2.elems e).key (g.chains b)
                        (λ j m. old_key b j lt m)
                      ∙ ap (λ q. seek key t.elems q (g.chains b)) new_key
                      ∙ absent,
                  old,
                ));
          freed = freed;
          frees_below = AllBelow-mono t1.used t2.used left taken.left_below (omega arith);
          frees_distinct = taken.left_distinct;
          apart = apart;
          counted = ap (total wider.chains) n_now ∙ omega (arith, v.counted, sums, count_now);
          cells = omega (arith, taken.cells, count_now);
          room = omega (arith, taken.room);
          nonempty = omega (arith, taken.room, taken.inside);
          named = omega (arith, taken.named);
        }

    -- A key that was there is found with its value.
    found_before :
        (x : ℕ) (q : Carrier)
        → x < t.n
        → value_at key t2 (seek key t2.elems q (g.chains x))
          ≡ value_at key t (seek key t.elems q (g.chains x))
    found_before x q h =
        ap (value_at key t2)
          (seek-frame key t.elems t2.elems q (g.chains x) (λ j m. old_key x j h m))
        ∙ elim (Option-cases (seek key t.elems q (g.chains x))) [
          | inl none_found ↦ rw none_found refl
          | inr (i, found) ↦
              let m = (seek-has key t.elems q (g.chains x) i found).0 in
              rw found (ap some (value_now i ∙ rw (old x i h m) refl))
        ]

    find_now :
        (q : Carrier)
        → value_at key t2 (find key t2 wider q)
          ≡ (if same q k then some value else value_at key t (find key t g q))
    find_now q =
        let x = mkidx key t q in
        ap (λ y. value_at key t2 (seek key t2.elems q (wider.chains y))) (mkidx_kept q)
        ∙ elim (Bool-cases (same q k)) [
          | inl near ↦
              let here : x ≡ b = ap (mkidx key t) ((same_iff q k).0 near) in
              let hit : same q (t2.elems e).key ≡ true = ap (same q) new_key ∙ near in
              let stored : (t2.elems e).value ≡ value =
                value_now e ∙ rw ((==_iff e e).1 refl) refl in
              rw (near, (==_iff x b).1 here, hit) (ap some stored)
          | inr far ↦ rw far (elim (Bool-cases (x == b)) [
            | inl equal ↦
                let miss : same q (t2.elems e).key ≡ false = ap (same q) new_key ∙ far in
                rw (equal, miss)
                  (found_before b q lt
                    ∙ ap (λ y. value_at key t (seek key t.elems q (g.chains y)))
                        (sym ((==_iff x b).0 equal)))
            | inr other ↦ rw other (found_before x q (mkidx-lt key t q v.buckets))
          ])
        ]

  absent_of_none : (t : Table Carrier V) (o : Option ℕ) → value_at key t o ≡ none → o ≡ none
  absent_of_none t none h = refl
  absent_of_none t (some i) h = cc h

  module _ (t t1 : Table Carrier V) (k : Carrier) (value : V) (e : ℕ)
      (took : take_cell t ≡ some (e, t1)) where
    add-linked : add key t k ≡ (some e, link_in key t1 k e)
    unfolding add
    add-linked = rw (add, took) refl

    add_value-linked : add_value key t k value ≡ set_value key (link_in key t1 k e) e value
    unfolding add_value
    add_value-linked =
        ap
          (λ (r : Option ℕ × Table Carrier V). elim r.0 as (λ o. Table Carrier V) [
            | none ↦ r.1
            | some elem ↦ set_value key r.1 elem value
          ])
          add-linked

  -- In a table with fewer elements than a link can name, which stands for a map without a value for the
  -- key, a new element finds room, in a deleted one, in the array or in a larger array, and the table
  -- stands for the map with the value for the key.
  pub add_value-Models :
      (f : Carrier → Option V) (t : Table Carrier V) (k : Carrier) (value : V)
      → Models key f t
      → f k ≡ none
      → t.count < unused
      → Models key (λ q. if same q k then some value else f q) (add_value key t k value)
  add_value-Models f t k value m missing few =
      let g = m.layout in
      let absent = absent_of_none t (find key t g k) (m.reads k ∙ missing) in
      let (e, t1, left, took, taken) = take_cell-Taken key t g.chains g.frees m.valid few in
      subst (Models key (λ q. if same q k then some value else f q))
        (sym (add_value-linked t t1 k value e took))
        (record {
          layout = wider t g m.valid k value e t1 left taken absent;
          valid = add-IsValid t g m.valid k value e t1 left taken absent;
          reads = λ q.
              find_now t g m.valid k value e t1 left taken absent q
              ∙ ap (λ o. if same q k then some value else o) (m.reads q);
        })
