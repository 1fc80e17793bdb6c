-- ===== src/HashTable/Delete.antt =====
-- What a deletion does to the map.
use go_libutp.Prelude.{
  ℕ, ◌+◌, ◌%◌, ◌<◌, ◌≡◌, inl, inr, refl, ap, sym, ◌∙◌, subst, true, false, Option, none, some, List,
  [], ◌∷◌, ◌==◌, ==_iff, if◌then◌else◌, arith, Bool-cases, Option-cases, if_both,
}
use go_libutp.HashTable.{Key, Elem, Table, Place, init, link_of, write, unlink, mkidx, delete}
use go_libutp.HashTable.Chains.{
  has, Distinct, AllBelow, AllBelow-has, without, Chain, Chain-frame, seek, KeysDiffer, seek-frame,
  KeysDiffer-frame, KeysDiffer-Distinct, KeysDiffer-without, seek-without,
}
use go_libutp.HashTable.Layout.{
  Layout, total, IsValid, find, value_at, Models, mkidx-lt, length-le-used,
}
use go_libutp.HashTable.Unlink.{
  unlink_key, unlink_value, unlink_link, unlink_inits, unlink_rest, link_before, find_link-before,
  Before, link_before_lem, unlink_frame, unlink-Chain,
}
use go_libutp.HashTable.Exchange.{
  has_of_without, not_has-without, AllBelow-without, length-without, total-write,
}

module _ (key : Key) {V : Type 0} where
  open key use {Carrier, same, same_iff}

  module _ (t : Table Carrier V) (g : Layout) (v : IsValid key t g) (k : Carrier) (p : Place)
      (c : ℕ)
      (found : link_before key t.elems k (init (mkidx key t k)) (g.chains (mkidx key t k))
        ≡ some (p, c)) where
    abbrev pub b : ℕ
    b = mkidx key t k

    abbrev pub t' : Table Carrier V
    t' = unlink t p c

    abbrev pub left : Layout
    left = record { chains = write g.chains b (without c (g.chains b)); frees = c ∷ g.frees }

    before : Before key t.elems k (init b) (g.chains b) p c
    before = link_before_lem key t.elems k (init b) (g.chains b) p c found

    lt : b < t.n
    lt = mkidx-lt key t k v.buckets

    distinct : Distinct (g.chains b)
    distinct = KeysDiffer-Distinct key t.elems (g.chains b) (v.differ b lt)

    -- Another chain has no element of this one.
    elsewhere :
        (x j : ℕ)
        → x < t.n
        → (x == b) ≡ false
        → has j (g.chains x) ≡ true
        → has j (g.chains b) ≡ false
    elsewhere x j h other m = elim (Bool-cases (has j (g.chains b))) [
      | inr out ↦ out
      | inl inside ↦ cc (sym other ∙ (==_iff x b).1 (sym (v.home x j h m) ∙ v.home b j lt inside))
    ]

    kept : (x j : ℕ) → has j (left.chains x) ≡ true → has j (g.chains x) ≡ true
    kept x j m = elim (Bool-cases (x == b)) [
      | inr other ↦ rw other at m
      | inl equal ↦
          ap (λ y. has j (g.chains y)) ((==_iff x b).0 equal)
          ∙ has_of_without j c (g.chains b) (rw equal at m)
    ]

    mkidx_kept : (q : Carrier) → mkidx key t' q ≡ mkidx key t q
    unfolding mkidx
    mkidx_kept q = ap (λ x. key.compute_hash q % x) (unlink_rest t p c).0

    chained : (x : ℕ) → x < t'.n → Chain t'.elems (t'.inits x) (left.chains x)
    chained x h = elim (Bool-cases (x == b)) [
      | inl equal ↦
          let chain =
            unlink-Chain key t k (init b) (g.chains b) p c found (v.chained b lt) distinct
              (λ j m. refl) in
          rw equal (
            subst (λ y. Chain t'.elems (t'.inits y) (without c (g.chains b)))
              (sym ((==_iff x b).0 equal)) chain)
      | inr other ↦
          let h' : x < t.n = omega (arith, (unlink_rest t p c).0) in
          let start : t'.inits x ≡ t.inits x =
            unlink_inits t p c x ∙ rw (before.starts x other) refl in
          rw (other, start)
            (Chain-frame t.elems t'.elems (t.inits x) (g.chains x) (v.chained x h') (λ j m.
              unlink_frame key t k (init b) (g.chains b) p c before j (elsewhere x j h' other m)
                refl))
    ]

    freed : Chain t'.elems t'.free left.frees
    freed =
        let freed_link : (t'.elems c).link ≡ t.free =
          unlink_link t p c c ∙ rw ((==_iff c c).1 refl) refl in
        (
          (unlink_rest t p c).3,
          subst (λ q. Chain t'.elems q g.frees) (sym freed_link)
              (Chain-frame t.elems t'.elems t.free g.frees v.freed (λ j m.
                unlink_frame key t k (init b) (g.chains b) p c before j (outside j m) refl)),
        )
      where
        outside : (j : ℕ) → has j g.frees ≡ true → has j (g.chains b) ≡ false
        outside j m = elim (Bool-cases (has j (g.chains b))) [
          | inr out ↦ out
          | inl inside ↦ cc (sym m ∙ v.apart b j lt inside)
        ]

    gone : (x : ℕ) → x < t.n → has c (left.chains x) ≡ false
    gone x h = elim (Bool-cases (x == b)) [
      | inl equal ↦ rw equal (not_has-without c (g.chains b) distinct)
      | inr other ↦ rw other (elim (Bool-cases (has c (g.chains x))) [
        | inr out ↦ out
        | inl inside ↦ cc (sym (elsewhere x c h other inside) ∙ before.inside)
      ])
    ]

    apart : (x i : ℕ) → x < t'.n → has i (left.chains x) ≡ true → has i left.frees ≡ false
    apart x i h m =
        let h' : x < t.n = omega (arith, (unlink_rest t p c).0) in
        rw (not_deleted, v.apart x i h' (kept x i m)) refl
      where
        not_deleted : (i == c) ≡ false
        not_deleted = elim (Bool-cases (i == c)) [
          | inr other ↦ other
          | inl at ↦ cc (
              sym (gone x (omega (arith, (unlink_rest t p c).0)))
              ∙ ap (λ y. has y (left.chains x)) (sym ((==_iff i c).0 at))
              ∙ m)
        ]

    -- What holds of every chain, and of the chain that lost an element.
    each_chain :
        (P : List ℕ → Type 0)
        → ((x : ℕ) → x < t.n → P (g.chains x))
        → (P (g.chains b) → P (without c (g.chains b)))
        → (x : ℕ) → x < t'.n
        → P (left.chains x)
    each_chain P all less x h =
        if_both P (x == b) (less (all b lt)) (all x (omega (arith, (unlink_rest t p c).0)))

    pub unlink-IsValid : IsValid key t' left
    unlink-IsValid =
        let (n_kept, used_kept, allocated_kept, free_now, count_now) = unlink_rest t p c in
        let shorter = length-without c (g.chains b) before.inside in
        let sums = total-write g.chains t.n b (without c (g.chains b)) lt in
        record {
          buckets = omega (arith, v.buckets);
          chained = chained;
          home = λ x i h m.
              mkidx_kept (t'.elems i).key
              ∙ ap (mkidx key t) (unlink_key t p c i)
              ∙ v.home x i (omega arith) (kept x i m);
          below =
              each_chain (AllBelow t'.used)
                (λ x h. subst (λ u. AllBelow u (g.chains x)) (sym used_kept) (v.below x h))
                (AllBelow-without t'.used c (g.chains b));
          differ =
              each_chain (KeysDiffer key t'.elems)
                (λ x h.
                  KeysDiffer-frame key t.elems t'.elems (g.chains x) (v.differ x h)
                    (λ i m. unlink_key t p c i))
                (KeysDiffer-without key t'.elems c (g.chains b));
          freed = freed;
          frees_below = (
            omega (arith, AllBelow-has t.used c (g.chains b) (v.below b lt) before.inside),
            subst (λ u. AllBelow u g.frees) (sym used_kept) v.frees_below,
          );
          frees_distinct = (v.apart b c lt before.inside, v.frees_distinct);
          apart = apart;
          counted =
              ap (total left.chains) n_kept ∙ omega (arith, v.counted, sums, shorter, count_now);
          cells = omega (
            arith,
            v.cells,
            v.counted,
            sums,
            shorter,
            count_now,
            used_kept,
            length-le-used key t g b v lt,
          );
          room = omega (arith, v.room);
          nonempty = omega (arith, v.nonempty);
          named = omega (arith, v.named);
        }

    find-left : (q : Carrier) → find key t' left q ≡ (if same q k then none else find key t g q)
    find-left q =
        let x = mkidx key t q in
        ap (λ y. seek key t'.elems q (left.chains y)) (mkidx_kept q)
        ∙ seek-frame key t.elems t'.elems q (left.chains x) (λ i m. unlink_key t p c i)
        ∙ elim (Bool-cases (x == b)) [
          | inl equal ↦ rw equal (
              seek-without key t.elems k (g.chains b) c q (v.differ b lt) before.found
              ∙ ap (λ y. if same q k then none else seek key t.elems q (g.chains y))
                  (sym ((==_iff x b).0 equal)))
          | inr other ↦ rw (other, differs q other) refl
        ]
      where
        differs : (q : Carrier) → (mkidx key t q == b) ≡ false → same q k ≡ false
        differs q other = elim (Bool-cases (same q k)) [
          | inr far ↦ far
          | inl near ↦
              cc (
                sym other ∙ (==_iff (mkidx key t q) b).1 (ap (mkidx key t) ((same_iff q k).0 near)))
        ]

    value_kept : (o : Option ℕ) → value_at key t' o ≡ value_at key t o
    value_kept none = refl
    value_kept (some i) = ap some (unlink_value t p c i)

    value_left :
        (f : Carrier → Option V)
        → ((q : Carrier) → value_at key t (find key t g q) ≡ f q)
        → (q : Carrier) → value_at key t' (find key t' left q) ≡ (if same q k then none else f q)
    value_left f reads q = ap (value_at key t') (find-left q) ∙ elim (Bool-cases (same q k)) [
      | inl near ↦ rw near refl
      | inr far ↦ rw far (value_kept (find key t g q) ∙ reads q)
    ]

  pub link_before-none :
      (e : ℕ → Elem Carrier V) (k : Carrier) (p : Place) (xs : List ℕ)
      → link_before key e k p xs ≡ none
      → seek key e k xs ≡ none
  link_before-none e k p [] h = refl
  link_before-none e k p (i ∷ xs) h = elim (Bool-cases (same k (e i).key)) [
    | inl hit ↦ cc (rw hit at h)
    | inr miss ↦ rw miss (link_before-none e k (link_of i) xs (rw miss at h))
  ]

  -- In a table that stands for a map, a deletion ends, returns the element whose value the map has for
  -- the key, or none if it has no value, and leaves a table that stands for the map without the key.
  pub delete-Models :
      (f : Carrier → Option V) (t : Table Carrier V) (k : Carrier)
      → Models key f t
      → (value_at key t (delete key t k).0 ≡ f k)
        × Models key (λ q. if same q k then none else f q) (delete key t k).1
  unfolding delete
  delete-Models f t k m =
      let v = m.valid in
      let b = mkidx key t k in
      let lt = mkidx-lt key t k v.buckets in
      let searched =
        find_link-before key t k (t.used + 1) (init b) (m.layout.chains b) (v.chained b lt)
          (v.below b lt) (omega (arith, v.room, v.named))
          (omega (arith, length-le-used key t m.layout b v lt)) in
      elim (Option-cases (link_before key t.elems k (init b) (m.layout.chains b))) [
        | inl absent ↦
            let nothing : f k ≡ none =
              sym (m.reads k)
              ∙ ap (value_at key t)
                  (link_before-none t.elems k (init b) (m.layout.chains b) absent) in
            rw (delete, searched, absent)
              ((
                sym nothing,
                record {
                  layout = m.layout;
                  valid = v;
                  reads = λ q. m.reads q ∙ elim (Bool-cases (same q k)) [
                    | inl near ↦ rw near (ap f ((same_iff q k).0 near) ∙ nothing)
                    | inr far ↦ rw far refl
                  ];
                },
              ))
        | inr ((p, c), found) ↦
            let here = link_before_lem key t.elems k (init b) (m.layout.chains b) p c found in
            rw (delete, searched, found)
              ((
                ap (value_at key t) (sym here.found) ∙ m.reads k,
                record {
                  layout = left t m.layout v k p c found;
                  valid = unlink-IsValid t m.layout v k p c found;
                  reads = value_left t m.layout v k p c found f m.reads;
                },
              ))
      ]
