-- ===== src/HashTable/Unlink.antt =====
-- An element that leaves its chain.
use go_libutp.Prelude.{
  ℕ, zero, suc, ◌-◌, ◌<◌, ◌≤◌, ◌≡◌, inl, inr, refl, ap, sym, ◌∙◌, subst, Bool, true, false, Option,
  none, some, List, [], ◌∷◌, ◌==◌, ==_iff, if◌then◌else◌, arith, length, Bool-cases,
}
use go_libutp.HashTable.{
  Key, Elem, Table, Place, init, link_of, unused, read_place, unlink, find_link,
}
use go_libutp.HashTable.Chains.{has, Distinct, AllBelow, without, Chain, Chain-frame, seek}

-- The link of the element `j`, or that in which the bucket `b` starts.
abbrev pub is_link : Place → ℕ → Bool
is_link (init b) j = false
is_link (link_of i) j = j == i

abbrev pub is_init : Place → ℕ → Bool
is_init (init b) x = x == b
is_init (link_of i) x = false

pair_inj :
    (x y : Place) (a b : ℕ)
    → ◌≡◌ {A = Option (Place × ℕ)} (some (x, a)) (some (y, b))
    → (x ≡ y) × (a ≡ b)
pair_inj x y a b h = (cc h, cc h)

ne_sym : (a b : ℕ) → (a == b) ≡ false → (b == a) ≡ false
ne_sym a b h = ground arith

-- What a list has is not what it has not.
ne_of_has : (i j : ℕ) (xs : List ℕ) → has i xs ≡ true → has j xs ≡ false → (j == i) ≡ false
ne_of_has i j xs h h' = elim (Bool-cases (j == i)) [
  | inl equal ↦ cc (sym h' ∙ ap (λ x. has x xs) ((==_iff j i).0 equal) ∙ h)
  | inr other ↦ other
]

module _ {K V : Type 0} where
  pub unlink_key :
      (t : Table K V) (p : Place) (c j : ℕ) → ((unlink t p c).elems j).key ≡ (t.elems j).key
  unfolding unlink
  unlink_key t (init b) c j = ground arith
  unlink_key t (link_of i) c j = ground arith

  pub unlink_value :
      (t : Table K V) (p : Place) (c j : ℕ) → ((unlink t p c).elems j).value ≡ (t.elems j).value
  unfolding unlink
  unlink_value t (init b) c j = ground arith
  unlink_value t (link_of i) c j = ground arith

  pub unlink_link :
      (t : Table K V) (p : Place) (c j : ℕ)
      → ((unlink t p c).elems j).link
        ≡ (if j == c then t.free else (if is_link p j then (t.elems c).link else (t.elems j).link))
  unfolding unlink
  unlink_link t (init b) c j = ground arith
  unlink_link t (link_of i) c j = ground arith

  pub unlink_inits :
      (t : Table K V) (p : Place) (c x : ℕ)
      → (unlink t p c).inits x ≡ (if is_init p x then (t.elems c).link else t.inits x)
  unfolding unlink
  unlink_inits t (init b) c x = refl
  unlink_inits t (link_of i) c x = refl

  read_unlink :
      (t : Table K V) (p : Place) (i : ℕ)
      → is_link p i ≡ false
      → read_place (unlink t p i) p ≡ (t.elems i).link
  unfolding unlink
  read_unlink t (init b) i h = ground arith
  read_unlink t (link_of a) i h = ground arith

  -- The other numbers of the table.
  pub unlink_rest :
      (t : Table K V) (p : Place) (c : ℕ)
      → ((unlink t p c).n ≡ t.n)
        × ((unlink t p c).used ≡ t.used)
        × ((unlink t p c).allocated ≡ t.allocated)
        × ((unlink t p c).free ≡ c)
        × ((unlink t p c).count ≡ t.count - 1)
  unfolding unlink
  unlink_rest t (init b) c = (refl, refl, refl, refl, refl)
  unlink_rest t (link_of i) c = (refl, refl, refl, refl, refl)

module _ (key : Key) {V : Type 0} where
  open key use {Carrier, same}

  -- The link that leads to the first element with a key, and the element.
  abbrev pub link_before : (ℕ → Elem Carrier V) → Carrier → Place → List ℕ → Option (Place × ℕ)
  link_before e k p [] = none
  link_before e k p (i ∷ xs) =
      if same k (e i).key then some (p, i) else link_before e k (link_of i) xs

  pub find_link-before :
      (t : Table Carrier V) (k : Carrier) (fuel : ℕ) (p : Place) (xs : List ℕ)
      → Chain t.elems (read_place t p) xs
      → AllBelow t.used xs
      → t.used ≤ unused
      → length xs < fuel
      → find_link key t k fuel p ≡ link_before t.elems k p xs
  unfolding find_link
  find_link-before t k zero p xs c b u h = absurd (omega arith)
  find_link-before t k (suc fuel) p [] c b u h = rw ((==_iff (read_place t p) unused).1 c) refl
  find_link-before t k (suc fuel) p (i ∷ xs) (at, c) (lt, b) u h =
      let inside : (i == unused) ≡ false = ground arith in
      rw (at, inside, find_link-before t k fuel (link_of i) xs c b u (omega arith)) refl

  -- What is known of the link: it is the first one, or that of an earlier element.
  pub record Before (e : ℕ → Elem Carrier V) (k : Carrier) (p : Place) (xs : List ℕ) (q : Place)
      (c : ℕ) : Type 0 where
    pub found : seek key e k xs ≡ some c
    pub inside : has c xs ≡ true
    pub links : (j : ℕ) → has j xs ≡ false → is_link p j ≡ false → is_link q j ≡ false
    pub starts : (x : ℕ) → is_init p x ≡ false → is_init q x ≡ false

  pub link_before_lem :
      (e : ℕ → Elem Carrier V) (k : Carrier) (p : Place) (xs : List ℕ) (q : Place) (c : ℕ)
      → link_before e k p xs ≡ some (q, c)
      → Before e k p xs q c
  link_before_lem e k p [] q c h = cc h
  link_before_lem e k p (i ∷ xs) q c h = elim (Bool-cases (same k (e i).key)) [
    | inl hit ↦
        let (first, second) = pair_inj p q i c (rw hit at h) in
        subst (λ r. Before e k p (i ∷ xs) r c) first
          (subst (λ d. Before e k p (i ∷ xs) p d) second
            (record {
              found = rw hit refl;
              inside = rw ((==_iff i i).1 refl) refl;
              links = λ j out other. other;
              starts = λ x out. out;
            }))
    | inr miss ↦
        let b = link_before_lem e k (link_of i) xs q c (rw miss at h) in
        record {
          found = rw miss b.found;
          inside = ground (arith, b.inside);
          links = λ j out other. b.links j (ground arith) (ground arith);
          starts = λ x out. b.starts x refl;
        }
  ]

  -- Outside of the chain, links stay.
  pub unlink_frame :
      (t : Table Carrier V) (k : Carrier) (p : Place) (xs : List ℕ) (q : Place) (c : ℕ)
      → Before t.elems k p xs q c
      → (j : ℕ) → has j xs ≡ false
      → is_link p j ≡ false
      → ((unlink t q c).elems j).link ≡ (t.elems j).link
  unlink_frame t k p xs q c b j out other =
      rw (unlink_link t q c j, ne_of_has c j xs b.inside out, b.links j out other) refl

  unlink_here :
      (t : Table Carrier V) (p : Place) (i : ℕ) (xs : List ℕ)
      → Chain t.elems (t.elems i).link xs
      → has i xs ≡ false
      → ((j : ℕ) → has j (i ∷ xs) ≡ true → is_link p j ≡ false)
      → Chain (unlink t p i).elems (read_place (unlink t p i) p) (without i (i ∷ xs))
  unlink_here t p i xs ch fresh out =
      let refl_i : (i == i) ≡ true = (==_iff i i).1 refl in
      rw (refl_i, read_unlink t p i (out i (rw refl_i refl)))
        (Chain-frame t.elems (unlink t p i).elems (t.elems i).link xs ch (λ j m.
          rw (unlink_link t p i j, ne_sym i j (ne_of_has j i xs m fresh), out j (ground arith))
            refl))

  unlink_later :
      (t : Table Carrier V) (k : Carrier) (p : Place) (i : ℕ) (xs : List ℕ) (q : Place) (c : ℕ)
      → Before t.elems k (link_of i) xs q c
      → ((j : ℕ) → has j (i ∷ xs) ≡ true → is_link p j ≡ false)
      → read_place (unlink t q c) p ≡ read_place t p
  unlink_later t k (init b) i xs q c before out =
      rw (unlink_inits t q c b, before.starts b refl) refl
  unlink_later t k (link_of a) i xs q c before out = elim (Bool-cases (has a (i ∷ xs))) [
    | inl inside ↦ cc (sym (out a inside) ∙ (==_iff a a).1 refl)
    | inr outside ↦ unlink_frame t k (link_of i) xs q c before a (ground arith) (ground arith)
  ]

  -- The chain goes on without the element.
  pub unlink-Chain :
      (t : Table Carrier V) (k : Carrier) (p : Place) (xs : List ℕ) (q : Place) (c : ℕ)
      → link_before t.elems k p xs ≡ some (q, c)
      → Chain t.elems (read_place t p) xs
      → Distinct xs
      → ((j : ℕ) → has j xs ≡ true → is_link p j ≡ false)
      → Chain (unlink t q c).elems (read_place (unlink t q c) p) (without c xs)
  unlink-Chain t k p [] q c h ch d out = cc h
  unlink-Chain t k p (i ∷ xs) q c h (at, ch) (fresh, d) out =
      elim (Bool-cases (same k (t.elems i).key)) [
        | inl hit ↦
            let (first, second) = pair_inj p q i c (rw hit at h) in
            subst
              (λ r. Chain (unlink t r c).elems (read_place (unlink t r c) p) (without c (i ∷ xs)))
              first
              (subst
                (λ x. Chain (unlink t p x).elems (read_place (unlink t p x) p) (without x (i ∷ xs)))
                second (unlink_here t p i xs ch fresh out))
        | inr miss ↦
            let rest = rw miss at h in
            let before = link_before_lem t.elems k (link_of i) xs q c rest in
            let tail =
              unlink-Chain t k (link_of i) xs q c rest ch d
                (λ j m. ne_sym i j (ne_of_has j i xs m fresh)) in
            rw (ne_sym i c (ne_of_has c i xs before.inside fresh))
              ((unlink_later t k p i xs q c before out ∙ at, tail))
      ]
