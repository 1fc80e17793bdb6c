-- ===== src/HashTable/Chains.antt =====
-- Chains of elements, and when a table is well formed.
use go_libutp.Prelude.{
  ℕ, ◌<◌, ◌≤◌, ◌≡◌, inl, inr, refl, ap, sym, ◌∙◌, subst, Bool, true, false, ◌||◌, Option, none,
  some, List, [], ◌∷◌, ◌==◌, ==_iff, if◌then◌else◌, arith, Bool-cases, if_both,
}
use go_libutp.HashTable.{Key, Elem, unused}

abbrev pub has : ℕ → List ℕ → Bool
has i [] = false
has i (j ∷ xs) = i == j || has i xs

-- Each index occurs once.
abbrev pub Distinct : List ℕ → Type 0
Distinct [] = Unit {0}
Distinct (i ∷ xs) = (has i xs ≡ false) × Distinct xs

-- Every index is below `n`.
abbrev pub AllBelow : ℕ → List ℕ → Type 0
AllBelow n [] = Unit {0}
AllBelow n (i ∷ xs) = (i < n) × AllBelow n xs

pub AllBelow-has : (n i : ℕ) (xs : List ℕ) → AllBelow n xs → has i xs ≡ true → i < n
AllBelow-has n i [] b h = cc h
AllBelow-has n i (j ∷ xs) b h = ground (arith, AllBelow-has n i xs)

pub AllBelow-mono : (m n : ℕ) (xs : List ℕ) → AllBelow m xs → m ≤ n → AllBelow n xs
AllBelow-mono m n [] b h = tt
AllBelow-mono m n (j ∷ xs) (lt, b) h = (omega arith, AllBelow-mono m n xs b h)

-- `xs` without the index `i`.
abbrev pub without : ℕ → List ℕ → List ℕ
without i [] = []
without i (j ∷ xs) = if i == j then xs else j ∷ without i xs

pub has-without : (a i : ℕ) (xs : List ℕ) → has a xs ≡ false → has a (without i xs) ≡ false
has-without a i [] h = refl
has-without a i (j ∷ xs) h = ground (arith, has-without a i xs)

module _ {K V : Type 0} where
  -- From the link `p` the links lead through `xs`, and end.
  abbrev pub Chain : (ℕ → Elem K V) → ℕ → List ℕ → Type 0
  Chain e p [] = p ≡ unused
  Chain e p (i ∷ xs) = (p ≡ i) × Chain e (e i).link xs

  -- A chain is one in any memory that has its links.
  pub Chain-frame :
      (e e' : ℕ → Elem K V) (p : ℕ) (xs : List ℕ)
      → Chain e p xs
      → ((i : ℕ) → has i xs ≡ true → (e' i).link ≡ (e i).link)
      → Chain e' p xs
  Chain-frame e e' p [] c same = c
  Chain-frame e e' p (i ∷ xs) (at, c) same =
      let here : (i == i || has i xs) ≡ true = rw ((==_iff i i).1 refl) refl in
      (
        at,
        subst (λ q. Chain e' q xs) (sym (same i here))
            (Chain-frame e e' (e i).link xs c (λ j h. same j (ground arith))),
      )

module _ (key : Key) {V : Type 0} where
  open key use {Carrier, same, same_iff}

  -- The first element with this key.
  abbrev pub seek : (ℕ → Elem Carrier V) → Carrier → List ℕ → Option ℕ
  seek e k [] = none
  seek e k (i ∷ xs) = if same k (e i).key then some i else seek e k xs

  -- No element has the key of an earlier one.
  abbrev pub KeysDiffer : (ℕ → Elem Carrier V) → List ℕ → Type 0
  KeysDiffer e [] = Unit {0}
  KeysDiffer e (i ∷ xs) = (seek e (e i).key xs ≡ none) × KeysDiffer e xs

  pub seek-frame :
      (e e' : ℕ → Elem Carrier V) (k : Carrier) (xs : List ℕ)
      → ((i : ℕ) → has i xs ≡ true → (e' i).key ≡ (e i).key)
      → seek e' k xs ≡ seek e k xs
  seek-frame e e' k [] h = refl
  seek-frame e e' k (i ∷ xs) h =
      let here : (i == i || has i xs) ≡ true = rw ((==_iff i i).1 refl) refl in
      rw (h i here, seek-frame e e' k xs (λ j m. h j (ground arith))) refl

  pub KeysDiffer-frame :
      (e e' : ℕ → Elem Carrier V) (xs : List ℕ)
      → KeysDiffer e xs
      → ((i : ℕ) → has i xs ≡ true → (e' i).key ≡ (e i).key)
      → KeysDiffer e' xs
  KeysDiffer-frame e e' [] d h = tt
  KeysDiffer-frame e e' (i ∷ xs) (first, d) h =
      let here : (i == i || has i xs) ≡ true = rw ((==_iff i i).1 refl) refl in
      let tail : (j : ℕ) → has j xs ≡ true → (e' j).key ≡ (e j).key = λ j m. h j (ground arith) in
      (
        seek-frame e e' (e' i).key xs tail ∙ ap (λ k. seek e k xs) (h i here) ∙ first,
        KeysDiffer-frame e e' xs d tail,
      )

  pub seek-has :
      (e : ℕ → Elem Carrier V) (k : Carrier) (xs : List ℕ) (i : ℕ)
      → seek e k xs ≡ some i
      → (has i xs ≡ true) × ((e i).key ≡ k)
  seek-has e k [] i h = cc h
  seek-has e k (j ∷ xs) i h = elim (Bool-cases (same k (e j).key)) [
    | inl hit ↦
        let at : j ≡ i = some_inj j i (rw hit at h) in
        (
          rw (at, (==_iff i i).1 refl) refl,
          ap (λ (x : ℕ). (e x).key) (sym at) ∙ sym ((same_iff k (e j).key).0 hit),
        )
    | inr miss ↦ let (m, eq) = seek-has e k xs i (rw miss at h) in (ground arith, eq)
  ]
    where
      some_inj : (x y : ℕ) → some x ≡ some y → x ≡ y
      some_inj x y h = cc h

  -- Distinct keys stand in distinct elements.
  not_has :
      (e : ℕ → Elem Carrier V) (k : Carrier) (xs : List ℕ) (i : ℕ)
      → (e i).key ≡ k
      → seek e k xs ≡ none
      → has i xs ≡ false
  not_has e k [] i at h = refl
  not_has e k (j ∷ xs) i at h = elim (Bool-cases (same k (e j).key)) [
    | inl hit ↦ cc (rw hit at h)
    | inr miss ↦ elim (Bool-cases (i == j)) [
      | inl equal ↦
          let key_equal : k ≡ (e j).key =
            sym at ∙ ap (λ (x : ℕ). (e x).key) ((==_iff i j).0 equal) in
          cc (sym miss ∙ (same_iff k (e j).key).1 key_equal)
      | inr other ↦ rw other (not_has e k xs i at (rw miss at h))
    ]
  ]

  pub KeysDiffer-Distinct : (e : ℕ → Elem Carrier V) (xs : List ℕ) → KeysDiffer e xs → Distinct xs
  KeysDiffer-Distinct e [] d = tt
  KeysDiffer-Distinct e (i ∷ xs) (first, d) =
      (not_has e (e i).key xs i refl first, KeysDiffer-Distinct e xs d)

  seek-without-none :
      (e : ℕ → Elem Carrier V) (k : Carrier) (i : ℕ) (xs : List ℕ)
      → seek e k xs ≡ none
      → seek e k (without i xs) ≡ none
  seek-without-none e k i [] h = refl
  seek-without-none e k i (j ∷ xs) h = ground (arith, seek-without-none e k i xs)

  pub KeysDiffer-without :
      (e : ℕ → Elem Carrier V) (i : ℕ) (xs : List ℕ) → KeysDiffer e xs → KeysDiffer e (without i xs)
  KeysDiffer-without e i [] d = tt
  KeysDiffer-without e i (j ∷ xs) (first, d) =
      if_both (KeysDiffer e) (i == j) d
        (seek-without-none e (e j).key i xs first, KeysDiffer-without e i xs d)

  -- Without the element of a key, the key is not found, and every other one is found as before.
  pub seek-without :
      (e : ℕ → Elem Carrier V) (k : Carrier) (xs : List ℕ) (i : ℕ) (q : Carrier)
      → KeysDiffer e xs
      → seek e k xs ≡ some i
      → seek e q (without i xs) ≡ (if same q k then none else seek e q xs)
  seek-without e k [] i q d h = cc h
  seek-without e k (j ∷ xs) i q (first, d) h = elim (Bool-cases (same k (e j).key)) [
    | inl hit ↦
        let at : some j ≡ some i = rw hit at h in
        ground (
          arith,
          at,
          first,
          ap (λ x. seek e x xs) ((same_iff k (e j).key).0 hit),
          same_iff q k,
          same_iff k (e j).key,
          same_iff q (e j).key,
        )
    | inr miss ↦
        let rest : seek e k xs ≡ some i = rw miss at h in
        let (inside, at) = seek-has e k xs i rest in
        let outside = not_has e (e j).key xs j refl first in
        ground (
          arith,
          outside,
          inside,
          same_iff q k,
          same_iff k (e j).key,
          same_iff q (e j).key,
          seek-without e k xs i q d rest,
        )
  ]
