-- ===== src/HashTable/Exchange.antt =====
-- One chain of a table is exchanged, for one without an element or with one more.
use go_libutp.Prelude.{
  ℕ, zero, suc, ◌+◌, ◌<◌, ◌≤◌, ◌≡◌, inl, inr, refl, ap, sym, ◌∙◌, true, false, List, [], ◌∷◌, ◌==◌,
  ==_iff, arith, length, Bool-cases, if_both,
}
use go_libutp.HashTable.{write}
use go_libutp.HashTable.Chains.{has, Distinct, AllBelow, without, has-without}
use go_libutp.HashTable.Layout.{total}

pub has_of_without : (a i : ℕ) (xs : List ℕ) → has a (without i xs) ≡ true → has a xs ≡ true
has_of_without a i xs h = elim (Bool-cases (has a xs)) [
  | inl inside ↦ inside
  | inr out ↦ cc (sym h ∙ has-without a i xs out)
]

-- A list of distinct indices loses the one that leaves it.
pub not_has-without : (i : ℕ) (xs : List ℕ) → Distinct xs → has i (without i xs) ≡ false
not_has-without i [] d = refl
not_has-without i (j ∷ xs) (fresh, d) = elim (Bool-cases (i == j)) [
  | inl equal ↦ rw equal (ap (λ x. has x xs) ((==_iff i j).0 equal) ∙ fresh)
  | inr other ↦ rw (other, not_has-without i xs d) (ground arith)
]

pub AllBelow-without : (n i : ℕ) (xs : List ℕ) → AllBelow n xs → AllBelow n (without i xs)
AllBelow-without n i [] b = tt
AllBelow-without n i (j ∷ xs) (lt, b) =
    if_both (AllBelow n) (i == j) b (lt, AllBelow-without n i xs b)

pub length-without :
    (i : ℕ) (xs : List ℕ) → has i xs ≡ true → length xs ≡ suc (length (without i xs))
length-without i [] h = cc h
length-without i (j ∷ xs) h = ground (arith, length-without i xs)

-- The chain of one bucket is exchanged.
pub total-write_above :
    (chains : ℕ → List ℕ) (n b : ℕ) (xs : List ℕ)
    → n ≤ b
    → total (write chains b xs) n ≡ total chains n
total-write_above chains zero b xs h = refl
total-write_above chains (suc n) b xs h =
    let other : (n == b) ≡ false = ground arith in
    rw other (omega (arith, total-write_above chains n b xs))

pub total-write :
    (chains : ℕ → List ℕ) (n b : ℕ) (xs : List ℕ)
    → b < n
    → total (write chains b xs) n + length (chains b) ≡ total chains n + length xs
total-write chains zero b xs h = elim h [ ]
total-write chains (suc n) b xs h = elim (Bool-cases (n == b)) [
  | inl last ↦ rw last (
      omega (
        arith,
        total-write_above chains n b xs,
        ap (λ x. length (chains x)) ((==_iff n b).0 last),
        (==_iff n b).0 last,
      ))
  | inr before ↦
      let less : b < n = ground arith in rw before (omega (arith, total-write chains n b xs less))
]
