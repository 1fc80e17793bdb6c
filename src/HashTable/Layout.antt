-- ===== src/HashTable/Layout.antt =====
-- When a table is well formed, the map that it stands for, and what a lookup finds.
use go_libutp.Prelude.{
  ℕ, zero, suc, ◌+◌, ◌<◌, ◌≤◌, ◌≡◌, inl, inr, refl, ap, ◌∙◌, true, false, Option, none, some, List,
  [], ◌∷◌, ◌==◌, ==_iff, arith, length, Bool-cases,
}
use native.Mathlib.Nat.{mod-lt}
use go_libutp.HashTable.{Key, Elem, Table, unused, create, lookup, lookup_loop, mkidx}
use go_libutp.HashTable.Chains.{has, Distinct, AllBelow, Chain, seek, KeysDiffer}

-- Which elements each chain has, in order: those of the buckets and the deleted ones.
pub record Layout : Type 0 where
  pub chains : ℕ → List ℕ
  pub frees : List ℕ

-- The elements of the first `n` buckets.
abbrev pub total : (ℕ → List ℕ) → ℕ → ℕ
total chains zero = 0
total chains (suc n) = length (chains n) + total chains n

pub length-le-total : (chains : ℕ → List ℕ) (n b : ℕ) → b < n → length (chains b) ≤ total chains n
length-le-total chains zero b h = elim h [ ]
length-le-total chains (suc n) b h = elim (Bool-cases (b == n)) [
  | inl last ↦ omega (arith, ap (λ x. length (chains x)) ((==_iff b n).0 last))
  | inr before ↦ let less : b < n = ground arith in omega (arith, length-le-total chains n b less)
]

total_empty : (n : ℕ) → total (λ b. []) n ≡ 0
total_empty zero = refl
total_empty (suc n) = omega (arith, total_empty n)

module _ (key : Key) {V : Type 0} where
  open key use {Carrier, compute_hash, same, same_iff}

  -- Each element used is in one chain: that of its key's bucket, or that of the deleted elements.
  pub record IsValid (t : Table Carrier V) (g : Layout) : Type 0 where
    pub buckets : 0 < t.n
    pub chained : (b : ℕ) → b < t.n → Chain t.elems (t.inits b) (g.chains b)
    pub home : (b i : ℕ) → b < t.n → has i (g.chains b) ≡ true → mkidx key t (t.elems i).key ≡ b
    pub below : (b : ℕ) → b < t.n → AllBelow t.used (g.chains b)
    pub differ : (b : ℕ) → b < t.n → KeysDiffer key t.elems (g.chains b)
    pub freed : Chain t.elems t.free g.frees
    pub frees_below : AllBelow t.used g.frees
    pub frees_distinct : Distinct g.frees
    pub apart : (b i : ℕ) → b < t.n → has i (g.chains b) ≡ true → has i g.frees ≡ false
    pub counted : total g.chains t.n ≡ t.count
    pub cells : t.count + length g.frees ≡ t.used
    pub room : t.used ≤ t.allocated
    pub nonempty : 0 < t.allocated
    pub named : t.allocated ≤ unused

  -- The element of a key.
  abbrev pub find : Table Carrier V → Layout → Carrier → Option ℕ
  find t g k = seek key t.elems k (g.chains (mkidx key t k))

  abbrev pub value_at : Table Carrier V → Option ℕ → Option V
  value_at t none = none
  value_at t (some i) = some (t.elems i).value

  -- The table is well formed and stands for the map `f`.
  pub record Models (f : Carrier → Option V) (t : Table Carrier V) : Type 0 where
    pub layout : Layout
    pub valid : IsValid t layout
    pub reads : (k : Carrier) → value_at t (find t layout k) ≡ f k

  pub mkidx-lt : (t : Table Carrier V) (k : Carrier) → 0 < t.n → mkidx key t k < t.n
  unfolding mkidx
  mkidx-lt t k h = mod-lt (compute_hash k) h

  lookup_loop-seek :
      (t : Table Carrier V) (k : Carrier) (fuel p : ℕ) (xs : List ℕ)
      → Chain t.elems p xs
      → AllBelow t.used xs
      → t.used ≤ unused
      → length xs < fuel
      → lookup_loop key t k fuel p ≡ seek key t.elems k xs
  unfolding lookup_loop
  lookup_loop-seek t k zero p xs c b u h = absurd (omega arith)
  lookup_loop-seek t k (suc fuel) p [] c b u h = rw ((==_iff p unused).1 c) refl
  lookup_loop-seek t k (suc fuel) p (i ∷ xs) (at, c) (lt, b) u h =
      let inside : (i == unused) ≡ false = ground arith in
      rw (at, inside, lookup_loop-seek t k fuel (t.elems i).link xs c b u (omega arith)) refl

  pub length-le-used :
      (t : Table Carrier V) (g : Layout) (b : ℕ)
      → IsValid t g
      → b < t.n
      → length (g.chains b) ≤ t.used
  length-le-used t g b v h = omega (arith, v.counted, v.cells, length-le-total g.chains t.n b h)

  -- The loop of a lookup ends in its fuel, at the element of the key.
  pub lookup-find :
      (t : Table Carrier V) (g : Layout) (k : Carrier) → IsValid t g → lookup key t k ≡ find t g k
  unfolding lookup
  lookup-find t g k v =
      let b = mkidx key t k in
      let lt = mkidx-lt t k v.buckets in
      lookup_loop-seek t k (t.used + 1) (t.inits b) (g.chains b) (v.chained b lt) (v.below b lt)
        (omega (arith, v.room, v.named)) (omega (arith, length-le-used t g b v lt))

  -- In a table that stands for a map, a lookup ends and finds the value that the map has for the key.
  pub lookup-Models :
      (f : Carrier → Option V) (t : Table Carrier V) (k : Carrier)
      → Models f t
      → value_at t (lookup key t k) ≡ f k
  lookup-Models f t k m = ap (value_at t) (lookup-find t m.layout k m.valid) ∙ m.reads k

  pub create-Models :
      (n initial : ℕ) (blank : Elem Carrier V)
      → 0 < n
      → 0 < initial
      → initial ≤ unused
      → Models (λ k. none) (create n initial blank)
  unfolding create
  create-Models n initial blank hn hi hu = record {
    layout = record { chains = λ b. []; frees = [] };
    valid = record {
      buckets = hn;
      chained = λ b h. refl;
      home = λ b i h m. cc m;
      below = λ b h. tt;
      differ = λ b h. tt;
      freed = refl;
      frees_below = tt;
      frees_distinct = tt;
      apart = λ b i h m. refl;
      counted = total_empty n;
      cells = omega arith;
      room = omega arith;
      nonempty = hi;
      named = hu;
    };
    reads = λ k. refl;
  }
