-- ===== src/HashTable/Iterate.antt =====
-- What the iterator of a table has still to visit.
use go_libutp.Prelude.{
  ℕ, zero, suc, ◌+◌, ◌-◌, ◌%◌, ◌^◌, ◌<◌, ◌≤◌, ◌≡◌, ◌⊎◌, inl, inr, refl, ap, sym, ◌∙◌, subst, true,
  false, none, some, List, [], ◌∷◌, ◌++◌, ◌==◌, ==_iff, arith,
}
use go_libutp.HashTable.{
  Key, Table, Iterator, unused, write, next_bucket, advance, iterate, fresh_iterator,
}
use go_libutp.HashTable.Chains.{has, AllBelow, Chain}
use go_libutp.HashTable.Layout.{Layout, IsValid}

-- The elements of `k` buckets from `b` on, in order.
abbrev pub flat : (ℕ → List ℕ) → ℕ → ℕ → List ℕ
flat chains zero b = []
flat chains (suc k) b = chains b ++ flat chains k (suc b)

split : (pre : List ℕ) (e : ℕ) (xs : List ℕ) → pre ++ e ∷ xs ≡ (pre ++ e ∷ []) ++ xs
split [] e xs = refl
split (x ∷ pre) e xs = ap (λ r. x ∷ r) (split pre e xs)

pub has-++ : (i : ℕ) (xs ys : List ℕ) → has i ys ≡ true → has i (xs ++ ys) ≡ true
has-++ i [] ys h = h
has-++ i (x ∷ xs) ys h = ground (arith, has-++ i xs ys)

pub flat-write :
    (chains : ℕ → List ℕ) (b k x : ℕ) (ys : List ℕ)
    → b < x
    → flat (write chains b ys) k x ≡ flat chains k x
flat-write chains b zero x ys h = refl
flat-write chains b (suc k) x ys h =
    let other : (x == b) ≡ false = ground arith in
    rw (other, flat-write chains b k (suc x) ys (omega arith)) refl

AllBelow-++ : (n : ℕ) (xs ys : List ℕ) → AllBelow n (xs ++ ys) → AllBelow n ys
AllBelow-++ n [] ys h = h
AllBelow-++ n (x ∷ xs) ys h = AllBelow-++ n xs ys h.1

abbrev pub ahead : Layout → Iterator → List ℕ → ℕ → List ℕ
ahead g it xs k = xs ++ flat g.chains k ((it.bucket + 1) % 2 ^ 32)

module _ (key : Key) {V : Type 0} where
  open key use {Carrier}

  -- The iterator stands before `xs` in its bucket, and `k` buckets follow.
  pub record Ahead (t : Table Carrier V) (g : Layout) (it : Iterator) (xs : List ℕ) (k : ℕ)
      : Type 0 where
    pub next : (it.bucket + 1) % 2 ^ 32 + k ≡ t.n
    pub follows : Chain t.elems it.elem xs
    pub part : (xs ≡ []) ⊎ ((it.bucket < t.n) × ((pre : List ℕ) × (g.chains it.bucket ≡ pre ++ xs)))

  -- One call of the iterator finds the element `e`, and stands behind it.
  pub record Passes (t : Table Carrier V) (g : Layout) (it : Iterator) (rest : List ℕ)
      : Type 0 where
    pub e : ℕ
    pub it' : Iterator
    pub xs' : List ℕ
    pub k' : ℕ
    pub pre : List ℕ
    pub called : iterate t it ≡ some (e, it')
    pub inside : it'.bucket < t.n
    pub chain : g.chains it'.bucket ≡ pre ++ e ∷ xs'
    pub follows : Chain t.elems it'.elem xs'
    pub left : it'.bucket + 1 + k' ≡ t.n
    pub rest_is : rest ≡ e ∷ (xs' ++ flat g.chains k' (suc it'.bucket))

  abbrev pub Ends : Table Carrier V → Iterator → List ℕ → Type 0
  Ends t it rest = (iterate t it ≡ none) × (rest ≡ [])

  -- The search for the next bucket that is not empty.
  record Found (t : Table Carrier V) (g : Layout) (k b : ℕ) : Type 0 where
    at : ℕ
    k' : ℕ
    e : ℕ
    xs' : List ℕ
    found : next_bucket t k b ≡ some at
    left : at + 1 + k' ≡ t.n
    chain : g.chains at ≡ e ∷ xs'
    start : t.inits at ≡ e
    follows : Chain t.elems (t.elems e).link xs'
    flat_is : flat g.chains k b ≡ e ∷ (xs' ++ flat g.chains k' (suc at))

  search :
      (t : Table Carrier V) (g : Layout)
      → IsValid key t g
      → (k b : ℕ) → b + k ≡ t.n
      → ((next_bucket t k b ≡ none) × (flat g.chains k b ≡ [])) ⊎ Found t g k b
  unfolding next_bucket
  search t g v zero b h = inl (refl, refl)
  search t g v (suc k) b h =
      by_chain (g.chains b) refl (v.chained b (omega arith)) (v.below b (omega arith))
        (search t g v k (suc b) (omega arith))
    where
      by_chain :
          (xs : List ℕ)
          → g.chains b ≡ xs
          → Chain t.elems (t.inits b) xs
          → AllBelow t.used xs
          → ((next_bucket t k (suc b) ≡ none) × (flat g.chains k (suc b) ≡ []))
            ⊎ Found t g k (suc b)
          → ((next_bucket t (suc k) b ≡ none) × (flat g.chains (suc k) b ≡ []))
            ⊎ Found t g (suc k) b
      by_chain [] e c low (inl (nothing, empty)) =
          inl (rw (next_bucket, (==_iff (t.inits b) unused).1 c) nothing, rw (e, empty) refl)
      by_chain [] e c low (inr f) = inr (record {
        at = f.at;
        k' = f.k';
        e = f.e;
        xs' = f.xs';
        found = rw (next_bucket, (==_iff (t.inits b) unused).1 c) f.found;
        left = f.left;
        chain = f.chain;
        start = f.start;
        follows = f.follows;
        flat_is = rw e f.flat_is;
      })
      by_chain (i ∷ xs) e (at, c) (lt, low) more =
          let used : (t.inits b == unused) ≡ false = ground (arith, v.room, v.named) in
          inr (record {
            at = b;
            k' = k;
            e = i;
            xs' = xs;
            found = rw (next_bucket, used) refl;
            left = omega arith;
            chain = e;
            start = at;
            follows = c;
            flat_is = rw e refl;
          })

  -- From where it stands, the iterator finds what is ahead of it, one after the other.
  pub iterate-Passes :
      (t : Table Carrier V) (g : Layout) (it : Iterator) (xs : List ℕ) (k : ℕ)
      → IsValid key t g
      → t.n ≤ unused
      → Ahead t g it xs k
      → Ends t it (ahead g it xs k) ⊎ Passes t g it (ahead g it xs k)
  unfolding iterate advance
  iterate-Passes t g it [] k v few a =
      let ended : (it.elem == unused) ≡ true = (==_iff it.elem unused).1 a.follows in
      let first = (it.bucket + 1) % 2 ^ 32 in
      let k_is : t.n - first ≡ k = omega (arith, a.next) in
      elim (search t g v k first (omega (arith, a.next))) [
        | inl (nothing, empty) ↦ inl (rw (iterate, ended, k_is, nothing) refl, empty)
        | inr f ↦ inr (record {
          e = f.e;
          it' = record { bucket = f.at; elem = (t.elems f.e).link };
          xs' = f.xs';
          k' = f.k';
          pre = [];
          called = rw (iterate, ended, k_is, f.found, f.start) refl;
          inside = omega (arith, f.left);
          chain = f.chain;
          follows = f.follows;
          left = f.left;
          rest_is = f.flat_is;
        })
      ]
  iterate-Passes t g it (e ∷ xs) k v few a = elim a.part [
    | inl nothing ↦ cc nothing
    | inr (inside, (pre, chain)) ↦
        let low : AllBelow t.used (e ∷ xs) =
          AllBelow-++ t.used pre (e ∷ xs)
            (subst (AllBelow t.used) chain (v.below it.bucket inside)) in
        let used : (it.elem == unused) ≡ false =
          ground (arith, a.follows.0, low.0, v.room, v.named) in
        let next : (it.bucket + 1) % 2 ^ 32 ≡ suc it.bucket = omega (arith, inside) in
        inr (record {
          e = e;
          it' = record { bucket = it.bucket; elem = (t.elems e).link };
          xs' = xs;
          k' = k;
          pre = pre;
          called = rw (iterate, used, a.follows.0) refl;
          inside = inside;
          chain = chain;
          follows = a.follows.1;
          left = omega (arith, a.next, next);
          rest_is = ap (λ b. e ∷ (xs ++ flat g.chains k b)) next;
        })
  ]

  -- An iterator that was just made has the whole table ahead.
  pub fresh-Ahead : (t : Table Carrier V) (g : Layout) → Ahead t g fresh_iterator [] t.n
  fresh-Ahead t g = record { next = omega arith; follows = refl; part = inl refl }

  -- Behind the element, the rest is ahead.
  pub Passes-Ahead :
      (t : Table Carrier V) (g : Layout) (it : Iterator) (rest : List ℕ)
      → t.n ≤ unused
      → (p : Passes t g it rest)
      → Ahead t g p.it' p.xs' p.k' × (rest ≡ p.e ∷ ahead g p.it' p.xs' p.k')
  Passes-Ahead t g it rest few p =
      let next : (p.it'.bucket + 1) % 2 ^ 32 ≡ suc p.it'.bucket = omega (arith, p.inside) in
      (
        record {
          next = omega (arith, next, p.left);
          follows = p.follows;
          part = inr (p.inside, (p.pre ++ p.e ∷ [], p.chain ∙ split p.pre p.e p.xs'));
        },
        p.rest_is ∙ ap (λ b. p.e ∷ (p.xs' ++ flat g.chains p.k' b)) (sym next),
      )

  -- The element passed is in the table.
  pub Passes-has :
      (t : Table Carrier V) (g : Layout) (it : Iterator) (rest : List ℕ) (p : Passes t g it rest)
      → has p.e (g.chains p.it'.bucket) ≡ true
  Passes-has t g it rest p =
      ap (has p.e) p.chain ∙ has-++ p.e p.pre (p.e ∷ p.xs') (rw ((==_iff p.e p.e).1 refl) refl)
