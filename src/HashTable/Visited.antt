-- ===== src/HashTable/Visited.antt =====
-- Deleting the element that an iterator has just passed leaves all that is ahead of it.
use go_libutp.Prelude.{
  ℕ, suc, ◌+◌, ◌%◌, ◌^◌, ◌≤◌, ◌≡◌, inl, inr, refl, ap, sym, ◌∙◌, subst, true, List, [], ◌∷◌, ◌++◌,
  ◌==◌, ==_iff, if◌then◌else◌, arith, Bool-cases,
}
use go_libutp.HashTable.{Key, Elem, Table, Iterator, unused, write, delete}
use go_libutp.HashTable.Chains.{has, without, Distinct, Chain, KeysDiffer-Distinct}
use go_libutp.HashTable.Layout.{Layout, IsValid}
use go_libutp.HashTable.Iterate.{flat-write, has-++, Ahead, ahead, Passes, Passes-has}
use go_libutp.HashTable.Removed.{Removed, delete-Removed}

without-++ :
    (e : ℕ) (pre xs : List ℕ) → Distinct (pre ++ e ∷ xs) → without e (pre ++ e ∷ xs) ≡ pre ++ xs
without-++ e [] xs d = rw ((==_iff e e).1 refl) refl
without-++ e (x ∷ pre) xs (new, d) = elim (Bool-cases (e == x)) [
  | inr other ↦ rw other (ap (λ r. x ∷ r) (without-++ e pre xs d))
  | inl at ↦ cc (
      sym (has-++ e pre (e ∷ xs) (rw ((==_iff e e).1 refl) refl))
      ∙ ap (λ y. has y (pre ++ e ∷ xs)) ((==_iff e x).0 at)
      ∙ new)
]

module _ {K V : Type 0} where
  -- The link in the middle of a chain.
  Chain-rest :
      (m : ℕ → Elem K V) (p : ℕ) (pre xs : List ℕ) → Chain m p (pre ++ xs) → (q : ℕ) × Chain m q xs
  Chain-rest m p [] xs c = (p, c)
  Chain-rest m p (x ∷ pre) xs (at, c) = Chain-rest m (m x).link pre xs c

  -- A list of elements begins in one link only.
  Chain-same :
      (m m' : ℕ → Elem K V) (p q : ℕ) (xs : List ℕ) → Chain m p xs → Chain m' q xs → Chain m' p xs
  Chain-same m m' p q [] c c' = c
  Chain-same m m' p q (x ∷ xs) c c' = (c.0, c'.1)

module _ (key : Key) {V : Type 0} where
  open key use {Carrier}

  -- What is ahead of the iterator stays so in the table without the element passed.
  pub Passes-Removed :
      (t : Table Carrier V) (g : Layout) (it : Iterator) (rest : List ℕ)
      → IsValid key t g
      → t.n ≤ unused
      → (p : Passes key t g it rest)
      → let t' = (delete key t (t.elems p.e).key).1 in
        let g' : Layout = record {
          chains = write g.chains p.it'.bucket (without p.e (g.chains p.it'.bucket));
          frees = p.e ∷ g.frees;
        } in
        Removed key t g p.it'.bucket p.e t'
        × Ahead key t' g' p.it' p.xs' p.k'
        × (ahead g' p.it' p.xs' p.k' ≡ ahead g p.it' p.xs' p.k')
  Passes-Removed t g it rest v few p =
      let b = p.it'.bucket in
      let r = delete-Removed key t g b p.e v p.inside (Passes-has key t g it rest p) in
      let distinct = KeysDiffer-Distinct key t.elems (g.chains b) (v.differ b p.inside) in
      let cut : without p.e (g.chains b) ≡ p.pre ++ p.xs' =
        ap (without p.e) p.chain ∙ without-++ p.e p.pre p.xs' (subst Distinct p.chain distinct) in
      let own : (b == b) ≡ true = (==_iff b b).1 refl in
      let kept : (if b == b then without p.e (g.chains b) else g.chains b)
          ≡ without p.e (g.chains b) =
        rw own refl in
      let t' = (delete key t (t.elems p.e).key).1 in
      let chain' : Chain t'.elems (t'.inits b)
          (if b == b then without p.e (g.chains b) else g.chains b) =
        r.valid.chained b (omega (arith, r.n_kept, p.inside)) in
      let chain2 : Chain t'.elems (t'.inits b) (p.pre ++ p.xs') =
        subst (Chain t'.elems (t'.inits b)) (kept ∙ cut) chain' in
      let (q, rest') = Chain-rest t'.elems (t'.inits b) p.pre p.xs' chain2 in
      let next : (b + 1) % 2 ^ 32 ≡ suc b = omega (arith, p.inside) in
      (
        r,
        record {
          next = omega (arith, next, p.left, r.n_kept);
          follows = Chain-same t.elems t'.elems p.it'.elem q p.xs' p.follows rest';
          part = inr (omega (arith, r.n_kept, p.inside), (p.pre, rw own cut));
        },
        ap (λ ys. p.xs' ++ ys)
            (flat-write g.chains b p.k' ((b + 1) % 2 ^ 32) (without p.e (g.chains b))
              (omega (arith, next))),
      )
