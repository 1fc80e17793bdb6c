-- ===== src/Context/Forget.antt =====
-- What is left of the list of RSTs when the old ones are forgotten.
use go_libutp.Prelude.{
  ℕ, zero, suc, ◌+◌, ◌-◌, ◌≤◌, ◌≡◌, refl, ap, sym, ◌∙◌, inl, inr, Bool, true, false, ◌&&◌, not,
  none, some, List, [], ◌∷◌, ◌++◌, if◌then◌else◌, length, get_elem?, set, take, arith, Bool-cases,
}
use go_libutp.Context.{RstInfo}
use go_libutp.Context.Check.{is_old, move_up_last, forget_loop}

-- How many elements pass the test.
abbrev pub count_if : {A : Type 0} → (A → Bool) → List A → ℕ
count_if p [] = 0
count_if p (x ∷ xs) = (if p x then 1 else 0) + count_if p xs

module _ {A : Type 0} where
  count_if-++ :
      (p : A → Bool) (xs ys : List A) → count_if p (xs ++ ys) ≡ count_if p xs + count_if p ys
  count_if-++ p [] ys = omega arith
  count_if-++ p (x ∷ xs) ys = omega (arith, count_if-++ p xs ys)

  length-++ : (xs ys : List A) → length (xs ++ ys) ≡ length xs + length ys
  length-++ [] ys = omega arith
  length-++ (x ∷ xs) ys = omega (arith, length-++ xs ys)

  assoc : (xs ys zs : List A) → (xs ++ ys) ++ zs ≡ xs ++ (ys ++ zs)
  assoc [] ys zs = refl
  assoc (x ∷ xs) ys zs = ap (λ r. x ∷ r) (assoc xs ys zs)

  ++_nil : (xs : List A) → xs ++ [] ≡ xs
  ++_nil [] = refl
  ++_nil (x ∷ xs) = ap (λ r. x ∷ r) (++_nil xs)

  elem_past : (pre : List A) → get_elem? (pre ++ []) (length pre) ≡ none
  elem_past [] = refl
  elem_past (x ∷ pre) = elem_past pre

  elem_at :
      (pre : List A) (r : A) (post : List A) → get_elem? (pre ++ r ∷ post) (length pre) ≡ some r
  elem_at [] r post = refl
  elem_at (x ∷ pre) r post = elem_at pre r post

  set_at :
      (pre : List A) (r v : A) (post : List A)
      → set (pre ++ r ∷ post) (length pre) v ≡ pre ++ v ∷ post
  set_at [] r v post = refl
  set_at (x ∷ pre) r v post = ap (λ q. x ∷ q) (set_at pre r v post)

  take_all : (pre post : List A) → take (length pre) (pre ++ post) ≡ pre
  take_all [] post = refl
  take_all (x ∷ pre) post = ap (λ q. x ∷ q) (take_all pre post)

  -- A list is empty or has a last element.
  data Ended : List A → Type 0 where
    empty : Ended []
    last : (xs : List A) (x : A) → Ended (xs ++ x ∷ [])

  ended : (xs : List A) → Ended xs
  ended [] = empty
  ended (x ∷ xs) = put_first x xs (ended xs)
    where
      put_first : (x : A) (xs : List A) → Ended xs → Ended (x ∷ xs)
      put_first x _ empty = last [] x
      put_first x _ (last xs y) = last (x ∷ xs) y

  move_up_last_end : (pre : List A) (r : A) → move_up_last (pre ++ r ∷ []) (length pre) ≡ pre
  unfolding move_up_last
  move_up_last_end pre r =
      let n : length (pre ++ r ∷ []) - 1 ≡ length pre = omega (arith, length-++ pre (r ∷ [])) in
      rw (move_up_last, n, elem_at pre r [], set_at pre r r [], n, take_all pre (r ∷ [])) refl

  move_up_last_mid :
      (pre : List A) (r : A) (xs : List A) (x : A)
      → move_up_last (pre ++ r ∷ (xs ++ x ∷ [])) (length pre) ≡ pre ++ x ∷ xs
  unfolding move_up_last
  move_up_last_mid pre r xs x =
      let n : length (pre ++ r ∷ (xs ++ x ∷ [])) - 1 ≡ length (pre ++ r ∷ xs) = omega (
        arith,
        length-++ pre (r ∷ (xs ++ x ∷ [])),
        length-++ xs (x ∷ []),
        length-++ pre (r ∷ xs),
      ) in
      let same : length (pre ++ r ∷ xs) ≡ length (pre ++ x ∷ xs) =
        omega (arith, length-++ pre (r ∷ xs), length-++ pre (x ∷ xs)) in
      let found : get_elem? (pre ++ r ∷ (xs ++ x ∷ [])) (length (pre ++ r ∷ xs)) ≡ some x =
        ap (λ ys. get_elem? ys (length (pre ++ r ∷ xs))) (sym (assoc pre (r ∷ xs) (x ∷ [])))
        ∙ elem_at (pre ++ r ∷ xs) x [] in
      let cut : take (length (pre ++ x ∷ xs)) (pre ++ x ∷ (xs ++ x ∷ [])) ≡ pre ++ x ∷ xs =
        ap (take (length (pre ++ x ∷ xs))) (sym (assoc pre (x ∷ xs) (x ∷ [])))
        ∙ take_all (pre ++ x ∷ xs) (x ∷ []) in
      rw (move_up_last, n, found, set_at pre r x (xs ++ x ∷ []), n, same, cut) refl

-- The test of those that stay.
abbrev pub and_young : ℕ → (RstInfo → Bool) → RstInfo → Bool
and_young now p r = p r && not (is_old now r)

abbrev Forgets : ℕ → (RstInfo → Bool) → ℕ → List RstInfo → List RstInfo → Type 0
Forgets now p fuel pre post =
    count_if p (forget_loop now fuel (length pre) (pre ++ post))
    ≡ count_if p pre + count_if (and_young now p) post

forgets :
    (now : ℕ) (p : RstInfo → Bool) (fuel : ℕ) (pre post : List RstInfo)
    → length post ≤ fuel
    → Forgets now p fuel pre post
unfolding forget_loop
forgets now p zero pre [] h = rw (++_nil pre) (omega arith)
forgets now p zero pre (r ∷ post) h = elim h [ ]
forgets now p (suc fuel) pre [] h = rw (forget_loop, elem_past pre, ++_nil pre) (omega arith)
forgets now p (suc fuel) pre (r ∷ post) h = elim (Bool-cases (is_old now r)) [
  | inr young ↦
      rw (forget_loop, elem_at pre r post, young)
        (passed (forgets now p fuel (pre ++ r ∷ []) post (omega arith)))
  | inl old ↦
      rw (forget_loop, elem_at pre r post, old)
        (filled post (ended post) (omega arith) (λ xs h'. forgets now p fuel pre xs h'))
]
  where
    n : length (pre ++ r ∷ []) ≡ suc (length pre)
    n = omega (arith, length-++ pre (r ∷ []))

    passed :
        Forgets now p fuel (pre ++ r ∷ []) post
        → count_if p (forget_loop now fuel (suc (length pre)) (pre ++ r ∷ post))
          ≡ count_if p pre + ((if p r && true then 1 else 0) + count_if (and_young now p) post)
    passed e =
        let moved : count_if p
              (forget_loop now fuel (length (pre ++ r ∷ [])) ((pre ++ r ∷ []) ++ post))
            ≡ count_if p (forget_loop now fuel (suc (length pre)) (pre ++ r ∷ post)) =
          λ i. count_if p (forget_loop now fuel (n i) (assoc pre (r ∷ []) post i)) in
        ground (arith, moved, e, count_if-++ p pre (r ∷ []))

    filled :
        (xs : List RstInfo)
        → Ended xs
        → length xs ≤ fuel
        → ((ys : List RstInfo) → length ys ≤ fuel → Forgets now p fuel pre ys)
        → count_if p (forget_loop now fuel (length pre) (move_up_last (pre ++ r ∷ xs) (length pre)))
          ≡ count_if p pre + ((if p r && false then 1 else 0) + count_if (and_young now p) xs)
    filled _ empty h go = rw (move_up_last_end pre r) (
        ground (
          arith,
          ap (λ q. count_if p (forget_loop now fuel (length pre) q)) (++_nil pre),
          go [] (omega arith),
        ))
    filled _ (last xs x) h go = rw (move_up_last_mid pre r xs x) (
        ground (
          arith,
          go (x ∷ xs) (omega (arith, length-++ xs (x ∷ []))),
          count_if-++ (and_young now p) xs (x ∷ []),
        ))

-- Of the RSTs that are kept exactly those stay that are younger than ten seconds, each as often as
-- before: for every test, as many pass it afterwards as passed it and were young before.
pub forget_loop_lem :
    (now : ℕ) (rs : List RstInfo) (p : RstInfo → Bool)
    → count_if p (forget_loop now (length rs) 0 rs) ≡ count_if (λ r. p r && not (is_old now r)) rs
forget_loop_lem now rs p = omega (arith, forgets now p (length rs) [] rs (omega arith))
