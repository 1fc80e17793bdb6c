-- ===== src/AckList/Laws.antt =====
-- Each socket's `ida` is its position in the list, and stays so.
use native.Mathlib.Decide.{ℕ_discrete}
use go_libutp.Prelude.{
  ℕ, zero, suc, ◌-◌, ◌≤◌, ◌<◌, ◌≡◌, ◌≢◌, refl, ap, sym, ◌↔◌, inl, inr, Bool, false, none, some,
  List, [], ◌∷◌, ◌++◌, if◌then◌else◌, ◌==◌, length, get_elem?, set, take, arith, length-set,
  Option-cases, ltb, is_some, ◌||◌,
}
use go_libutp.AckList.{AckList, update, schedule, move_last, remove, drain}

-- A socket's `ida` is `i` exactly when it stands at place `i`.
abbrev pub IsConsistent : AckList → Type 0
IsConsistent l = (s i : ℕ) → (l.ida s ≡ some i) ↔ (get_elem? l.sockets i ≡ some s)

get_elem?-lt : (xs : List ℕ) (i s : ℕ) → get_elem? xs i ≡ some s → i < length xs
get_elem?-lt [] i s h = cc
get_elem?-lt (x ∷ xs) zero s h = omega arith
get_elem?-lt (x ∷ xs) (suc i) s h = omega (arith, get_elem?-lt xs i s h)

get_elem?-some : (xs : List ℕ) (i : ℕ) → i < length xs → (s : ℕ) × (get_elem? xs i ≡ some s)
get_elem?-some [] i h = elim h [ ]
get_elem?-some (x ∷ xs) zero h = (x, refl)
get_elem?-some (x ∷ xs) (suc i) h = get_elem?-some xs i (omega arith)

get_elem?-snoc :
    (xs : List ℕ) (x i : ℕ)
    → get_elem? (xs ++ x ∷ []) i ≡ (if i == length xs then some x else get_elem? xs i)
get_elem?-snoc [] x zero = refl
get_elem?-snoc [] x (suc i) = ground arith
get_elem?-snoc (y ∷ xs) x zero = ground arith
get_elem?-snoc (y ∷ xs) x (suc i) = ground (arith, get_elem?-snoc xs x i)

get_elem?-take :
    (xs : List ℕ) (n j : ℕ) → get_elem? (take n xs) j ≡ (if ltb j n then get_elem? xs j else none)
get_elem?-take xs zero j = ground arith
get_elem?-take [] (suc n) j = ground arith
get_elem?-take (x ∷ xs) (suc n) zero = ground arith
get_elem?-take (x ∷ xs) (suc n) (suc j) = ground (arith, get_elem?-take xs n j)

get_elem?-set :
    (xs : List ℕ) (i v j : ℕ)
    → i < length xs
    → get_elem? (set xs i v) j ≡ (if j == i then some v else get_elem? xs j)
get_elem?-set [] i v j h = elim h [ ]
get_elem?-set (x ∷ xs) zero v zero h = refl
get_elem?-set (x ∷ xs) zero v (suc j) h = ground arith
get_elem?-set (x ∷ xs) (suc i) v zero h = ground arith
get_elem?-set (x ∷ xs) (suc i) v (suc j) h = ground (arith, get_elem?-set xs i v j)

module _ (l : AckList) (self : ℕ) (c : IsConsistent l) where
  appended :
      l.ida self ≡ none
      → (s i : ℕ)
      → (update l.ida self (some (length l.sockets)) s ≡ some i)
        ↔ (get_elem? (l.sockets ++ self ∷ []) i ≡ some s)
  unfolding update
  appended e s i =
      ground (arith, get_elem?-snoc l.sockets self i, c s i, c self i, get_elem?-lt l.sockets i s)

  moved :
      (at last : ℕ)
      → l.ida self ≡ some at
      → get_elem? l.sockets (length l.sockets - 1) ≡ some last
      → (s j : ℕ)
      → (update (update l.ida last (some at)) self none s ≡ some j)
        ↔ (get_elem? (take (length l.sockets - 1) (set l.sockets at last)) j ≡ some s)
  unfolding update
  moved at last e el s j = ground (
    arith,
    get_elem?-take (set l.sockets at last) (length l.sockets - 1) j,
    get_elem?-set l.sockets at last j,
    get_elem?-lt l.sockets at self,
    get_elem?-lt l.sockets j s,
    c self at,
    c s j,
    c self j,
    c s at,
    c last j,
    c last (length l.sockets - 1),
  )

  -- Scheduling an acknowledgment keeps every position right, puts the socket in the list, and changes
  -- the position of no other socket.
  pub schedule_lem :
      IsConsistent (schedule l self)
      × ((schedule l self).ida self ≢ none)
      × ((s : ℕ) → s ≢ self → (schedule l self).ida s ≡ l.ida s)
  unfolding schedule update
  schedule_lem = elim (Option-cases (l.ida self)) [
    | inl e ↦ rw (e, schedule) (appended e, ground arith, λ s ne. ground arith)
    | inr (i, e) ↦ rw (e, schedule) (c, ground arith, λ s ne. refl)
  ]

  -- Removing a socket takes it out of the list and keeps every position right, also that of the last
  -- socket, which moves into its place; every other socket is in the list as before.
  pub remove_lem :
      IsConsistent (remove l self)
      × ((remove l self).ida self ≡ none)
      × ((s : ℕ) → s ≢ self → ((remove l self).ida s ≡ none) ↔ (l.ida s ≡ none))
  unfolding remove move_last update
  remove_lem = elim (Option-cases (l.ida self)) [
    | inl e ↦ rw (e, remove) (c, e, λ s ne. (λ h. h, λ h. h))
    | inr (i, e) ↦
        let (last, el) =
          get_elem?-some l.sockets (length l.sockets - 1)
            (omega (arith, get_elem?-lt l.sockets i self ((c self i).0 e))) in
        rw (e, remove, el, move_last)
          (moved i last e el, ground arith, λ s ne. ground (arith, c last (length l.sockets - 1)))
  ]

length-take : (xs : List ℕ) (n : ℕ) → n ≤ length xs → length (take n xs) ≡ n
length-take xs zero h = refl
length-take [] (suc n) h = elim h [ ]
length-take (x ∷ xs) (suc n) h = ap suc (length-take xs n (omega arith))

length-remove :
    (l : AckList) (self i : ℕ)
    → IsConsistent l
    → l.ida self ≡ some i
    → length (remove l self).sockets ≡ length l.sockets - 1
unfolding remove move_last
length-remove l self i c e =
    let (last, el) =
      get_elem?-some l.sockets (length l.sockets - 1)
        (omega (arith, get_elem?-lt l.sockets i self ((c self i).0 e))) in
    rw (e, remove, el, move_last)
      (length-take (set l.sockets i last) (length l.sockets - 1)
        (omega (arith, length-set l.sockets i last)))

abbrev pub contains : List ℕ → ℕ → Bool
contains [] s = false
contains (x ∷ xs) s = x == s || contains xs s

-- What the loop of deferred acknowledgments has done when it stops.
pub record Drained (l : AckList) (out : List ℕ × AckList) : Type 0 where
  pub emptied : out.1.sockets ≡ []
  pub cleared : (s : ℕ) → out.1.ida s ≡ none
  pub each : (s : ℕ) → contains out.0 s ≡ is_some (l.ida s)
  pub once : length out.0 ≡ length l.sockets

empty-Drained : (l : AckList) → IsConsistent l → l.sockets ≡ [] → Drained l ([], l)
empty-Drained l c e = record {
  emptied = e;
  cleared = none_listed;
  each = λ s. ground (arith, none_listed s);
  once = ground arith;
}
  where
    none_listed : (s : ℕ) → l.ida s ≡ none
    none_listed s = elim (Option-cases (l.ida s)) [
      | inl h ↦ h
      | inr (i, h) ↦ ground (arith, (c s i).0 h)
    ]

step-Drained :
    (l : AckList) (s : ℕ) (rest : List ℕ × AckList)
    → IsConsistent l
    → get_elem? l.sockets 0 ≡ some s
    → Drained (remove l s) rest
    → Drained l (s ∷ rest.0, rest.1)
step-Drained l s rest c e d = record {
  emptied = d.emptied;
  cleared = d.cleared;
  each = λ t. elim (ℕ_discrete s t) [
    | yes p ↦ ground (arith, (c s 0).1 e)
    | no p ↦ ground (arith, d.each t, (remove_lem l s c).2 t (λ q. p (sym q)))
  ];
  once = omega (arith, d.once, length-remove l s 0 c ((c s 0).1 e), get_elem?-lt l.sockets 0 s e);
}

-- With at least as much fuel as there are sockets, the loop of deferred acknowledgments ends with the
-- list empty and every position cleared; it acknowledges exactly the sockets that were in the list,
-- as many times in all as the list was long, so each of them once.
pub drain_lem :
    (fuel : ℕ) (l : AckList) → IsConsistent l → length l.sockets ≤ fuel → Drained l (drain fuel l)
unfolding drain
drain_lem zero l c h = empty-Drained l c (nil-of_length l.sockets h)
  where
    nil-of_length : (xs : List ℕ) → length xs ≤ 0 → xs ≡ []
    nil-of_length [] p = refl
    nil-of_length (x ∷ xs) p = elim p [ ]
drain_lem (suc fuel) l c h = elim (Option-cases (get_elem? l.sockets 0)) [
  | inl e ↦ rw (e, drain) (empty-Drained l c (ground arith))
  | inr (s, e) ↦
      rw (e, drain)
        (step-Drained l s _ c e (
          drain_lem fuel (remove l s) (remove_lem l s c).0
            (omega (arith, length-remove l s 0 c ((c s 0).1 e)))))
]
