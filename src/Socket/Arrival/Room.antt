-- ===== src/Socket/Arrival/Room.antt =====
-- The reorder buffer made larger: what waited still waits, at the same places.
use go_libutp.Prelude.{
  ℕ, zero, suc, ◌+◌, ◌-◌, ◌^◌, ◌%◌, ◌≤◌, ◌<◌, ◌≡◌, refl, ap, ap₂, sym, ◌∙◌, Option, none, some,
  List, [], ◌∷◌, ◌++◌, add64, sub64, arith, Bool, inl, inr, Bool-cases, ltb, ltb→lt, subst,
  if◌then◌else◌, replicate,
}
use go_libutp.CircBuf.{CircBuf, get, grow, ensure_size}
use go_libutp.CircBuf.Window
use go_libutp.CircBuf.Window.{grow_lem}
use go_libutp.CircBuf.Entries.{entries, entries_from, entries_from-cong}
use go_libutp.Socket.Queue.View.{get-cong16}
use go_libutp.Socket.Arrival.View.{occupied}
use go_libutp.Socket.Arrival.Stream.{Genuine}

module _ {A : Type 0} where
  entries_from-append :
      (b : CircBuf A) (base i m k : ℕ)
      → entries_from b base i (m + k) ≡ entries_from b base i m ++ entries_from b base (i + m) k
  entries_from-append b base i zero k =
      let none_added : zero + k ≡ k = omega arith in
      let same_start : i ≡ i + zero = omega arith in ap₂ (entries_from b base) same_start none_added
  entries_from-append b base i (suc m) k =
      let one_more : suc m + k ≡ suc (m + k) = omega arith in
      let start : suc i + m ≡ i + suc m = omega arith in
      ap (entries_from b base i) one_more
      ∙ ap (λ t. get b (add64 base i) ∷ t)
          (entries_from-append b base (suc i) m k
            ∙ ap (λ t. entries_from b base (suc i) m ++ entries_from b base t k) start)

  entries_from-none :
      (b : CircBuf A) (base i k : ℕ)
      → ((j : ℕ) → i ≤ j → j < i + k → get b (add64 base j) ≡ none)
      → entries_from b base i k ≡ replicate k none
  entries_from-none b base i zero h = refl
  entries_from-none b base i (suc k) h =
      ap₂ ◌∷◌ (h i (omega arith) (omega arith))
        (entries_from-none b base (suc i) k (λ j lo hi. h j (omega arith) (omega arith)))

  pub occupied-append_none :
      (xs : List (Option A)) (k : ℕ) → occupied (xs ++ replicate k none) ≡ occupied xs
  occupied-append_none [] zero = refl
  occupied-append_none [] (suc k) = occupied-append_none [] k
  occupied-append_none (none ∷ xs) k = occupied-append_none xs k
  occupied-append_none (some x ∷ xs) k = ap suc (occupied-append_none xs k)

  moved :
      (b : CircBuf A) (base base' j : ℕ)
      → Window.IsValid b
      → base % 2 ^ 16 ≡ base' % 2 ^ 16
      → get b (add64 base j) ≡ get b (add64 base' j)
  moved b base base' j v e = get-cong16 b (add64 base j) (add64 base' j) v (omega (arith, e))

  append-nil : (xs : List (Option A)) → xs ++ [] ≡ xs
  append-nil [] = refl
  append-nil (x ∷ xs) = ap (λ t. x ∷ t) (append-nil xs)

  grow-ring :
      (b : CircBuf A) (base item index : ℕ)
      → Window.IsValid b
      → b.mask < index
      → index < 2 ^ 15
      → base % 2 ^ 16 ≡ sub64 item index % 2 ^ 16
      → entries (grow b item index) base (suc (grow b item index).mask)
        ≡ entries b base (suc b.mask) ++ replicate ((grow b item index).mask - b.mask) none
  grow-ring b base item index v more small e =
      let (kept, valid, room) = grow_lem b item index v more small in
      let g = grow b item index in
      let split : suc g.mask ≡ suc b.mask + (g.mask - b.mask) = omega (arith, room) in
      let old : (j : ℕ) → 0 ≤ j → j < 0 + suc b.mask → get g (add64 base j) ≡ get b (add64 base j) =
        λ j lo hi.
          moved g base (sub64 item index) j valid e
          ∙ ground (arith, kept j (omega (arith, room)))
          ∙ sym (moved b base (sub64 item index) j v e) in
      let new : (j : ℕ)
          → 0 + suc b.mask ≤ j
          → j < 0 + suc b.mask + (g.mask - b.mask)
          → get g (add64 base j) ≡ none =
        λ j lo hi.
          moved g base (sub64 item index) j valid e
          ∙ ground (arith, kept j (omega (arith, room))) in
      ap (entries_from g base 0) split
      ∙ entries_from-append g base 0 (suc b.mask) (g.mask - b.mask)
      ∙ ap₂ (λ xs ys. xs ++ ys) (entries_from-cong g b base base 0 (suc b.mask) old)
          (entries_from-none g base (0 + suc b.mask) (g.mask - b.mask) new)

  -- The whole ring, seen from `base`, gets empty slots at its end.
  pub ensure_size-ring :
      (b : CircBuf A) (base item index : ℕ)
      → Window.IsValid b
      → index < 2 ^ 15
      → base % 2 ^ 16 ≡ sub64 item index % 2 ^ 16
      → entries (ensure_size b item index) base (suc (ensure_size b item index).mask)
        ≡ entries b base (suc b.mask) ++ replicate ((ensure_size b item index).mask - b.mask) none
  unfolding ensure_size
  ensure_size-ring b base item index v small e = elim (Bool-cases (ltb b.mask index)) [
    | inl more ↦
        subst Grown (sym (ap pick more)) (grow-ring b base item index v (ltb→lt _ _ more) small e)
    | inr fits ↦
        let no_more : b.mask - b.mask ≡ 0 = omega arith in
        subst Grown (sym (ap pick fits)) (
          sym (
            ap (λ t. entries b base (suc b.mask) ++ replicate t none) no_more
            ∙ append-nil (entries b base (suc b.mask))))
  ]
    where
      pick : Bool → CircBuf A
      pick t = if t then grow b item index else b

      Grown : CircBuf A → Type 0
      Grown c =
          entries c base (suc c.mask)
          ≡ entries b base (suc b.mask) ++ replicate (c.mask - b.mask) none

pub Genuine-append_none :
    (packets : ℕ → List ℕ) (n k : ℕ) (xs : List (Option (List ℕ)))
    → Genuine packets n xs
    → Genuine packets n (xs ++ replicate k none)
Genuine-append_none packets n zero [] g = tt
Genuine-append_none packets n (suc k) [] g = Genuine-append_none packets (suc n) k [] tt
Genuine-append_none packets n k (none ∷ xs) g = Genuine-append_none packets (suc n) k xs g
Genuine-append_none packets n k (some x ∷ xs) (e, g) =
    (e, Genuine-append_none packets (suc n) k xs g)
