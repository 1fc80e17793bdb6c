-- ===== src/Socket/Arrival/View.antt =====
-- The reorder buffer as a list: the packets that wait, from the next expected number on.
use native.Mathlib.Nat.{mod-eq-sub-mod}
use go_libutp.Prelude.{
  ℕ, zero, suc, ◌+◌, ◌%◌, ◌^◌, ◌≤◌, ◌<◌, ◌≡◌, refl, ap, ap₂, sym, ◌∙◌, Option, none, some, List, [],
  ◌∷◌, ◌++◌, add16, add64, length, get_or, arith,
}
use go_libutp.CircBuf.{CircBuf, get, put}
use go_libutp.CircBuf.Window
use go_libutp.CircBuf.Entries.{
  entries, entries_from-snoc, entries_from-advance, entries_from-cong, put-entries,
}
use go_libutp.Socket.{Receive}
use go_libutp.Socket.Queue.View.{get-cong16, put-cong16}

abbrev pub rest : {A : Type 0} → List A → List A
rest [] = []
rest (x ∷ xs) = xs

abbrev pub occupied : {A : Type 0} → List (Option A) → ℕ
occupied [] = 0
occupied (none ∷ xs) = occupied xs
occupied (some x ∷ xs) = suc (occupied xs)

-- How many slots from the first on hold a packet, up to the first empty one.
abbrev pub run : {A : Type 0} → List (Option A) → ℕ
run [] = 0
run (none ∷ xs) = 0
run (some x ∷ xs) = suc (run xs)

-- The slots as they are `k` packets later: each step takes the first away and has an empty last one.
abbrev pub passed : {A : Type 0} → ℕ → List (Option A) → List (Option A)
passed zero xs = xs
passed (suc k) xs = passed k (rest xs ++ none ∷ [])

-- The slot at position `j` is that of number `ack_nr + 1 + j`.
abbrev pub waiting : Receive → List (Option (List ℕ))
waiting r = entries r.inbuf (r.ack_nr + 1) (suc r.inbuf.mask)

module _ {A : Type 0} where
  pub occupied-le : (xs : List (Option A)) → occupied xs ≤ length xs
  occupied-le [] = omega arith
  occupied-le (none ∷ xs) = omega (arith, occupied-le xs)
  occupied-le (some x ∷ xs) = omega (arith, occupied-le xs)

  pub occupied-snoc : (xs : List (Option A)) → occupied (xs ++ none ∷ []) ≡ occupied xs
  occupied-snoc [] = refl
  occupied-snoc (none ∷ xs) = occupied-snoc xs
  occupied-snoc (some x ∷ xs) = ap suc (occupied-snoc xs)

  pub run-snoc : (xs : List (Option A)) → run (xs ++ none ∷ []) ≡ run xs
  run-snoc [] = refl
  run-snoc (none ∷ xs) = refl
  run-snoc (some x ∷ xs) = ap suc (run-snoc xs)

  pub run-le : (xs : List (Option A)) → run xs ≤ occupied xs
  run-le [] = omega arith
  run-le (none ∷ xs) = omega arith
  run-le (some x ∷ xs) = omega (arith, run-le xs)

  -- Indices a whole ring apart name the same slot.
  get-ring : (b : CircBuf A) (x : ℕ) → get b (x + (b.mask + 1)) ≡ get b x
  unfolding get
  get-ring b x =
      ap (λ t. get_or b.elements t none)
        (mod-eq-sub-mod {n = x + (b.mask + 1)} {m = b.mask + 1} (omega arith)
          ∙ ap (λ t. t % (b.mask + 1)) (omega arith))

  -- The ring seen from one index further on: its first slot, empty, is now the last.
  pub entries-rotate :
      (b : CircBuf A) (ack : ℕ)
      → Window.IsValid b
      → ack < 2 ^ 16
      → get b (ack + 1) ≡ none
      → entries b (add16 ack 1 + 1) (suc b.mask)
        ≡ rest (entries b (ack + 1) (suc b.mask)) ++ none ∷ []
  entries-rotate b ack v h e =
      entries_from-snoc b (add16 ack 1 + 1) 0 b.mask
      ∙ ap₂ (λ xs x. xs ++ x ∷ [])
          (entries_from-cong b b (add16 ack 1 + 1) (add64 (ack + 1) 1) 0 b.mask (λ j lo hi.
              get-cong16 b (add64 (add16 ack 1 + 1) j) (add64 (add64 (ack + 1) 1) j) v
                (omega arith))
            ∙ sym (entries_from-advance b (ack + 1) 0 b.mask))
          (get-cong16 b (add64 (add16 ack 1 + 1) (0 + b.mask)) (ack + 1 + (b.mask + 1)) v
              (omega arith)
            ∙ get-ring b (ack + 1)
            ∙ e)

  -- The same, once the first slot has been emptied.
  pub entries-rotate_put :
      (b : CircBuf A) (ack : ℕ)
      → Window.IsValid b
      → ack < 2 ^ 16
      → entries (put b (ack + 1) none) (add16 ack 1 + 1) (suc b.mask)
        ≡ rest (entries b (ack + 1) (suc b.mask)) ++ none ∷ []
  unfolding put
  entries-rotate_put b ack v h =
      entries-rotate (put b (ack + 1) none) ack (Window.put-IsValid b (ack + 1) none v) h
        (Window.get-put_self b (ack + 1) none v)
      ∙ ap (λ xs. rest xs ++ none ∷ [])
          (ap (λ t. entries t (ack + 1) (suc b.mask))
              (put-cong16 b (ack + 1) (add64 (ack + 1) 0) none v (omega arith))
            ∙ put-entries b (ack + 1) (suc b.mask) 0 none v (omega arith) (omega arith))
