-- ===== src/CircBuf/Entries.antt =====
-- The circular buffer as the list of its entries at consecutive indices: the view that the send queue
-- and the reorder buffer are specified with.
use native.Mathlib.Nat.{mod-mod_of_dvd}
use go_libutp.Prelude.{
  ℕ, zero, suc, ◌+◌, ◌%◌, ◌^◌, ◌≤◌, ◌<◌, ◌≡◌, refl, ap, ap₂, ◌∙◌, Option, none, List, [], ◌∷◌, ◌++◌,
  add64, sub64, get_or, set, length, arith,
}
use go_libutp.CircBuf.{CircBuf, get, put, ensure_size}
use go_libutp.CircBuf.Window.{IsValid, power-dvd, get-put_window, ensure_size_lem}

module _ {A : Type 0} where
  -- The entries at `base + i`, …, `base + i + n - 1`.
  abbrev pub entries_from : CircBuf A → ℕ → ℕ → ℕ → List (Option A)
  entries_from b base i zero = []
  entries_from b base i (suc n) = get b (add64 base i) ∷ entries_from b base (suc i) n

  -- The `n` entries from index `base` on.
  abbrev pub entries : CircBuf A → ℕ → ℕ → List (Option A)
  entries b base n = entries_from b base 0 n

  -- An index names the same cell after truncation to 16 or to 64 bits.
  pub get-mod16 : (b : CircBuf A) (i : ℕ) → IsValid b → get b (i % 2 ^ 16) ≡ get b i
  unfolding get
  get-mod16 b i v =
      ap (λ t. get_or b.elements t none)
        (mod-mod_of_dvd (b.mask + 1) i (power-dvd (b.mask + 1) 16 v.power (omega arith)))

  pub get-mod64 : (b : CircBuf A) (i : ℕ) → IsValid b → get b (i % 2 ^ 64) ≡ get b i
  unfolding get
  get-mod64 b i v =
      ap (λ t. get_or b.elements t none)
        (mod-mod_of_dvd (b.mask + 1) i (power-dvd (b.mask + 1) 64 v.power (omega arith)))

  pub put-mod16 :
      (b : CircBuf A) (i : ℕ) (x : Option A) → IsValid b → put b (i % 2 ^ 16) x ≡ put b i x
  unfolding put
  put-mod16 b i x v =
      ap (λ t. record b { elements = set b.elements t x })
        (mod-mod_of_dvd (b.mask + 1) i (power-dvd (b.mask + 1) 16 v.power (omega arith)))

  pub put-mod64 :
      (b : CircBuf A) (i : ℕ) (x : Option A) → IsValid b → put b (i % 2 ^ 64) x ≡ put b i x
  unfolding put
  put-mod64 b i x v =
      ap (λ t. record b { elements = set b.elements t x })
        (mod-mod_of_dvd (b.mask + 1) i (power-dvd (b.mask + 1) 64 v.power (omega arith)))

  length-entries_from : (b : CircBuf A) (base i n : ℕ) → length (entries_from b base i n) ≡ n
  length-entries_from b base i zero = refl
  length-entries_from b base i (suc n) = ap suc (length-entries_from b base (suc i) n)

  pub length-entries : (b : CircBuf A) (base n : ℕ) → length (entries b base n) ≡ n
  length-entries b base n = length-entries_from b base 0 n

  pub get_or-entries_from :
      (b : CircBuf A) (base i n j : ℕ)
      → j < n
      → get_or (entries_from b base i n) j none ≡ get b (add64 base (i + j))
  get_or-entries_from b base i zero j h = elim h [ ]
  get_or-entries_from b base i (suc n) zero h = ap (λ t. get b (add64 base t)) (omega arith)
  get_or-entries_from b base i (suc n) (suc j) h =
      get_or-entries_from b base (suc i) n j (omega arith)
      ∙ ap (λ t. get b (add64 base t)) (omega arith)

  -- Two buffers that agree at the window's indices have the same entries.
  pub entries_from-cong :
      (b c : CircBuf A) (x y i n : ℕ)
      → ((j : ℕ) → i ≤ j → j < i + n → get b (add64 x j) ≡ get c (add64 y j))
      → entries_from b x i n ≡ entries_from c y i n
  entries_from-cong b c x y i zero h = refl
  entries_from-cong b c x y i (suc n) h =
      ap₂ ◌∷◌ (h i (omega arith) (omega arith))
        (entries_from-cong b c x y (suc i) n (λ j lo hi. h j (omega arith) (omega arith)))

  -- A write outside of the window, on either side of it.
  put-before :
      (b : CircBuf A) (base i n k : ℕ) (x : Option A)
      → IsValid b
      → i + n ≤ b.mask + 1
      → k < i
      → entries_from (put b (add64 base k) x) base i n ≡ entries_from b base i n
  put-before b base i n k x v h hk =
      entries_from-cong _ _ base base i n
        λ j lo hi. ground (arith, get-put_window b base k j x v (omega arith) (omega arith))

  put-entries_from :
      (b : CircBuf A) (base i n k p : ℕ) (x : Option A)
      → IsValid b
      → i + n ≤ b.mask + 1
      → k < n
      → p ≡ i + k
      → entries_from (put b (add64 base p) x) base i n ≡ set (entries_from b base i n) k x
  put-entries_from b base i zero k p x v h hk e = elim hk [ ]
  put-entries_from b base i (suc n) zero p x v h hk e =
      ap₂ ◌∷◌ (ground (arith, get-put_window b base p i x v (omega arith) (omega arith)))
        (put-before b base (suc i) n p x v (omega arith) (omega arith))
  put-entries_from b base i (suc n) (suc k) p x v h hk e =
      ap₂ ◌∷◌ (ground (arith, get-put_window b base p i x v (omega arith) (omega arith)))
        (put-entries_from b base (suc i) n k p x v (omega arith) (omega arith) (omega arith))

  -- Writing the entry at position `k` of the window replaces that element of the list.
  pub put-entries :
      (b : CircBuf A) (base n k : ℕ) (x : Option A)
      → IsValid b
      → n ≤ b.mask + 1
      → k < n
      → entries (put b (add64 base k) x) base n ≡ set (entries b base n) k x
  put-entries b base n k x v h hk =
      put-entries_from b base 0 n k k x v (omega arith) hk (omega arith)

  -- The window extended by one entry at its end.
  pub entries_from-snoc :
      (b : CircBuf A) (base i n : ℕ)
      → entries_from b base i (suc n) ≡ entries_from b base i n ++ get b (add64 base (i + n)) ∷ []
  entries_from-snoc b base i zero = ap (λ t. get b (add64 base t) ∷ []) (omega arith)
  entries_from-snoc b base i (suc n) =
      ap (λ t. get b (add64 base i) ∷ t)
        (entries_from-snoc b base (suc i) n
          ∙ ap (λ t. entries_from b base (suc i) n ++ get b (add64 base t) ∷ []) (omega arith))

  pub entries_from-advance :
      (b : CircBuf A) (base i n : ℕ)
      → entries_from b base (suc i) n ≡ entries_from b (add64 base 1) i n
  entries_from-advance b base i zero = refl
  entries_from-advance b base i (suc n) =
      ap₂ ◌∷◌ (ap (get b) (omega arith)) (entries_from-advance b base (suc i) n)

  -- The window without its first entry starts one further on.
  pub entries-cons :
      (b : CircBuf A) (base n : ℕ)
      → entries b base (suc n) ≡ get b (add64 base 0) ∷ entries b (add64 base 1) n
  entries-cons b base n = ap (λ t. get b (add64 base 0) ∷ t) (entries_from-advance b base 0 n)

  -- Making room keeps every entry of the window that ends before `item`.
  pub ensure_size-entries :
      (b : CircBuf A) (item n : ℕ)
      → IsValid b
      → n < 2 ^ 15
      → n ≤ b.mask + 1
      → entries (ensure_size b item n) (sub64 item n) n ≡ entries b (sub64 item n) n
  ensure_size-entries b item n v small fits =
      entries_from-cong _ _ (sub64 item n) (sub64 item n) 0 n
        λ j lo hi. (ensure_size_lem b item n v small).0 j (omega arith)
