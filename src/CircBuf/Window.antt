-- ===== src/CircBuf/Window.antt =====
-- The circular buffer as a window of consecutive indices: what growing keeps, and what one write
-- changes.
use native.Mathlib.Nat.{mod-lt, mod-add-mod, mod-eq_of_lt, mod-eq-sub-mod, mod-mod_of_dvd}
use native.Mathlib.Nat.{add-zero, add-suc, pow-suc, pow-le-pow_right, mul_assoc, mul-one}
use Prim.Native.Nat.{◌∣◌}
use native.Mathlib.Decide.{dec_lt}
use go_libutp.Prelude.{
  ℕ, zero, suc, ◌+◌, ◌-◌, ◌*◌, ◌%◌, ◌^◌, ◌≤◌, ◌<◌, ◌≡◌, ◌≢◌, refl, ap, sym, ◌∙◌, false, Option,
  none, ltb, leb, if◌then◌else◌, add64, sub64, replicate, length, length-set, length-replicate,
  get_or-set_self, get_or-set_ne, get_or-replicate, Bool-cases, arith, inl, inr, ◌==◌, ==_iff, ◌&&◌,
  leb→le, ltb→lt, ltb→le,
}
use native.Mathlib.Decide.{ℕ_discrete}
use go_libutp.Seq.{and_mask}
use go_libutp.CircBuf.{CircBuf, size, get, put, copy_loop, grown_size, grow, ensure_size, create}

-- A power of two, at most 2 ^ 16: so its cells are named by 16-bit sequence numbers too.
abbrev pub IsPower : ℕ → Type 0
IsPower n = (k : ℕ) × (n ≡ 2 ^ k) × (k < 17)

-- The buffer has as many cells as its mask says, a power of two.
pub record IsValid {ℓ} {A : Type ℓ} (b : CircBuf A) : Type 0 where
  pub cells : length b.elements ≡ b.mask + 1
  pub power : IsPower (b.mask + 1)

pow-add : (m n : ℕ) → 2 ^ (m + n) ≡ 2 ^ m * 2 ^ n
pow-add m zero = simp (add-zero, mul-one)
pow-add m (suc n) = rw (add-suc m n, pow-suc 2 (m + n), pow-suc 2 n, pow-add m n) (mul_assoc _ _ _)

pub power-dvd : (n w : ℕ) → IsPower n → 16 ≤ w → n ∣ 2 ^ w
power-dvd n w (k, e, h) hw = rw e (∣ (2 ^ (w - k), ap (λ t. 2 ^ t) split ∙ pow-add k (w - k)) ∣₁)
  where
    split : w ≡ k + (w - k)
    split = omega arith

==-false : (i j : ℕ) → i ≢ j → (i == j) ≡ false
==-false i j ne = ground arith

-- Fewer than `n` steps round a ring of `n` cells do not come back to the start.
add-mod-ne : (n h k : ℕ) → h < n → suc k < n → (h + suc k) % n ≢ h
add-mod-ne n h k hh hk = elim (dec_lt (h + suc k) n) [
  | yes p ↦ omega (arith, mod-eq_of_lt p)
  | no p ↦ omega (
    arith,
    mod-eq-sub-mod {n = h + suc k} {m = n} (omega arith),
    mod-eq_of_lt {n = h + suc k - n} {m = n} (omega arith),
  )
]

add-mod-distinct_lt : (n b i j : ℕ) → i < j → j < i + n → (b + i) % n ≢ (b + j) % n
add-mod-distinct_lt n b i j h k e =
    add-mod-ne n ((b + i) % n) (j - i - 1) (mod-lt (b + i) (omega arith)) (omega arith)
      (mod-add-mod (b + i) n (suc (j - i - 1)) ∙ ap (λ t. t % n) (omega arith) ∙ sym e)

pub add-mod-distinct : (n b i j : ℕ) → i < n → j < n → i ≢ j → (b + i) % n ≢ (b + j) % n
add-mod-distinct n b i j hi hj ne e = elim (dec_lt i j) [
  | yes p ↦ add-mod-distinct_lt n b i j p (omega arith) e
  | no p ↦ add-mod-distinct_lt n b j i (omega arith) (omega arith) (sym e)
]

-- An index computed on `size_t` names the same cell as the unbounded one.
pub mask-add64 : (m x y : ℕ) → IsPower (m + 1) → and_mask (add64 x y) m ≡ (x + y) % (m + 1)
mask-add64 m x y d = mod-mod_of_dvd (m + 1) (x + y) (power-dvd (m + 1) 64 d (omega arith))

module _ {A : Type 0} where
  pub put-IsValid : (b : CircBuf A) (i : ℕ) (x : Option A) → IsValid b → IsValid (put b i x)
  unfolding put
  put-IsValid b i x v = record {
    cells = length-set b.elements (and_mask i b.mask) x ∙ v.cells;
    power = v.power;
  }

  pub create-IsValid : IsValid (create {A = A})
  unfolding create
  create-IsValid = record { cells = refl; power = (4, refl, omega arith) }

  -- A slot that was written holds what was written.
  pub get-put_self : (b : CircBuf A) (i : ℕ) (x : Option A) → IsValid b → get (put b i x) i ≡ x
  unfolding get put
  get-put_self b i x v =
      get_or-set_self b.elements (and_mask i b.mask) x none
        (omega (arith, v.cells, mod-lt i {m = b.mask + 1} (omega arith)))

  -- Writing one slot leaves every slot of another cell as it was.
  pub get-put_ne :
      (b : CircBuf A) (i j : ℕ) (x : Option A)
      → and_mask i b.mask ≢ and_mask j b.mask
      → get (put b i x) j ≡ get b j
  unfolding get put
  get-put_ne b i j x ne = get_or-set_ne b.elements (and_mask i b.mask) (and_mask j b.mask) x none ne

  mask-put : (b : CircBuf A) (i : ℕ) (x : Option A) → (put b i x).mask ≡ b.mask
  unfolding put
  mask-put b i x = refl

  mask-copy_loop :
      (n i base : ℕ) (old buf : CircBuf A) → (copy_loop n i base old buf).mask ≡ buf.mask
  unfolding copy_loop
  mask-copy_loop zero i base old buf = refl
  mask-copy_loop (suc n) i base old buf =
      mask-copy_loop n (i + 1) base old _ ∙ mask-put buf (add64 base i) _

  copy_loop-IsValid :
      (n i base : ℕ) (old buf : CircBuf A) → IsValid buf → IsValid (copy_loop n i base old buf)
  unfolding copy_loop
  copy_loop-IsValid zero i base old buf v = v
  copy_loop-IsValid (suc n) i base old buf v =
      copy_loop-IsValid n (i + 1) base old _ (put-IsValid buf _ _ v)

  -- One write at position `i` of the window from `base`, read back at position `j`.
  pub get-put_window :
      (b : CircBuf A) (base i j : ℕ) (x : Option A)
      → IsValid b
      → i < b.mask + 1
      → j < b.mask + 1
      → get (put b (add64 base i) x) (add64 base j) ≡ (if i == j then x else get b (add64 base j))
  get-put_window b base i j x v hi hj = elim (ℕ_discrete i j) [
    | yes e ↦ rw (e, (==_iff j j).1 refl) (get-put_self b (add64 base j) x v)
    | no ne ↦ rw (==-false i j ne) (
        get-put_ne b (add64 base i) (add64 base j) x (λ e.
          add-mod-distinct (b.mask + 1) base i j hi hj ne
            (sym (mask-add64 b.mask base i v.power) ∙ e ∙ mask-add64 b.mask base j v.power)))
  ]

  -- After `n` rounds from `i` on, the positions from `i` to `i + n` hold what the old buffer held.
  get-copy_loop :
      (n i base j : ℕ) (old buf : CircBuf A)
      → IsValid buf
      → i + n ≤ buf.mask + 1
      → j < buf.mask + 1
      → get (copy_loop n i base old buf) (add64 base j)
        ≡ (if leb i j && ltb j (i + n) then get old (add64 base j) else get buf (add64 base j))
  unfolding copy_loop
  get-copy_loop zero i base j old buf v h hj = ground arith
  get-copy_loop (suc n) i base j old buf v h hj = ground (
    arith,
    get-copy_loop n (i + 1) base j old (put buf (add64 base i) (get old (add64 base i)))
        (put-IsValid buf (add64 base i) _ v) (omega (arith, mask-put buf (add64 base i)))
        (omega (arith, mask-put buf (add64 base i))),
    get-put_window buf base i j (get old (add64 base i)) v (omega arith) hj,
  )

-- With a size of at least 1 and `index` below `size + fuel`, the loop ends with a power of two above
-- `index`.
grown_size_lem :
    (fuel size index : ℕ) → 0 < size → index < size + fuel → index < grown_size fuel size index
unfolding grown_size
grown_size_lem zero size index p h = omega arith
grown_size_lem (suc fuel) size index p h = ground (arith, grown_size_lem fuel (size * 2) index)

small_exponent : (k : ℕ) → 2 ^ k < 2 ^ 15 → k < 15
small_exponent k h = elim (dec_lt k 15) [
  | yes p ↦ p
  | no p ↦
      absurd (omega (arith, pow-le-pow_right {n = 2} (omega arith) {i = 15} {j = k} (omega arith)))
]

IsPower-double : (n : ℕ) → IsPower n → n < 2 ^ 15 → IsPower (n * 2)
IsPower-double n (k, e, h) small =
    let le : k < 15 = small_exponent k (rw e at small) in (suc k, rw (e, pow-suc 2 k), omega arith)

grown_size-IsPower :
    (fuel size index : ℕ)
    → IsPower size
    → size ≤ index
    → index < 2 ^ 15
    → IsPower (grown_size fuel size index)
unfolding grown_size
grown_size-IsPower zero size index p h small = IsPower-double size p (omega arith)
grown_size-IsPower (suc fuel) size index p h small = elim (Bool-cases (leb (size * 2) index)) [
  | inl more ↦ rw more (
      grown_size-IsPower fuel (size * 2) index (IsPower-double size p (omega arith))
        (leb→le _ _ more) small)
  | inr done ↦ rw done (IsPower-double size p (omega arith))
]

module _ {A : Type 0} where
  -- Growing keeps the entries at the old size's worth of indices that start at `item - index`, leaves
  -- the new positions empty, makes room for `index`, and keeps the buffer valid.
  pub grow_lem :
      (b : CircBuf A) (item index : ℕ)
      → IsValid b
      → b.mask < index
      → index < 2 ^ 15
      → ((j : ℕ)
          → j < (grow b item index).mask + 1
          → get (grow b item index) (add64 (sub64 item index) j)
            ≡ (if ltb j (b.mask + 1) then get b (add64 (sub64 item index) j) else none))
        × IsValid (grow b item index)
        × (index < (grow b item index).mask + 1)
  unfolding grow
  grow_lem b item index v big small = (
    λ j hj. ground (
      arith,
      get-copy_loop (b.mask + 1) 0 base j b fresh fresh-IsValid (omega (arith, above))
          (omega (arith, mask-copy_loop (b.mask + 1) 0 base b fresh)),
      get-fresh (add64 base j),
    ),
    copy_loop-IsValid (b.mask + 1) 0 base b fresh fresh-IsValid,
    omega (arith, mask-copy_loop (b.mask + 1) 0 base b fresh, above),
  )
    where
      base : ℕ
      base = sub64 item index

      new_size : ℕ
      new_size = grown_size index (b.mask + 1) index

      above : index < new_size
      above = grown_size_lem index (b.mask + 1) index (omega arith) (omega arith)

      size-eq : new_size - 1 + 1 ≡ new_size
      size-eq = omega (arith, above)

      fresh : CircBuf A
      fresh = record { mask = new_size - 1; elements = replicate new_size none }

      fresh-IsValid : IsValid fresh
      fresh-IsValid = record {
        cells = length-replicate new_size none ∙ sym size-eq;
        power =
            rw size-eq (grown_size-IsPower index (b.mask + 1) index v.power (omega arith) small);
      }

      get-fresh : (i : ℕ) → get fresh i ≡ none
      get-fresh i = unfold get in get_or-replicate new_size none (and_mask i (new_size - 1))

  -- Making room never loses an entry: whatever stood at the old size's worth of indices from
  -- `item - index` still stands there, and the buffer is valid and has room for `index`.
  pub ensure_size_lem :
      (b : CircBuf A) (item index : ℕ)
      → IsValid b
      → index < 2 ^ 15
      → ((j : ℕ)
          → j < b.mask + 1
          → get (ensure_size b item index) (add64 (sub64 item index) j)
            ≡ get b (add64 (sub64 item index) j))
        × IsValid (ensure_size b item index)
        × (index ≤ (ensure_size b item index).mask)
        × (b.mask ≤ (ensure_size b item index).mask)
  unfolding ensure_size
  ensure_size_lem b item index v small = elim (Bool-cases (ltb b.mask index)) [
    | inl more ↦
        let (kept, valid, room) = grow_lem b item index v (ltb→lt _ _ more) small in
        rw more (
          λ j hj. ground (arith, kept j (omega (arith, ltb→lt _ _ more))),
          valid,
          omega arith,
          omega (arith, ltb→lt _ _ more),
        )
    | inr fits ↦ rw fits (λ j hj. refl, v, ltb→le _ _ fits, omega arith)
  ]
