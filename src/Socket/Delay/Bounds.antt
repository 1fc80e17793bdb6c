-- ===== src/Socket/Delay/Bounds.antt =====
-- Bounds of the average delay, of its drift and of the sum behind it.
use go_libutp.Prelude.{
  ℕ, suc, ◌+◌, ◌-◌, ◌*◌, ◌/◌, ◌%◌, ◌^◌, ◌<◌, ◌≤◌, ◌≡◌, ◌⊎◌, inl, inr, refl, sym, subst, true, ◌==◌,
  ltb, if◌then◌else◌, if_both, Bool-cases, ltb→lt, arith, add64,
}
use go_libutp.Prelude.Int.{
  ℤ, pos, ◌≤ℤ◌, negsuc, pos_part, neg_part, sub_ℕ, ◌+ℤ◌, ◌-ℤ◌, ◌*ℤ◌, ltb_ℤ, div_ℤ, min_ℤ, max_ℤ,
  int32, +ℤ_parts, -ℤ_parts,
}
use native.Mathlib.Nat.{div-le_of_le-mul, zero-div}
use go_libutp.Socket.{Drift}
use go_libutp.Socket.Delay.{
  max_average_delay_sample, average_delay_sample, add_average, adjustment, end_slot, average_delays,
}

-- The absolute value.
abbrev pub magnitude : ℤ → ℕ
magnitude a = pos_part a + neg_part a

one_sign : (a : ℤ) → (pos_part a ≡ 0) ⊎ (neg_part a ≡ 0)
one_sign (pos n) = inr refl
one_sign (negsuc n) = inl refl

magnitude-sub_ℕ : (a b : ℕ) → magnitude (sub_ℕ a b) ≤ a + b
magnitude-sub_ℕ a b = ground arith

magnitude_sum : (a b : ℤ) → magnitude (a +ℤ b) ≤ magnitude a + magnitude b
magnitude_sum a b = omega (arith, +ℤ_parts a b, one_sign (a +ℤ b))

magnitude-div : (a : ℤ) (n m : ℕ) → 0 < n → magnitude a ≤ n * m → magnitude (div_ℤ a n) ≤ m
magnitude-div (pos p) n m pos_n h = omega (
  arith,
  magnitude-sub_ℕ (p / n) (0 / n),
  zero-div n,
  div-le_of_le-mul n {m = p} {n = m} (omega arith),
)
magnitude-div (negsuc p) n m pos_n h = omega (
  arith,
  magnitude-sub_ℕ (0 / n) (suc p / n),
  zero-div n,
  div-le_of_le-mul n {m = suc p} {n = m} (omega arith),
)

pub int32_id : (a : ℤ) → magnitude a < 2 ^ 31 → int32 a ≡ a
int32_id (pos n) h = ground arith
int32_id (negsuc n) h = ground arith

-- Moved by the opposite of an integer between zero and `b`, `b` comes no further from zero.
moved :
    (b c : ℤ) (m : ℕ)
    → magnitude b ≤ m
    → ((pos 0 ≤ℤ c) × (c ≤ℤ b)) ⊎ ((b ≤ℤ c) × (c ≤ℤ pos 0))
    → magnitude (b +ℤ (pos 0 -ℤ c)) ≤ m
moved b c m hb between =
    let j = pos 0 -ℤ c in
    omega (arith, +ℤ_parts b j, -ℤ_parts (pos 0) c, one_sign (b +ℤ j), one_sign b, one_sign c)

ltb_ℤ-le : (a b : ℤ) → ltb_ℤ a b ≡ true → a ≤ℤ b
ltb_ℤ-le a b h = omega (arith, ltb→lt _ _ h)

min_ℤ-le : (a b : ℤ) → min_ℤ a b ≤ℤ b
min_ℤ-le a b = ground arith

max_ℤ-ge : (a b : ℤ) → b ≤ℤ max_ℤ a b
max_ℤ-ge a b = ground arith

-- The average of a slot is moved toward zero, and the move cancels in the slope.
moved_average : (a b : ℤ) (m : ℕ) → magnitude b ≤ m → magnitude (b +ℤ adjustment a b) ≤ m
unfolding adjustment
moved_average a b m hb = elim (Bool-cases (ltb_ℤ (pos 0) (min_ℤ a b))) [
  | inl up ↦ rw up (moved b (min_ℤ a b) m hb (inl (ltb_ℤ-le (pos 0) (min_ℤ a b) up, min_ℤ-le a b)))
  | inr low ↦ rw low (elim (Bool-cases (ltb_ℤ (max_ℤ a b) (pos 0))) [
    | inl down ↦
        rw down (moved b (max_ℤ a b) m hb (inr (max_ℤ-ge a b, ltb_ℤ-le (max_ℤ a b) (pos 0) down)))
    | inr high ↦ rw high (omega (arith, +ℤ_parts b (pos 0), one_sign (b +ℤ pos 0), one_sign b))
  ])
]

slope_lem :
    (a b j : ℤ) (m : ℕ) → magnitude a ≤ m → magnitude b ≤ m → magnitude (b +ℤ j -ℤ (a +ℤ j)) ≤ 2 * m
slope_lem a b j m ha hb =
    omega
      (arith, +ℤ_parts b j, +ℤ_parts a j, -ℤ_parts (b +ℤ j) (a +ℤ j), one_sign (b +ℤ j -ℤ (a +ℤ j)))

magnitude-sample : (base d : ℕ) → magnitude (average_delay_sample base d) ≤ max_average_delay_sample
unfolding average_delay_sample
magnitude-sample base d = ground arith

rolled :
    (a b : ℤ) (m : ℕ)
    → magnitude a ≤ m
    → magnitude b ≤ m
    → magnitude (div_ℤ (a *ℤ pos 7 +ℤ b) 8) ≤ m
unfolding ◌*ℤ◌
rolled a b m ha hb = magnitude-div (a *ℤ pos 7 +ℤ b) 8 m (omega arith) (
    omega (
      arith,
      magnitude_sum (a *ℤ pos 7) b,
      magnitude-sub_ℕ (pos_part a * 7 + neg_part a * 0) (pos_part a * 0 + neg_part a * 7),
    ))

-- Averages are within the bound of the samples, a drift within twice that, and the sum within that of its samples.
pub record IsBounded (f : Drift) : Type 0 where
  pub average : magnitude f.average_delay ≤ max_average_delay_sample
  pub drift : magnitude f.clock_drift ≤ 2 * max_average_delay_sample
  pub sum : magnitude f.current_delay_sum ≤ f.current_delay_samples * max_average_delay_sample

add_average-IsBounded : (f : Drift) (d : ℕ) → IsBounded f → IsBounded (add_average f d)
unfolding add_average
add_average-IsBounded f d h =
    let base = if f.average_delay_base == 0 then d else f.average_delay_base in
    record {
      average = h.average;
      drift = h.drift;
      sum = omega (
        arith,
        h.sum,
        magnitude-sample base d,
        magnitude_sum f.current_delay_sum (average_delay_sample base d),
      );
    }

add_average_samples : (f : Drift) (d : ℕ) → 0 < (add_average f d).current_delay_samples
unfolding add_average
add_average_samples f d = omega arith

-- The average that ends a slot.
abbrev pub slot_average : Drift → ℤ
slot_average f = div_ℤ f.current_delay_sum f.current_delay_samples

slot_average-le :
    (f : Drift)
    → IsBounded f
    → 0 < f.current_delay_samples
    → magnitude (slot_average f) ≤ max_average_delay_sample
slot_average-le f h some_heard =
    magnitude-div f.current_delay_sum f.current_delay_samples max_average_delay_sample some_heard
      h.sum

-- `end_slot`, for the average that it stores.
abbrev ended : Drift → ℤ → Drift
ended f average =
    let adjust = adjustment f.average_delay average in
    let now = average +ℤ adjust in
    let slope = now -ℤ (f.average_delay +ℤ adjust) in
    record f {
      average_delay = now;
      average_sample_time = add64 f.average_sample_time 5000;
      current_delay_sum = pos 0;
      current_delay_samples = 0;
      average_delay_base =
          (f.average_delay_base + 2 ^ 32 + neg_part adjust - pos_part adjust) % 2 ^ 32;
      clock_drift = int32 (div_ℤ (f.clock_drift *ℤ pos 7 +ℤ slope) 8);
      clock_drift_raw = slope;
    }

ended-IsBounded :
    (f : Drift) (average : ℤ)
    → IsBounded f
    → magnitude average ≤ max_average_delay_sample
    → IsBounded (ended f average)
ended-IsBounded f average h within =
    let j = adjustment f.average_delay average in
    let slope = average +ℤ j -ℤ (f.average_delay +ℤ j) in
    let drift = div_ℤ (f.clock_drift *ℤ pos 7 +ℤ slope) 8 in
    let small : magnitude drift ≤ 2 * max_average_delay_sample =
      rolled f.clock_drift slope (2 * max_average_delay_sample) h.drift
        (slope_lem f.average_delay average j max_average_delay_sample h.average within) in
    record {
      average = moved_average f.average_delay average max_average_delay_sample within;
      drift =
          subst (λ d. magnitude d ≤ 2 * max_average_delay_sample)
            (sym (int32_id drift (omega arith))) small;
      sum = omega arith;
    }

end_slot-IsBounded :
    (f : Drift) → IsBounded f → 0 < f.current_delay_samples → IsBounded (end_slot f)
unfolding end_slot
end_slot-IsBounded f h some_heard =
    let within = slot_average-le f h some_heard in
    let whole : int32 (slot_average f) ≡ slot_average f = int32_id (slot_average f) (omega arith) in
    ended-IsBounded f (int32 (slot_average f)) h
      (subst (λ a. magnitude a ≤ max_average_delay_sample) (sym whole) within)

-- While the average delay is at most the largest sample in size, the drift at most twice that, and the
-- sum of the samples at most the largest one times their number (so at the start, where all are zero),
-- a delay that the other end reports, whatever it is, keeps them there; and the quotient of the sum by
-- the number of samples lies in the range that the code asserts and is stored whole.
pub average_delays-IsBounded :
    (f : Drift) (actual_delay current_ms : ℕ)
    → IsBounded f
    → IsBounded (average_delays f actual_delay current_ms)
      × (magnitude (slot_average (add_average f actual_delay)) < 2 ^ 31 - 1)
      × (int32 (slot_average (add_average f actual_delay))
          ≡ slot_average (add_average f actual_delay))
unfolding average_delays
average_delays-IsBounded f d now h =
    let added = add_average f d in
    let bounded = add_average-IsBounded f d h in
    let heard : 0 < added.current_delay_samples = add_average_samples f d in
    let within = slot_average-le added bounded heard in
    (
      if_both IsBounded (ltb f.average_sample_time now) (end_slot-IsBounded added bounded heard)
          bounded,
      omega arith,
      int32_id (slot_average added) (omega arith),
    )
