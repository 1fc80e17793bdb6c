-- ===== src/DelayHist/Drift.antt =====
-- The delay history against the clocks: a sample below the base is recorded as no delay, and moving
-- the other clock by a constant moves the bases and nothing else.
use go_libutp.Prelude.{
  ℕ, zero, suc, ◌+◌, ◌%◌, ◌^◌, ◌≤◌, ◌<◌, ◌≡◌, refl, ap, ◌∙◌, List, [], ◌∷◌, map, ltb, if◌then◌else◌,
  get_or, set, length, length-set, add32, sub32, arith,
}
use go_libutp.Seq.{wrapping_compare_less, timestamp_mask}
use go_libutp.Seq.Order.{compare_less32, compare_shift32}
use go_libutp.DelayHist.{
  DelayHist, cur_delay_size, delay_base_history, shift, initialize, lower_bases, record_delay,
  lowest, step_base, add_sample,
}
use go_libutp.DelayHist.Laws.{
  IsValid, AllWords, AllWords-get_or, AllWords-set, initialize-IsValid, lower_bases-IsValid,
  record_delay-IsValid,
}

-- The delay that a sample stands for: its distance above the base, and 0 for a sample that lies
-- below the base by less than half of the clock's range. A first sample is its own base.
abbrev pub measured : DelayHist → ℕ → ℕ
measured h s =
    if h.delay_base_initialized
    then (if ltb (2 ^ 31) (sub32 s h.delay_base) then 0 else sub32 s h.delay_base)
    else 0

cur-step_base : (h : DelayHist) (s ms : ℕ) → (step_base h s ms).cur_delay_hist ≡ h.cur_delay_hist
unfolding step_base
cur-step_base h s ms = ground arith

lowered :
    (h : DelayHist) (s : ℕ)
    → s < 2 ^ 32
    → IsValid h
    → sub32 s (lower_bases (initialize h s) s).delay_base ≡ measured h s
unfolding lower_bases initialize
lowered h s hs v =
    ground (arith, compare_less32 s h.delay_base hs v.base_word, compare_less32 s s hs hs)

cur-lower_bases :
    (h : DelayHist) (s : ℕ)
    → ((lower_bases (initialize h s) s).cur_delay_hist ≡ h.cur_delay_hist)
      × ((lower_bases (initialize h s) s).cur_delay_idx ≡ h.cur_delay_idx)
unfolding lower_bases initialize
cur-lower_bases h s = ground arith

record_delay_lem :
    (h : DelayHist) (s : ℕ)
    → (record_delay h s).cur_delay_hist
      ≡ set h.cur_delay_hist h.cur_delay_idx (sub32 s h.delay_base)
unfolding record_delay
record_delay_lem h s = refl

-- A sample writes exactly one current delay, the one at the index: its distance above the base, or 0
-- when it lies below the base or is the first sample; so no recorded delay exceeds 2 ^ 31.
pub add_sample-measured :
    (h : DelayHist) (s ms : ℕ)
    → s < 2 ^ 32
    → IsValid h
    → ((add_sample h s ms).cur_delay_hist ≡ set h.cur_delay_hist h.cur_delay_idx (measured h s))
      × (measured h s ≤ 2 ^ 31)
unfolding add_sample
add_sample-measured h s ms hs v = (
  cur-step_base _ s ms
      ∙ record_delay_lem _ s
      ∙ rw (lowered h s hs v, (cur-lower_bases h s).0, (cur-lower_bases h s).1),
  ground arith,
)

set-shift :
    (xs : List ℕ) (i v o : ℕ)
    → set (map (λ x. add32 x o) xs) i (add32 v o) ≡ map (λ x. add32 x o) (set xs i v)
set-shift [] i v o = refl
set-shift (x ∷ xs) zero v o = refl
set-shift (x ∷ xs) (suc i) v o = ap (λ t. add32 x o ∷ t) (set-shift xs i v o)

get_or-shift :
    (xs : List ℕ) (i o : ℕ)
    → i < length xs
    → get_or (map (λ x. add32 x o) xs) i 0 ≡ add32 (get_or xs i 0) o
get_or-shift [] i o h = elim h [ ]
get_or-shift (x ∷ xs) zero o h = refl
get_or-shift (x ∷ xs) (suc i) o h = get_or-shift xs i o (omega arith)

abbrev lower : ℕ → ℕ → ℕ
lower x b = if wrapping_compare_less x b timestamp_mask then x else b

lower-shift :
    (x b o : ℕ) → x < 2 ^ 32 → b < 2 ^ 32 → lower (add32 x o) (add32 b o) ≡ add32 (lower x b) o
lower-shift x b o hx hb = ground (arith, compare_shift32 x b o hx hb)

lowest-shift :
    (xs : List ℕ) (b o : ℕ)
    → b < 2 ^ 32
    → AllWords xs
    → lowest (add32 b o) (map (λ x. add32 x o) xs) ≡ add32 (lowest b xs) o
unfolding lowest
lowest-shift [] b o hb a = refl
lowest-shift (x ∷ xs) b o hb a =
    ap (λ t. lowest t (map (λ y. add32 y o) xs)) (lower-shift x b o a.0 hb)
    ∙ lowest-shift xs (lower x b) o (ground arith) a.1

initialize-shift :
    (h : DelayHist) (s o : ℕ) → initialize (shift h o) (add32 s o) ≡ shift (initialize h s) o
unfolding initialize shift
initialize-shift h s o = ground arith

lower_bases-shift :
    (h : DelayHist) (s o : ℕ)
    → s < 2 ^ 32
    → IsValid h
    → lower_bases (shift h o) (add32 s o) ≡ shift (lower_bases h s) o
unfolding lower_bases shift
lower_bases-shift h s o hs v = ground (
  arith,
  get_or-shift h.delay_base_hist h.delay_base_idx o (omega (arith, v.base_cells, v.base_index)),
  compare_shift32 s (get_or h.delay_base_hist h.delay_base_idx 0) o hs
      (AllWords-get_or h.delay_base_hist h.delay_base_idx v.base_words),
  compare_shift32 s h.delay_base o hs v.base_word,
  set-shift h.delay_base_hist h.delay_base_idx s o,
)

record_delay-shift :
    (h : DelayHist) (s o : ℕ)
    → s < 2 ^ 32
    → IsValid h
    → record_delay (shift h o) (add32 s o) ≡ shift (record_delay h s) o
unfolding record_delay shift
record_delay-shift h s o hs v =
    ap
      (λ t. record h {
        cur_delay_hist = set h.cur_delay_hist h.cur_delay_idx t;
        cur_delay_idx = (h.cur_delay_idx + 1) % cur_delay_size;
        delay_base_hist = map (λ x. add32 x o) h.delay_base_hist;
        delay_base = add32 h.delay_base o;
      })
      (omega (arith, v.base_word))

step_base-shift :
    (h : DelayHist) (s o ms : ℕ)
    → s < 2 ^ 32
    → IsValid h
    → step_base (shift h o) (add32 s o) ms ≡ shift (step_base h s ms) o
unfolding step_base shift
step_base-shift h s o ms hs v = ground (
  arith,
  set-shift h.delay_base_hist idx s o,
  get_or-shift hist 0 o (omega (arith, length-set h.delay_base_hist idx s, v.base_cells)),
  lowest-shift hist (get_or hist 0 0) o (AllWords-get_or hist 0 words) words,
)
  where
    idx : ℕ
    idx = (h.delay_base_idx + 1) % delay_base_history

    hist : List ℕ
    hist = set h.delay_base_hist idx s

    words : AllWords hist
    words = AllWords-set h.delay_base_hist idx s hs v.base_words

-- Clock offsets cancel: if the other clock is `o` ahead in the history and in the sample, adding the
-- sample gives the same history with its bases `o` ahead, and the same delays.
pub add_sample-shift :
    (h : DelayHist) (s o ms : ℕ)
    → s < 2 ^ 32
    → IsValid h
    → add_sample (shift h o) (add32 s o) ms ≡ shift (add_sample h s ms) o
unfolding add_sample
add_sample-shift h s o ms hs v =
    ap (λ t. step_base (record_delay (lower_bases t (add32 s o)) (add32 s o)) (add32 s o) ms)
      (initialize-shift h s o)
    ∙ ap (λ t. step_base (record_delay t (add32 s o)) (add32 s o) ms)
        (lower_bases-shift (initialize h s) s o hs valid0)
    ∙ ap (λ t. step_base t (add32 s o) ms)
        (record_delay-shift (lower_bases (initialize h s) s) s o hs valid1)
    ∙ step_base-shift _ s o ms hs (record_delay-IsValid _ s valid1)
  where
    valid0 : IsValid (initialize h s)
    valid0 = initialize-IsValid h s hs v

    valid1 : IsValid (lower_bases (initialize h s) s)
    valid1 = lower_bases-IsValid _ s hs valid0
