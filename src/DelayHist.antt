-- ===== src/DelayHist.antt =====
-- utp_internal.cpp: `DelayHist`, the history of one-way delay samples against a moving base.
pub mod Laws
pub mod Drift
mod Tests
use go_libutp.Prelude.{
  ℕ, zero, suc, ◌+◌, ◌-◌, ◌*◌, ◌%◌, ◌^◌, Bool, true, false, List, [], ◌∷◌, map, ltb, min, replicate,
  if◌then◌else◌, get_or, set, add32, sub32, sub64,
}
use go_libutp.Seq.{wrapping_compare_less, timestamp_mask}

abbrev pub cur_delay_size : ℕ
cur_delay_size = 3

abbrev pub delay_base_history : ℕ
delay_base_history = 13

abbrev pub uint_max : ℕ
uint_max = 0xFFFFFFFF

pub record DelayHist : Type 0 where
  pub delay_base : ℕ
  pub cur_delay_hist : List ℕ
  pub cur_delay_idx : ℕ
  pub delay_base_hist : List ℕ
  pub delay_base_idx : ℕ
  pub delay_base_time : ℕ
  pub delay_base_initialized : Bool

unfoldable pub clear : ℕ → DelayHist
clear current_ms = record {
  delay_base = 0;
  cur_delay_hist = replicate cur_delay_size 0;
  cur_delay_idx = 0;
  delay_base_hist = replicate delay_base_history 0;
  delay_base_idx = 0;
  delay_base_time = current_ms;
  delay_base_initialized = false;
}

unfoldable pub shift : DelayHist → ℕ → DelayHist
shift h offset = record h {
  delay_base_hist = map (λ x. add32 x offset) h.delay_base_hist;
  delay_base = add32 h.delay_base offset;
}

-- `add_sample`, first part: the first sample fills the base and its history.
unfoldable pub initialize : DelayHist → ℕ → DelayHist
initialize h sample = if h.delay_base_initialized then h else record h {
  delay_base_hist = replicate delay_base_history sample;
  delay_base = sample;
  delay_base_initialized = true;
}

-- Second part: a lower sample replaces the entry of the current minute, and a lower one the base.
unfoldable pub lower_bases : DelayHist → ℕ → DelayHist
lower_bases h sample =
    let entry = get_or h.delay_base_hist h.delay_base_idx 0 in
    record h {
      delay_base_hist =
          if wrapping_compare_less sample entry timestamp_mask
          then set h.delay_base_hist h.delay_base_idx sample
          else h.delay_base_hist;
      delay_base =
          if wrapping_compare_less sample h.delay_base timestamp_mask then sample else h.delay_base;
    }

-- Third part: the delay against the base goes into the ring of current delays.
unfoldable pub record_delay : DelayHist → ℕ → DelayHist
record_delay h sample = record h {
  cur_delay_hist = set h.cur_delay_hist h.cur_delay_idx (sub32 sample h.delay_base);
  cur_delay_idx = (h.cur_delay_idx + 1) % cur_delay_size;
}

-- The loop that assigns the lowest entry of the history to the base.
unfoldable pub lowest : ℕ → List ℕ → ℕ
lowest base [] = base
lowest base (x ∷ xs) = lowest (if wrapping_compare_less x base timestamp_mask then x else base) xs

-- Last part: once a minute the history steps on. The difference of times is one of `uint64`.
unfoldable pub step_base : DelayHist → ℕ → ℕ → DelayHist
step_base h sample current_ms =
    let idx = (h.delay_base_idx + 1) % delay_base_history in
    let hist = set h.delay_base_hist idx sample in
    if ltb (60 * 1000) (sub64 current_ms h.delay_base_time)
    then record h {
      delay_base_time = current_ms;
      delay_base_idx = idx;
      delay_base_hist = hist;
      delay_base = lowest (get_or hist 0 0) hist;
    }
    else h

unfoldable pub add_sample : DelayHist → ℕ → ℕ → DelayHist
add_sample h sample current_ms =
    step_base (record_delay (lower_bases (initialize h sample) sample) sample) sample current_ms

unfoldable pub smallest : ℕ → List ℕ → ℕ
smallest value [] = value
smallest value (x ∷ xs) = smallest (min x value) xs

unfoldable pub get_value : DelayHist → ℕ
get_value h = smallest uint_max h.cur_delay_hist
