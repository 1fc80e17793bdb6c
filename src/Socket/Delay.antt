-- ===== src/Socket/Delay.antt =====
-- utp_internal.cpp: what `utp_process_incoming` learns from the timestamps of a packet. The delay of
-- the other direction, the average of our own and the clock drift in its slope, and the bound that the
-- round trip sets.
pub mod Bounds
use go_libutp.Prelude.{
  ℕ, suc, ◌+◌, ◌-◌, ◌*◌, ◌/◌, ◌%◌, ◌^◌, Bool, true, false, ◌&&◌, not, ltb, leb, ◌==◌, min,
  if◌then◌else◌, sub32, add64, sub64,
}
use go_libutp.Prelude.Int.{
  ℤ, pos, pos_part, neg_part, sub_ℕ, ◌+ℤ◌, ◌-ℤ◌, ◌*ℤ◌, ltb_ℤ, div_ℤ, min_ℤ, max_ℤ, int32,
}
use go_libutp.Seq.{wrapping_compare_less, timestamp_mask}
use go_libutp.DelayHist.{DelayHist, add_sample, shift, get_value}
use go_libutp.Socket.{Delays, Drift}

-- `(uint32)(p == 0 ? 0 : time - p)`, for the 64-bit time of receipt and the packet's 32-bit stamp.
unfoldable pub measured_delay : ℕ → ℕ → ℕ
measured_delay time p = if p == 0 then 0 else sub64 time p % 2 ^ 32

-- The delay of the other direction. Where its base goes down, our own base goes up, by 10 ms at most.
unfoldable pub hear_delay : Delays → ℕ → ℕ → Delays
hear_delay d their_delay current_ms =
    let prev = d.their_hist.delay_base in
    let heard =
      if their_delay == 0 then d.their_hist else add_sample d.their_hist their_delay current_ms in
    let lowered = sub32 prev heard.delay_base in
    record d {
      reply_micro = their_delay;
      their_hist = heard;
      our_hist =
          if not (prev == 0)
            && (wrapping_compare_less heard.delay_base prev timestamp_mask && leb lowered 10000)
          then shift d.our_hist lowered
          else d.our_hist;
    }

-- The delay that the packet reports of our direction; `INT_MAX` means none.
unfoldable pub reported_delay : ℕ → ℕ
reported_delay reply_micro = if reply_micro == 0x7FFFFFFF then 0 else reply_micro

-- `INT_MAX / 4`.
abbrev pub max_average_delay_sample : ℕ
max_average_delay_sample = 536870911

-- A sample relative to the base of the average, by the shorter way round.
unfoldable pub average_delay_sample : ℕ → ℕ → ℤ
average_delay_sample base actual_delay =
    let dist_down = sub32 base actual_delay in
    let dist_up = sub32 actual_delay base in
    if ltb dist_up dist_down
    then pos (min dist_up max_average_delay_sample)
    else sub_ℕ 0 (min dist_down max_average_delay_sample)

-- One sample is added to the sum. The first sets the base.
unfoldable pub add_average : Drift → ℕ → Drift
unfolding average_delay_sample
add_average f actual_delay =
    let base = if f.average_delay_base == 0 then actual_delay else f.average_delay_base in
    record f {
      average_delay_base = base;
      current_delay_sum = f.current_delay_sum +ℤ average_delay_sample base actual_delay;
      current_delay_samples = f.current_delay_samples + 1;
    }

-- By how much two averages are moved so that zero lies between them.
unfoldable pub adjustment : ℤ → ℤ → ℤ
adjustment a b =
    let min_sample = min_ℤ a b in
    let max_sample = max_ℤ a b in
    if ltb_ℤ (pos 0) min_sample
    then pos 0 -ℤ min_sample
    else (if ltb_ℤ max_sample (pos 0) then pos 0 -ℤ max_sample else pos 0)

-- The end of a slot of five seconds: a new average, and the drift since the last.
unfoldable pub end_slot : Drift → Drift
unfolding adjustment
end_slot f =
    let average = int32 (div_ℤ f.current_delay_sum f.current_delay_samples) in
    let adjust = adjustment f.average_delay average in
    let now = average +ℤ adjust in
    let slope = now -ℤ (f.average_delay +ℤ adjust) in
    record f {
      average_delay = now;
      average_sample_time = add64 f.average_sample_time 5000;
      current_delay_sum = pos 0;
      current_delay_samples = 0;
      average_delay_base =
          (f.average_delay_base + 2 ^ 32 + neg_part adjust - pos_part adjust) % 2 ^ 32;
      clock_drift = int32 (div_ℤ (f.clock_drift *ℤ pos 7 +ℤ slope) 8);
      clock_drift_raw = slope;
    }

unfoldable pub average_delays : Drift → ℕ → ℕ → Drift
unfolding add_average end_slot
average_delays f actual_delay current_ms =
    let added = add_average f actual_delay in
    if ltb f.average_sample_time current_ms then end_slot added else added

-- A delay above the least round trip raises our base. `min_rtt` is not negative.
unfoldable pub bound_delay : DelayHist → ℕ → DelayHist
bound_delay h min_rtt =
    let value = get_value h in if ltb min_rtt value then shift h ((value - min_rtt) % 2 ^ 32) else h
