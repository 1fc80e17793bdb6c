-- ===== src/DelayHist/Tests.antt =====
-- Runs and witnesses of the delay history.
use go_libutp.Prelude.{◌^◌, ◌≤◌, ◌≡◌, refl, [], ◌∷◌, set, replicate, true, add32, arith}
use go_libutp.Seq.{wrapping_compare_less}
use go_libutp.DelayHist.{
  DelayHist, shift, initialize, lower_bases, record_delay, step_base, add_sample, smallest,
  get_value,
}
use go_libutp.DelayHist.Laws.{IsValid, add_sample-IsValid}
use go_libutp.DelayHist.Drift.{measured, add_sample-measured, add_sample-shift}

-- The base is close to the top of the clock's range.
abbrev near_wrap : DelayHist
near_wrap = record {
  delay_base = 0xffffff00;
  cur_delay_hist = 7 ∷ 9 ∷ 0 ∷ [];
  cur_delay_idx = 2;
  delay_base_hist = replicate 13 0xffffff00;
  delay_base_idx = 0;
  delay_base_time = 1000;
  delay_base_initialized = true;
}

near_wrap-IsValid : IsValid near_wrap
near_wrap-IsValid = omega arith

-- The example of the comment in the source: the sample wrapped, and the delay is 0x500.
wrapped_sample : (add_sample near_wrap 0x400 2000).cur_delay_hist ≡ 7 ∷ 9 ∷ 0x500 ∷ []
unfolding add_sample initialize lower_bases record_delay step_base wrapping_compare_less
wrapped_sample = refl

value_of_wrapped : get_value (add_sample near_wrap 0x400 2000) ≡ 7
unfolding get_value smallest add_sample initialize lower_bases record_delay step_base
    wrapping_compare_less
value_of_wrapped = refl

add_sample-IsValid_example : IsValid (add_sample near_wrap 0x400 2000)
add_sample-IsValid_example = add_sample-IsValid near_wrap 0x400 2000 (omega arith) near_wrap-IsValid

add_sample-measured_example :
    ((add_sample near_wrap 0x400 2000).cur_delay_hist
      ≡ set near_wrap.cur_delay_hist 2 (measured near_wrap 0x400))
    × (measured near_wrap 0x400 ≤ 2 ^ 31)
add_sample-measured_example =
    add_sample-measured near_wrap 0x400 2000 (omega arith) near_wrap-IsValid

add_sample-shift_example :
    add_sample (shift near_wrap 0x300) (add32 0x400 0x300) 2000
    ≡ shift (add_sample near_wrap 0x400 2000) 0x300
add_sample-shift_example =
    add_sample-shift near_wrap 0x400 0x300 2000 (omega arith) near_wrap-IsValid
