-- ===== src/Socket/Ccontrol.antt =====
-- utp_internal.cpp: `UTPSocket::apply_ccontrol`, the congestion control. The type `double` and its
-- operations are a parameter.
pub mod Bounds
use go_libutp.Prelude.{
  ℕ, ◌+◌, ◌-◌, ◌*◌, ◌/◌, ◌%◌, ◌^◌, Bool, true, false, ◌&&◌, ltb, leb, min, max, if◌then◌else◌,
  sub64,
}
use go_libutp.Prelude.Int.{ℤ, pos, negsuc, ◌+ℤ◌, ◌-ℤ◌, ltb_ℤ, div_ℤ, int32}
use go_libutp.DelayHist.{get_value}
use go_libutp.Mtu.{get_packet_size}
use go_libutp.Socket.{Conn, Congestion, emit, on_delay_sample}
use go_libutp.Socket.Window.{min_window_size}

abbrev pub max_cwnd_increase_bytes_per_rtt : ℕ
max_cwnd_increase_bytes_per_rtt = 3000

-- `double` and what the code does with it; `to_size` is the conversion to `size_t`.
pub record Double : Type 1 where
  pub Carrier : Type 0
  pub of_int : ℤ → Carrier
  pub nine_tenths : Carrier
  pub plus : Carrier → Carrier → Carrier
  pub times : Carrier → Carrier → Carrier
  pub over : Carrier → Carrier → Carrier
  pub less : Carrier → Carrier → Bool
  pub to_size : Carrier → ℕ

-- `clamp<size_t>`.
unfoldable pub clamp : ℕ → ℕ → ℕ → ℕ
clamp v mi ma = let capped = if ltb ma v then ma else v in if ltb capped mi then mi else capped

-- The delay is at most the round trip time.
unfoldable pub our_delay : ℕ → ℕ → ℤ
our_delay value min_rtt = int32 (pos (min value (min_rtt % 2 ^ 32)))

-- `target_delay` as an `int`, or the default.
unfoldable pub target : ℕ → ℤ
target target_delay = let t = int32 (pos target_delay) in if ltb_ℤ (pos 0) t then t else pos 100000

-- The delay added for a clock that drifts by more than 200 ms in five seconds.
unfoldable pub penalty : ℤ → ℤ
penalty clock_drift =
    if ltb_ℤ clock_drift (negsuc 199999)
    then div_ℤ (pos 0 -ℤ clock_drift -ℤ pos 200000) 7
    else pos 0

module _ (double : Double) where
  open double use {Carrier, of_int, nine_tenths, plus, times, over, less, to_size}

  -- The part of a window that is acknowledged.
  unfoldable pub window_factor : ℕ → ℕ → Carrier
  window_factor bytes_acked max_window =
      over (of_int (pos (min bytes_acked max_window))) (of_int (pos (max max_window bytes_acked)))

  -- The gain in bytes: none if the window has not been full for a second.
  unfoldable pub scaled_gain : Carrier → ℤ → ℤ → ℕ → Carrier
  scaled_gain factor goal delay unfilled =
      let gain =
        times (times (of_int (pos max_cwnd_increase_bytes_per_rtt)) factor)
          (over (of_int (goal -ℤ delay)) (of_int goal)) in
      if less (of_int (pos 0)) gain && ltb 1000 unfilled then of_int (pos 0) else gain

  unfoldable pub ledbat_cwnd : ℕ → Carrier → ℕ
  ledbat_cwnd max_window gain =
      let sum = plus (of_int (pos max_window)) gain in
      if less sum (of_int (pos min_window_size)) then min_window_size else to_size sum

  -- The window grows exponentially until it reaches the threshold or the delay is near the target.
  unfoldable pub slow_start_window : Congestion → Carrier → ℕ → ℕ → ℤ → ℤ → Congestion
  slow_start_window w factor packet_size cwnd goal delay =
      let ss_cwnd =
        to_size (plus (of_int (pos w.max_window)) (times factor (of_int (pos packet_size)))) in
      if ltb w.ssthresh ss_cwnd
      then record w { slow_start = false }
      else (if less (times (of_int goal) nine_tenths) (of_int delay)
          then record w { slow_start = false; ssthresh = w.max_window }
          else record w { max_window = max ss_cwnd cwnd })

  -- The new window, for a delay with its penalty.
  unfoldable pub control : Congestion → ℕ → ℕ → ℤ → ℕ → Congestion
  unfolding target window_factor scaled_gain ledbat_cwnd slow_start_window clamp
  control w bytes_acked packet_size delay current_ms =
      let goal = target w.target_delay in
      let factor = window_factor bytes_acked w.max_window in
      let gain = scaled_gain factor goal delay (sub64 current_ms w.last_maxed_out_window) in
      let cwnd = ledbat_cwnd w.max_window gain in
      let grown =
        if w.slow_start
        then slow_start_window w factor packet_size cwnd goal delay
        else record w { max_window = cwnd } in
      record grown { max_window = clamp grown.max_window min_window_size w.opt_sndbuf }

  unfoldable pub apply_ccontrol : Conn → ℕ → ℕ → Conn
  unfolding our_delay penalty control
  apply_ccontrol c bytes_acked min_rtt =
      let delay = our_delay (get_value c.dl.our_hist) min_rtt in
      record c {
        ctx = emit c.ctx (on_delay_sample (div_ℤ delay 1000));
        cwnd =
            control c.cwnd bytes_acked (get_packet_size c.mtu)
              (int32 (delay +ℤ penalty c.drift.clock_drift)) c.ctx.current_ms;
      }
