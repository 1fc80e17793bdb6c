-- ===== src/Socket/Ccontrol/Bounds.antt =====
-- The congestion window after congestion control, whatever the floating point does.
use go_libutp.Prelude.{ℕ, ◌≤◌, true, not, ◌||◌, ◌≡◌, inl, inr, refl, Bool-cases, max, arith}
use go_libutp.Prelude.Int.{ℤ, ◌+ℤ◌, int32}
use go_libutp.DelayHist.{get_value}
use go_libutp.Mtu.{get_packet_size}
use go_libutp.Socket.{Conn, Congestion}
use go_libutp.Socket.Window.{min_window_size}
use go_libutp.Socket.Ccontrol.{Double, clamp, our_delay, penalty, control, apply_ccontrol}

clamp-bounds : (v mi ma : ℕ) → (mi ≤ clamp v mi ma) × (clamp v mi ma ≤ max mi ma)
unfolding clamp
clamp-bounds v mi ma = (ground arith, ground arith)

slow_start_ends :
    (double : Double) (w : Congestion) (bytes_acked packet_size : ℕ) (delay : ℤ) (now : ℕ)
    → (w.slow_start || not (control double w bytes_acked packet_size delay now).slow_start) ≡ true
unfolding control
slow_start_ends double w bytes_acked packet_size delay now = elim (Bool-cases w.slow_start) [
  | inl e ↦ rw e refl
  | inr e ↦ rw e refl
]

-- Whatever the arithmetic of `double` does, the delays, the drift and the bytes acknowledged, the
-- congestion window ends at the least window or above it, and at the send buffer's size or below it
-- (the least window where that is smaller); slow start, once over, is not begun again.
pub apply_ccontrol-bounds :
    (double : Double) (c : Conn) (bytes_acked min_rtt : ℕ)
    → (min_window_size ≤ (apply_ccontrol double c bytes_acked min_rtt).cwnd.max_window)
      × ((apply_ccontrol double c bytes_acked min_rtt).cwnd.max_window
          ≤ max min_window_size c.cwnd.opt_sndbuf)
      × ((c.cwnd.slow_start || not (apply_ccontrol double c bytes_acked min_rtt).cwnd.slow_start)
          ≡ true)
unfolding apply_ccontrol control
apply_ccontrol-bounds double c bytes_acked min_rtt =
    let delay = our_delay (get_value c.dl.our_hist) min_rtt in
    let within = clamp-bounds _ min_window_size c.cwnd.opt_sndbuf in
    (
      within.0,
      within.1,
      slow_start_ends double c.cwnd bytes_acked (get_packet_size c.mtu)
          (int32 (delay +ℤ penalty c.drift.clock_drift)) c.ctx.current_ms,
    )
