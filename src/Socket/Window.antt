-- ===== src/Socket/Window.antt =====
-- utp_internal.cpp: the windows of a connection (`get_rcv_window`, `can_decay_win`, `maybe_decay_win`,
-- `is_full`).
pub mod Bounds
use go_libutp.Prelude.{
  ℕ, ◌+◌, ◌-◌, ◌*◌, ◌/◌, ◌%◌, ◌^◌, Bool, true, false, ◌||◌, Option, none, some, ltb, leb, min,
  if◌then◌else◌, add64, sub64,
}
use go_libutp.Mtu.{get_packet_size}
use go_libutp.Socket.{Env, Conn, Congestion, Receive, SendQueue}

abbrev pub min_window_size : ℕ
min_window_size = 10

abbrev pub max_window_decay : ℕ
max_window_decay = 100

abbrev pub outgoing_buffer_max_size : ℕ
outgoing_buffer_max_size = 1024

-- `numbuf` is the callback's answer.
unfoldable pub get_rcv_window : Receive → ℕ → ℕ
get_rcv_window r numbuf = if ltb numbuf r.opt_rcvbuf then r.opt_rcvbuf - numbuf else 0

-- The difference of two signed 64-bit times, compared as signed.
unfoldable pub can_decay_win : Congestion → ℕ → Bool
can_decay_win w msec =
    let d = sub64 msec w.last_rwin_decay in if ltb d (2 ^ 63) then leb max_window_decay d else false

-- `(size_t)(max_window * .5)` is the half rounded down, exact for windows below 2 ^ 53.
unfoldable pub maybe_decay_win : Congestion → ℕ → Congestion
unfolding can_decay_win
maybe_decay_win w current_ms =
    let half = w.max_window / 2 in
    let window = if ltb half min_window_size then min_window_size else half in
    if can_decay_win w current_ms
    then record w {
      max_window = window;
      last_rwin_decay = current_ms;
      slow_start = false;
      ssthresh = window;
    }
    else w

-- The number of bytes that the test of `is_full` is about; `none` is the default argument -1.
unfoldable pub tested_bytes : ℕ → Option ℕ → ℕ
tested_bytes packet_size none = packet_size
tested_bytes packet_size (some bytes) = if ltb packet_size bytes then packet_size else bytes

unfoldable pub is_full_test : SendQueue → Congestion → ℕ → Option ℕ → Bool
unfolding tested_bytes
is_full_test q w packet_size bytes =
    let max_send = min (min w.max_window w.opt_sndbuf) w.max_window_user in
    leb (outgoing_buffer_max_size - 1) q.cur_window_packets
    || ltb max_send (add64 q.cur_window (tested_bytes packet_size bytes))

-- The answer, and the connection with the time at which its window was last seen full.
unfoldable pub is_full : Conn → Option ℕ → Bool × Conn
unfolding is_full_test
is_full c bytes =
    let full = is_full_test c.snd c.cwnd (get_packet_size c.mtu) bytes in
    (
      full,
      record c {
        cwnd = record c.cwnd {
          last_maxed_out_window = if full then c.ctx.current_ms else c.cwnd.last_maxed_out_window;
        };
      },
    )
