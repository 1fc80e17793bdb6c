-- ===== src/Socket/Window/Bounds.antt =====
-- What the window tests promise.
use go_libutp.Prelude.{ℕ, ◌+◌, ◌-◌, ◌/◌, ◌^◌, ◌≤◌, ◌<◌, ◌≡◌, false, some, min, max, arith}
use go_libutp.Mtu.{get_packet_size}
use go_libutp.Socket.{Conn, Congestion, Receive}
use go_libutp.Socket.Window.{
  get_rcv_window, maybe_decay_win, is_full, min_window_size, max_window_decay,
  outgoing_buffer_max_size,
}

-- The advertised window and the bytes that the application has not read fit the receive buffer, and
-- all of the room that is left is advertised.
pub get_rcv_window_lem :
    (r : Receive) (numbuf : ℕ) → get_rcv_window r numbuf + min numbuf r.opt_rcvbuf ≡ r.opt_rcvbuf
unfolding get_rcv_window
get_rcv_window_lem r numbuf = ground arith

-- A decay halves the window, not below 10 bytes, ends slow start with the new window as its
-- threshold, and cannot happen again within the next 100 ms; without a decay nothing changes.
pub maybe_decay_win_lem :
    (w : Congestion) (now later : ℕ)
    → now ≤ later
    → later < 2 ^ 63
    → w.last_rwin_decay ≤ now
    → let w' = maybe_decay_win w now in
      (max_window_decay ≤ now - w.last_rwin_decay
        → (w'.max_window ≡ max (w.max_window / 2) min_window_size)
          × (w'.ssthresh ≡ w'.max_window)
          × (w'.slow_start ≡ false)
          × (later < now + max_window_decay → maybe_decay_win w' later ≡ w'))
      × (now - w.last_rwin_decay < max_window_decay → w' ≡ w)
unfolding maybe_decay_win
maybe_decay_win_lem w now later h small last = ground arith

-- If the window is not full for `bytes` bytes, then sending that many (or a packet's worth, if that
-- is less) keeps the bytes in flight within each of the three windows, and leaves a place in the send
-- queue for the FIN packet.
pub is_full_lem :
    (c : Conn) (bytes : ℕ)
    → (is_full c (some bytes)).0 ≡ false
    → c.snd.cur_window < 2 ^ 32
    → get_packet_size c.mtu < 2 ^ 32
    → let sent = c.snd.cur_window + min bytes (get_packet_size c.mtu) in
      (sent ≤ c.cwnd.max_window)
      × (sent ≤ c.cwnd.opt_sndbuf)
      × (sent ≤ c.cwnd.max_window_user)
      × (c.snd.cur_window_packets + 1 < outgoing_buffer_max_size)
unfolding is_full
is_full_lem c bytes h small packet = ground arith
