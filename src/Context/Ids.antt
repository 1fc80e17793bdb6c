-- ===== src/Context/Ids.antt =====
-- A socket keeps its identifiers while its timers are checked.
use go_libutp.Prelude.{
  ℕ, zero, suc, ◌≡◌, refl, inl, inr, Bool, true, false, ◌&&◌, not, none, ltb, ◌==◌, if◌then◌else◌,
  Bool-cases, Option-cases, if_both, add16, sub16, sub64,
}
use go_libutp.CircBuf.{get}
use go_libutp.Mtu.{get_packet_size}
use go_libutp.Packet.{OutgoingPacket, Header}
use go_libutp.Socket.{Env, Conn, Ids, ConnState}
use go_libutp.Socket.{
  uninitialized, idle, syn_sent, syn_recv, connected, connected_full, reset, destroy,
}
use go_libutp.Socket.Window.{is_full}
use go_libutp.Socket.Send.{
  send_packet, send_data, prepare_send, flush_packet, flush_packets, flush_loop, is_waiting,
  send_ack, send_keep_alive,
}
use go_libutp.Socket.Arrival.{mark_writable}
use go_libutp.Socket.Timeout.{
  check_timeouts, run_timers, expire, back_off, end_probe, reopen_window, keep_alive, resend_oldest,
  give_up, gives_up, is_probe_timeout, has_elapsed,
}

module _ (env : Env) (ids : Ids) where
  -- The identifiers of `c` are these.
  abbrev Has : Conn → Type 0
  Has c = c.ids ≡ ids

  abbrev HasAfter : {A : Type 0} → A × Conn → Type 0
  HasAfter r = r.1.ids ≡ ids

  send_packet-Has :
      (i : ℕ) (pkt : OutgoingPacket) (c : Conn) → Has c → Has (send_packet env i pkt c)
  unfolding send_packet send_data prepare_send
  send_packet-Has i pkt c h = h

  flush_packet-Has :
      (size i : ℕ) (pkt : OutgoingPacket) (c : Conn) → Has c → Has (flush_packet env size i pkt c)
  unfolding flush_packet
  flush_packet-Has size i pkt c h = if_both Has _ (send_packet-Has i pkt c h) h

  is_full-Has : (c : Conn) → Has c → HasAfter (is_full c none)
  unfolding is_full
  is_full-Has c h = h

  flush_loop-Has : (size n i : ℕ) (c : Conn) → Has c → HasAfter (flush_loop env size n i c)
  unfolding flush_loop
  flush_loop-Has size zero i c h = h
  flush_loop-Has size (suc n) i c h = elim (Option-cases (get c.snd.outbuf i)) [
    | inl e ↦ rw (e, flush_loop) (flush_loop-Has size n (add16 i 1) c h)
    | inr (pkt, e) ↦ elim (Bool-cases (is_waiting pkt)) [
      | inr sent ↦ rw (e, flush_loop, sent) (flush_loop-Has size n (add16 i 1) c h)
      | inl waits ↦
          let c1 = (is_full c none).1 in
          rw (e, flush_loop, waits)
            (if_both HasAfter (is_full c none).0 (is_full-Has c h) (
              flush_loop-Has size n (add16 i 1) (flush_packet env size i pkt c1)
                (flush_packet-Has size i pkt c1 (is_full-Has c h))))
    ]
  ]

  send_ack-Has : (c : Conn) → Has c → Has (send_ack env c)
  unfolding send_ack send_data
  send_ack-Has c h =
      if_both (λ (r : Header × Conn). r.1.ids ≡ ids)
        (not (c.rcv.reorder_count == 0) && not c.rcv.got_fin_reached) h h

  resend_oldest-Has : (c : Conn) → Has c → Has (resend_oldest env c)
  unfolding resend_oldest
  resend_oldest-Has c h =
      let q = c.snd in
      if_both Has (q.cur_window_packets == 0) h
        (elim (Option-cases (get q.outbuf (sub64 q.seq_nr q.cur_window_packets))) [
          | inl e ↦ rw e h
          | inr (pkt, e) ↦ rw e (
              send_packet-Has (sub64 q.seq_nr q.cur_window_packets) pkt
                (record c {
                  snd = record q {
                    retransmit_count = add16 q.retransmit_count 1;
                    fast_timeout = true;
                    timeout_seq_nr = q.seq_nr;
                  };
                })
                h)
        ])

  expire-Has : (c : Conn) → Has c → HasAfter (expire env c)
  unfolding expire end_probe give_up back_off
  expire-Has c h = by_state c.state refl
    where
      goes_on : HasAfter (
          if gives_up c
          then (true, give_up (end_probe env c) (if c.close_requested then destroy else reset))
          else (false, back_off env (is_probe_timeout c) (end_probe env c)))
      goes_on = if_both HasAfter (gives_up c) h (resend_oldest-Has _ h)

      by_state : (s : ConnState) → c.state ≡ s → HasAfter (expire env c)
      by_state syn_recv e = rw (e, expire) h
      by_state uninitialized e = rw (e, expire) goes_on
      by_state idle e = rw (e, expire) goes_on
      by_state syn_sent e = rw (e, expire) goes_on
      by_state connected e = rw (e, expire) goes_on
      by_state connected_full e = rw (e, expire) goes_on
      by_state reset e = rw (e, expire) goes_on
      by_state destroy e = rw (e, expire) goes_on

  keep_alive-Has : (c : Conn) → Has c → Has (keep_alive env c)
  unfolding keep_alive send_keep_alive
  keep_alive-Has c h =
      if_both Has _
        (send_ack-Has (record c { rcv = record c.rcv { ack_nr = sub16 c.rcv.ack_nr 1 } }) h) h

  mark_writable-Has : (c : Conn) → Has c → Has (mark_writable c)
  unfolding mark_writable is_full
  mark_writable-Has c h = by_state c.state refl
    where
      by_state : (s : ConnState) → c.state ≡ s → Has (mark_writable c)
      by_state connected_full e = rw (e, mark_writable) (if_both Has _ h h)
      by_state syn_recv e = rw (e, mark_writable) h
      by_state uninitialized e = rw (e, mark_writable) h
      by_state idle e = rw (e, mark_writable) h
      by_state syn_sent e = rw (e, mark_writable) h
      by_state connected e = rw (e, mark_writable) h
      by_state reset e = rw (e, mark_writable) h
      by_state destroy e = rw (e, mark_writable) h

  run_timers-Has : (c : Conn) → Has c → Has (run_timers env c)
  unfolding run_timers reopen_window
  run_timers-Has c h =
      let c1 = reopen_window c in
      let h1 : Has c1 = if_both Has _ h h in
      let r : Bool × Conn =
        if has_elapsed c1.ctx.current_ms c1.tm.rto_timeout 0 && ltb 0 c1.tm.rto_timeout
        then expire env c1
        else (false, c1) in
      let hr : HasAfter r =
        if_both HasAfter
          (has_elapsed c1.ctx.current_ms c1.tm.rto_timeout 0 && ltb 0 c1.tm.rto_timeout)
          (expire-Has c1 h1) h1 in
      if_both Has r.0 hr (keep_alive-Has (mark_writable r.1) (mark_writable-Has r.1 hr))

  pub check_timeouts-Has : (c : Conn) → Has c → Has (check_timeouts env c)
  unfolding check_timeouts flush_packets
  check_timeouts-Has c h = by_state c.state refl
    where
      flushed : Has (flush_packets env c).1
      flushed =
          flush_loop-Has (get_packet_size c.mtu) c.snd.cur_window_packets
            (sub16 c.snd.seq_nr c.snd.cur_window_packets) c h

      by_state : (s : ConnState) → c.state ≡ s → Has (check_timeouts env c)
      by_state destroy e = rw (e, check_timeouts) h
      by_state syn_sent e = rw (e, check_timeouts) (run_timers-Has (flush_packets env c).1 flushed)
      by_state syn_recv e = rw (e, check_timeouts) (run_timers-Has (flush_packets env c).1 flushed)
      by_state connected e = rw (e, check_timeouts) (run_timers-Has (flush_packets env c).1 flushed)
      by_state connected_full e =
          rw (e, check_timeouts) (run_timers-Has (flush_packets env c).1 flushed)
      by_state uninitialized e = rw (e, check_timeouts) flushed
      by_state idle e = rw (e, check_timeouts) flushed
      by_state reset e = rw (e, check_timeouts) flushed
