-- ===== src/Socket/Incoming.antt =====
-- utp_internal.cpp: `utp_process_incoming`, in the parts that its body has. `Arrival` has the last of
-- them, the payload; `Extension`, `Delay` and `Ccontrol` have three more.
pub mod Handshake
pub mod Acked
pub mod Settled
pub mod Tests
use go_libutp.Prelude.{
  ℕ, zero, suc, ◌+◌, ◌-◌, ◌%◌, ◌^◌, Bool, true, false, ◌&&◌, ◌||◌, not, Option, none, some, List,
  ltb, leb, ◌==◌, max, if◌then◌else◌, add16, sub16, sub32, add64, sub64, length, is_some,
}
use go_libutp.Seq.{and_mask, ack_nr_mask, seq_nr_mask, wrapping_compare_less}
use go_libutp.CircBuf.{get}
use go_libutp.DelayHist.{add_sample}
use go_libutp.Mtu.{Mtu, header_size, probe_acked, probe_lost}
use go_libutp.Packet.{
  Header, OutgoingPacket, packet_type, register_packet, st_data, st_state, st_syn, st_num_states,
}
use go_libutp.Socket.{Env, Conn, SendQueue, is_state, emit_conn}
use go_libutp.Socket.{
  syn_sent, syn_recv, connected, destroy, on_connect, on_state_change, state_connect,
  state_writable,
}
use go_libutp.Socket.Send.{send_packet}
use go_libutp.Socket.Ack.{
  ack_packet, count_acked, selective_ack, selective_ack_bytes, duplicate_acks_before_resend,
}
use go_libutp.Socket.Arrival.{packets_past, accept_payload, schedule_ack}
use go_libutp.Socket.Delay.{measured_delay, hear_delay, reported_delay, average_delays, bound_delay}
use go_libutp.Socket.Ccontrol.{Double, apply_ccontrol}
use go_libutp.Socket.Extension.{Selack, Found, refused, payload, unpack}

abbrev pub ack_nr_allowed_window : ℕ
ack_nr_allowed_window = duplicate_acks_before_resend

abbrev pub reorder_buffer_max_size : ℕ
reorder_buffer_max_size = 1024

-- `INT64_MAX`.
abbrev pub int64_max : ℕ
int64_max = 0x7FFFFFFFFFFFFFFF

-- The packet of `len` bytes is counted, and the time is taken.
unfoldable pub begin_incoming : Env → ℕ → Conn → Conn
begin_incoming env len c = record c {
  ctx = record c.ctx {
    raw_recv = register_packet c.ctx.raw_recv len;
    current_ms = env.get_milliseconds c.ctx.calls;
    calls = suc c.ctx.calls;
  };
}

-- An acknowledgment of what was not sent, or of what lies too far back. A SYN has none.
unfoldable pub has_bad_ack : Conn → ℕ → ℕ → Bool
has_bad_ack c pk_flags pk_ack_nr =
    let last = sub32 c.snd.seq_nr 1 in
    let curr_window =
      max (add16 c.snd.cur_window_packets ack_nr_allowed_window) ack_nr_allowed_window in
    not (pk_flags == st_syn && is_state c.state syn_recv)
    && (wrapping_compare_less last pk_ack_nr ack_nr_mask
        || wrapping_compare_less pk_ack_nr (sub32 last curr_window) ack_nr_mask)

-- Extension bits are copied into the socket.
unfoldable pub note_extensions : Found → Conn → Conn
note_extensions found c = elim found.extensions [
  | none ↦ c
  | some bits ↦ record c { rcv = record c.rcv { extensions = bits } }
]

-- The number of the first packet is known from the answer to our SYN.
unfoldable pub receive_numbers : ℕ → Conn → Conn
receive_numbers pk_seq_nr c =
    let c1 = record c { tm = record c.tm { last_got_packet = c.ctx.current_ms } } in
    if is_state c.state syn_sent
    then record c1 { rcv = record c1.rcv { ack_nr = and_mask (sub32 pk_seq_nr 1) seq_nr_mask } }
    else c1

-- A packet out of the window: an old one is acknowledged again, in case the acknowledgment was lost.
unfoldable pub refuse_number : ℕ → ℕ → Conn → Conn
unfolding schedule_ack
refuse_number pk_flags seqnr c =
    if leb (seq_nr_mask + 1 - reorder_buffer_max_size) seqnr && not (pk_flags == st_state)
    then schedule_ack c
    else c

-- How many packets of the queue `pk_ack_nr` acknowledges; none if it is an old number.
unfoldable pub acked_packets : SendQueue → ℕ → ℕ
acked_packets q pk_ack_nr =
    let acks =
      and_mask (sub32 pk_ack_nr (sub32 (sub32 q.seq_nr 1) q.cur_window_packets)) ack_nr_mask in
    if ltb q.cur_window_packets acks then 0 else acks

-- The third acknowledgment in a row of the packet before the probe means that the probe was lost; one
-- of an earlier packet tells nothing, and another probe may be sent.
unfoldable pub judge_probe : Mtu → ℕ → ℕ → Mtu
judge_probe m pk_ack_nr now =
    if pk_ack_nr == and_mask (sub32 m.probe_seq 1) ack_nr_mask
    then probe_lost m now
    else record m { probe_seq = 0; probe_size = 0 }

unfoldable pub count_duplicate : Env → ℕ → ℕ → Conn → Conn
unfolding judge_probe
count_duplicate env pk_flags pk_ack_nr c =
    let count = (c.snd.duplicate_ack + 1) % 256 in
    let repeated = record c {
      snd = record c.snd { duplicate_ack = count };
      mtu =
          if count == duplicate_acks_before_resend && not (c.mtu.probe_seq == 0)
          then judge_probe c.mtu pk_ack_nr (env.get_milliseconds c.ctx.calls)
          else c.mtu;
      ctx = record c.ctx { calls = suc c.ctx.calls };
    } in
    let fresh = record c { snd = record c.snd { duplicate_ack = 0 } } in
    if c.snd.cur_window_packets == 0
    then c
    else (if pk_ack_nr
            == and_mask (sub32 (sub32 c.snd.seq_nr c.snd.cur_window_packets) 1) ack_nr_mask
          && pk_flags == st_state
        then repeated
        else fresh)

-- The packets that are acknowledged, `n` more from the `i`-th oldest on: their bytes, the least round
-- trip time, and what the MTU search learns if the probe is one of them.
unfoldable pub count_loop : ℕ → ℕ → ℕ → ℕ → SendQueue → (ℕ × ℕ) × Mtu → (ℕ × ℕ) × Mtu
unfolding count_acked
count_loop now ms zero i q s = s
count_loop now ms (suc n) i q (acc, m) =
    let seq = add16 (sub16 q.seq_nr q.cur_window_packets) i in
    let counted : (ℕ × ℕ) × Mtu = elim (get q.outbuf seq) [
      | none ↦ (acc, m)
      | some pkt ↦ if pkt.transmissions == 0 then (acc, m) else (
        count_acked now pkt acc,
        if not (m.probe_seq == 0) && seq == m.probe_seq then probe_acked m ms else m,
      )
    ] in
    count_loop now ms n (suc i) q counted

-- The bytes that a packet acknowledges, selectively too, the least round trip time of any of them, and
-- the connection.
unfoldable pub count_bytes : Env → ℕ → ℕ → Option Selack → Conn → ℕ × ℕ × Conn
unfolding count_loop
count_bytes env pk_ack_nr acks selack c =
    let now = env.get_microseconds c.ctx.calls in
    let counted =
      count_loop now (env.get_milliseconds (c.ctx.calls + 1)) acks 0 c.snd
        ((0, int64_max), c.mtu) in
    let c1 = record c { mtu = counted.1; ctx = record c.ctx { calls = c.ctx.calls + 3 } } in
    elim selack [
      | none ↦ (counted.0.0, counted.0.1, c1)
      | some s ↦
          let more =
            selective_ack_bytes c.snd (and_mask (pk_ack_nr + 2) ack_nr_mask) s.mask s.len
              (env.get_microseconds (c.ctx.calls + 2)) counted.0.1 in
          (add64 counted.0.0 more.0, more.1, c1)
    ]

-- The delays in both directions, from the packet's two stamps.
unfoldable pub measure_delays : ℕ → ℕ → Header → Conn → Conn
measure_delays time min_rtt h c =
    let heard = hear_delay c.dl (measured_delay time h.tv_usec) c.ctx.current_ms in
    let actual_delay = reported_delay h.reply_micro in
    let ours =
      if actual_delay == 0
      then heard.our_hist
      else add_sample heard.our_hist actual_delay c.ctx.current_ms in
    record c {
      tm = record c.tm { last_measured_delay = c.ctx.current_ms };
      dl = record heard { our_hist = bound_delay ours min_rtt };
      drift =
          if actual_delay == 0
          then c.drift
          else average_delays c.drift actual_delay c.ctx.current_ms;
    }

-- The window that the other end advertises. A window of 0 is opened after 15 seconds.
unfoldable pub note_window : Header → Conn → Conn
note_window h c = record c {
  cwnd = record c.cwnd { max_window_user = h.windowsize };
  tm = record c.tm {
    zerowindow_time =
        if h.windowsize == 0 then add64 c.ctx.current_ms 15000 else c.tm.zerowindow_time;
  };
}

-- The first data packet completes an incoming connection.
unfoldable pub complete_incoming : ℕ → Conn → Conn
complete_incoming pk_flags c =
    if pk_flags == st_data && is_state c.state syn_recv
    then emit_conn (record c { state = connected }) (on_state_change state_writable)
    else c

-- The answer to our SYN completes an outgoing one. Otherwise a packet that acknowledges all that is in
-- flight acknowledges our FIN, if that was sent.
unfoldable pub complete_outgoing : ℕ → ℕ → Conn → Conn
complete_outgoing pk_flags acks c =
    if pk_flags == st_state && is_state c.state syn_sent
    then emit_conn (record c { state = connected })
        (if c.ctx.has_on_connect then on_connect else on_state_change state_connect)
    else (if c.fin_sent && c.snd.cur_window_packets == acks
        then record c {
          fin_sent_acked = true;
          state = if c.close_requested then destroy else c.state;
        }
        else c)

-- No packet before the one acknowledged is resent early.
unfoldable pub advance_fast_resend : ℕ → Conn → Conn
advance_fast_resend pk_ack_nr c =
    let next = and_mask (pk_ack_nr + 1) ack_nr_mask in
    if wrapping_compare_less c.snd.fast_resend_seq_nr next ack_nr_mask
    then record c { snd = record c.snd { fast_resend_seq_nr = next } }
    else c

-- The window loses its oldest packet.
unfoldable pub pop_oldest : Conn → Conn
pop_oldest c = record c {
  snd = record c.snd { cur_window_packets = sub16 c.snd.cur_window_packets 1 };
}

-- The loop that acknowledges `n` packets, the oldest first; a packet that was not sent ends it.
unfoldable pub ack_loop : Env → ℕ → Conn → Conn
unfolding pop_oldest
ack_loop env zero c = c
ack_loop env (suc n) c =
    let (status, c1) = ack_packet env (sub16 c.snd.seq_nr c.snd.cur_window_packets) c in
    let rest = ack_loop env n (pop_oldest c1) in if status == 2 then c1 else rest

-- Packets in front that were acknowledged selectively leave the window too. The fuel is the number of
-- packets in the window.
unfoldable pub skip_loop : ℕ → Conn → Conn
unfolding pop_oldest
skip_loop zero c = c
skip_loop (suc fuel) c =
    let rest = skip_loop fuel (pop_oldest c) in
    if c.snd.cur_window_packets == 0
      || is_some (get c.snd.outbuf (sub64 c.snd.seq_nr c.snd.cur_window_packets))
    then c
    else rest

-- A single packet that waits is sent now.
unfoldable pub flush_nagle : Env → Conn → Conn
flush_nagle env c =
    let i = sub64 c.snd.seq_nr 1 in
    let flushed : Conn = elim (get c.snd.outbuf i) [
      | none ↦ c
      | some pkt ↦ if pkt.transmissions == 0 then send_packet env i pkt c else c
    ] in
    if c.snd.cur_window_packets == 1 then flushed else c

-- After a timeout, the oldest packet is sent again at once, unless that was done.
unfoldable pub retry_fast : Env → Conn → Conn
retry_fast env c =
    let q = c.snd in
    let i = sub64 q.seq_nr q.cur_window_packets in
    let retried : Conn = elim (get q.outbuf i) [
      | none ↦ c
      | some pkt ↦
          if pkt.transmissions == 0
          then c
          else send_packet env i pkt
              (record c { snd = record q { fast_resend_seq_nr = add16 q.fast_resend_seq_nr 1 } })
    ] in
    if q.fast_timeout
    then (if and_mask i ack_nr_mask == q.fast_resend_seq_nr
        then retried
        else record c { snd = record q { fast_timeout = false } })
    else c

-- What an acknowledgment of `acks` packets does.
unfoldable pub settle : Env → Header → ℕ → Conn → Conn
unfolding note_window complete_incoming complete_outgoing advance_fast_resend ack_loop skip_loop
    flush_nagle retry_fast
settle env h acks c =
    let pk_flags = packet_type h in
    let c1 = complete_outgoing pk_flags acks (complete_incoming pk_flags (note_window h c)) in
    let c2 = ack_loop env acks (advance_fast_resend h.ack_nr c1) in
    let c3 = skip_loop c2.snd.cur_window_packets c2 in
    if leb acks c.snd.cur_window_packets then retry_fast env (flush_nagle env c3) else c

unfoldable pub acknowledge_selectively : Env → ℕ → Option Selack → Conn → Conn
acknowledge_selectively env pk_ack_nr selack c = elim selack [
  | none ↦ c
  | some s ↦ selective_ack env (pk_ack_nr + 2) s.mask s.len c
]

module _ (double : Double) (env : Env) where
  -- The acknowledgments, the delays and the congestion window. `time` is the time of receipt.
  unfoldable pub process_acks : ℕ → Header → Option Selack → Conn → Conn
  unfolding acked_packets count_duplicate count_bytes measure_delays settle acknowledge_selectively
  process_acks time h selack c =
      let acks = acked_packets c.snd h.ack_nr in
      let c1 = count_duplicate env (packet_type h) h.ack_nr c in
      let (acked_bytes, min_rtt, c2) = count_bytes env h.ack_nr acks selack c1 in
      let c3 = measure_delays time min_rtt h c2 in
      let c4 =
        if not (reported_delay h.reply_micro == 0) && leb 1 acked_bytes
        then apply_ccontrol double c3 acked_bytes min_rtt
        else c3 in
      acknowledge_selectively env h.ack_nr selack (settle env h acks c4)

  -- From the extensions on.
  unfoldable pub process_unpacked : ℕ → Header → Bool → Found → List ℕ → Conn → ℕ × Conn
  unfolding note_extensions receive_numbers refuse_number process_acks
  process_unpacked time h syn found bytes c =
      let c1 = receive_numbers h.seq_nr (note_extensions found c) in
      let seqnr = packets_past c1.rcv h.seq_nr in
      if syn
      then (0, c1)
      else (if leb reorder_buffer_max_size seqnr
          then (0, refuse_number (packet_type h) seqnr c1)
          else accept_payload env (packet_type h) h.seq_nr seqnr bytes
              (process_acks time h found.selack c1))

  -- `bytes` are those behind the header, so the test of the length against the header's is met. The
  -- number of bytes taken, and the connection.
  unfoldable pub utp_process_incoming : Header → List ℕ → Bool → Conn → ℕ × Conn
  unfolding begin_incoming has_bad_ack process_unpacked
  utp_process_incoming h bytes syn c =
      let c1 = begin_incoming env (header_size + length bytes) c in
      let time = env.get_microseconds c1.ctx.calls in
      let c2 = record c1 { ctx = record c1.ctx { calls = suc c1.ctx.calls } } in
      let unpacked : ℕ × Conn = elim (unpack h.ext bytes) [
        | refused found ↦ (0, note_extensions found c2)
        | payload found rest ↦ process_unpacked time h syn found rest c2
      ] in
      if leb st_num_states (packet_type h)
      then (0, c1)
      else (if has_bad_ack c2 (packet_type h) h.ack_nr then (0, c2) else unpacked)
