-- ===== src/Socket/Incoming/Handshake.antt =====
-- The answer to a SYN completes the handshake.
use go_libutp.Prelude.{
  ℕ, zero, suc, ◌+◌, ◌≤◌, ◌≡◌, refl, inl, inr, true, false, ◌&&◌, not, none, List, length, ltb, leb,
  ◌==◌, if◌then◌else◌, Bool-cases, Option-cases, if_both, arith, add16, sub16, sub32, sub64,
}
use go_libutp.Seq.{and_mask, seq_nr_mask, ack_nr_mask}
use go_libutp.CircBuf.{get}
use go_libutp.Mtu.{header_size}
use go_libutp.Packet.{OutgoingPacket, Header, packet_type, st_state, st_num_states}
use go_libutp.Socket.{Env, Conn, ConnState, syn_sent, connected}
use go_libutp.Socket.Send.{send_packet, send_data, prepare_send}
use go_libutp.Socket.Ack.{ack_packet, ack_sent}
use go_libutp.Socket.Ccontrol.{Double, apply_ccontrol}
use go_libutp.Socket.Delay.{reported_delay}
use go_libutp.Socket.Arrival.{mark_writable, accept_payload, packets_past}
use go_libutp.Socket.Extension.{unpack}
use go_libutp.Socket.Incoming.{
  begin_incoming, has_bad_ack, note_extensions, receive_numbers, acked_packets, count_duplicate,
  count_bytes, measure_delays, note_window, complete_incoming, complete_outgoing,
  advance_fast_resend, pop_oldest, ack_loop, skip_loop, flush_nagle, retry_fast, settle,
  acknowledge_selectively, process_acks, process_unpacked, utp_process_incoming,
}

module _ (env : Env) (st : ConnState) where
  -- The socket is in this state.
  abbrev In : Conn → Type 0
  In c = c.state ≡ st

  send_packet-In : (i : ℕ) (pkt : OutgoingPacket) (c : Conn) → In c → In (send_packet env i pkt c)
  unfolding send_packet send_data prepare_send
  send_packet-In i pkt c h = h

  count_duplicate-In : (flags ack : ℕ) (c : Conn) → In c → In (count_duplicate env flags ack c)
  unfolding count_duplicate
  count_duplicate-In flags ack c h = if_both In (c.snd.cur_window_packets == 0) h (if_both In _ h h)

  advance_fast_resend-In : (ack : ℕ) (c : Conn) → In c → In (advance_fast_resend ack c)
  unfolding advance_fast_resend
  advance_fast_resend-In ack c h = if_both In _ h h

  ack_packet-In : (seq : ℕ) (c : Conn) → In c → In (ack_packet env seq c).1
  unfolding ack_packet ack_sent
  ack_packet-In seq c h = elim (Option-cases (get c.snd.outbuf seq)) [
    | inl e ↦ rw (e, ack_packet) h
    | inr (pkt, e) ↦
        rw (e, ack_packet) (if_both (λ (r : ℕ × Conn). r.1.state ≡ st) (pkt.transmissions == 0) h h)
  ]

  ack_loop-In : (n : ℕ) (c : Conn) → In c → In (ack_loop env n c)
  unfolding ack_loop pop_oldest
  ack_loop-In zero c h = h
  ack_loop-In (suc n) c h =
      let r = ack_packet env (sub16 c.snd.seq_nr c.snd.cur_window_packets) c in
      let h1 = ack_packet-In (sub16 c.snd.seq_nr c.snd.cur_window_packets) c h in
      if_both In (r.0 == 2) h1 (ack_loop-In n (pop_oldest r.1) h1)

  skip_loop-In : (n : ℕ) (c : Conn) → In c → In (skip_loop n c)
  unfolding skip_loop pop_oldest
  skip_loop-In zero c h = h
  skip_loop-In (suc n) c h = if_both In _ h (skip_loop-In n (pop_oldest c) h)

  flush_nagle-In : (c : Conn) → In c → In (flush_nagle env c)
  unfolding flush_nagle
  flush_nagle-In c h =
      let i = sub64 c.snd.seq_nr 1 in
      elim (Option-cases (get c.snd.outbuf i)) [
        | inl e ↦ rw (flush_nagle, e) (if_both In (c.snd.cur_window_packets == 1) h h)
        | inr (pkt, e) ↦
            rw (flush_nagle, e)
              (if_both In (c.snd.cur_window_packets == 1)
                (if_both In (pkt.transmissions == 0) (send_packet-In i pkt c h) h) h)
      ]

  retry_fast-In : (c : Conn) → In c → In (retry_fast env c)
  unfolding retry_fast
  retry_fast-In c h =
      let i = sub64 c.snd.seq_nr c.snd.cur_window_packets in
      elim (Option-cases (get c.snd.outbuf i)) [
        | inl e ↦
            rw (retry_fast, e)
              (if_both In c.snd.fast_timeout
                (if_both In (and_mask i ack_nr_mask == c.snd.fast_resend_seq_nr) h h) h)
        | inr (pkt, e) ↦
            rw (retry_fast, e)
              (if_both In c.snd.fast_timeout
                (if_both In (and_mask i ack_nr_mask == c.snd.fast_resend_seq_nr)
                  (if_both In (pkt.transmissions == 0) h (
                    send_packet-In i pkt
                      (record c {
                        snd = record c.snd {
                          fast_resend_seq_nr = add16 c.snd.fast_resend_seq_nr 1;
                        };
                      })
                      h))
                  h)
                h)
      ]

-- An acknowledgment never covers more than the window.
acked_packets-le : (c : Conn) (ack : ℕ) → acked_packets c.snd ack ≤ c.snd.cur_window_packets
unfolding acked_packets
acked_packets-le c ack =
    let q = c.snd in
    let acks = and_mask (sub32 ack (sub32 (sub32 q.seq_nr 1) q.cur_window_packets)) ack_nr_mask in
    elim (Bool-cases (ltb q.cur_window_packets acks)) [
      | inl old ↦ rw (acked_packets, old) (omega arith)
      | inr new ↦ rw (acked_packets, new) (ground arith)
    ]

count_duplicate-window :
    (env : Env) (flags ack : ℕ) (c : Conn)
    → (count_duplicate env flags ack c).snd.cur_window_packets ≡ c.snd.cur_window_packets
unfolding count_duplicate
count_duplicate-window env flags ack c =
    let P : Conn → Type 0 = λ c'. c'.snd.cur_window_packets ≡ c.snd.cur_window_packets in
    if_both P (c.snd.cur_window_packets == 0) refl (if_both P _ refl refl)

completed :
    (h : Header) (acks : ℕ) (c : Conn)
    → packet_type h ≡ st_state
    → c.state ≡ syn_sent
    → (complete_outgoing
        (packet_type h)
        acks
        (complete_incoming (packet_type h) (note_window h c))).state
      ≡ connected
unfolding complete_incoming complete_outgoing note_window
completed h acks c type waits = rw (type, waits) refl

settle-connected :
    (env : Env) (h : Header) (acks : ℕ) (c : Conn)
    → packet_type h ≡ st_state
    → c.state ≡ syn_sent
    → acks ≤ c.snd.cur_window_packets
    → (settle env h acks c).state ≡ connected
unfolding settle
settle-connected env h acks c type waits few =
    let c1 =
      complete_outgoing (packet_type h) acks
        (complete_incoming (packet_type h) (note_window h c)) in
    let c2 = ack_loop env acks (advance_fast_resend h.ack_nr c1) in
    let h2 =
      ack_loop-In env connected acks (advance_fast_resend h.ack_nr c1)
        (advance_fast_resend-In env connected h.ack_nr c1 (completed h acks c type waits)) in
    let c3 = skip_loop c2.snd.cur_window_packets c2 in
    let h3 = skip_loop-In env connected c2.snd.cur_window_packets c2 h2 in
    let covered : leb acks c.snd.cur_window_packets ≡ true = ground arith in
    rw (settle, covered)
      (retry_fast-In env connected (flush_nagle env c3) (flush_nagle-In env connected c3 h3))

module _ (double : Double) (env : Env) where
  process_acks-connected :
      (time : ℕ) (h : Header) (c : Conn)
      → packet_type h ≡ st_state
      → c.state ≡ syn_sent
      → (process_acks double env time h none c).state ≡ connected
  unfolding process_acks count_bytes measure_delays acknowledge_selectively apply_ccontrol
  process_acks-connected time h c type waits =
      let acks = acked_packets c.snd h.ack_nr in
      let c1 = count_duplicate env (packet_type h) h.ack_nr c in
      let waits1 = count_duplicate-In env syn_sent (packet_type h) h.ack_nr c waits in
      let few1 : acks ≤ c1.snd.cur_window_packets = omega (
        arith,
        acked_packets-le c h.ack_nr,
        count_duplicate-window env (packet_type h) h.ack_nr c,
      ) in
      let Ready : Conn → Type 0 =
        λ c'. (c'.state ≡ syn_sent) × (acks ≤ c'.snd.cur_window_packets) in
      let (acked_bytes, min_rtt, c2) = count_bytes env h.ack_nr acks none c1 in
      let c3 = measure_delays time min_rtt h c2 in
      let test = not (reported_delay h.reply_micro == 0) && leb 1 acked_bytes in
      let c4 : Conn = if test then apply_ccontrol double c3 acked_bytes min_rtt else c3 in
      let ready : Ready c4 = if_both Ready test (waits1, few1) (waits1, few1) in
      settle-connected env h acks c4 type ready.0 ready.1

  -- The number of the first packet that the peer will send is one less than that of its answer.
  first_number :
      (s : ℕ) → and_mask (sub32 (sub32 s (and_mask (sub32 s 1) seq_nr_mask)) 1) seq_nr_mask ≡ 0
  first_number s = omega arith

  mark_writable-connected : (c : Conn) → c.state ≡ connected → (mark_writable c).state ≡ connected
  unfolding mark_writable
  mark_writable-connected c e = rw (e, mark_writable) e

  accept_payload-connected :
      (seq : ℕ) (flags : ℕ) (bytes : List ℕ) (c : Conn)
      → flags ≡ st_state
      → c.state ≡ connected
      → (accept_payload env flags seq 0 bytes c).1.state ≡ connected
  unfolding accept_payload
  accept_payload-connected seq flags bytes c type e =
      rw (type, accept_payload) (mark_writable-connected c e)

  numbered :
      (seq : ℕ) (c : Conn)
      → c.state ≡ syn_sent
      → ((receive_numbers seq c).state ≡ syn_sent)
        × (packets_past (receive_numbers seq c).rcv seq ≡ 0)
  unfolding receive_numbers packets_past
  numbered seq c waits = rw (waits, receive_numbers) (refl, first_number seq)

  process_unpacked-connected :
      (time : ℕ) (h : Header) (bytes : List ℕ) (c : Conn)
      → packet_type h ≡ st_state
      → c.state ≡ syn_sent
      → (process_unpacked double env time h false
          (record { selack = none; extensions = none })
          bytes
          c).1.state
        ≡ connected
  unfolding process_unpacked note_extensions
  process_unpacked-connected time h bytes c type waits =
      let c1 = receive_numbers h.seq_nr c in
      let (waits1, first) = numbered h.seq_nr c waits in
      rw (process_unpacked, first)
        (accept_payload-connected h.seq_nr (packet_type h) bytes
          (process_acks double env time h none c1) type
          (process_acks-connected time h c1 type waits1))

  -- A socket that waits for the answer to its SYN is connected by any packet of the type STATE that has
  -- no extensions and an acknowledgment in the window, whatever its number, its stamps and the bytes
  -- behind it, whatever the clocks and the floating point do.
  pub utp_process_incoming-connected :
      (h : Header) (bytes : List ℕ) (c : Conn)
      → packet_type h ≡ st_state
      → h.ext ≡ 0
      → c.state ≡ syn_sent
      → has_bad_ack c (packet_type h) h.ack_nr ≡ false
      → (utp_process_incoming double env h bytes false c).1.state ≡ connected
  unfolding utp_process_incoming begin_incoming has_bad_ack unpack
  utp_process_incoming-connected h bytes c type plain waits good =
      let c1 = begin_incoming env (header_size + length bytes) c in
      let c2 = record c1 { ctx = record c1.ctx { calls = suc c1.ctx.calls } } in
      let known : leb st_num_states (packet_type h) ≡ false = rw type refl in
      let good2 : has_bad_ack c2 (packet_type h) h.ack_nr ≡ false = good in
      rw (utp_process_incoming, known, good2, plain, unpack)
        (process_unpacked-connected (env.get_microseconds c1.ctx.calls) h bytes c2 type waits)
