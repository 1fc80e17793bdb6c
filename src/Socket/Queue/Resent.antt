-- ===== src/Socket/Queue/Resent.antt =====
-- Sending one packet of the send queue: `send_packet`.
use go_libutp.Prelude.{
  ℕ, ◌+◌, ◌%◌, ◌^◌, ◌<◌, ◌≡◌, refl, ap, subst, Bool, true, false, some, List, [], ◌∷◌, ◌++◌,
  if◌then◌else◌, add16, set, arith,
}
use go_libutp.CircBuf.{get, put}
use go_libutp.Packet.{OutgoingPacket}
use go_libutp.Socket.{Env, Conn, sendto, Event}
use go_libutp.Socket.Send.{send_data, prepare_send, sent_packet, send_packet, probing, udp_dontfrag}
use go_libutp.Socket.Queue.{weight, first_seq, slots, IsSound}
use go_libutp.Socket.Queue.View.{cur_window-bound, rewrite-IsSound}
use go_libutp.Socket.Queue.Acked.{small_payload}

-- One packet, the one at position `k`, went out: the slot holds it with one transmission more, and the
-- datagram carries its payload, the connection's acknowledgment number and the current delay.
pub record IsSent (c : Conn) (k : ℕ) (pkt : OutgoingPacket) (c' : Conn) : Type 0 where
  pub sound : IsSound c'.snd
  pub after : OutgoingPacket
  pub written : slots c'.snd ≡ set (slots c.snd) k (some after)
  pub counted : after.transmissions ≡ pkt.transmissions + 1
  pub current : after.need_resend ≡ false
  pub unchanged : (after.bytes ≡ pkt.bytes) × (after.payload ≡ pkt.payload)
  pub seq_kept : c'.snd.seq_nr ≡ c.snd.seq_nr
  pub packets_kept : c'.snd.cur_window_packets ≡ c.snd.cur_window_packets
  pub stamped : (after.header.ack_nr ≡ c.rcv.ack_nr) × (after.header.reply_micro ≡ c.dl.reply_micro)
  pub flags : ℕ
  pub others : List Event
  pub on_wire : c'.ctx.events ≡ sendto after.header pkt.bytes pkt.length flags ∷ others
  pub grown : (counted_before : List Event) × (others ≡ counted_before ++ c.ctx.events)

-- The statistics are counted, if they are, before the datagram goes out.
counted_events :
    (wanted : Bool) (count : Event) (events : List Event)
    → (counted_before : List Event) × ((if wanted then count ∷ events else events)
        ≡ counted_before ++ events)
counted_events true count events = (count ∷ [], refl)
counted_events false count events = ([], refl)

-- The packet as it stands in its slot after it was sent.
abbrev pub stored : Env → Conn → OutgoingPacket → OutgoingPacket
stored env c pkt = record pkt {
  need_resend = false;
  time_sent = env.get_microseconds (c.ctx.calls + 1);
  transmissions = (pkt.transmissions + 1) % 2 ^ 31;
  header = record pkt.header {
    ack_nr = c.rcv.ack_nr;
    tv_usec = env.get_microseconds (c.ctx.calls + 4) % 2 ^ 32;
    reply_micro = c.dl.reply_micro;
  };
}

module _ (env : Env) (i k : ℕ) (pkt : OutgoingPacket) (c : Conn) (s : IsSound c.snd)
    (h : k < c.snd.cur_window_packets) (at : i ≡ add16 (first_seq c.snd) k)
    (e : get c.snd.outbuf i ≡ some pkt) (few : pkt.transmissions + 1 < 2 ^ 31) where
  here : get c.snd.outbuf (add16 (first_seq c.snd) k) ≡ some pkt
  here = subst (λ t. get c.snd.outbuf t ≡ some pkt) at e

  pub buffer_after :
      (send_packet env i pkt c).snd.outbuf
      ≡ put c.snd.outbuf (add16 (first_seq c.snd) k) (some (stored env c pkt))
  unfolding send_packet send_data prepare_send sent_packet
  buffer_after = ap (λ t. put c.snd.outbuf t (some (stored env c pkt))) at

  balance :
      (send_packet env i pkt c).snd.cur_window
        + weight (get c.snd.outbuf (add16 (first_seq c.snd) k))
      ≡ c.snd.cur_window + weight (some (stored env c pkt))
  unfolding send_packet send_data prepare_send sent_packet
  balance =
      rw here (ground (arith, cur_window-bound c.snd s, small_payload c.snd k pkt s h here, few))

  rewritten :
      IsSound (send_packet env i pkt c).snd
      × (slots (send_packet env i pkt c).snd ≡ set (slots c.snd) k (some (stored env c pkt)))
  unfolding send_packet send_data prepare_send sent_packet
  rewritten =
      rewrite-IsSound c.snd _ k (some (stored env c pkt)) s h (small_payload c.snd k pkt s h here)
        buffer_after refl refl balance

  pub send_packet-IsSent : IsSent c k pkt (send_packet env i pkt c)
  unfolding send_packet send_data prepare_send sent_packet
  send_packet-IsSent = record {
    sound = rewritten.0;
    after = stored env c pkt;
    written = rewritten.1;
    counted = omega (arith, few);
    current = refl;
    unchanged = (refl, refl);
    seq_kept = refl;
    packets_kept = refl;
    stamped = (refl, refl);
    flags = if probing env c pkt then udp_dontfrag else 0;
    others = _;
    on_wire = refl;
    grown = counted_events c.ctx.has_overhead_statistics _ c.ctx.events;
  }
