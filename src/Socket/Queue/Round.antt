-- ===== src/Socket/Queue/Round.antt =====
-- `flush_packets`: one round of its loop.
use go_libutp.Prelude.{
  ℕ, ◌+◌, ◌^◌, ◌<◌, ◌≡◌, ◌≢◌, inl, inr, refl, ap, sym, ◌∙◌, subst, Bool, true, false, ◌||◌, not,
  Option, none, some, ◌==◌, add16, sub64, get_or, arith, Bool-cases, leb, get_or-set_ne,
  get_or-set_self, List, [], ◌∷◌, ◌++◌,
}
use go_libutp.Seq.{and_mask, ack_nr_mask}
use go_libutp.CircBuf.{get}
use go_libutp.CircBuf.Entries.{length-entries}
use go_libutp.Packet.{OutgoingPacket}
use go_libutp.Socket.{Env, Conn, SendQueue, Event, sendto}
use go_libutp.Socket.Window.{is_full}
use go_libutp.Socket.Send.{flush_packet, is_waiting}
use go_libutp.Socket.Queue.{first_seq, slots, IsSound}
use go_libutp.Socket.Queue.Resent.{IsSent, send_packet-IsSent}
use go_libutp.Socket.Queue.Handled.{Handled, kept, went}

-- The slot holds no packet that waits to be sent.
abbrev pub IsDone : Option OutgoingPacket → Type 0
IsDone none = Unit {0}
IsDone (some pkt) = is_waiting pkt ≡ false

-- What stands at position `j` of the queue.
abbrev pub slot : SendQueue → ℕ → Option OutgoingPacket
slot q j = get_or (slots q) j none

-- One round at position `k`, which leaves the other slots as they are.
pub record Round (c : Conn) (k : ℕ) (c' : Conn) : Type 0 where
  pub sound : IsSound c'.snd
  pub seq_kept : c'.snd.seq_nr ≡ c.snd.seq_nr
  pub packets_kept : c'.snd.cur_window_packets ≡ c.snd.cur_window_packets
  pub others_kept : (j : ℕ) → j ≢ k → slot c'.snd j ≡ slot c.snd j
  pub newer : List Event
  pub grown : c'.ctx.events ≡ newer ++ c.ctx.events
  pub handled : Handled newer (slot c.snd k) (slot c'.snd k)
  pub done : k + 1 < c.snd.cur_window_packets → IsDone (slot c'.snd k)

pub skip-Round :
    (c c' : Conn) (k : ℕ)
    → IsSound c.snd
    → c'.snd ≡ c.snd
    → c'.ctx.events ≡ c.ctx.events
    → (k + 1 < c.snd.cur_window_packets → IsDone (slot c.snd k))
    → Round c k c'
skip-Round c c' k s same quiet d = record {
  sound = subst IsSound (sym same) s;
  seq_kept = ap (λ q. q.seq_nr) same;
  packets_kept = ap (λ q. q.cur_window_packets) same;
  others_kept = λ j ne. ap (λ q. slot q j) same;
  newer = [];
  grown = quiet;
  handled = kept (ap (λ q. slot q k) same);
  done = λ h. rw same (d h);
}

-- The slot that a sent packet stood in.
sent_slot :
    (c c' : Conn) (k : ℕ) (pkt : OutgoingPacket) (h : k < c.snd.cur_window_packets)
    (p : IsSent c k pkt c')
    → slot c'.snd k ≡ some p.after
sent_slot c c' k pkt h p =
    ap (λ t. get_or t k none) p.written
    ∙ get_or-set_self (slots c.snd) k (some p.after) none
        (omega (arith, length-entries c.snd.outbuf (first_seq c.snd) c.snd.cur_window_packets, h))

sent-Round :
    (c c' : Conn) (k : ℕ) (pkt : OutgoingPacket)
    → k < c.snd.cur_window_packets
    → slot c.snd k ≡ some pkt
    → is_waiting pkt ≡ true
    → IsSent c k pkt c'
    → Round c k c'
sent-Round c c' k pkt h was waits p = record {
  sound = p.sound;
  seq_kept = p.seq_kept;
  packets_kept = p.packets_kept;
  others_kept = λ j ne.
      ap (λ t. get_or t j none) p.written
      ∙ get_or-set_ne (slots c.snd) k j (some p.after) none (λ q. ne (sym q));
  newer = sendto p.after.header pkt.bytes pkt.length p.flags ∷ p.grown.0;
  grown = p.on_wire ∙ ap (λ t. sendto p.after.header pkt.bytes pkt.length p.flags ∷ t) p.grown.1;
  handled =
      went pkt p.after p.flags [] p.grown.0 was waits (sent_slot c c' k pkt h p)
        (record { counted = p.counted; current = p.current; unchanged = p.unchanged }) refl;
  done = λ later.
      rw (sent_slot c c' k pkt h p) (unfold is_waiting in ground (arith, p.counted, p.current));
}

-- All but the last packet pass the test of the Nagle check.
flush_packet-Round :
    (env : Env) (packet_size i k : ℕ) (pkt : OutgoingPacket) (c : Conn)
    → IsSound c.snd
    → k < c.snd.cur_window_packets
    → i ≡ add16 (first_seq c.snd) k
    → get c.snd.outbuf i ≡ some pkt
    → pkt.transmissions + 1 < 2 ^ 31
    → slot c.snd k ≡ some pkt
    → is_waiting pkt ≡ true
    → Round c k (flush_packet env packet_size i pkt c)
unfolding flush_packet
flush_packet-Round env packet_size i k pkt c s h at e few was waits = elim (Bool-cases passes) [
  | inl yes_send ↦
      rw (yes_send, flush_packet)
        (sent-Round c _ k pkt h was waits (send_packet-IsSent env i k pkt c s h at e few))
  | inr held ↦
      rw (held, flush_packet) (skip-Round c c k s refl refl (λ later. absurd (last held later)))
]
  where
    passes : Bool
    passes =
        not (i == and_mask (sub64 c.snd.seq_nr 1) ack_nr_mask)
        || c.snd.cur_window_packets == 1
        || leb packet_size pkt.payload

    last : passes ≡ false → k + 1 < c.snd.cur_window_packets → ⊥
    last f later = ground (arith, s.packets, s.seq_word)

-- The round for a packet that waits, when the window is not full.
pub waiting-Round :
    (env : Env) (packet_size i k : ℕ) (pkt : OutgoingPacket) (c : Conn)
    → IsSound c.snd
    → k < c.snd.cur_window_packets
    → i ≡ add16 (first_seq c.snd) k
    → get c.snd.outbuf i ≡ some pkt
    → pkt.transmissions + 1 < 2 ^ 31
    → slot c.snd k ≡ some pkt
    → is_waiting pkt ≡ true
    → Round c k (flush_packet env packet_size i pkt (is_full c none).1)
unfolding is_full
waiting-Round env packet_size i k pkt c s h at e few was waits =
    let r = flush_packet-Round env packet_size i k pkt (is_full c none).1 s h at e few was waits in
    record {
      sound = r.sound;
      seq_kept = r.seq_kept;
      packets_kept = r.packets_kept;
      others_kept = r.others_kept;
      newer = r.newer;
      grown = r.grown;
      handled = r.handled;
      done = r.done;
    }
