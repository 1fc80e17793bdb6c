-- ===== src/Socket/Queue/Acked.antt =====
-- Acknowledging a packet of the send queue.
use go_libutp.Prelude.{
  ℕ, ◌+◌, ◌-◌, ◌*◌, ◌/◌, ◌^◌, ◌≤◌, ◌<◌, ◌≡◌, ◌≢◌, inl, inr, refl, ap, ◌∙◌, subst, none, some, ◌==◌,
  if◌then◌else◌, add16, add64, sub64, get_or, set, arith, Bool-cases, Option-cases, max, min,
  ==_iff,
}
use go_libutp.CircBuf.{get}
use go_libutp.CircBuf.Entries.{length-entries}
use go_libutp.Packet.{OutgoingPacket}
use go_libutp.Socket.{Env, Conn, SendQueue, Timers}
use go_libutp.Socket.Ack.{ack_packet, ack_sent, update_rtt}
use go_libutp.Socket.Queue.{weight, IsSmall, first_seq, slots, IsSound}
use go_libutp.Socket.Queue.View.{
  flight-set, get_or-slots, cur_window-flight, cur_window-bound, rewrite-IsSound, AllSmall-get_or,
}

-- A packet's bytes in flight are part of the window's.
pub weight-le :
    (q : SendQueue) (k : ℕ)
    → IsSound q
    → k < q.cur_window_packets
    → weight (get q.outbuf (add16 (first_seq q) k)) ≤ q.cur_window
weight-le q k s h = omega (
  arith,
  cur_window-flight q s,
  flight-set (slots q) k none
      (omega (arith, length-entries q.outbuf (first_seq q) q.cur_window_packets)),
  ap weight (get_or-slots q k s h),
)

pub small_payload :
    (q : SendQueue) (k : ℕ) (pkt : OutgoingPacket)
    → IsSound q
    → k < q.cur_window_packets
    → get q.outbuf (add16 (first_seq q) k) ≡ some pkt
    → pkt.payload < 2 ^ 32
small_payload q k pkt s h e =
    subst IsSmall (get_or-slots q k s h ∙ e) (AllSmall-get_or (slots q) k s.small)

pub ack_sent-IsSound :
    (env : Env) (k : ℕ) (pkt : OutgoingPacket) (c : Conn)
    → IsSound c.snd
    → k < c.snd.cur_window_packets
    → get c.snd.outbuf (add16 (first_seq c.snd) k) ≡ some pkt
    → pkt.transmissions ≢ 0
    → let c' = ack_sent env (add16 (first_seq c.snd) k) pkt c in
      IsSound c'.snd × (slots c'.snd ≡ set (slots c.snd) k none)
unfolding ack_sent
ack_sent-IsSound env k pkt c s h e sent =
    rewrite-IsSound c.snd _ k none s h tt refl refl refl balance
  where
    old : weight (get c.snd.outbuf (add16 (first_seq c.snd) k)) ≡ weight (some pkt)
    old = ap weight e

    balance :
        (if pkt.need_resend then c.snd.cur_window else sub64 c.snd.cur_window pkt.payload)
          + weight (get c.snd.outbuf (add16 (first_seq c.snd) k))
        ≡ c.snd.cur_window + 0
    balance = rw old (ground (arith, weight-le c.snd k s h, old, cur_window-bound c.snd s))

-- The packet was sent and is acknowledged now: its slot is empty, the bytes in flight are those of the
-- other packets, and the retransmission timer starts anew.
pub record IsTaken (c : Conn) (k : ℕ) (c' : Conn) : Type 0 where
  pub sound : IsSound c'.snd
  pub emptied : slots c'.snd ≡ set (slots c.snd) k none
  pub count_reset : c'.snd.retransmit_count ≡ 0
  pub timeout : c'.tm.retransmit_timeout ≡ c'.tm.rto
  pub timer : c'.tm.rto_timeout ≡ add64 c.ctx.current_ms c'.tm.rto
  pub receiving : c'.rcv ≡ c.rcv

-- The three outcomes for the packet at position `k` of the window.
pub data AckOutcome (c : Conn) (k : ℕ) : ℕ × Conn → Type 0 where
  taken :
      (pkt : OutgoingPacket) (c' : Conn)
      → get_or (slots c.snd) k none ≡ some pkt
      → pkt.transmissions ≢ 0
      → IsTaken c k c'
      → AckOutcome c k (0, c')
  gone : get_or (slots c.snd) k none ≡ none → AckOutcome c k (1, c)
  unsent :
      (pkt : OutgoingPacket)
      → get_or (slots c.snd) k none ≡ some pkt
      → pkt.transmissions ≡ 0
      → AckOutcome c k (2, c)

ack_sent-IsTaken :
    (env : Env) (k : ℕ) (pkt : OutgoingPacket) (c : Conn)
    → IsSound c.snd
    → k < c.snd.cur_window_packets
    → get c.snd.outbuf (add16 (first_seq c.snd) k) ≡ some pkt
    → pkt.transmissions ≢ 0
    → IsTaken c k (ack_sent env (add16 (first_seq c.snd) k) pkt c)
ack_sent-IsTaken env k pkt c s h e sent =
    let (sound, emptied) = ack_sent-IsSound env k pkt c s h e sent in
    unfold ack_sent in
    record {
      sound = sound;
      emptied = emptied;
      count_reset = refl;
      timeout = refl;
      timer = refl;
      receiving = refl;
    }

-- Acknowledging the packet at position `k` of a sound send queue empties its slot if the packet was
-- sent and not acknowledged before, and otherwise changes nothing; the answer 0, 1 or 2 says which of
-- these it was, and the queue with its account of bytes in flight stays sound.
pub ack_packet-AckOutcome :
    (env : Env) (k : ℕ) (c : Conn)
    → IsSound c.snd
    → k < c.snd.cur_window_packets
    → AckOutcome c k (ack_packet env (add16 (first_seq c.snd) k) c)
unfolding ack_packet
ack_packet-AckOutcome env k c s h =
    elim (Option-cases (get c.snd.outbuf (add16 (first_seq c.snd) k))) [
      | inl e ↦ rw (e, ack_packet) (gone (get_or-slots c.snd k s h ∙ e))
      | inr (pkt, e) ↦ elim (Bool-cases (pkt.transmissions == 0)) [
        | inl z ↦
            rw (e, ack_packet, z) (unsent pkt (get_or-slots c.snd k s h ∙ e) ((==_iff _ _).0 z))
        | inr nz ↦
            let sent : pkt.transmissions ≢ 0 = ground arith in
            rw (e, ack_packet, nz)
              (taken pkt _ (get_or-slots c.snd k s h ∙ e) sent
                (ack_sent-IsTaken env k pkt c s h e sent))
      ]
    ]

-- The retransmission timeout is at least a second; the first sample becomes the round trip time, and
-- each later one (with all values below 2 ^ 28) moves the estimate by an eighth and its variance by a
-- quarter of their distances, rounded towards the old value.
pub update_rtt_lem :
    (tm : Timers) (ertt now : ℕ)
    → tm.rtt < 2 ^ 28
    → tm.rtt_var < 2 ^ 28
    → ertt < 2 ^ 28
    → let tm' = update_rtt tm ertt now in
      let distance = max tm.rtt ertt - min tm.rtt ertt in
      (1000 ≤ tm'.rto)
      × (tm.rtt ≡ 0 → (tm'.rtt ≡ ertt) × (tm'.rtt_var ≡ ertt / 2))
      × (0 < tm.rtt
          → (tm'.rtt ≡ tm.rtt - tm.rtt / 8 + ertt / 8)
            × (tm.rtt_var ≤ distance → tm'.rtt_var ≡ tm.rtt_var + (distance - tm.rtt_var) / 4)
            × (distance ≤ tm.rtt_var → tm'.rtt_var ≡ tm.rtt_var - (tm.rtt_var - distance) / 4))
      × (tm'.rto ≡ max (tm'.rtt + tm'.rtt_var * 4) 1000)
unfolding update_rtt
update_rtt_lem tm ertt now h v e = ground arith
