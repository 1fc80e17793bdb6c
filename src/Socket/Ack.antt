-- ===== src/Socket/Ack.antt =====
-- utp_internal.cpp: acknowledgments of sent packets. `ack_packet` with its estimate of the round trip
-- time, `selective_ack_bytes` and `selective_ack`.
use go_libutp.Prelude.{
  ℕ, zero, suc, ◌+◌, ◌-◌, ◌*◌, ◌/◌, ◌%◌, ◌^◌, Bool, true, false, ◌&&◌, not, none, some, List, [],
  ◌∷◌, ltb, leb, ◌==◌, min, max, if◌then◌else◌, sub16, add32, sub32, add64, sub64, take, length,
  get_or, abs32, quarter32,
}
use go_libutp.Seq.{and_mask, ack_nr_mask}
use go_libutp.CircBuf.{get, put}
use go_libutp.DelayHist.{add_sample}
use go_libutp.Packet.{OutgoingPacket}
use go_libutp.Socket.{Env, Conn, SendQueue, Timers}
use go_libutp.Socket.Window.{maybe_decay_win, outgoing_buffer_max_size}
use go_libutp.Socket.Send.{send_packet}

abbrev pub duplicate_acks_before_resend : ℕ
duplicate_acks_before_resend = 3

abbrev pub max_eack : ℕ
max_eack = 128

-- The estimates after a round trip of `ertt` milliseconds. `rtt` and `rtt_var` are unsigned, and the
-- difference goes through a signed integer.
unfoldable pub update_rtt : Timers → ℕ → ℕ → Timers
update_rtt tm ertt current_ms =
    let delta = sub32 tm.rtt ertt in
    let measured = if tm.rtt == 0 then record tm { rtt = ertt; rtt_var = ertt / 2 } else record tm {
      rtt_var = add32 tm.rtt_var (quarter32 (sub32 (abs32 delta) tm.rtt_var));
      rtt = add32 (tm.rtt - tm.rtt / 8) (ertt / 8);
      rtt_hist = add_sample tm.rtt_hist ertt current_ms;
    } in
    record measured { rto = max (add32 measured.rtt (measured.rtt_var * 4 % 2 ^ 32)) 1000 }

-- The packet at `seq` was acknowledged: it leaves the queue's slot and the bytes in flight.
unfoldable pub ack_sent : Env → ℕ → OutgoingPacket → Conn → Conn
unfolding update_rtt
ack_sent env seq pkt c =
    let ertt = sub64 (env.get_microseconds c.ctx.calls) pkt.time_sent / 1000 % 2 ^ 32 in
    let tm1 = if pkt.transmissions == 1 then update_rtt c.tm ertt c.ctx.current_ms else c.tm in
    record c {
      ctx = record c.ctx { calls = suc c.ctx.calls };
      tm = record tm1 {
        retransmit_timeout = tm1.rto;
        rto_timeout = add64 c.ctx.current_ms tm1.rto;
      };
      snd = record c.snd {
        outbuf = put c.snd.outbuf seq none;
        cur_window =
            if pkt.need_resend then c.snd.cur_window else sub64 c.snd.cur_window pkt.payload;
        retransmit_count = 0;
      };
    }

-- 0: acknowledged now, 1: acknowledged before or no such packet, 2: not sent yet.
unfoldable pub ack_packet : Env → ℕ → Conn → ℕ × Conn
unfolding ack_sent
ack_packet env seq c = elim (get c.snd.outbuf seq) [
  | none ↦ (1, c)
  | some pkt ↦ if pkt.transmissions == 0 then (2, c) else (0, ack_sent env seq pkt c)
]

-- `(mask[bits >> 3] & (1 << (bits & 7))) != 0`. A byte that is not there counts as 0.
unfoldable pub mask_bit : List ℕ → ℕ → Bool
mask_bit mask bits = get_or mask (bits / 8) 0 / 2 ^ (bits % 8) % 2 == 1

-- The sequence number that a bit stands for, as `uint32`: `n` is `bits + 1`, so 0 stands for -1.
unfoldable pub mask_seq : ℕ → ℕ → ℕ
mask_seq base n = (base + 2 ^ 32 + n - 1) % 2 ^ 32

-- `((seq_nr - v - 1) & ACK_NR_MASK) >= (uint16)(cur_window_packets - 1)`: not in the send queue, or
-- the oldest packet of it.
unfoldable pub is_outside : SendQueue → ℕ → Bool
is_outside q v =
    leb (sub16 q.cur_window_packets 1) (and_mask (sub32 (sub32 q.seq_nr v) 1) ack_nr_mask)

-- One acknowledged packet in the account of `selective_ack_bytes`: the bytes, and the least round
-- trip time in microseconds.
unfoldable pub count_acked : ℕ → OutgoingPacket → ℕ × ℕ → ℕ × ℕ
count_acked now pkt (acked_bytes, min_rtt) = (
  add64 acked_bytes pkt.payload,
  if ltb pkt.time_sent now then min min_rtt (now - pkt.time_sent) else min min_rtt 50000,
)

-- The loop, for the bits from `n - 1` down to -1; the round for -1 counts nothing.
unfoldable pub selective_ack_bytes_loop : ℕ → SendQueue → ℕ → List ℕ → ℕ → ℕ × ℕ → ℕ × ℕ
unfolding mask_bit mask_seq is_outside count_acked
selective_ack_bytes_loop zero q base mask now acc = acc
selective_ack_bytes_loop (suc bits) q base mask now acc =
    let v = mask_seq base (suc bits) in
    let counted : ℕ × ℕ = elim (get q.outbuf v) [
      | none ↦ acc
      | some pkt ↦
          if not (pkt.transmissions == 0) && mask_bit mask bits
          then count_acked now pkt acc
          else acc
    ] in
    selective_ack_bytes_loop bits q base mask now (if is_outside q v then acc else counted)

-- The loop starts at bit `len * 8`, one past the last bit of the mask: `mask` is what follows in the
-- packet. The result: the bytes, and `min_rtt`.
unfoldable pub selective_ack_bytes : SendQueue → ℕ → List ℕ → ℕ → ℕ → ℕ → ℕ × ℕ
unfolding selective_ack_bytes_loop
selective_ack_bytes q base mask len now min_rtt =
    if q.cur_window_packets == 0
    then (0, min_rtt)
    else selective_ack_bytes_loop (len * 8 + 1) q base mask now (0, min_rtt)

-- A number is pushed on the stack of packets to resend, its top first; a full stack loses its lower
-- half.
unfoldable pub push_resend : ℕ → List ℕ → List ℕ
push_resend v resends =
    if leb (max_eack - 2) (length resends)
    then v ∷ take (length resends - max_eack / 2) resends
    else v ∷ resends

-- Whether a packet may be resent: it is not before the next one allowed, and enough later packets
-- were acknowledged.
unfoldable pub may_resend : SendQueue → ℕ → ℕ → Bool
may_resend q v count =
    leb (and_mask (sub32 v q.fast_resend_seq_nr) ack_nr_mask) outgoing_buffer_max_size
    && leb duplicate_acks_before_resend count

-- One round, for the bit `n - 1`.
unfoldable pub selective_ack_round : Env → ℕ → ℕ → List ℕ → ℕ × List ℕ × Conn → ℕ × List ℕ × Conn
unfolding mask_bit mask_seq is_outside ack_packet push_resend may_resend
selective_ack_round env n base mask (count, resends, c) =
    let v = mask_seq base n in
    let bit_set = ltb 0 n && mask_bit mask (n - 1) in
    let count1 = if bit_set then count + 1 else count in
    let seen : ℕ × List ℕ × Conn = elim (get c.snd.outbuf v) [
      | none ↦ (count1, resends, c)
      | some pkt ↦
          if pkt.transmissions == 0
          then (count1, resends, c)
          else (if bit_set
              then (count1, resends, (ack_packet env (v % 2 ^ 16) c).1)
              else (if may_resend c.snd v count1
                  then (count1, push_resend v resends, c)
                  else (count1, resends, c)))
    ] in
    if is_outside c.snd v then (count, resends, c) else seen

-- The first loop of `selective_ack`, for the bits from `n - 1` down to -1. It carries the count of
-- acknowledged packets and the stack.
unfoldable pub selective_ack_loop : Env → ℕ → ℕ → List ℕ → ℕ × List ℕ × Conn → ℕ × List ℕ × Conn
unfolding selective_ack_round
selective_ack_loop env zero base mask s = selective_ack_round env zero base mask s
selective_ack_loop env (suc n) base mask s =
    selective_ack_loop env n base mask (selective_ack_round env (suc n) base mask s)

-- The second loop: at most four packets are resent, from the top of the stack. `sent` is the number
-- of those that were, and the result says whether any was lost.
unfoldable pub resend_loop : Env → List ℕ → ℕ → Bool → Conn → Bool × Conn
resend_loop env [] sent back_off c = (back_off, c)
resend_loop env (v ∷ resends) sent back_off c = elim (get c.snd.outbuf v) [
  | none ↦ resend_loop env resends sent back_off c
  | some pkt ↦
      let c1 = send_packet env v pkt c in
      let c2 = record c1 {
        snd = record c1.snd { fast_resend_seq_nr = and_mask (add32 v 1) ack_nr_mask };
      } in
      let rest = resend_loop env resends (suc sent) true c2 in
      if leb 4 (suc sent) then (true, c2) else rest
]

unfoldable pub selective_ack : Env → ℕ → List ℕ → ℕ → Conn → Conn
unfolding selective_ack_loop selective_ack_round resend_loop push_resend may_resend
selective_ack env base mask len c =
    let (count, resends, c1) = selective_ack_loop env (len * 8) base mask (0, [], c) in
    let first = and_mask (sub32 base 1) ack_nr_mask in
    let stack = if may_resend c1.snd (sub32 base 1) count then first ∷ resends else resends in
    let (back_off, c2) = resend_loop env stack 0 false c1 in
    let c3 =
      if back_off then record c2 { cwnd = maybe_decay_win c2.cwnd c2.ctx.current_ms } else c2 in
    if c.snd.cur_window_packets == 0
    then c
    else record c3 { snd = record c3.snd { duplicate_ack = count % 256 } }
