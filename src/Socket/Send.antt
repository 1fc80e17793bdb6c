-- ===== src/Socket/Send.antt =====
-- utp_internal.cpp: what leaves a socket. `send_data`, `send_ack`, `send_keep_alive`, `send_packet`,
-- `flush_packets` and `write_outgoing_packet`.
-- A packet in the send queue is named by its index there: what the source does through a pointer to
-- the packet reads and writes that slot.
use go_libutp.Prelude.{
  ℕ, zero, suc, ◌+◌, ◌-◌, ◌/◌, ◌%◌, ◌^◌, Bool, true, false, ◌&&◌, ◌||◌, not, Option, none, some,
  List, [], ◌∷◌, ◌++◌, ltb, leb, ◌==◌, min, max, if◌then◌else◌, add16, sub16, add64, sub64, take,
  drop, length, is_some,
}
use go_libutp.Seq.{and_mask, ack_nr_mask}
use go_libutp.CircBuf.{CircBuf, get, put, ensure_size, size}
use go_libutp.AckList.{remove}
use go_libutp.Mtu.{Mtu, get_packet_size, header_size, mtu_reset, use_as_mtu_probe, start_probe}
use go_libutp.Packet.{
  Header, OutgoingPacket, zero_header, set_version, set_type, register_packet, st_state,
}
use go_libutp.Socket.{Env, Conn, Event, Bandwidth, ConnState}
use go_libutp.Socket.{
  payload_bandwidth, connect_overhead, ack_overhead, header_overhead, retransmit_overhead, sendto,
  on_overhead_statistics, syn_sent,
}
use go_libutp.Socket.Window.{get_rcv_window, is_full}

-- The flag of datagrams that must not be fragmented, `UTP_UDP_DONTFRAG` (utp.h).
abbrev pub udp_dontfrag : ℕ
udp_dontfrag = 2

-- The bandwidth statistic of a sent packet: the kind, and the number of bytes counted.
unfoldable pub overhead_of : Bandwidth → ℕ → ℕ → Event
overhead_of payload_bandwidth length udp_overhead =
    on_overhead_statistics true (udp_overhead + header_size) header_overhead
overhead_of type length udp_overhead = on_overhead_statistics true (length + udp_overhead) type

-- The stamps go into the header of the caller's buffer too: it is returned.
unfoldable pub send_data : Env → Conn → Header → List ℕ → ℕ → Bandwidth → ℕ → Header × Conn
send_data env c header body length type flags =
    let t = c.ctx.calls in
    let time = env.get_microseconds t in
    let stamped = record header { tv_usec = time % 2 ^ 32; reply_micro = c.dl.reply_micro } in
    let counted =
      if c.ctx.has_overhead_statistics
      then overhead_of type length (env.get_udp_overhead (suc t)) ∷ c.ctx.events
      else c.ctx.events in
    (
      stamped,
      record c {
        tm = record c.tm { last_sent_packet = c.ctx.current_ms };
        ctx = record c.ctx {
          calls = suc (suc t);
          events = sendto stamped body length flags ∷ counted;
          raw_send = register_packet c.ctx.raw_send length;
          ack_sockets = remove c.ctx.ack_sockets c.self;
        };
      },
    )

-- The bit mask of the segments that were received past the next one: bit `i` stands for
-- `ack_nr + i + 2`. `n` is the number of bits left.
unfoldable pub eack_mask : {A : Type 0} → ℕ → ℕ → CircBuf A → ℕ → ℕ
eack_mask zero i inbuf ack_nr = 0
eack_mask (suc n) i inbuf ack_nr =
    (if is_some (get inbuf (ack_nr + i + 2)) then 2 ^ i else 0) + eack_mask n (suc i) inbuf ack_nr

unfoldable pub send_ack : Env → Conn → Conn
send_ack env c =
    let window = get_rcv_window c.rcv (env.get_read_buffer_size c.ctx.calls) in
    let header = record (set_type (set_version zero_header 1) st_state) {
      connid = c.ids.conn_id_send % 2 ^ 16;
      ack_nr = c.rcv.ack_nr;
      seq_nr = c.snd.seq_nr;
      windowsize = window % 2 ^ 32;
    } in
    let c1 = record c {
      rcv = record c.rcv { last_rcv_win = window };
      ctx = record c.ctx { calls = suc c.ctx.calls };
    } in
    let m = eack_mask (min (14 + 16) (size c.rcv.inbuf)) 0 c.rcv.inbuf c.rcv.ack_nr in
    let acks = m % 256 ∷ m / 2 ^ 8 % 256 ∷ m / 2 ^ 16 % 256 ∷ m / 2 ^ 24 % 256 ∷ [] in
    let sent =
      if not (c.rcv.reorder_count == 0) && not c.rcv.got_fin_reached
      then send_data env c1 (record header { ext = 1 }) (0 ∷ 4 ∷ acks) (header_size + 4 + 2)
          ack_overhead 0
      else send_data env c1 header [] header_size ack_overhead 0 in
    let c2 = sent.1 in
    record c2 { ctx = record c2.ctx { ack_sockets = remove c2.ctx.ack_sockets c.self } }

unfoldable pub send_keep_alive : Env → Conn → Conn
send_keep_alive env c =
    let c1 = send_ack env (record c { rcv = record c.rcv { ack_nr = sub16 c.rcv.ack_nr 1 } }) in
    record c1 { rcv = record c1.rcv { ack_nr = add16 c1.rcv.ack_nr 1 } }

-- The kind of bandwidth that a packet of the send queue counts as.
unfoldable pub send_bandwidth : ConnState → ℕ → Bandwidth
send_bandwidth syn_sent transmissions = connect_overhead
send_bandwidth state transmissions =
    if transmissions == 1 then payload_bandwidth else retransmit_overhead

-- The MTU search starts anew when its time has come.
unfoldable pub rediscover : Env → Conn → Mtu
rediscover env c =
    let t = c.ctx.calls in
    if ltb c.mtu.discover_time (env.get_milliseconds t)
    then mtu_reset c.mtu (env.get_udp_mtu (t + 2)) (env.get_milliseconds (t + 3))
    else c.mtu

-- Before a packet is sent: its bytes count as in flight, and the MTU search may use it as a probe.
unfoldable pub prepare_send : Env → Conn → OutgoingPacket → Conn
unfolding rediscover
prepare_send env c pkt =
    let mtu1 = rediscover env c in
    record c {
      snd = record c.snd {
        cur_window =
            if pkt.transmissions == 0 || pkt.need_resend
            then add64 c.snd.cur_window pkt.payload
            else c.snd.cur_window;
      };
      mtu =
          if use_as_mtu_probe mtu1 pkt.length c.snd.seq_nr pkt.transmissions
          then start_probe mtu1 pkt.length c.snd.seq_nr
          else mtu1;
      ctx = record c.ctx { calls = c.ctx.calls + 4 };
    }

unfoldable pub probing : Env → Conn → OutgoingPacket → Bool
unfolding rediscover
probing env c pkt =
    let mtu1 = rediscover env c in use_as_mtu_probe mtu1 pkt.length c.snd.seq_nr pkt.transmissions

-- The packet as it is when it goes out; `transmissions` has 31 bits.
unfoldable pub sent_packet : Env → Conn → OutgoingPacket → OutgoingPacket
sent_packet env c pkt = record pkt {
  need_resend = false;
  time_sent = env.get_microseconds (c.ctx.calls + 1);
  transmissions = (pkt.transmissions + 1) % 2 ^ 31;
  header = record pkt.header { ack_nr = c.rcv.ack_nr };
}

-- The packet `pkt` stands at index `i` of the send queue.
unfoldable pub send_packet : Env → ℕ → OutgoingPacket → Conn → Conn
send_packet env i pkt c =
    let pkt1 = sent_packet env c pkt in
    let c1 = prepare_send env c pkt in
    let sent =
      send_data env c1 pkt1.header pkt1.bytes pkt1.length
        (send_bandwidth c.state pkt1.transmissions)
        (if probing env c pkt then udp_dontfrag else 0) in
    let c2 = sent.1 in
    record c2 {
      snd = record c2.snd { outbuf = put c2.snd.outbuf i (some (record pkt1 { header = sent.0 })) };
    }

-- One round of the loop of `flush_packets`, at index `i`, for a packet that waits to be sent.
unfoldable pub flush_packet : Env → ℕ → ℕ → OutgoingPacket → Conn → Conn
flush_packet env packet_size i pkt c =
    if not (i == and_mask (sub64 c.snd.seq_nr 1) ack_nr_mask)
      || c.snd.cur_window_packets == 1
      || leb packet_size pkt.payload
    then send_packet env i pkt c
    else c

unfoldable pub is_waiting : OutgoingPacket → Bool
is_waiting pkt = not (ltb 0 pkt.transmissions && not pkt.need_resend)

-- The loop runs over the 16-bit counter `i` until it reaches `seq_nr`: `n` more rounds.
unfoldable pub flush_loop : Env → ℕ → ℕ → ℕ → Conn → Bool × Conn
flush_loop env packet_size zero i c = (false, c)
flush_loop env packet_size (suc n) i c = elim (get c.snd.outbuf i) [
  | none ↦ flush_loop env packet_size n (add16 i 1) c
  | some pkt ↦ elim (is_waiting pkt) [
    | false ↦ flush_loop env packet_size n (add16 i 1) c
    | true ↦
        let (full, c1) = is_full c none in
        let rest =
          flush_loop env packet_size n (add16 i 1) (flush_packet env packet_size i pkt c1) in
        if full then (true, c1) else rest
  ]
]

unfoldable pub flush_packets : Env → Conn → Bool × Conn
unfolding flush_loop
flush_packets env c =
    flush_loop env (get_packet_size c.mtu) c.snd.cur_window_packets
      (sub16 c.snd.seq_nr c.snd.cur_window_packets) c

-- `needed` bytes taken from the front of a vector of buffers, and what is left of the buffers.
unfoldable pub gather : ℕ → List (List ℕ) → List ℕ × List (List ℕ)
gather needed [] = ([], [])
gather needed (v ∷ vs) =
    let num = min needed (length v) in
    let rest = gather (needed - num) vs in (take num v ++ rest.0, drop num v ∷ rest.1)

-- The last packet of the queue, if there is one and it has room and was not sent: it is filled first.
unfoldable pub open_packet : Conn → ℕ → ℕ → Option OutgoingPacket
open_packet c payload packet_size =
    if c.snd.cur_window_packets == 0
    then none
    else (elim (get c.snd.outbuf (sub64 c.snd.seq_nr 1)) [
      | none ↦ none
      | some pkt ↦
          if not (payload == 0) && pkt.transmissions == 0 && ltb pkt.payload packet_size
          then some pkt
          else none
    ])

-- The header that `write_outgoing_packet` writes into a packet.
unfoldable pub outgoing_header : Conn → ℕ → ℕ → Header → Header
outgoing_header c flags window h = record (set_type (set_version h 1) flags) {
  ext = 0;
  connid = c.ids.conn_id_send % 2 ^ 16;
  windowsize = window % 2 ^ 32;
  ack_nr = c.rcv.ack_nr;
}

-- The packet with `added` more bytes.
unfoldable pub fill_packet : Conn → ℕ → ℕ → ℕ → List ℕ → OutgoingPacket → OutgoingPacket
unfolding outgoing_header
fill_packet c flags window added bytes pkt = record pkt {
  payload = pkt.payload + added;
  length = header_size + (pkt.payload + added);
  bytes = pkt.bytes ++ bytes;
  header = outgoing_header c flags window pkt.header;
}

-- A packet as allocated; its header is uninitialised memory, of which nothing is sent unwritten.
abbrev pub fresh_packet : OutgoingPacket
fresh_packet = record {
  length = 0;
  payload = 0;
  time_sent = 0;
  transmissions = 0;
  need_resend = false;
  header = zero_header;
  bytes = [];
}

-- The advertised window is computed anew for every packet.
unfoldable pub advertise : Env → Conn → Conn
advertise env c = record c {
  rcv = record c.rcv { last_rcv_win = get_rcv_window c.rcv (env.get_read_buffer_size c.ctx.calls) };
  ctx = record c.ctx { calls = suc c.ctx.calls };
}

-- A new packet goes to the end of the queue.
unfoldable pub append_packet : Conn → OutgoingPacket → Conn
append_packet c pkt =
    let q = c.snd in
    let numbered = record pkt { header = record pkt.header { seq_nr = q.seq_nr } } in
    record c {
      snd = record q {
        outbuf = put (ensure_size q.outbuf q.seq_nr q.cur_window_packets) q.seq_nr (some numbered);
        seq_nr = add16 q.seq_nr 1;
        cur_window_packets = add16 q.cur_window_packets 1;
      };
    }

-- The body of the loop: the payload and the buffers that are left, and the connection.
unfoldable pub write_packet : Env → ℕ → ℕ → ℕ → List (List ℕ) → Conn → ℕ × List (List ℕ) × Conn
unfolding open_packet fill_packet advertise append_packet
write_packet env packet_size flags payload iovec c =
    let c1 = advertise env c in
    elim (open_packet c payload packet_size) [
      | some pkt ↦
          let added = min (payload + pkt.payload) (max packet_size pkt.payload) - pkt.payload in
          let (bytes, rest) = gather added iovec in
          let filled = fill_packet c1 flags c1.rcv.last_rcv_win added bytes pkt in
          (
            payload - added,
            rest,
            record c1 {
              snd = record c1.snd {
                outbuf = put c1.snd.outbuf (sub64 c1.snd.seq_nr 1) (some filled);
              };
            },
          )
      | none ↦
          let (bytes, rest) = gather payload iovec in
          let filled = fill_packet c1 flags c1.rcv.last_rcv_win payload bytes fresh_packet in
          (0, rest, append_packet c1 filled)
    ]

-- `do … while (payload)`, on fuel: two rounds are enough.
unfoldable pub write_loop : Env → ℕ → ℕ → ℕ → ℕ → List (List ℕ) → Conn → ℕ × List (List ℕ) × Conn
unfolding write_packet
write_loop env packet_size flags zero payload iovec c = (payload, iovec, c)
write_loop env packet_size flags (suc fuel) payload iovec c =
    let (left, remaining, c1) = write_packet env packet_size flags payload iovec c in
    let rest = write_loop env packet_size flags fuel left remaining c1 in
    if left == 0 then (left, remaining, c1) else rest

-- The initial timeout, when nothing is in flight.
unfoldable pub start_timer : Conn → Conn
start_timer c =
    if c.snd.cur_window_packets == 0
    then record c {
      tm = record c.tm {
        retransmit_timeout = c.tm.rto;
        rto_timeout = add64 c.ctx.current_ms c.tm.rto;
      };
    }
    else c

unfoldable pub write_outgoing_packet : Env → ℕ → ℕ → List (List ℕ) → Conn → List (List ℕ) × Conn
unfolding start_timer write_loop flush_packets
write_outgoing_packet env payload flags iovec c =
    let written = write_loop env (get_packet_size c.mtu) flags 2 payload iovec (start_timer c) in
    (written.1, (flush_packets env written.2).1)
