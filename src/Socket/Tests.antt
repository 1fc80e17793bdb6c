-- ===== src/Socket/Tests.antt =====
-- Runs and witnesses of the connection: a queue of two packets whose numbers wrap.
use go_libutp.Prelude.{
  List, ℕ, ◌+◌, ◌-◌, ◌*◌, ◌/◌, ◌≤◌, ◌<◌, ◌≡◌, refl, true, false, none, some, [], ◌∷◌, ◌++◌,
  replicate, min, max, length, arith,
}
use go_libutp.Prelude.Int.{pos}
use go_libutp.CircBuf.{get, put, ensure_size}
use go_libutp.DelayHist.{DelayHist}
use go_libutp.Mtu.{get_packet_size, use_as_mtu_probe}
use go_libutp.Packet.{OutgoingPacket, zero_header}
use go_libutp.Socket.{Env, Conn, SendQueue, connected, on_read}
use go_libutp.Socket.{destroy}
use go_libutp.Socket.Arrival.{accept_payload, accept_next, keep_later, packets_past}
use go_libutp.Socket.Arrival.View.{waiting, passed}
use go_libutp.Socket.Arrival.Later.{keep_later_lem}
use go_libutp.Socket.Timeout.{lose_loop, gives_up}
use go_libutp.Socket.Timeout.Lost.{lose_loop_lem, IsGrounded}
use go_libutp.Socket.Control.{utp_close}
use go_libutp.Socket.Written.{write_loop_lem}
use go_libutp.Socket.Arrival.Stream.{IsUpToDate}
use go_libutp.Socket.Arrival.InOrder.{accept_next_lem}
use go_libutp.Socket.Arrival.Delivery.{accept_payload_lem}
use go_libutp.Socket.Window.{is_full, get_rcv_window, outgoing_buffer_max_size}
use go_libutp.Socket.Window.Bounds.{is_full_lem, get_rcv_window_lem}
use go_libutp.Socket.Send.{
  send_data, prepare_send, write_loop, send_packet, flush_packets, flush_loop, flush_packet,
  is_waiting,
}
use go_libutp.Socket.Ack.{ack_packet, update_rtt}
use go_libutp.Socket.Queue.{outstanding_bytes, outstanding_loop, IsSound}
use go_libutp.Socket.Queue.Acked.{ack_packet-AckOutcome, AckOutcome, update_rtt_lem}
use go_libutp.Socket.Queue.Flushed.{Flushed}

abbrev pub packet : ℕ → ℕ → OutgoingPacket
packet payload transmissions = record {
  length = 20 + payload;
  payload = payload;
  time_sent = 1000;
  transmissions = transmissions;
  need_resend = false;
  header = record zero_header { ver_type = 1 };
  bytes = replicate payload 7;
}

abbrev quiet_hist : DelayHist
quiet_hist = record {
  delay_base = 0;
  cur_delay_hist = replicate 3 0;
  cur_delay_idx = 0;
  delay_base_hist = replicate 13 0;
  delay_base_idx = 0;
  delay_base_time = 0;
  delay_base_initialized = false;
}

-- Packet 65535 is in flight with 5 bytes; packet 0 waits with 3.
abbrev pub queue : SendQueue
queue = record {
  outbuf = record {
    mask = 15;
    elements = some (packet 3 0) ∷ replicate 14 none ++ some (packet 5 1) ∷ [];
  };
  seq_nr = 1;
  cur_window_packets = 2;
  cur_window = 5;
  duplicate_ack = 0;
  fast_resend_seq_nr = 65535;
  timeout_seq_nr = 0;
  fast_timeout = false;
  retransmit_count = 0;
}

abbrev pub conn : Conn
conn = record {
  self = 0;
  ctx = record {
    current_ms = 5000;
    ack_sockets = record { sockets = []; ida = λ s. none };
    raw_send = replicate 5 0;
    raw_recv = replicate 5 0;
    has_on_connect = false;
    has_overhead_statistics = false;
    calls = 0;
    events = [];
  };
  ids = record { conn_seed = 8; conn_id_recv = 8; conn_id_send = 9 };
  state = connected;
  fin_sent = false;
  fin_sent_acked = false;
  close_requested = false;
  snd = queue;
  rcv = record {
    inbuf = record { mask = 15; elements = replicate 16 none };
    ack_nr = 77;
    reorder_count = 0;
    got_fin = false;
    got_fin_reached = false;
    eof_pkt = 0;
    read_shutdown = false;
    opt_rcvbuf = 1000;
    last_rcv_win = 1000;
    extensions = replicate 8 0;
  };
  cwnd = record {
    max_window = 2000;
    max_window_user = 3000;
    opt_sndbuf = 4000;
    target_delay = 100000;
    last_rwin_decay = 4000;
    last_maxed_out_window = 0;
    slow_start = true;
    ssthresh = 4000;
  };
  tm = record {
    rtt = 100;
    rtt_var = 40;
    rto = 1000;
    rtt_hist = quiet_hist;
    retransmit_timeout = 1000;
    rto_timeout = 6000;
    zerowindow_time = 0;
    last_got_packet = 0;
    last_sent_packet = 0;
    last_measured_delay = 0;
  };
  drift = record {
    average_delay = pos 0;
    current_delay_sum = pos 0;
    current_delay_samples = 0;
    average_delay_base = 0;
    average_sample_time = 9000;
    clock_drift = pos 0;
    clock_drift_raw = pos 0;
  };
  dl = record { our_hist = quiet_hist; their_hist = quiet_hist; reply_micro = 12 };
  mtu = record {
    discover_time = 1_800_000;
    ceiling = 1402;
    floor = 1402;
    last = 1402;
    probe_seq = 0;
    probe_size = 0;
  };
}

-- Clocks that advance with every call.
abbrev pub env : Env
env = record {
  get_milliseconds = λ t. 5000 + t;
  get_microseconds = λ t. 5_000_000 + 10 * t;
  get_read_buffer_size = λ t. 100;
  get_udp_mtu = λ t. 1402;
  get_udp_overhead = λ t. 28;
  get_random = λ t. 4;
  on_firewall = λ t. false;
}

pub queue-IsSound : IsSound queue
unfolding outstanding_bytes outstanding_loop get
queue-IsSound = record {
  buffer = record { cells = refl; power = (4, refl, omega arith) };
  room = omega arith;
  packets = omega arith;
  seq_word = omega arith;
  in_flight = refl;
  small = omega arith;
}

-- Packet 0 is the last one and small, and another is in flight: the Nagle check holds it back.
nagle : (flush_packets env conn).1.ctx.events ≡ []
unfolding flush_packets flush_loop flush_packet is_waiting is_full get_packet_size get
nagle = refl

-- Acknowledging packet 65535 takes its five bytes out of flight.
acknowledged :
    ((ack_packet env 65535 conn).0 ≡ 0) × ((ack_packet env 65535 conn).1.snd.cur_window ≡ 0)
unfolding ack_packet get
acknowledged = (refl, refl)

not_sent_yet : (ack_packet env 0 conn).0 ≡ 2
unfolding ack_packet get
not_sent_yet = refl

is_full_lem_example :
    let sent = 5 + min 100 (get_packet_size conn.mtu) in
    (sent ≤ 2000) × (sent ≤ 4000) × (sent ≤ 3000) × (2 + 1 < outgoing_buffer_max_size)
unfolding is_full get_packet_size
is_full_lem_example = is_full_lem conn 100 refl (omega arith) (omega arith)

get_rcv_window_lem_example : get_rcv_window conn.rcv 100 + min 100 1000 ≡ 1000
get_rcv_window_lem_example = get_rcv_window_lem conn.rcv 100

ack_packet-AckOutcome_example : AckOutcome conn 0 (ack_packet env 65535 conn)
ack_packet-AckOutcome_example = ack_packet-AckOutcome env 0 conn queue-IsSound (omega arith)

update_rtt_lem_example :
    let tm' = update_rtt conn.tm 180 5000 in
    let distance = max 100 180 - min 100 180 in
    (1000 ≤ tm'.rto)
    × (◌≡◌ {A = ℕ} 100 0 → (tm'.rtt ≡ 180) × (tm'.rtt_var ≡ 180 / 2))
    × (0 < 100
        → (tm'.rtt ≡ 100 - 100 / 8 + 180 / 8)
          × (40 ≤ distance → tm'.rtt_var ≡ 40 + (distance - 40) / 4)
          × (distance ≤ 40 → tm'.rtt_var ≡ 40 - (40 - distance) / 4))
    × (tm'.rto ≡ max (tm'.rtt + tm'.rtt_var * 4) 1000)
update_rtt_lem_example = update_rtt_lem conn.tm 180 5000 (omega arith) (omega arith) (omega arith)

-- Neither packet was sent yet, and nothing is in flight.
abbrev both_wait : Conn
both_wait = record conn {
  snd = record queue {
    outbuf = record {
      mask = 15;
      elements = some (packet 3 0) ∷ replicate 14 none ++ some (packet 5 0) ∷ [];
    };
    cur_window = 0;
  };
}

-- The first packet goes out; the second, the last one and small, is held back.
first_sent :
    ((flush_packets env both_wait).0 ≡ false)
    × ((flush_packets env both_wait).1.snd.cur_window ≡ 5)
    × (length (flush_packets env both_wait).1.ctx.events ≡ 1)
unfolding flush_packets flush_loop flush_packet is_waiting is_full get_packet_size get send_packet
    send_data prepare_send put use_as_mtu_probe
first_sent = (refl, refl, refl)

-- Three packets of a sender: each holds its number, then 9.
abbrev numbered : ℕ → List ℕ
numbered k = k ∷ 9 ∷ []

fresh : IsUpToDate numbered 0 conn
fresh =
    unfold get in
    (
      record {
        buffer = record { cells = refl; power = (4, refl, omega arith) };
        ack_word = omega arith;
        counted = refl;
        genuine = tt;
        reader = refl;
        no_fin = refl;
        reading = refl;
      },
      refl,
    )

-- Packet 79 comes before packet 78: then both are given to the reader.
abbrev one_waits : Conn
one_waits = (accept_payload env 0 79 1 (numbered 1) conn).1

reordered :
    (accept_payload env 0 78 0 (numbered 0) one_waits).1.ctx.events
    ≡ on_read (1 ∷ 9 ∷ []) ∷ on_read (0 ∷ 9 ∷ []) ∷ []
unfolding accept_payload get ensure_size put
reordered = refl

accept_payload_lem_example :
    (m : ℕ) × (0 ≤ m) × IsUpToDate numbered m (accept_payload env 0 79 1 (numbered 1) conn).1
unfolding packets_past
accept_payload_lem_example = accept_payload_lem env numbered 0 0 79 conn fresh (omega arith) refl

-- Packet 79 waits for packet 78.
abbrev later_first : Conn
later_first = (keep_later 79 1 (numbered 1) conn).1

later_first-IsUpToDate : IsUpToDate numbered 0 later_first
unfolding packets_past
later_first-IsUpToDate = keep_later_lem numbered 0 79 conn fresh (omega arith) (omega arith)

-- Both are delivered, and nothing waits any more.
accept_next_lem_example :
    let c' = accept_next env (numbered 0) later_first in
    IsUpToDate numbered 2 c' × (waiting c'.rcv ≡ passed 2 (waiting later_first.rcv))
unfolding keep_later ensure_size put get
accept_next_lem_example = accept_next_lem env numbered 0 later_first later_first-IsUpToDate

lose_loop_lem_example : IsGrounded queue (lose_loop 2 0 queue)
lose_loop_lem_example = lose_loop_lem queue queue-IsSound

write_loop_lem_example :
    (write_loop env 1382 0 2 6 ((1 ∷ 2 ∷ 3 ∷ []) ∷ (4 ∷ 5 ∷ 6 ∷ []) ∷ []) conn).0 ≡ 0
write_loop_lem_example =
    write_loop_lem env 1382 0 6 ((1 ∷ 2 ∷ 3 ∷ []) ∷ (4 ∷ 5 ∷ 6 ∷ []) ∷ []) conn queue-IsSound.buffer

-- Two timeouts end a handshake; a connection gets four.
gives_up_late :
    (gives_up conn ≡ false)
    × (gives_up (record conn { snd = record queue { retransmit_count = 4 } }) ≡ true)
unfolding gives_up
gives_up_late = (refl, refl)

-- A connection whose FIN was acknowledged is destroyed when it is closed.
closed : (utp_close env (record conn { fin_sent = true; fin_sent_acked = true })).state ≡ destroy
unfolding utp_close
closed = refl
