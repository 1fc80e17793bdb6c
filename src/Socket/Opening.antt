-- ===== src/Socket/Opening.antt =====
-- utp_internal.cpp: new sockets. `utp_create_socket`, `utp_initialize_socket` and `utp_connect`. Memory as
-- it is allocated is an argument, of which nothing is read before it is written.
pub mod Fresh
use go_libutp.Prelude.{
  ℕ, zero, suc, ◌+◌, ◌-◌, ◌*◌, ◌%◌, ◌^◌, Bool, true, false, not, none, some, [], ◌∷◌, replicate,
  if◌then◌else◌, add16, add32, add64, sub64,
}
use go_libutp.Prelude.Int.{ℤ, pos}
use go_libutp.AckList.{update}
use go_libutp.CircBuf.{create, ensure_size, put}
use go_libutp.DelayHist.{clear}
use go_libutp.Mtu.{header_size, mtu_reset, get_packet_size}
use go_libutp.Packet.{OutgoingPacket, set_type, set_version, st_syn, zero_header}
use go_libutp.Socket.{Env, Conn, Context, Ids, idle, is_state, syn_sent, uninitialized, destroy}
use go_libutp.Socket.Window.{get_rcv_window, max_window_decay}
use go_libutp.Socket.Send.{send_packet}
use go_libutp.Socket.Timeout.{default_packet_size}

-- The options of a context.
pub record Options : Type 0 where
  pub target_delay : ℕ
  pub opt_sndbuf : ℕ
  pub opt_rcvbuf : ℕ

-- `raw` is the socket as allocated, in the context that it is created in.
unfoldable pub utp_create_socket : Options → Conn → Conn
utp_create_socket o raw = record raw {
  state = uninitialized;
  fin_sent = false;
  fin_sent_acked = false;
  close_requested = false;
  snd = record {
    outbuf = create;
    seq_nr = 1;
    cur_window_packets = 0;
    cur_window = 0;
    duplicate_ack = 0;
    fast_resend_seq_nr = 1;
    timeout_seq_nr = 0;
    fast_timeout = false;
    retransmit_count = 0;
  };
  rcv = record {
    inbuf = create;
    ack_nr = 0;
    reorder_count = 0;
    got_fin = false;
    got_fin_reached = false;
    eof_pkt = 0;
    read_shutdown = false;
    opt_rcvbuf = o.opt_rcvbuf;
    last_rcv_win = 0;
    extensions = replicate 8 0;
  };
  cwnd = record raw.cwnd {
    max_window_user = 255 * default_packet_size;
    opt_sndbuf = o.opt_sndbuf;
    target_delay = o.target_delay;
    last_maxed_out_window = 0;
    slow_start = true;
    ssthresh = o.opt_sndbuf;
  };
  tm = record raw.tm {
    rtt = 0;
    rtt_var = 800;
    rto = 3000;
    retransmit_timeout = 0;
    rto_timeout = 0;
    zerowindow_time = 0;
  };
  dl = record raw.dl { reply_micro = 0 };
  drift = record raw.drift {
    average_delay = pos 0;
    current_delay_sum = pos 0;
    current_delay_samples = 0;
    average_delay_base = 0;
    clock_drift = pos 0;
    clock_drift_raw = pos 0;
  };
  mtu = record raw.mtu { probe_seq = 0; probe_size = 0 };
  ctx = record raw.ctx {
    ack_sockets = record raw.ctx.ack_sockets { ida = update raw.ctx.ack_sockets.ida raw.self none };
  };
}

-- A seed that no connection with this peer has, on fuel, and the calls made. The source tries until
-- there is one.
unfoldable pub seed_loop : Env → (ℕ → Bool) → ℕ → ℕ → ℕ × ℕ
seed_loop env taken zero calls = (0, calls)
seed_loop env taken (suc fuel) calls =
    let seed = env.get_random calls % 2 ^ 16 in
    let more = seed_loop env taken fuel (suc calls) in
    if taken seed then more else (seed, suc calls)

-- The rest of `utp_initialize_socket`, for its identifiers. The table that it enters is the context's.
unfoldable pub initialize : Env → Ids → Conn → Conn
initialize env ids c =
    let now = env.get_milliseconds c.ctx.calls in
    let m =
      mtu_reset c.mtu (env.get_udp_mtu (c.ctx.calls + 1))
        (env.get_milliseconds (c.ctx.calls + 2)) in
    let m' = record m { last = m.ceiling } in
    record c {
      ctx = record c.ctx { current_ms = now; calls = c.ctx.calls + 3 };
      ids = ids;
      state = idle;
      cwnd = record c.cwnd {
        max_window = get_packet_size m';
        last_rwin_decay = sub64 now max_window_decay;
      };
      tm = record c.tm {
        rtt_hist = clear now;
        last_got_packet = now;
        last_sent_packet = now;
        last_measured_delay = add64 now 0x70000000;
      };
      dl = record c.dl { our_hist = clear now; their_hist = clear now };
      drift = record c.drift { average_sample_time = add64 now 5000 };
      mtu = m';
    }

-- `utp_initialize_socket` as `utp_connect` calls it, with a seed of its own.
unfoldable pub initialize_seeded : Env → (ℕ → Bool) → ℕ → Conn → Conn
unfolding seed_loop initialize
initialize_seeded env taken fuel c =
    let (seed, calls) = seed_loop env taken fuel c.ctx.calls in
    let ids : Ids = record { conn_seed = seed; conn_id_recv = seed; conn_id_send = add32 1 seed } in
    initialize env ids (record c { ctx = record c.ctx { calls = calls } })

-- The SYN, which has the receive identifier where other packets have the send identifier.
unfoldable pub syn_packet : Conn → OutgoingPacket → OutgoingPacket
syn_packet c memory = record memory {
  length = header_size;
  payload = 0;
  transmissions = 0;
  header = record (set_type (set_version zero_header 1) st_syn) {
    connid = c.ids.conn_id_recv % 2 ^ 16;
    windowsize = c.rcv.last_rcv_win % 2 ^ 32;
    seq_nr = c.snd.seq_nr;
  };
  bytes = [];
}

-- The timer is set, and the first number is drawn.
unfoldable pub start_syn : Env → Conn → Conn
start_syn env c =
    let now = env.get_milliseconds c.ctx.calls in
    record c {
      ctx = record c.ctx { current_ms = now; calls = c.ctx.calls + 3 };
      state = syn_sent;
      snd = record c.snd { seq_nr = env.get_random (c.ctx.calls + 2) % 2 ^ 16 };
      rcv = record c.rcv {
        last_rcv_win = get_rcv_window c.rcv (env.get_read_buffer_size (c.ctx.calls + 1));
      };
      tm = record c.tm { retransmit_timeout = 3000; rto_timeout = add64 now 3000 };
    }

-- The packet is remembered in the outgoing queue.
unfoldable pub queue_syn : OutgoingPacket → Conn → Conn
queue_syn pkt c = record c {
  snd = record c.snd {
    outbuf =
        put (ensure_size c.snd.outbuf c.snd.seq_nr c.snd.cur_window_packets) c.snd.seq_nr
          (some pkt);
    seq_nr = add16 c.snd.seq_nr 1;
    cur_window_packets = add16 c.snd.cur_window_packets 1;
  };
}

unfoldable pub send_syn : Env → OutgoingPacket → Conn → Conn
unfolding syn_packet start_syn queue_syn
send_syn env memory c =
    let started = start_syn env c in
    let pkt = syn_packet started memory in
    send_packet env started.snd.seq_nr pkt (queue_syn pkt started)

-- The answer is true for success. Only a socket that was just created can connect.
unfoldable pub utp_connect : Env → (ℕ → Bool) → ℕ → OutgoingPacket → Conn → Bool × Conn
unfolding initialize_seeded send_syn
utp_connect env taken fuel memory c =
    if is_state c.state uninitialized
    then (true, send_syn env memory (initialize_seeded env taken fuel c))
    else (false, record c { state = destroy })
