-- ===== src/Socket/Timeout.antt =====
-- utp_internal.cpp: `UTPSocket::check_timeouts`.
pub mod Lost
pub mod Expiry
use go_libutp.Prelude.{
  ℕ, zero, suc, ◌+◌, ◌-◌, ◌*◌, ◌/◌, ◌%◌, ◌^◌, Bool, true, false, ◌&&◌, ◌||◌, not, none, some, ltb,
  leb, ◌==◌, max, if◌then◌else◌, add16, sub64, add64,
}
use go_libutp.Seq.{and_mask, ack_nr_mask}
use go_libutp.CircBuf.{get, put}
use go_libutp.Mtu.{get_packet_size, probe_lost}
use go_libutp.Packet.{OutgoingPacket}
use go_libutp.Socket.{Env, Conn, SendQueue, Congestion, ConnState, emit_conn, state_rank}
use go_libutp.Socket.{
  syn_sent, syn_recv, connected, connected_full, reset, destroy, on_error, etimedout,
}
use go_libutp.Socket.Window.{is_full}
use go_libutp.Socket.Send.{send_packet, send_keep_alive, flush_packets}
use go_libutp.Socket.Arrival.{mark_writable}

abbrev pub default_packet_size : ℕ
default_packet_size = 1435

abbrev pub keepalive_interval : ℕ
keepalive_interval = 29000

-- `(int)(a - b) >= least`, for 64-bit times and a `least` that is not negative.
abbrev pub has_elapsed : ℕ → ℕ → ℕ → Bool
has_elapsed a b least = let d = sub64 a b % 2 ^ 32 in leb least d && ltb d (2 ^ 31)

-- A signed 32-bit integer as `size_t`.
abbrev pub size_of_int : ℕ → ℕ
size_of_int i = if ltb i (2 ^ 31) then i else i + (2 ^ 64 - 2 ^ 32)

-- The loss of one packet.
unfoldable pub lose_packet : ℕ → OutgoingPacket → SendQueue → SendQueue
lose_packet i pkt q = if pkt.transmissions == 0 || pkt.need_resend then q else record q {
  outbuf = put q.outbuf i (some (record pkt { need_resend = true }));
  cur_window = sub64 q.cur_window pkt.payload;
}

unfoldable pub lose_at : ℕ → SendQueue → SendQueue
unfolding lose_packet
lose_at i q = elim (get q.outbuf i) [ none ↦ q | some pkt ↦ lose_packet i pkt q ]

-- The loop that considers every packet lost, for `n` more packets from the `i`-th newest on.
unfoldable pub lose_loop : ℕ → ℕ → SendQueue → SendQueue
unfolding lose_at
lose_loop zero i q = q
lose_loop (suc n) i q = lose_loop n (suc i) (lose_at (sub64 q.seq_nr (i + 1)) q)

-- The only packet in flight is the probe of the MTU search.
unfoldable pub is_probe_timeout : Conn → Bool
is_probe_timeout c =
    c.snd.cur_window_packets == 1
    && and_mask (sub64 c.snd.seq_nr 1) ack_nr_mask == c.mtu.probe_seq
    && not (c.mtu.probe_seq == 0)

-- The search learns from a lost probe, and any probe is over.
unfoldable pub end_probe : Env → Conn → Conn
unfolding is_probe_timeout
end_probe env c =
    let m =
      if is_probe_timeout c then probe_lost c.mtu (env.get_milliseconds c.ctx.calls) else c.mtu in
    record c {
      mtu = record m { probe_seq = 0; probe_size = 0 };
      ctx = record c.ctx { calls = suc c.ctx.calls };
    }

-- The congestion window after a timeout. Both sides of the comparison are signed.
unfoldable pub shrink_window : Congestion → ℕ → ℕ → Congestion
shrink_window w packets packet_size =
    if packets == 0 && ltb ((packet_size + 2 ^ 31) % 2 ^ 32) ((w.max_window + 2 ^ 31) % 2 ^ 32)
    then record w { max_window = max (w.max_window * 2 % 2 ^ 64 / 3) (size_of_int packet_size) }
    else record w { max_window = size_of_int packet_size; slow_start = true }

-- The oldest packet is sent again.
unfoldable pub resend_oldest : Env → Conn → Conn
resend_oldest env c =
    let q = c.snd in
    let c1 = record c {
      snd = record q {
        retransmit_count = add16 q.retransmit_count 1;
        fast_timeout = true;
        timeout_seq_nr = q.seq_nr;
      };
    } in
    let i = sub64 q.seq_nr q.cur_window_packets in
    if q.cur_window_packets == 0
    then c
    else (elim (get q.outbuf i) [ none ↦ c1 | some pkt ↦ send_packet env i pkt c1 ])

-- The connection has had its chances.
unfoldable pub gives_up : Conn → Bool
gives_up c =
    leb 4 c.snd.retransmit_count
    || (elim c.state [ syn_sent ↦ leb 2 c.snd.retransmit_count | _ ↦ false ])

unfoldable pub give_up : Conn → ConnState → Conn
give_up c state = emit_conn (record c { state = state }) (on_error etimedout)

-- The timer of a connection that goes on.
unfoldable pub back_off : Env → Bool → Conn → Conn
unfolding shrink_window lose_loop resend_oldest
back_off env ignore_loss c =
    let new_timeout =
      if ignore_loss then c.tm.retransmit_timeout else c.tm.retransmit_timeout * 2 % 2 ^ 32 in
    let lost = lose_loop c.snd.cur_window_packets 0 c.snd in
    resend_oldest env (record c {
      tm = record c.tm {
        retransmit_timeout = new_timeout;
        rto_timeout = add64 c.ctx.current_ms new_timeout;
      };
      cwnd =
          if ignore_loss
          then c.cwnd
          else shrink_window c.cwnd c.snd.cur_window_packets (get_packet_size c.mtu % 2 ^ 32);
      snd = if ignore_loss then lost else record lost { duplicate_ack = 0 };
    })

-- The retransmission timer has run out. The answer: whether `check_timeouts` returns here.
unfoldable pub expire : Env → Conn → Bool × Conn
unfolding end_probe gives_up give_up back_off
expire env c =
    let ended = end_probe env c in
    let killed = give_up ended (if c.close_requested then destroy else reset) in
    let goes_on : Bool × Conn =
      if gives_up c then (true, killed) else (false, back_off env (is_probe_timeout c) ended) in
    elim c.state [ syn_recv ↦ (true, give_up ended destroy) | _ ↦ goes_on ]

-- The reset of a peer's window that was zero for too long.
unfoldable pub reopen_window : Conn → Conn
reopen_window c =
    if has_elapsed c.ctx.current_ms c.tm.zerowindow_time 0 && c.cwnd.max_window_user == 0
    then record c { cwnd = record c.cwnd { max_window_user = default_packet_size } }
    else c

unfoldable pub keep_alive : Env → Conn → Conn
keep_alive env c =
    if leb (state_rank connected) (state_rank c.state)
      && not c.fin_sent
      && has_elapsed c.ctx.current_ms c.tm.last_sent_packet keepalive_interval
    then send_keep_alive env c
    else c

-- The case of an active connection.
unfoldable pub run_timers : Env → Conn → Conn
unfolding reopen_window expire mark_writable keep_alive
run_timers env c =
    let c1 = reopen_window c in
    let (returned, c2) =
      if has_elapsed c1.ctx.current_ms c1.tm.rto_timeout 0 && ltb 0 c1.tm.rto_timeout
      then expire env c1
      else (false, c1) in
    if returned then c2 else keep_alive env (mark_writable c2)

unfoldable pub check_timeouts : Env → Conn → Conn
unfolding flush_packets run_timers
check_timeouts env c =
    let flushed = (flush_packets env c).1 in
    elim c.state [
      | destroy ↦ c
      | syn_sent ↦ run_timers env flushed
      | syn_recv ↦ run_timers env flushed
      | connected ↦ run_timers env flushed
      | connected_full ↦ run_timers env flushed
      | _ ↦ flushed
    ]
