-- ===== src/Context/Udp.antt =====
-- utp_internal.cpp: `utp_process_udp`, and the ICMP messages, with the context's table.
use go_libutp.Prelude.{
  ℕ, suc, ◌+◌, ◌%◌, ◌^◌, Bool, true, false, ◌&&◌, ◌||◌, not, Option, none, some, List, ltb, ◌==◌,
  if◌then◌else◌, length, drop, add32, sub64,
}
use go_libutp.Packet.{Header, decode, packet_type, st_reset, st_syn, utp_version}
use go_libutp.Mtu.{header_size, icmp_fragmentation}
use go_libutp.HashTable.{add_value, write}
use go_libutp.SockAddr.{PackedSockAddr, SockAddr, same_addr, set_sockaddr}
use go_libutp.SockAddr.Laws.{socket_key}
use go_libutp.Socket.{
  Env, Conn, Bandwidth, Ids, syn_recv, header_overhead, ack_overhead, on_accept,
  on_overhead_statistics, emit_conn,
}
use go_libutp.Socket.Send.{send_ack}
use go_libutp.Socket.Ccontrol.{Double}
use go_libutp.Socket.Incoming.{utp_process_incoming}
use go_libutp.Socket.Opening.{utp_create_socket, initialize}
use go_libutp.Socket.Teardown.{find_socket, process_reset, process_icmp_error}
use go_libutp.Context.{World, conn_of, put_conn, key_of, socket_at, conn_at, refuse_packet}

-- The overhead of a packet is reported, `extra` bytes more than a datagram has.
unfoldable pub count_overhead : Env → Bool → ℕ → Bandwidth → Conn → Conn
count_overhead env sending extra type c =
    let overhead = env.get_udp_overhead c.ctx.calls in
    let c1 = record c { ctx = record c.ctx { calls = suc c.ctx.calls } } in
    if c.ctx.has_overhead_statistics
    then emit_conn c1 (on_overhead_statistics sending (extra + overhead) type)
    else c1

-- The socket that a packet is for: the last one again, or one of the table, which is then the last.
unfoldable pub receiver : World → PackedSockAddr → ℕ → Option ℕ × World
receiver w addr id =
    let looked_up : Option ℕ × World = elim (socket_at w addr id) [
      | none ↦ (none, w)
      | some s ↦ (some s, record w { last_utp_socket = some s })
    ] in
    elim w.last_utp_socket [
      | none ↦ looked_up
      | some s ↦
          if same_addr (w.socks s).addr addr && (w.socks s).conn.ids.conn_id_recv == id
          then (some s, w)
          else looked_up
    ]

-- The new socket of a SYN, at the address `ptr`: initialized, entered in the table, and given the numbers.
unfoldable pub open_incoming : Env → ℕ → PackedSockAddr → ℕ → ℕ → World → World
open_incoming env ptr addr id seq_nr w =
    let ids : Ids = record { conn_seed = id; conn_id_recv = add32 id 1; conn_id_send = id } in
    let c = initialize env ids (utp_create_socket w.options (conn_of w ptr)) in
    let number = env.get_random c.ctx.calls % 2 ^ 16 in
    let numbered = record c {
      ctx = record c.ctx { calls = suc c.ctx.calls };
      state = syn_recv;
      rcv = record c.rcv { ack_nr = seq_nr };
      snd = record c.snd { seq_nr = number; fast_resend_seq_nr = number };
    } in
    record w {
      ctx = numbered.ctx;
      socks = write w.socks ptr (record { addr = addr; conn = numbered });
      utp_sockets = add_value socket_key w.utp_sockets (key_of addr (add32 id 1)) ptr;
    }

abbrev pub max_sockets : ℕ
max_sockets = 3000

module _ (double : Double) (env : Env) where
  -- A SYN is accepted, unless it is known, there are too many sockets, or the firewall blocks it.
  unfoldable pub process_syn : ℕ → PackedSockAddr → Header → List ℕ → World → World
  unfolding open_incoming count_overhead
  process_syn ptr addr h bytes w =
      let len = header_size + length bytes in
      let blocked = env.on_firewall w.ctx.calls in
      let w1 = record w { ctx = record w.ctx { calls = suc w.ctx.calls } } in
      let opened = open_incoming env ptr addr h.connid h.seq_nr w1 in
      let (read, c) = utp_process_incoming double env h bytes true (conn_of opened ptr) in
      let accepted = emit_conn (send_ack env c) on_accept in
      let counted =
        count_overhead env true header_size ack_overhead
          (count_overhead env false (sub64 len read) header_overhead accepted) in
      elim (socket_at w addr (add32 h.connid 1)) [
        | some s ↦ w
        | none ↦
            if not w.has_on_accept || ltb max_sockets w.utp_sockets.count
            then w
            else (if blocked then w1 else put_conn opened ptr counted)
      ]

  -- A packet of a connection that is known, at the socket `s`.
  unfoldable pub process_known : ℕ → Header → List ℕ → World → World
  unfolding count_overhead
  process_known s h bytes w =
      let (read, c) = utp_process_incoming double env h bytes false (conn_of w s) in
      put_conn w s
        (count_overhead env false (sub64 (header_size + length bytes) read) header_overhead c)

  -- An RST reaches the socket that it is for, if there is one.
  unfoldable pub process_rst : PackedSockAddr → Header → ℕ → World → World
  unfolding conn_at
  process_rst addr h len w = elim (find_socket (conn_at w addr) h.connid) [
    | none ↦ w
    | some c ↦ put_conn w c.self (process_reset env len c)
  ]

  -- A datagram. `ptr` is where a new socket would be allocated. The answer is whether it is of this
  -- protocol.
  unfoldable pub utp_process_udp : ℕ → List ℕ → SockAddr → World → Bool × World
  unfolding receiver process_syn process_known process_rst
  utp_process_udp ptr buffer to w =
      let addr = set_sockaddr to in
      let h = decode buffer in
      let bytes = drop header_size buffer in
      let flags = packet_type h in
      let (known, w1) = receiver w addr h.connid in
      let routed : World = elim known [
        | some s ↦ process_known s h bytes w1
        | none ↦ refuse_packet env addr h.connid h.seq_nr w1
      ] in
      if ltb (length buffer) header_size || not (utp_version h == 1)
      then (false, w)
      else (if flags == st_reset
          then (true, process_rst addr h (length buffer) w)
          else (if flags == st_syn then (true, process_syn ptr addr h bytes w) else (true, routed)))

-- `parse_icmp_payload`: the socket that a quoted packet was sent by.
unfoldable pub parse_icmp_payload : List ℕ → SockAddr → World → Option Conn
unfolding conn_at
parse_icmp_payload buffer to w =
    let h = decode buffer in
    if ltb (length buffer) header_size || not (utp_version h == 1)
    then none
    else find_socket (conn_at w (set_sockaddr to)) h.connid

unfoldable pub utp_process_icmp_error : List ℕ → SockAddr → World → Bool × World
unfolding parse_icmp_payload
utp_process_icmp_error buffer to w = elim (parse_icmp_payload buffer to w) [
  | none ↦ (false, w)
  | some c ↦ (true, put_conn w c.self (process_icmp_error c))
]

unfoldable pub utp_process_icmp_fragmentation : Env → List ℕ → SockAddr → ℕ → World → Bool × World
unfolding parse_icmp_payload
utp_process_icmp_fragmentation env buffer to next_hop_mtu w =
    elim (parse_icmp_payload buffer to w) [
      | none ↦ (false, w)
      | some c ↦ (
        true,
        put_conn w c.self (record c {
          mtu = icmp_fragmentation c.mtu next_hop_mtu (env.get_milliseconds c.ctx.calls);
          ctx = record c.ctx { calls = suc c.ctx.calls };
        }),
      )
    ]
