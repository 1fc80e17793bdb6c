-- ===== src/Context.antt =====
-- utp_internal.cpp, utp_internal.h, utp_api.cpp: a context with all of its sockets. A socket is named by
-- the number that stands for its address; the table has these numbers.
pub mod Udp
pub mod Check
pub mod Rst
pub mod Forget
pub mod Entered
pub mod Once
pub mod Deleted
pub mod Deferred
pub mod Ids
pub mod Checked
mod Tests
use go_libutp.Prelude.{
  ℕ, zero, suc, ◌+◌, ◌-◌, ◌*◌, ◌%◌, ◌^◌, Bool, true, false, ◌&&◌, not, Option, none, some, List, [],
  ◌∷◌, ◌++◌, ltb, ◌==◌, if◌then◌else◌, replicate, length,
}
use go_libutp.Packet.{Header, register_packet, set_type, set_version, st_reset, zero_header}
use go_libutp.Mtu.{header_size}
use go_libutp.HashTable.{Table, Elem, create, lookup, write}
use go_libutp.HashTable.Layout.{value_at}
use go_libutp.SockAddr.{PackedSockAddr, SocketKey, same_addr}
use go_libutp.SockAddr.Laws.{socket_key}
use go_libutp.Socket.{Env, Conn, Context, Event, sendto, emit}
use go_libutp.Socket.Opening.{Options}

-- `RST_Info`: an RST that was sent.
pub record RstInfo : Type 0 where
  pub addr : PackedSockAddr
  pub connid : ℕ
  pub ack_nr : ℕ
  pub timestamp : ℕ

-- A socket with the address of its peer.
pub record Sock : Type 0 where
  pub addr : PackedSockAddr
  pub conn : Conn

pub record World : Type 0 where
  pub ctx : Context
  pub utp_sockets : Table SocketKey ℕ
  pub socks : ℕ → Sock
  pub last_utp_socket : Option ℕ
  pub rst_info : List RstInfo
  pub options : Options
  pub last_check : ℕ
  pub has_on_accept : Bool

abbrev pub utp_socket_buckets : ℕ
utp_socket_buckets = 79

abbrev pub utp_socket_init : ℕ
utp_socket_init = 15

-- `struct_utp_context()`. `blank` is the memory of the table, and `socks` that of sockets to come.
unfoldable pub init_context : Elem SocketKey ℕ → (ℕ → Sock) → World
init_context blank socks = record {
  ctx = record {
    current_ms = 0;
    ack_sockets = record { sockets = []; ida = λ s. none };
    raw_send = replicate 5 0;
    raw_recv = replicate 5 0;
    has_on_connect = false;
    has_overhead_statistics = false;
    calls = 0;
    events = [];
  };
  utp_sockets = create utp_socket_buckets utp_socket_init blank;
  socks = socks;
  last_utp_socket = none;
  rst_info = [];
  options = record {
    target_delay = 100 * 1000;
    opt_sndbuf = 1024 * 1024;
    opt_rcvbuf = 1024 * 1024;
  };
  last_check = 0;
  has_on_accept = false;
}

-- A socket as its functions see it: with the context as it is now.
abbrev pub conn_of : World → ℕ → Conn
conn_of w s = record (w.socks s).conn { self = s; ctx = w.ctx }

-- What a function of a socket did to it and to the context is kept.
abbrev pub put_conn : World → ℕ → Conn → World
put_conn w s c = record w { ctx = c.ctx; socks = write w.socks s (record (w.socks s) { conn = c }) }

abbrev pub key_of : PackedSockAddr → ℕ → SocketKey
key_of addr id = record { addr = addr; recv_id = id }

-- `Lookup(UTPSocketKey(addr, id))->socket`.
unfoldable pub socket_at : World → PackedSockAddr → ℕ → Option ℕ
socket_at w addr id =
    value_at socket_key w.utp_sockets (lookup socket_key w.utp_sockets (key_of addr id))

-- The same, as the socket itself.
unfoldable pub conn_at : World → PackedSockAddr → ℕ → Option Conn
unfolding socket_at
conn_at w addr id = elim (socket_at w addr id) [ none ↦ none | some s ↦ some (conn_of w s) ]

abbrev pub get_milliseconds_now : Env → World → World
get_milliseconds_now env w = record w {
  ctx = record w.ctx { current_ms = env.get_milliseconds w.ctx.calls; calls = suc w.ctx.calls };
}

-- An RST for a connection that is not known: `send_rst`.
unfoldable pub send_rst : Context → ℕ → ℕ → ℕ → Context
send_rst ctx conn_id_send ack_nr seq_nr =
    let header = record (set_type (set_version zero_header 1) st_reset) {
      connid = conn_id_send % 2 ^ 16;
      ack_nr = ack_nr;
      seq_nr = seq_nr;
    } in
    emit (record ctx { raw_send = register_packet ctx.raw_send header_size })
      (sendto header [] header_size 0)

-- An RST that was sent before for the same packet.
unfoldable pub is_sent : PackedSockAddr → ℕ → ℕ → RstInfo → Bool
is_sent addr id seq_nr r = r.connid == id && (same_addr r.addr addr && r.ack_nr == seq_nr)

-- The loop over the list: the first RST of the kind is as new, if there is one.
unfoldable pub refresh : PackedSockAddr → ℕ → ℕ → ℕ → List RstInfo → Option (List RstInfo)
unfolding is_sent
refresh addr id seq_nr now [] = none
refresh addr id seq_nr now (r ∷ rs) =
    let later : Option (List RstInfo) = elim (refresh addr id seq_nr now rs) [
      | none ↦ none
      | some rs' ↦ some (r ∷ rs')
    ] in
    if is_sent addr id seq_nr r then some (record r { timestamp = now } ∷ rs) else later

abbrev pub rst_info_limit : ℕ
rst_info_limit = 1000

-- A packet that belongs to no connection is refused: once for each, and no more when the list is long.
unfoldable pub refuse_packet : Env → PackedSockAddr → ℕ → ℕ → World → World
unfolding refresh send_rst
refuse_packet env addr id seq_nr w =
    let w1 = get_milliseconds_now env w in
    let r : RstInfo = record {
      addr = addr;
      connid = id;
      ack_nr = seq_nr;
      timestamp = w1.ctx.current_ms;
    } in
    let random = env.get_random w1.ctx.calls % 2 ^ 16 in
    let refused = record w1 {
      rst_info = w1.rst_info ++ r ∷ [];
      ctx = send_rst (record w1.ctx { calls = suc w1.ctx.calls }) id seq_nr random;
    } in
    elim (refresh addr id seq_nr w1.ctx.current_ms w1.rst_info) [
      | some rs ↦ record w1 { rst_info = rs }
      | none ↦ if ltb rst_info_limit (length w1.rst_info) then w1 else refused
    ]
