-- ===== src/Socket/Control.antt =====
-- utp_internal.cpp: what the user asks of a connection, `utp_close`, `utp_shutdown` and
-- `utp_read_drained`.
use go_libutp.Prelude.{ℕ, suc, ◌*◌, ◌%◌, ◌^◌, true, not, [], ltb, ◌==◌, min, if◌then◌else◌, add64}
use go_libutp.Packet.{st_fin}
use go_libutp.Socket.{Env, Conn}
use go_libutp.Socket.{uninitialized, syn_sent, connected, connected_full, destroy}
use go_libutp.Socket.Window.{get_rcv_window}
use go_libutp.Socket.Send.{send_ack, write_outgoing_packet}
use go_libutp.Socket.Arrival.{schedule_ack}

-- The FIN packet, once.
unfoldable pub send_fin : Env → Conn → Conn
send_fin env c = (write_outgoing_packet env 0 st_fin [] (record c { fin_sent = true })).1

-- A handshake that is under way times out soon.
unfoldable pub hasten_timeout : Env → Conn → Conn
hasten_timeout env c = record c {
  tm = record c.tm {
    rto_timeout = add64 (env.get_milliseconds c.ctx.calls) (min (c.tm.rto * 2 % 2 ^ 32) 60);
  };
  ctx = record c.ctx { calls = suc c.ctx.calls };
}

unfoldable pub close_open : Env → Conn → Conn
unfolding send_fin
close_open env c =
    let c1 = record c { rcv = record c.rcv { read_shutdown = true }; close_requested = true } in
    if not c.fin_sent
    then send_fin env c1
    else (if c.fin_sent_acked then record c1 { state = destroy } else c1)

unfoldable pub utp_close : Env → Conn → Conn
unfolding close_open hasten_timeout
utp_close env c = elim c.state [
  | connected ↦ close_open env c
  | connected_full ↦ close_open env c
  | syn_sent ↦ record (hasten_timeout env c) { state = destroy }
  | _ ↦ record c { state = destroy }
]

-- `how` (sys/socket.h).
abbrev pub shut_rd : ℕ
shut_rd = 0

abbrev pub shut_wr : ℕ
shut_wr = 1

unfoldable pub stop_writing : Env → Conn → Conn
unfolding send_fin hasten_timeout
stop_writing env c = elim c.state [
  | connected ↦ if c.fin_sent then c else send_fin env c
  | connected_full ↦ if c.fin_sent then c else send_fin env c
  | syn_sent ↦ hasten_timeout env c
  | _ ↦ c
]

unfoldable pub utp_shutdown : Env → ℕ → Conn → Conn
unfolding stop_writing
utp_shutdown env how c =
    let c1 =
      if how == shut_wr then c else record c { rcv = record c.rcv { read_shutdown = true } } in
    if how == shut_rd then c1 else stop_writing env c1

-- A reader that has drained its buffer opens the window: at once if it was closed.
unfoldable pub utp_read_drained : Env → Conn → Conn
utp_read_drained env c =
    let window = get_rcv_window c.rcv (env.get_read_buffer_size c.ctx.calls) in
    let c1 = record c { ctx = record c.ctx { calls = suc c.ctx.calls } } in
    let drained =
      if ltb c.rcv.last_rcv_win window
      then (if c.rcv.last_rcv_win == 0
          then send_ack env c1
          else schedule_ack (record c1 {
            ctx = record c1.ctx {
              current_ms = env.get_milliseconds c1.ctx.calls;
              calls = suc c1.ctx.calls;
            };
          }))
      else c1 in
    elim c.state [ uninitialized ↦ c | _ ↦ drained ]
