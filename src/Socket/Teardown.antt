-- ===== src/Socket/Teardown.antt =====
-- utp_internal.cpp: messages that end a connection. The RST branch of `utp_process_udp`,
-- `utp_process_icmp_error`, and how both find the socket. A table of sockets is what `Lookup` answers for
-- the address that the message is about.
pub mod Ended
mod Tests
use go_libutp.Prelude.{
  ℕ, suc, ◌+◌, Bool, true, false, Option, none, some, ◌==◌, if◌then◌else◌, add32, sub32,
}
use go_libutp.Socket.{Env, Conn, ConnState, Event, ErrorCode, is_state, emit_conn}
use go_libutp.Socket.{
  idle, syn_sent, reset, destroy, econnrefused, econnreset, close_overhead, on_error,
  on_overhead_statistics,
}

-- The socket of a neighbouring key, if it sends with this identifier.
unfoldable pub sends_as : Option Conn → ℕ → Option Conn
sends_as none id = none
sends_as (some c) id = if c.ids.conn_id_send == id then some c else none

-- `||` of two lookups.
abbrev pub or_else : Option Conn → Option Conn → Option Conn
or_else none y = y
or_else (some c) y = some c

-- The identifier is the socket's own, or that of the other end, which is the next or the last one.
unfoldable pub find_socket : (ℕ → Option Conn) → ℕ → Option Conn
unfolding sends_as
find_socket lookup id =
    or_else (lookup id)
      (or_else (sends_as (lookup (add32 id 1)) id) (sends_as (lookup (sub32 id 1)) id))

abbrev pub ended_state : Conn → ConnState
ended_state c = if c.close_requested then destroy else reset

-- The code that the user is told.
abbrev pub teardown_error : ConnState → ErrorCode
teardown_error s = if is_state s syn_sent then econnrefused else econnreset

-- A RST of `len` bytes for this socket.
unfoldable pub process_reset : Env → ℕ → Conn → Conn
process_reset env len c =
    let overhead = env.get_udp_overhead c.ctx.calls in
    let ended = record c {
      state = ended_state c;
      ctx = record c.ctx { calls = suc c.ctx.calls };
    } in
    let counted =
      if c.ctx.has_overhead_statistics
      then emit_conn ended (on_overhead_statistics false (len + overhead) close_overhead)
      else ended in
    emit_conn counted (on_error (teardown_error ended.state))

-- An ICMP error for this socket.
unfoldable pub process_icmp_error : Conn → Conn
process_icmp_error c =
    if is_state c.state idle
    then c
    else emit_conn (record c { state = ended_state c }) (on_error (teardown_error c.state))
