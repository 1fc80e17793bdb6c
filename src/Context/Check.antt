-- ===== src/Context/Check.antt =====
-- utp_internal.cpp: `~UTPSocket`, `utp_check_timeouts` and `utp_issue_deferred_acks`, which work on all the
-- sockets of a context.
use go_libutp.Prelude.{
  ℕ, zero, suc, ◌+◌, ◌-◌, Bool, Option, none, some, List, ltb, ◌==◌, if◌then◌else◌, length,
  get_elem?, set, take, sub64, reached_by,
}
use go_libutp.AckList.{remove}
use go_libutp.HashTable.{Iterator, iterate, fresh_iterator, delete}
use go_libutp.SockAddr.Laws.{socket_key}
use go_libutp.Socket.{Env, on_state_change, state_destroying, is_state, destroy, emit}
use go_libutp.Socket.Send.{send_ack}
use go_libutp.Socket.Timeout.{check_timeouts}
use go_libutp.Context.{RstInfo, World, conn_of, put_conn, key_of, get_milliseconds_now}

-- The destructor of a socket: nothing refers to it any more.
unfoldable pub delete_socket : ℕ → World → World
delete_socket s w =
    let told = emit w.ctx (on_state_change state_destroying) in
    let last : Option ℕ = elim w.last_utp_socket [
      | none ↦ none
      | some l ↦ if l == s then none else some l
    ] in
    record w {
      ctx = record told { ack_sockets = remove told.ack_sockets s };
      last_utp_socket = last;
      utp_sockets =
          (delete socket_key w.utp_sockets
            (key_of (w.socks s).addr (w.socks s).conn.ids.conn_id_recv)).1;
    }

abbrev pub rst_info_timeout : ℕ
rst_info_timeout = 10_000

-- `(int)(ctx->current_ms - timestamp) >= RST_INFO_TIMEOUT`.
abbrev pub is_old : ℕ → RstInfo → Bool
is_old now r = reached_by now r.timestamp rst_info_timeout

-- `MoveUpLast`: the last element takes the place of the one at `i`.
unfoldable pub move_up_last : {A : Type 0} → List A → ℕ → List A
move_up_last xs i = elim (get_elem? xs (length xs - 1)) [
  | none ↦ xs
  | some last ↦ take (length xs - 1) (set xs i last)
]

-- The loop over the list of RSTs, from `i`, on fuel. The element that moved up is looked at next.
unfoldable pub forget_loop : ℕ → ℕ → ℕ → List RstInfo → List RstInfo
unfolding move_up_last
forget_loop now zero i rs = rs
forget_loop now (suc fuel) i rs =
    let forgotten = forget_loop now fuel i (move_up_last rs i) in
    let kept = forget_loop now fuel (suc i) rs in
    elim (get_elem? rs i) [ none ↦ rs | some r ↦ if is_old now r then forgotten else kept ]

-- A socket of the table is checked, and deleted when it has come to its end.
unfoldable pub check_socket : Env → ℕ → World → World
unfolding delete_socket
check_socket env s w =
    let c = check_timeouts env (conn_of w s) in
    let w1 = put_conn w s c in if is_state c.state destroy then delete_socket s w1 else w1

-- The loop over the table, on fuel.
unfoldable pub check_loop : Env → ℕ → Iterator → World → World
unfolding check_socket
check_loop env zero it w = w
check_loop env (suc fuel) it w = elim (iterate w.utp_sockets it) [
  | none ↦ w
  | some (e, it') ↦ check_loop env fuel it' (check_socket env (w.utp_sockets.elems e).value w)
]

abbrev pub timeout_check_interval : ℕ
timeout_check_interval = 500

-- At most every half second. Each round of the loops removes or passes one element.
unfoldable pub utp_check_timeouts : Env → World → World
unfolding forget_loop check_loop
utp_check_timeouts env w =
    let w1 = get_milliseconds_now env w in
    let now = w1.ctx.current_ms in
    let w2 = record w1 {
      last_check = now;
      rst_info = forget_loop now (length w1.rst_info) 0 w1.rst_info;
    } in
    if ltb (sub64 now w1.last_check) timeout_check_interval
    then w1
    else check_loop env (w2.utp_sockets.count + 1) fresh_iterator w2

-- The loop over the sockets with an acknowledgment due, on fuel: the first one acknowledges, and with
-- that leaves the list.
unfoldable pub deferred_loop : Env → ℕ → World → World
deferred_loop env zero w = w
deferred_loop env (suc fuel) w = elim (get_elem? w.ctx.ack_sockets.sockets 0) [
  | none ↦ w
  | some s ↦ deferred_loop env fuel (put_conn w s (send_ack env (conn_of w s)))
]

unfoldable pub utp_issue_deferred_acks : Env → World → World
unfolding deferred_loop
utp_issue_deferred_acks env w = deferred_loop env (length w.ctx.ack_sockets.sockets) w
