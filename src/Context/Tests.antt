-- ===== src/Context/Tests.antt =====
-- Runs and witnesses of a context.
use go_libutp.Prelude.{
  inl, inr, Bool-cases, ℕ, ◌≡◌, ◌≤◌, refl, true, Option, none, some, List, [], ◌∷◌, ◌==◌, replicate,
  length, drop, arith,
}
use go_libutp.AckList.{schedule, drain}
use go_libutp.AckList.Laws.{IsConsistent, schedule_lem}
use go_libutp.HashTable.{unused, Elem, create, add, add_value, take_cell, link_in}
use go_libutp.HashTable.Layout.{Models, create-Models}
use go_libutp.HashTable.Add.{add_value-Models}
use go_libutp.Packet.{decode}
use go_libutp.SockAddr.{
  PackedSockAddr, SockAddr, SocketKey, same_key, inet, v4_prefix, set_sockaddr,
}
use go_libutp.SockAddr.Laws.{socket_key, same_key_iff}
use go_libutp.Socket.Tests.{conn, env}
use go_libutp.Socket.Incoming.Tests.{thousandths}
use go_libutp.Context.{RstInfo, World, init_context, key_of, refuse_packet, get_milliseconds_now}
use go_libutp.Context.Check.{
  forget_loop, delete_socket, utp_check_timeouts, utp_issue_deferred_acks,
}
use go_libutp.Context.Forget.{count_if, forget_loop_lem}
use go_libutp.Context.Rst.{Refusal, refuse_packet-Refusal}
use go_libutp.Context.Once.{Datagram, process_all, refuse_packet-twice}
use go_libutp.Context.Udp.{utp_process_udp}
use go_libutp.Context.Entered.{Entry, with_socket, utp_process_udp-Entry, utp_process_udp_limit}
use go_libutp.Context.Deleted.{IsForgotten, delete_socket-IsForgotten}
use go_libutp.HashTable.Iterate.{flat}
use go_libutp.Context.Checked.{own_key, check_all, sockets_of, utp_check_timeouts_lem}
use go_libutp.Context.Deferred.{utp_issue_deferred_acks_lem}

abbrev there : PackedSockAddr
there = record { high = v4_prefix; sin4 = 10 ∷ 0 ∷ 0 ∷ 1 ∷ []; port = 8080 }

abbrev blank : Elem SocketKey ℕ
blank = record { key = key_of there 0; value = 0; link = 0 }

-- A context that accepts connections.
abbrev world : World
world = record (init_context blank (λ s. record { addr = there; conn = conn })) {
  has_on_accept = true;
}

abbrev no_sockets : SocketKey → Option ℕ
no_sockets k = none

world-Models : Models socket_key no_sockets world.utp_sockets
unfolding init_context
world-Models = create-Models socket_key 79 15 blank (omega arith) (omega arith) (omega arith)

refuse_packet-Refusal_example : Refusal there 7 99 world (refuse_packet env there 7 99 world)
refuse_packet-Refusal_example = refuse_packet-Refusal env there 7 99 world

abbrev sent_at : ℕ → ℕ → RstInfo
sent_at id t = record { addr = there; connid = id; ack_nr = 1; timestamp = t }

-- Of three RSTs the first is old when the clock shows 20000.
abbrev three : List RstInfo
three = sent_at 7 1000 ∷ sent_at 8 19_000 ∷ sent_at 7 19_500 ∷ []

forget_loop_lem_example : count_if (λ r. r.connid == 7) (forget_loop 20_000 3 0 three) ≡ 1
forget_loop_lem_example = forget_loop_lem 20_000 three (λ r. r.connid == 7)

-- A SYN with the identifier 258.
abbrev syn : List ℕ
syn = 0x41 ∷ 0 ∷ 1 ∷ 2 ∷ replicate 16 0

abbrev sender : SockAddr
sender = inet (10 ∷ 0 ∷ 0 ∷ 1 ∷ []) (31, 144)

utp_process_udp-Entry_example :
    Entry no_sockets
      (set_sockaddr sender)
      (decode syn).connid
      4
      world
      (utp_process_udp thousandths env 4 syn sender world).1
utp_process_udp-Entry_example =
    utp_process_udp-Entry thousandths env no_sockets world world-Models 4 syn sender

utp_process_udp_limit_example :
    length (utp_process_udp thousandths env 4 syn sender world).1.rst_info ≤ 1001
unfolding init_context
utp_process_udp_limit_example =
    utp_process_udp_limit thousandths env 4 syn sender world (omega arith)

-- A SYN and a packet of another connection, between two packets that belong to none.
abbrev between : List Datagram
between =
    record { ptr = 4; buffer = syn; to = sender }
    ∷ record { ptr = 5; buffer = 1 ∷ drop 1 syn; to = sender }
    ∷ []

refuse_packet-twice_example :
    let w' = process_all thousandths env between (refuse_packet env there 7 99 world) in
    (refuse_packet env there 7 99 w').ctx.events ≡ w'.ctx.events
refuse_packet-twice_example = refuse_packet-twice thousandths env there 7 99 between world

-- One socket, which is in the table, is the last one used, and has an acknowledgment due.
abbrev its_key : SocketKey
its_key = key_of there 8

abbrev busy : World
busy = record world {
  utp_sockets = add_value socket_key world.utp_sockets its_key 3;
  ctx = record world.ctx { ack_sockets = schedule world.ctx.ack_sockets 3 };
  last_utp_socket = some 3;
}

busy-Models : Models socket_key (with_socket no_sockets its_key 3) busy.utp_sockets
unfolding init_context create
busy-Models =
    add_value-Models socket_key no_sockets world.utp_sockets its_key 3 world-Models refl
      (omega arith)

busy-IsConsistent : IsConsistent busy.ctx.ack_sockets
unfolding init_context
busy-IsConsistent = (schedule_lem world.ctx.ack_sockets 3 (λ s i. (λ h. cc h, λ h. ground arith))).0

delete_socket-IsForgotten_example :
    IsForgotten (with_socket no_sockets its_key 3) (key_of there 8) 3 busy (delete_socket 3 busy)
unfolding init_context
delete_socket-IsForgotten_example =
    delete_socket-IsForgotten (with_socket no_sockets its_key 3) 3 busy busy-Models
      busy-IsConsistent

utp_issue_deferred_acks_lem_example :
    let l = (utp_issue_deferred_acks env busy).ctx.ack_sockets in
    (l ≡ (drain (length busy.ctx.ack_sockets.sockets) busy.ctx.ack_sockets).1)
    × (l.sockets ≡ [])
    × ((s : ℕ) → l.ida s ≡ none)
utp_issue_deferred_acks_lem_example = utp_issue_deferred_acks_lem env busy busy-IsConsistent

-- It stands in the table under its own key.
busy-owned :
    (q : SocketKey) (s : ℕ) → with_socket no_sockets its_key 3 q ≡ some s → q ≡ own_key busy s
unfolding init_context
busy-owned q s e = elim (Bool-cases (same_key q its_key)) [
  | inl same ↦ (same_key_iff q its_key).0 same
  | inr other ↦ cc (rw other at e)
]

few_buckets : busy.utp_sockets.n ≤ unused
unfolding init_context create add_value add take_cell link_in
few_buckets = omega arith

utp_check_timeouts_lem_example :
    utp_check_timeouts env busy
    ≡ check_all env
        (sockets_of busy.utp_sockets (flat busy-Models.layout.chains busy.utp_sockets.n 0))
        (record (get_milliseconds_now env busy) {
          last_check = 5000;
          rst_info = forget_loop 5000 0 0 [];
        })
unfolding init_context create
utp_check_timeouts_lem_example =
    utp_check_timeouts_lem env busy (with_socket no_sockets its_key 3) busy-Models few_buckets
      busy-owned (omega arith)
