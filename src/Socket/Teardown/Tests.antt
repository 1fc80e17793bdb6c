-- ===== src/Socket/Teardown/Tests.antt =====
-- Witnesses of the messages that end a connection.
use go_libutp.Prelude.{◌≡◌, ◌⊎◌, true, false, List, ◌∷◌, if◌then◌else◌}
use go_libutp.Socket.{Event, is_state, idle, syn_sent, econnreset, econnrefused, on_error}
use go_libutp.Socket.Teardown.{ended_state, process_reset, process_icmp_error}
use go_libutp.Socket.Teardown.Ended.{teardown_lem}
use go_libutp.Socket.Tests.{conn, env}

teardown_lem_example :
    ((process_reset env 20 conn).state ≡ ended_state conn)
    × ((others : List Event) × ((process_reset env 20 conn).ctx.events
          ≡ on_error econnreset ∷ others))
    × (((is_state conn.state idle ≡ true) × (process_icmp_error conn ≡ conn))
        ⊎ ((is_state conn.state idle ≡ false)
            × ((process_icmp_error conn).state ≡ ended_state conn)
            × ((process_icmp_error conn).ctx.events
                ≡ on_error (if is_state conn.state syn_sent then econnrefused else econnreset)
                  ∷ conn.ctx.events)))
teardown_lem_example = teardown_lem env 20 conn
