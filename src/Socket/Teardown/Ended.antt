-- ===== src/Socket/Teardown/Ended.antt =====
-- What ends a connection, and which one.
use go_libutp.Prelude.{
  ℕ, ◌+◌, ◌≡◌, ◌⊎◌, refl, ap, sym, ◌∙◌, inl, inr, true, false, Option, none, some, List, ◌∷◌, ◌==◌,
  ==_iff, if◌then◌else◌, add32, sub32, Bool-cases, if_both,
}
use go_libutp.Socket.{
  Env, Conn, Event, is_state, idle, syn_sent, econnreset, econnrefused, on_error,
  on_overhead_statistics, close_overhead,
}
use go_libutp.Socket.Teardown.{
  or_else, sends_as, find_socket, ended_state, process_reset, process_icmp_error,
}

-- The identifier is one of the socket's two.
abbrev pub IsNamed : ℕ → Conn → Type 0
IsNamed id c = (c.ids.conn_id_recv ≡ id) ⊎ (c.ids.conn_id_send ≡ id)

sends_as-IsNamed : (o : Option Conn) (id : ℕ) (c : Conn) → sends_as o id ≡ some c → IsNamed id c
unfolding sends_as
sends_as-IsNamed none id c e = cc e
sends_as-IsNamed (some d) id c e = elim (Bool-cases (d.ids.conn_id_send == id)) [
  | inr other ↦ cc (rw other at e)
  | inl same ↦
      let here : d ≡ c = some_eq d c (rw same at e) in
      inr (sym (ap (λ (x : Conn). x.ids.conn_id_send) here) ∙ (==_iff d.ids.conn_id_send id).0 same)
]
  where
    some_eq : (x y : Conn) → some x ≡ some y → x ≡ y
    some_eq x y h = cc h

or_else-cases : (x y : Option Conn) (c : Conn) → or_else x y ≡ some c → (x ≡ some c) ⊎ (y ≡ some c)
or_else-cases none y c e = inr e
or_else-cases (some d) y c e = inl e

-- A table that keeps sockets by the identifier that they receive with gives a RST or an ICMP message
-- only a socket that has the message's identifier, as its own or as that of the other end.
pub find_socket-IsNamed :
    (lookup : ℕ → Option Conn) (id : ℕ) (c : Conn)
    → ((k : ℕ) (d : Conn) → lookup k ≡ some d → d.ids.conn_id_recv ≡ k)
    → find_socket lookup id ≡ some c
    → IsNamed id c
unfolding find_socket
find_socket-IsNamed lookup id c keyed e =
    let next = sends_as (lookup (add32 id 1)) id in
    let last = sends_as (lookup (sub32 id 1)) id in
    elim (or_else-cases (lookup id) (or_else next last) c e) [
      | inl own ↦ inl (keyed id c own)
      | inr other ↦ elim (or_else-cases next last c other) [
        | inl e1 ↦ sends_as-IsNamed (lookup (add32 id 1)) id c e1
        | inr e2 ↦ sends_as-IsNamed (lookup (sub32 id 1)) id c e2
      ]
    ]

-- A RST ends a connection in any state, destroyed if the user has closed it and reset if not, and the
-- last thing that the user hears is always a reset, also where the handshake was refused.
-- An ICMP error does the same except to an idle socket, which it leaves as it is, and tells a refused
-- handshake apart.
pub teardown_lem :
    (env : Env) (len : ℕ) (c : Conn)
    → ((process_reset env len c).state ≡ ended_state c)
      × ((others : List Event) × ((process_reset env len c).ctx.events
            ≡ on_error econnreset ∷ others))
      × (((is_state c.state idle ≡ true) × (process_icmp_error c ≡ c))
          ⊎ ((is_state c.state idle ≡ false)
              × ((process_icmp_error c).state ≡ ended_state c)
              × ((process_icmp_error c).ctx.events
                  ≡ on_error (if is_state c.state syn_sent then econnrefused else econnreset)
                    ∷ c.ctx.events)))
unfolding process_reset process_icmp_error
teardown_lem env len c =
    let overhead = env.get_udp_overhead c.ctx.calls in
    let before =
      if c.ctx.has_overhead_statistics
      then on_overhead_statistics false (len + overhead) close_overhead ∷ c.ctx.events
      else c.ctx.events in
    (
      state_kept env len c,
      (before, told env len c),
      (elim (Bool-cases (is_state c.state idle)) [
        | inl e ↦ inl (e, rw e refl)
        | inr e ↦ inr (e, rw e refl, rw e refl)
      ]),
    )
  where
    state_kept : (env : Env) (len : ℕ) (c : Conn) → (process_reset env len c).state ≡ ended_state c
    state_kept env len c =
        if_both (λ (x : Conn). x.state ≡ ended_state c) c.ctx.has_overhead_statistics refl refl

    told :
        (env : Env) (len : ℕ) (c : Conn)
        → (process_reset env len c).ctx.events
          ≡ on_error econnreset
            ∷ (if c.ctx.has_overhead_statistics
                then on_overhead_statistics false
                    (len + env.get_udp_overhead c.ctx.calls)
                    close_overhead
                  ∷ c.ctx.events
                else c.ctx.events)
    told env len c = elim (Bool-cases c.ctx.has_overhead_statistics) [
      | inl e ↦ elim (Bool-cases c.close_requested) [
        | inl r ↦ rw (e, r) refl
        | inr r ↦ rw (e, r) refl
      ]
      | inr e ↦ elim (Bool-cases c.close_requested) [
        | inl r ↦ rw (e, r) refl
        | inr r ↦ rw (e, r) refl
      ]
    ]
