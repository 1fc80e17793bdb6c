-- ===== src/Socket/Timeout/Expiry.antt =====
-- The retransmission timer runs out: what becomes of the connection.
use go_libutp.Prelude.{
  ◌+◌, ◌-◌, ◌≤◌, ◌⊎◌, ◌*◌, ◌%◌, ◌^◌, ◌≡◌, ◌≢◌, Bool, true, false, ◌∷◌, if◌then◌else◌, add64,
}
use go_libutp.Socket.{Env, Conn, ConnState, on_error, etimedout}
use go_libutp.Socket.{syn_sent, syn_recv, reset, destroy}
use go_libutp.Socket.Timeout.{end_probe, give_up, gives_up, back_off, is_probe_timeout}

-- Four timeouts in a row are too many, and two while the other end has not answered yet.
abbrev pub TooMany : Conn → Type 0
TooMany c = (4 ≤ c.snd.retransmit_count) ⊎ ((c.state ≡ syn_sent) × (2 ≤ c.snd.retransmit_count))

-- The one packet in flight is the probe of the MTU search.
abbrev pub ProbeAlone : Conn → Type 0
ProbeAlone c =
    (c.snd.cur_window_packets ≡ 1)
    × ((c.snd.seq_nr + 2 ^ 64 - 1) % 2 ^ 16 ≡ c.mtu.probe_seq)
    × (c.mtu.probe_seq ≢ 0)

pub data ExpireOutcome (c : Conn) : Bool × Conn → Type 0 where
  refused :
      (c' : Conn)
      → c.state ≡ syn_recv
      → c'.state ≡ destroy
      → c'.ctx.events ≡ on_error etimedout ∷ c.ctx.events
      → ExpireOutcome c (true, c')
  abandoned :
      (c' : Conn)
      → TooMany c
      → c'.state ≡ (if c.close_requested then destroy else reset)
      → c'.ctx.events ≡ on_error etimedout ∷ c.ctx.events
      → ExpireOutcome c (true, c')
  retried :
      (c' : Conn)
      → c.state ≢ syn_recv
      → ¬ TooMany c
      → ¬ ProbeAlone c
      → c'.state ≡ c.state
      → c'.tm.retransmit_timeout ≡ c.tm.retransmit_timeout * 2 % 2 ^ 32
      → c'.tm.rto_timeout ≡ add64 c.ctx.current_ms c'.tm.retransmit_timeout
      → ExpireOutcome c (false, c')
  probe_lost :
      (c' : Conn)
      → c.state ≢ syn_recv
      → ¬ TooMany c
      → ProbeAlone c
      → c'.state ≡ c.state
      → c'.tm.retransmit_timeout ≡ c.tm.retransmit_timeout
      → c'.tm.rto_timeout ≡ add64 c.ctx.current_ms c'.tm.retransmit_timeout
      → ExpireOutcome c (false, c')

module _ (env : Env) where
  -- What `expire` does in each state.
  going_on : Conn → Bool × Conn
  going_on c =
      if gives_up c
      then (true, give_up (end_probe env c) (if c.close_requested then destroy else reset))
      else (false, back_off env (is_probe_timeout c) (end_probe env c))

  in_state : ConnState → Conn → Bool × Conn
  in_state s c = elim s [ syn_recv ↦ (true, give_up (end_probe env c) destroy) | _ ↦ going_on c ]
