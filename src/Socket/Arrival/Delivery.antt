-- ===== src/Socket/Arrival/Delivery.antt =====
-- Every data packet that arrives, in whatever order: what the reader gets.
use go_libutp.Prelude.{
  ℕ, ◌+◌, ◌^◌, ◌≤◌, ◌<◌, ◌≡◌, refl, ap, sym, ◌∙◌, List, arith, false, none, inl, inr, Bool-cases,
  ◌==◌, ==_iff, subst, not, ◌||◌,
}
use go_libutp.CircBuf.{get}
use go_libutp.Packet.{st_state, st_fin}
use go_libutp.Socket.{Env, Conn}
use go_libutp.Socket.Window.{is_full}
use go_libutp.Socket.Arrival.{
  packets_past, mark_writable, note_fin, can_accept, accept_next, keep_later, store_payload,
  accept_payload,
}
use go_libutp.Socket.Arrival.Stream.{stream, HasReceived, IsUpToDate}
use go_libutp.Socket.Arrival.InOrder.{accept_next_lem}
use go_libutp.Socket.Arrival.Later.{keep_later_lem}

-- Only the state, the time of a full window and the events change.
mark_writable-rcv : (c : Conn) → (mark_writable c).rcv ≡ c.rcv
unfolding mark_writable is_full
mark_writable-rcv c = ground arith

mark_writable-stream : (c : Conn) → stream (mark_writable c).ctx.events ≡ stream c.ctx.events
unfolding mark_writable is_full
mark_writable-stream c = ground arith

mark_writable-IsUpToDate :
    (packets : ℕ → List ℕ) (n : ℕ) (c : Conn)
    → IsUpToDate packets n c
    → IsUpToDate packets n (mark_writable c)
mark_writable-IsUpToDate packets n c (h, e) =
    subst
      (λ r.
        HasReceived packets n r (mark_writable c).ctx.events × (get r.inbuf (r.ack_nr + 1) ≡ none))
      (sym (mark_writable-rcv c))
      (
        record {
          buffer = h.buffer;
          ack_word = h.ack_word;
          counted = h.counted;
          genuine = h.genuine;
          reader = mark_writable-stream c ∙ h.reader;
          no_fin = h.no_fin;
          reading = h.reading;
        },
        e,
      )

note_fin-other :
    (pk_flags pk_seq_nr : ℕ) (c : Conn)
    → (pk_flags == st_fin) ≡ false
    → note_fin pk_flags pk_seq_nr c ≡ c
unfolding note_fin
note_fin-other pk_flags pk_seq_nr c e = rw e refl

store_payload_lem :
    (env : Env) (packets : ℕ → List ℕ) (n pk_seq_nr past : ℕ) (c : Conn)
    → IsUpToDate packets n c
    → pk_seq_nr < 2 ^ 16
    → packets_past c.rcv pk_seq_nr ≡ past
    → (m : ℕ) × (n ≤ m)
      × IsUpToDate packets m (store_payload env pk_seq_nr past (packets (n + past)) c).1
unfolding store_payload
store_payload_lem env packets n pk_seq_nr past c up word e = elim (Bool-cases (past == 0)) [
  | inl expected ↦
      let next : n + past ≡ n = omega (arith, (==_iff past 0).0 expected) in
      let (done, kept) = accept_next_lem env packets n c up in
      rw expected (
        subst (λ k. (m : ℕ) × (n ≤ m) × IsUpToDate packets m (accept_next env (packets k) c))
          (sym next) (_, omega arith, done))
  | inr later ↦ rw later (
    n,
    omega arith,
    subst (λ p. IsUpToDate packets n (keep_later pk_seq_nr p (packets (n + p)) c).1) e
        (keep_later_lem packets n pk_seq_nr c up word
          (subst (λ p. 0 < p) (sym e) (positive past later))),
  )
]
  where
    positive : (k : ℕ) → (k == 0) ≡ false → 0 < k
    positive k t = ground arith

-- A packet of the sender that is not a FIN arrives, in whatever order and however often, while the
-- first `n` packets have been given to the reader and no FIN has been seen: afterwards the reader has
-- exactly the first `m` packets, in order and once each, for some `m` from `n` on, and every packet
-- that waits stands at its place.
pub accept_payload_lem :
    (env : Env) (packets : ℕ → List ℕ) (n pk_flags pk_seq_nr : ℕ) (c : Conn)
    → IsUpToDate packets n c
    → pk_seq_nr < 2 ^ 16
    → (pk_flags == st_fin) ≡ false
    → let past : ℕ = packets_past c.rcv pk_seq_nr in
      (m : ℕ) × (n ≤ m)
      × IsUpToDate packets m (accept_payload env pk_flags pk_seq_nr past (packets (n + past)) c).1
unfolding accept_payload
accept_payload_lem env packets n pk_flags pk_seq_nr c up word data_only =
    let past = packets_past c.rcv pk_seq_nr in
    let c1 = mark_writable c in
    elim (Bool-cases (pk_flags == st_state || not (can_accept c1.state))) [
      | inl closed ↦ rw closed (n, omega arith, mark_writable-IsUpToDate packets n c up)
      | inr taking ↦
          rw (taking, note_fin-other pk_flags pk_seq_nr c1 data_only)
            (store_payload_lem env packets n pk_seq_nr past c1
              (mark_writable-IsUpToDate packets n c up) word
              (ap (λ r. packets_past r pk_seq_nr) (mark_writable-rcv c)))
    ]
