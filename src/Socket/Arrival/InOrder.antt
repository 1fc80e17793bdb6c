-- ===== src/Socket/Arrival/InOrder.antt =====
-- The loop over the reorder buffer, and the whole handling of the expected packet.
use go_libutp.Prelude.{
  ℕ, zero, suc, ◌+◌, ◌<◌, ◌≡◌, refl, ap, sym, ◌∙◌, none, some, Option, List, [], ◌∷◌, ◌++◌, add16,
  sub16, arith, Bool, true, false, ◌&&◌, not, ◌==◌, if◌then◌else◌, inl, inr, Bool-cases,
  Option-cases, subst, ==_iff,
}
use go_libutp.CircBuf.{get, put, size}
use go_libutp.CircBuf.Entries.{length-entries}
use go_libutp.Socket.{Env, Conn, Receive}
use go_libutp.Socket.Arrival.{
  deliver, deliver_waiting, reach_fin, reorder_loop, accept_next, schedule_ack,
}
use go_libutp.Socket.Arrival.View.{
  rest, occupied, run, passed, waiting, occupied-le, run-snoc, entries-rotate,
}
use go_libutp.Socket.Arrival.Stream.{HasReceived, IsUpToDate}
use go_libutp.Socket.Arrival.Next.{
  stream-deliver, deliver-rcv, next-HasReceived, expected-HasReceived, waiting-head,
}

-- As long as no FIN has come, the loop only delivers.
reach_fin-no_fin : (env : Env) (c : Conn) → c.rcv.got_fin ≡ false → reach_fin env c ≡ c
unfolding reach_fin
reach_fin-no_fin env c e = rw test refl
  where
    and_false : (a x : Bool) → (not a && false && x) ≡ false
    and_false true x = refl
    and_false false x = refl

    test : (not c.rcv.got_fin_reached && c.rcv.got_fin && c.rcv.eof_pkt == c.rcv.ack_nr) ≡ false
    test =
        ap (λ f. not c.rcv.got_fin_reached && f && c.rcv.eof_pkt == c.rcv.ack_nr) e
        ∙ and_false c.rcv.got_fin_reached (c.rcv.eof_pkt == c.rcv.ack_nr)

deliver_waiting-HasReceived :
    (packets : ℕ → List ℕ) (n : ℕ) (c : Conn) (bytes : List ℕ)
    → HasReceived packets n c.rcv c.ctx.events
    → get c.rcv.inbuf (c.rcv.ack_nr + 1) ≡ some bytes
    → HasReceived packets (suc n) (deliver_waiting c bytes).rcv (deliver_waiting c bytes).ctx.events
      × (suc (occupied (waiting (deliver_waiting c bytes).rcv)) ≡ occupied (waiting c.rcv))
      × (waiting (deliver_waiting c bytes).rcv ≡ rest (waiting c.rcv) ++ none ∷ [])
unfolding deliver_waiting
deliver_waiting-HasReceived packets n c bytes h e =
    subst
      (λ r.
        HasReceived packets (suc n) r (deliver cleared bytes).ctx.events
        × (suc (occupied (waiting r)) ≡ occupied (waiting c.rcv))
        × (waiting r ≡ rest (waiting c.rcv) ++ none ∷ []))
      (sym (ap taken (deliver-rcv cleared bytes)))
      (next-HasReceived packets n c.rcv c.ctx.events bytes (deliver cleared bytes).ctx.events h e
        (stream-deliver cleared bytes h.reading))
  where
    cleared : Conn
    cleared = record c { rcv = record c.rcv { inbuf = put c.rcv.inbuf (c.rcv.ack_nr + 1) none } }

    taken : Receive → Receive
    taken r = record r { ack_nr = add16 r.ack_nr 1; reorder_count = sub16 r.reorder_count 1 }

-- A buffer in which nothing waits does not hold the next packet.
nothing_waits :
    (packets : ℕ → List ℕ) (n : ℕ) (c : Conn)
    → HasReceived packets n c.rcv c.ctx.events
    → c.rcv.reorder_count ≡ 0
    → get c.rcv.inbuf (c.rcv.ack_nr + 1) ≡ none
nothing_waits packets n c h z = elim (Option-cases (get c.rcv.inbuf (c.rcv.ack_nr + 1))) [
  | inl e ↦ e
  | inr (bytes, e) ↦ absurd (
      omega (arith, h.counted, ap occupied (waiting-head c.rcv (some bytes) h.buffer h.ack_word e)))
]

-- `k` packets were delivered, up to the first that is missing; the others wait where they did.
record Delivered (packets : ℕ → List ℕ) (n k : ℕ) (w : List (Option (List ℕ))) (c : Conn)
    : Type 0 where
  up_to_date : IsUpToDate packets (n + k) c
  others_kept : waiting c.rcv ≡ passed k w

reorder_loop_lem :
    (fuel : ℕ) (env : Env) (packets : ℕ → List ℕ) (n : ℕ) (c : Conn)
    → HasReceived packets n c.rcv c.ctx.events
    → occupied (waiting c.rcv) < fuel
    → Delivered packets n (run (waiting c.rcv)) (waiting c.rcv) (reorder_loop env fuel c)
unfolding reorder_loop
reorder_loop_lem zero env packets n c h enough = absurd (omega arith)
reorder_loop_lem (suc fuel) env packets n c h enough =
    subst (λ c'. Delivered packets n (run w) w (round c')) (sym (reach_fin-no_fin env c h.no_fin))
      (elim (Bool-cases (c.rcv.reorder_count == 0)) [
        | inl z ↦
            rw z (none_waits (nothing_waits packets n c h ((==_iff c.rcv.reorder_count 0).0 z)))
        | inr nz ↦ rw nz (elim (Option-cases (get c.rcv.inbuf (c.rcv.ack_nr + 1))) [
          | inl e ↦ rw e (none_waits e)
          | inr (bytes, e) ↦
              let (next, fewer, shifted) = deliver_waiting-HasReceived packets n c bytes h e in
              rw e (
                one_more bytes e (deliver_waiting c bytes)
                  (reorder_loop env fuel (deliver_waiting c bytes)) shifted
                  (reorder_loop_lem fuel env packets (suc n) (deliver_waiting c bytes) next
                    (omega (arith, fewer))))
        ])
      ])
  where
    w : List (Option (List ℕ))
    w = waiting c.rcv

    round : Conn → Conn
    round c' =
        let next : Conn = elim (get c'.rcv.inbuf (c'.rcv.ack_nr + 1)) [
          | none ↦ c'
          | some bytes ↦ reorder_loop env fuel (deliver_waiting c' bytes)
        ] in
        if c'.rcv.reorder_count == 0 then c' else next

    none_waits :
        get c.rcv.inbuf (c.rcv.ack_nr + 1) ≡ none
        → Delivered packets n (run (waiting c.rcv)) (waiting c.rcv) c
    none_waits e =
        subst (λ k. Delivered packets n k w c)
          (sym (ap run (waiting-head c.rcv none h.buffer h.ack_word e)))
          (record {
            up_to_date = (
              subst (λ m. HasReceived packets m c.rcv c.ctx.events) {x = n} {y = n + 0}
                  (omega arith) h,
              e,
            );
            others_kept = refl;
          })

    one_more :
        (bytes : List ℕ)
        → get c.rcv.inbuf (c.rcv.ack_nr + 1) ≡ some bytes
        → (c1 out : Conn) → waiting c1.rcv ≡ rest w ++ none ∷ []
        → Delivered packets (suc n) (run (waiting c1.rcv)) (waiting c1.rcv) out
        → Delivered packets n (run w) w out
    one_more bytes e c1 out shifted d =
        let longer : run w ≡ suc (run (rest w)) =
          ap run (waiting-head c.rcv (some bytes) h.buffer h.ack_word e) in
        let d1 : Delivered packets (suc n) (run (rest w)) (rest w ++ none ∷ []) out =
          subst (λ k. Delivered packets (suc n) k (rest w ++ none ∷ []) out) (run-snoc (rest w))
            (subst (λ x. Delivered packets (suc n) (run x) x out) shifted d) in
        subst (λ k. Delivered packets n k w out) (sym longer)
          (record {
            up_to_date =
                subst (λ m. IsUpToDate packets m out) {x = suc n + run (rest w)}
                  {y = n + suc (run (rest w))} (omega arith) d1.up_to_date;
            others_kept = d1.others_kept;
          })

-- The expected packet, number `n` of the sender, comes while no FIN has been seen. The reader is given
-- its bytes and those of all the packets that wait right behind it, up to the first that is missing, in
-- the sender's order and once each; all later packets wait at their places as before.
pub accept_next_lem :
    (env : Env) (packets : ℕ → List ℕ) (n : ℕ) (c : Conn)
    → IsUpToDate packets n c
    → let waited = run (rest (waiting c.rcv)) in
      let c' = accept_next env (packets n) c in
      IsUpToDate packets (suc n + waited) c'
      × (waiting c'.rcv ≡ passed (suc waited) (waiting c.rcv))
unfolding accept_next schedule_ack
accept_next_lem env packets n c (h, missing) =
    let next =
      expected-HasReceived packets n c.rcv c.ctx.events (deliver c (packets n)).ctx.events h missing
        (stream-deliver c (packets n) h.reading) in
    let d =
      reorder_loop_lem (size c1.rcv.inbuf + 1) env packets (suc n) c1
        (rw (deliver-rcv c (packets n)) next)
        (omega (
          arith,
          occupied-le (waiting c1.rcv),
          length-entries c1.rcv.inbuf (c1.rcv.ack_nr + 1) (suc c1.rcv.inbuf.mask),
        )) in
    let after : waiting c1.rcv ≡ rest (waiting c.rcv) ++ none ∷ [] =
      ap (λ (r : Receive). waiting (record r { ack_nr = add16 r.ack_nr 1 }))
        (deliver-rcv c (packets n))
      ∙ entries-rotate c.rcv.inbuf c.rcv.ack_nr h.buffer h.ack_word missing in
    let out = reorder_loop env (size c1.rcv.inbuf + 1) c1 in
    let all : Delivered packets (suc n) (run (rest (waiting c.rcv)))
        (rest (waiting c.rcv) ++ none ∷ []) out =
      subst (λ k. Delivered packets (suc n) k (rest (waiting c.rcv) ++ none ∷ []) out)
        (run-snoc (rest (waiting c.rcv)))
        (subst (λ x. Delivered packets (suc n) (run x) x out) after d) in
    (all.up_to_date, all.others_kept)
  where
    c1 : Conn
    c1 =
        let d = deliver c (packets n) in
        record d { rcv = record d.rcv { ack_nr = add16 d.rcv.ack_nr 1 } }
