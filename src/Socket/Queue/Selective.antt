-- ===== src/Socket/Queue/Selective.antt =====
-- `selective_ack` on a tidy send queue.
use go_libutp.Prelude.{
  ℕ, zero, suc, ◌+◌, ◌-◌, ◌*◌, ◌%◌, ◌^◌, ◌<◌, ◌≡◌, inl, inr, refl, ap, subst, Bool, true, false,
  List, [], ◌∷◌, ◌&&◌, ◌==◌, if◌then◌else◌, add32, sub32, ltb, leb, arith, Bool-cases, Option-cases,
  leb→lt,
}
use go_libutp.Seq.{and_mask, ack_nr_mask}
use go_libutp.CircBuf.{get}
use go_libutp.Socket.{Env, Conn, SendQueue, Congestion}
use go_libutp.Socket.Window.{maybe_decay_win}
use go_libutp.Socket.Ack.{
  mask_bit, mask_seq, is_outside, may_resend, selective_ack_round, selective_ack_loop, resend_loop,
  selective_ack,
}
use go_libutp.Socket.Send.{send_packet}
use go_libutp.Socket.Queue.Tidy.{IsTidy}
use go_libutp.Socket.Queue.Moves.{
  Kept, Kept-trans, Kept-same, Kept-le, ack_packet-Kept, send_packet-Kept,
}

unchanged : (k : ℕ) (q : SendQueue) → IsTidy k q → Kept k q q
unchanged k q t = record { tidy = t; seq_kept = refl; packets_kept = refl }

-- One round acknowledges at most one packet.
selective_ack_round-Kept :
    (env : Env) (k n base : ℕ) (mask : List ℕ) (s : ℕ × List ℕ × Conn)
    → IsTidy k s.2.snd
    → Kept k s.2.snd (selective_ack_round env n base mask s).2.snd
unfolding selective_ack_round
selective_ack_round-Kept env k n base mask (count, resends, c) t =
    elim (Bool-cases (is_outside c.snd (mask_seq base n))) [
      | inl out ↦ rw out same
      | inr inside ↦ rw inside (elim (Option-cases (get c.snd.outbuf (mask_seq base n))) [
        | inl e ↦ rw e same
        | inr (pkt, e) ↦ rw e (elim (Bool-cases (pkt.transmissions == 0)) [
          | inl z ↦ rw z same
          | inr nz ↦ rw nz (elim (Bool-cases (ltb 0 n && mask_bit mask (n - 1))) [
            | inl bit ↦ rw bit (ack_packet-Kept env k (mask_seq base n % 2 ^ 16) c t)
            | inr gap ↦ rw gap (elim (Bool-cases (may_resend c.snd (mask_seq base n) count)) [
              | inl may ↦ rw may same
              | inr wait ↦ rw wait same
            ])
          ])
        ])
      ])
    ]
  where
    same : Kept k c.snd c.snd
    same = unchanged k c.snd t

selective_ack_loop-Kept :
    (env : Env) (k n base : ℕ) (mask : List ℕ) (s : ℕ × List ℕ × Conn)
    → IsTidy k s.2.snd
    → Kept k s.2.snd (selective_ack_loop env n base mask s).2.snd
unfolding selective_ack_loop
selective_ack_loop-Kept env k zero base mask s t = selective_ack_round-Kept env k zero base mask s t
selective_ack_loop-Kept env k (suc n) base mask s t =
    let first = selective_ack_round-Kept env k (suc n) base mask s t in
    Kept-trans k k _ _ _ first (
      selective_ack_loop-Kept env k n base mask (selective_ack_round env (suc n) base mask s)
        first.tidy)

-- At most four packets are sent again.
resend_loop-Kept :
    (env : Env) (resends : List ℕ) (k sent : ℕ) (back_off : Bool) (c : Conn)
    → IsTidy k c.snd
    → sent < 4
    → k + (4 - sent) < 2 ^ 31
    → Kept (k + (4 - sent)) c.snd (resend_loop env resends sent back_off c).1.snd
unfolding resend_loop
resend_loop-Kept env [] k sent back_off c t h few =
    Kept-le k (k + (4 - sent)) c.snd c.snd (unchanged k c.snd t) (omega arith)
resend_loop-Kept env (v ∷ resends) k sent back_off c t h few =
    elim (Option-cases (get c.snd.outbuf v)) [
      | inl e ↦ rw (resend_loop, e) (resend_loop-Kept env resends k sent back_off c t h few)
      | inr (pkt, e) ↦
          let out = send_packet-Kept env k v pkt c t e (omega arith) in
          let c1 = send_packet env v pkt c in
          let c2 = record c1 {
            snd = record c1.snd { fast_resend_seq_nr = and_mask (add32 v 1) ack_nr_mask };
          } in
          let marked = Kept-same (k + 1) c1.snd c2.snd out.tidy refl refl refl refl in
          let now = Kept-trans (k + 1) (k + 1) c.snd c1.snd c2.snd out marked in
          elim (Bool-cases (leb 4 (suc sent))) [
            | inl last ↦
                rw (resend_loop, e, last)
                  (Kept-le (k + 1) (k + (4 - sent)) c.snd c2.snd now (omega arith))
            | inr more ↦
                let below : suc sent < 4 = leb→lt _ _ more in
                let fewer : k + 1 + (4 - suc sent) ≡ k + (4 - sent) = omega arith in
                let rest =
                  resend_loop-Kept env resends (k + 1) (suc sent) true c2 now.tidy below
                    (omega arith) in
                let after = (resend_loop env resends (suc sent) true c2).1.snd in
                rw (resend_loop, e, more)
                  (Kept-trans (k + 1) (k + (4 - sent)) c.snd c2.snd after now
                    (subst (λ t. Kept t c2.snd after) fewer rest))
          ]
    ]

decayed-snd :
    (b : Bool) (w : Congestion) (c : Conn) → (if b then record c { cwnd = w } else c).snd ≡ c.snd
decayed-snd true w c = refl
decayed-snd false w c = refl

-- A selective acknowledgment, whatever its mask, keeps a tidy send queue tidy with its window where it
-- was, and every packet is sent at most four times more.
pub selective_ack-Kept :
    (env : Env) (k base : ℕ) (mask : List ℕ) (len : ℕ) (c : Conn)
    → IsTidy k c.snd
    → k + 4 < 2 ^ 31
    → Kept (k + 4) c.snd (selective_ack env base mask len c).snd
unfolding selective_ack
selective_ack-Kept env k base mask len c t few = elim (Bool-cases (c.snd.cur_window_packets == 0)) [
  | inl z ↦ rw z (Kept-le k (k + 4) c.snd c.snd (unchanged k c.snd t) (omega arith))
  | inr nz ↦
      let first = selective_ack_loop-Kept env k (len * 8) base mask (0, [], c) t in
      let after = selective_ack_loop env (len * 8) base mask (0, [], c) in
      let top = and_mask (sub32 base 1) ack_nr_mask in
      let stack : List ℕ =
        if may_resend after.2.snd (sub32 base 1) after.0 then top ∷ after.1 else after.1 in
      let second =
        resend_loop-Kept env stack k 0 false after.2 first.tidy (omega arith) (omega arith) in
      let out = resend_loop env stack 0 false after.2 in
      let both = Kept-trans k (k + 4) c.snd after.2.snd out.1.snd first second in
      let same = decayed-snd out.0 (maybe_decay_win out.1.cwnd out.1.ctx.current_ms) out.1 in
      rw nz (
        Kept-trans (k + 4) (k + 4) c.snd out.1.snd _ both (
          Kept-same (k + 4) out.1.snd _ both.tidy (ap (λ q. q.outbuf) same)
            (ap (λ q. q.seq_nr) same) (ap (λ q. q.cur_window_packets) same)
            (ap (λ q. q.cur_window) same)))
]
