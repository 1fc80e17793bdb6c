-- ===== src/Context/Deferred.antt =====
-- The deferred acknowledgments of a context empty its list.
use go_libutp.Prelude.{
  ℕ, zero, suc, ◌≡◌, refl, ap, subst, sym, ◌∙◌, inl, inr, none, [], length, get_elem?, Option-cases,
  arith, if_both, ◌==◌, not, ◌&&◌,
}
use go_libutp.AckList.{AckList, remove, drain}
use go_libutp.AckList.Laws.{IsConsistent, remove_lem, drain_lem}
use go_libutp.Packet.{Header}
use go_libutp.Socket.{Env, Conn}
use go_libutp.Socket.Send.{send_ack, send_data}
use go_libutp.Context.{World, conn_of, put_conn}
use go_libutp.Context.Check.{deferred_loop, utp_issue_deferred_acks}

-- An acknowledgment takes the socket off the list; the second removal finds nothing.
send_ack_list :
    (env : Env) (c : Conn)
    → (send_ack env c).ctx.ack_sockets ≡ remove (remove c.ctx.ack_sockets c.self) c.self
unfolding send_ack send_data
send_ack_list env c =
    if_both
      (λ (r : Header × Conn).
        remove r.1.ctx.ack_sockets c.self ≡ remove (remove c.ctx.ack_sockets c.self) c.self)
      (not (c.rcv.reorder_count == 0) && not c.rcv.got_fin_reached) refl refl

remove-none : (l : AckList) (s : ℕ) → l.ida s ≡ none → remove l s ≡ l
unfolding remove
remove-none l s e = rw (e, remove) refl

deferred_loop-drain :
    (env : Env) (fuel : ℕ) (w : World)
    → IsConsistent w.ctx.ack_sockets
    → (deferred_loop env fuel w).ctx.ack_sockets ≡ (drain fuel w.ctx.ack_sockets).1
unfolding deferred_loop drain
deferred_loop-drain env zero w c = refl
deferred_loop-drain env (suc fuel) w c =
    elim (Option-cases (get_elem? w.ctx.ack_sockets.sockets 0)) [
      | inl e ↦ rw (e, deferred_loop, drain) refl
      | inr (s, e) ↦
          let w1 = put_conn w s (send_ack env (conn_of w s)) in
          let (right, gone, others) = remove_lem w.ctx.ack_sockets s c in
          let left : w1.ctx.ack_sockets ≡ remove w.ctx.ack_sockets s =
            send_ack_list env (conn_of w s) ∙ remove-none (remove w.ctx.ack_sockets s) s gone in
          rw (e, deferred_loop, drain)
            (deferred_loop-drain env fuel w1 (subst IsConsistent (sym left) right)
              ∙ ap (λ l. (drain fuel l).1) left)
    ]

-- When the deferred acknowledgments are issued, the loop ends with no socket left in the list, and no
-- socket taken to be in it: the list is what its own loop of removals leaves, in as many rounds as
-- there were sockets.
pub utp_issue_deferred_acks_lem :
    (env : Env) (w : World)
    → IsConsistent w.ctx.ack_sockets
    → let l = (utp_issue_deferred_acks env w).ctx.ack_sockets in
      (l ≡ (drain (length w.ctx.ack_sockets.sockets) w.ctx.ack_sockets).1)
      × (l.sockets ≡ [])
      × ((s : ℕ) → l.ida s ≡ none)
unfolding utp_issue_deferred_acks
utp_issue_deferred_acks_lem env w c =
    let l = w.ctx.ack_sockets in
    let same = deferred_loop-drain env (length l.sockets) w c in
    let d = drain_lem (length l.sockets) l c (omega arith) in
    (same, ap (λ x. x.sockets) same ∙ d.emptied, λ s. ap (λ x. x.ida s) same ∙ d.cleared s)
