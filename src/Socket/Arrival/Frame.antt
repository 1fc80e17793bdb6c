-- ===== src/Socket/Arrival/Frame.antt =====
-- Receiving a payload leaves the send queue alone.
use go_libutp.Prelude.{
  ℕ, zero, suc, ◌+◌, ◌≡◌, refl, ◌∙◌, ◌&&◌, ◌||◌, not, List, ◌==◌, ltb, length, add16, arith, inl,
  inr, Bool-cases, Option-cases,
}
use go_libutp.CircBuf.{get, size}
use go_libutp.Packet.{st_state, st_fin}
use go_libutp.Socket.{Env, Conn}
use go_libutp.Socket.Window.{is_full}
use go_libutp.Socket.Send.{send_ack, send_data}
use go_libutp.Socket.Arrival.{
  mark_writable, deliver, note_fin, reach_fin, deliver_waiting, reorder_loop, accept_next,
  keep_later, store_payload, accept_payload, schedule_ack, can_accept,
}

pub send_ack-snd : (env : Env) (c : Conn) → (send_ack env c).snd ≡ c.snd
unfolding send_ack send_data
send_ack-snd env c = ground arith

pub mark_writable-snd : (c : Conn) → (mark_writable c).snd ≡ c.snd
unfolding mark_writable is_full
mark_writable-snd c = ground arith

deliver-snd : (c : Conn) (bytes : List ℕ) → (deliver c bytes).snd ≡ c.snd
unfolding deliver
deliver-snd c bytes = elim (Bool-cases (ltb 0 (length bytes) && not c.rcv.read_shutdown)) [
  | inl e ↦ rw e refl
  | inr e ↦ rw e refl
]

note_fin-snd : (f n : ℕ) (c : Conn) → (note_fin f n c).snd ≡ c.snd
unfolding note_fin
note_fin-snd f n c = elim (Bool-cases (f == st_fin && not c.rcv.got_fin)) [
  | inl e ↦ rw e refl
  | inr e ↦ rw e refl
]

reach_fin-snd : (env : Env) (c : Conn) → (reach_fin env c).snd ≡ c.snd
unfolding reach_fin
reach_fin-snd env c =
    elim (Bool-cases
      (not c.rcv.got_fin_reached && c.rcv.got_fin && c.rcv.eof_pkt == c.rcv.ack_nr)) [
        | inl e ↦ rw e (send_ack-snd env _)
        | inr e ↦ rw e refl
      ]

deliver_waiting-snd : (c : Conn) (bytes : List ℕ) → (deliver_waiting c bytes).snd ≡ c.snd
unfolding deliver_waiting
deliver_waiting-snd c bytes = deliver-snd _ bytes

reorder_loop-snd : (fuel : ℕ) (env : Env) (c : Conn) → (reorder_loop env fuel c).snd ≡ c.snd
unfolding reorder_loop
reorder_loop-snd zero env c = refl
reorder_loop-snd (suc fuel) env c =
    let c1 = reach_fin env c in
    elim (Bool-cases (c1.rcv.reorder_count == 0)) [
      | inl z ↦ rw z (reach_fin-snd env c)
      | inr nz ↦ rw nz (elim (Option-cases (get c1.rcv.inbuf (c1.rcv.ack_nr + 1))) [
        | inl e ↦ rw e (reach_fin-snd env c)
        | inr (bytes, e) ↦ rw e (
            reorder_loop-snd fuel env (deliver_waiting c1 bytes)
            ∙ deliver_waiting-snd c1 bytes
            ∙ reach_fin-snd env c)
      ])
    ]

accept_next-snd : (env : Env) (bytes : List ℕ) (c : Conn) → (accept_next env bytes c).snd ≡ c.snd
unfolding accept_next schedule_ack
accept_next-snd env bytes c =
    let d = deliver c bytes in
    let next = record d { rcv = record d.rcv { ack_nr = add16 d.rcv.ack_nr 1 } } in
    reorder_loop-snd (size next.rcv.inbuf + 1) env next ∙ deliver-snd c bytes

keep_later-snd :
    (n past : ℕ) (bytes : List ℕ) (c : Conn) → (keep_later n past bytes c).1.snd ≡ c.snd
unfolding keep_later schedule_ack
keep_later-snd n past bytes c = ground arith

store_payload-snd :
    (env : Env) (n past : ℕ) (bytes : List ℕ) (c : Conn)
    → (store_payload env n past bytes c).1.snd ≡ c.snd
unfolding store_payload
store_payload-snd env n past bytes c = elim (Bool-cases (past == 0)) [
  | inl e ↦ rw e (accept_next-snd env bytes c)
  | inr e ↦ rw e (keep_later-snd n past bytes c)
]

pub accept_payload-snd :
    (env : Env) (f n past : ℕ) (bytes : List ℕ) (c : Conn)
    → (accept_payload env f n past bytes c).1.snd ≡ c.snd
unfolding accept_payload
accept_payload-snd env f n past bytes c =
    elim (Bool-cases (f == st_state || not (can_accept (mark_writable c).state))) [
      | inl e ↦ rw e (mark_writable-snd c)
      | inr e ↦ rw e (
          store_payload-snd env n past bytes (note_fin f n (mark_writable c))
          ∙ note_fin-snd f n (mark_writable c)
          ∙ mark_writable-snd c)
    ]
