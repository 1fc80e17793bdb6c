-- ===== src/Socket/Writev/Fuel.antt =====
-- The loop of a write ends.
use go_libutp.Prelude.{
  ℕ, zero, suc, ◌+◌, ◌-◌, ◌<◌, ◌≤◌, ◌≡◌, refl, inl, inr, false, some, List, ◌==◌, min, arith,
  Bool-cases,
}
use go_libutp.Packet.{st_data}
use go_libutp.Socket.{Env, Conn}
use go_libutp.Socket.Window.{is_full}
use go_libutp.Socket.Send.{write_outgoing_packet}
use go_libutp.Socket.Writev.{writev_loop}

-- A round that goes on has taken bytes.
taken :
    (bytes packet_size : ℕ)
    → (min (bytes - min bytes packet_size) packet_size == 0) ≡ false
    → bytes - min bytes packet_size < bytes
taken bytes packet_size e = ground arith

-- The loop takes no more bytes than there are, and ends by itself, not for want of fuel, within one round
-- more than there are bytes: more fuel changes nothing.
pub writev_loop-fuel :
    (env : Env) (packet_size f g bytes sent : ℕ) (iovec : List (List ℕ)) (c : Conn)
    → bytes < f
    → bytes < g
    → (writev_loop env packet_size f bytes sent iovec c
        ≡ writev_loop env packet_size g bytes sent iovec c)
      × ((writev_loop env packet_size f bytes sent iovec c).0 ≤ sent + bytes)
unfolding writev_loop
writev_loop-fuel env ps zero g bytes sent iovec c hf hg = absurd (omega arith)
writev_loop-fuel env ps (suc f) zero bytes sent iovec c hf hg = absurd (omega arith)
writev_loop-fuel env ps (suc f) (suc g) bytes sent iovec c hf hg =
    let num = min bytes ps in
    let (full, c1) = is_full c (some num) in
    let (rest, c2) = write_outgoing_packet env num st_data iovec c1 in
    elim (Bool-cases full) [
      | inl stop ↦ rw stop (refl, omega arith)
      | inr room ↦ elim (Bool-cases (min (bytes - num) ps == 0)) [
        | inl last ↦ rw (room, last) (refl, omega arith)
        | inr more ↦
            let less = taken bytes ps more in
            let (same, within) =
              writev_loop-fuel env ps f g (bytes - num) (sent + num) rest c2 (omega arith)
                (omega arith) in
            rw (room, more) (same, omega arith)
      ]
    ]
