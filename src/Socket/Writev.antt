-- ===== src/Socket/Writev.antt =====
-- utp_internal.cpp: `utp_writev`. The buffers are the list of their bytes, and -1 is `none`.
pub mod Fuel
use go_libutp.Prelude.{
  ℕ, zero, suc, ◌+◌, ◌-◌, ◌<◌, ◌≤◌, ◌≡◌, refl, ap, sym, ◌∙◌, inl, inr, Bool, true, false, ◌||◌, not,
  Option, none, some, List, [], ◌∷◌, ◌==◌, min, if◌then◌else◌, take, length, arith, Bool-cases,
  if_both,
}
use go_libutp.Mtu.{get_packet_size}
use go_libutp.Packet.{st_data}
use go_libutp.Socket.{Env, Conn, is_state, connected, connected_full}
use go_libutp.Socket.Window.{is_full}
use go_libutp.Socket.Send.{write_outgoing_packet}

abbrev pub utp_iov_max : ℕ
utp_iov_max = 1024

abbrev pub total_length : List (List ℕ) → ℕ
total_length [] = 0
total_length (v ∷ vs) = length v + total_length vs

-- A window without room for another packet marks the socket as not writable.
unfoldable pub mark_full : Conn → Conn
mark_full c =
    let (full, c1) = is_full c none in if full then record c1 { state = connected_full } else c1

-- The loop, on fuel: `bytes` are left and `sent` were taken. Every round but the last takes bytes, so
-- one more round than there are bytes is enough.
unfoldable pub writev_loop : Env → ℕ → ℕ → ℕ → ℕ → List (List ℕ) → Conn → ℕ × Conn
unfolding mark_full
writev_loop env packet_size zero bytes sent iovec c = (sent, c)
writev_loop env packet_size (suc fuel) bytes sent iovec c =
    let num = min bytes packet_size in
    let (full, c1) = is_full c (some num) in
    let (rest, c2) = write_outgoing_packet env num st_data iovec c1 in
    let more = writev_loop env packet_size fuel (bytes - num) (sent + num) rest c2 in
    if full
    then (sent, mark_full c1)
    else (if min (bytes - num) packet_size == 0 then (sent + num, c2) else more)

unfoldable pub utp_writev : Env → List (List ℕ) → Conn → Option ℕ × Conn
unfolding writev_loop
utp_writev env [] c = (none, c)
utp_writev env (v ∷ vs) c =
    let iovec = take utp_iov_max (v ∷ vs) in
    let bytes = total_length iovec in
    let c1 = record c {
      ctx = record c.ctx { current_ms = env.get_milliseconds c.ctx.calls; calls = suc c.ctx.calls };
    } in
    let (sent, c2) = writev_loop env (get_packet_size c.mtu) (suc bytes) bytes 0 iovec c1 in
    if not (is_state c.state connected) || c.fin_sent then (some 0, c) else (some sent, c2)
