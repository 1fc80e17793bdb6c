-- ===== src/Socket/Written.antt =====
-- The loop of `write_outgoing_packet`: how often it runs.
use native.Mathlib.Decide.{dec_lt}
use go_libutp.Prelude.{
  ℕ, ◌+◌, ◌-◌, ◌≤◌, ◌≡◌, inl, inr, ◌⊎◌, refl, none, some, List, ◌==◌, ==_iff, min, max, sub64,
  arith, Bool-cases, Option-cases,
}
use go_libutp.CircBuf.{get}
use go_libutp.CircBuf.Window
use go_libutp.Packet.{OutgoingPacket}
use go_libutp.Socket.{Env, Conn}
use go_libutp.Socket.Send.{open_packet, fill_packet, advertise, write_packet, write_loop, gather}

module _ (env : Env) (packet_size flags : ℕ) where
  -- Without a packet to fill, everything goes into a new one.
  write_packet-new :
      (payload : ℕ) (iovec : List (List ℕ)) (c : Conn)
      → open_packet c payload packet_size ≡ none
      → (write_packet env packet_size flags payload iovec c).0 ≡ 0
  unfolding write_packet
  write_packet-new payload iovec c e = rw (write_packet, e) refl

  -- The packet that a full one was made of takes no more.
  full_packet :
      (c : Conn) (pkt : OutgoingPacket) (payload : ℕ)
      → get c.snd.outbuf (sub64 c.snd.seq_nr 1) ≡ some pkt
      → packet_size ≤ pkt.payload
      → open_packet c payload packet_size ≡ none
  unfolding open_packet
  full_packet c pkt payload e full = ground (arith, e)

  open_packet-slot :
      (c : Conn) (payload : ℕ) (pkt : OutgoingPacket)
      → open_packet c payload packet_size ≡ some pkt
      → get c.snd.outbuf (sub64 c.snd.seq_nr 1) ≡ some pkt
  unfolding open_packet
  open_packet-slot c payload pkt e = ground (arith, e)

  -- One round either takes everything or leaves no packet that has room.
  write_packet_outcome :
      (payload : ℕ) (iovec : List (List ℕ)) (c : Conn)
      → Window.IsValid c.snd.outbuf
      → let written = write_packet env packet_size flags payload iovec c in
        (written.0 ≡ 0) ⊎ ((left : ℕ) → open_packet written.2 left packet_size ≡ none)
  unfolding write_packet fill_packet advertise
  write_packet_outcome payload iovec c v = elim (Option-cases (open_packet c payload packet_size)) [
    | inl e ↦ inl (write_packet-new payload iovec c e)
    | inr (pkt, e) ↦ elim (dec_lt packet_size (payload + pkt.payload)) [
      | no fits ↦ rw (write_packet, e) (inl (omega arith))
      | yes over ↦
          let c1 = advertise env c in
          let added = min (payload + pkt.payload) (max packet_size pkt.payload) - pkt.payload in
          let filled = fill_packet c1 flags c1.rcv.last_rcv_win added (gather added iovec).0 pkt in
          inr (λ left.
            full_packet (write_packet env packet_size flags payload iovec c).2 filled left
              (rw (write_packet, e)
                (Window.get-put_self c.snd.outbuf (sub64 c.snd.seq_nr 1) (some filled) v))
              (omega arith))
    ]
  ]

  -- The loop, given fuel for two rounds, ends with nothing left to write: the first round may fill the
  -- last packet of the queue, and the second puts the rest into a new one.
  pub write_loop_lem :
      (payload : ℕ) (iovec : List (List ℕ)) (c : Conn)
      → Window.IsValid c.snd.outbuf
      → (write_loop env packet_size flags 2 payload iovec c).0 ≡ 0
  unfolding write_loop
  write_loop_lem payload iovec c v =
      let first = write_packet env packet_size flags payload iovec c in
      elim (Bool-cases (first.0 == 0)) [
        | inl done ↦ rw done ((==_iff first.0 0).0 done)
        | inr left ↦ elim (write_packet_outcome payload iovec c v) [
          | inl none_left ↦ rw ((==_iff first.0 0).1 none_left) none_left
          | inr closed ↦
              let last = write_packet-new first.0 first.1 first.2 (closed first.0) in
              rw (left, (==_iff _ 0).1 last) last
        ]
      ]
