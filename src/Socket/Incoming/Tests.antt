-- ===== src/Socket/Incoming/Tests.antt =====
-- Runs and witnesses of a whole incoming packet.
use go_libutp.Prelude.{
  Bool, ℕ, zero, suc, ◌-◌, ◌/◌, ◌^◌, ◌<◌, ◌≤◌, ◌≡◌, ◌⊎◌, inl, inr, refl, ap, true, false, not, ◌||◌,
  Option, none, some, List, [], ◌∷◌, ◌++◌, replicate, get_or, max, arith,
}
use go_libutp.Prelude.Int.{ℤ, pos, pos_part, ◌+ℤ◌, ◌*ℤ◌, ltb_ℤ, div_ℤ, int32}
use go_libutp.Seq.{and_mask, wrapping_compare_less}
use go_libutp.CircBuf.{get, put}
use go_libutp.Packet.{Header, OutgoingPacket, packet_type, zero_header}
use go_libutp.Socket.{Conn, syn_sent, connected}
use go_libutp.Socket.Window.{min_window_size}
use go_libutp.Socket.Ccontrol.{Double, apply_ccontrol}
use go_libutp.Socket.Ccontrol.Bounds.{apply_ccontrol-bounds}
use go_libutp.Socket.Delay.{reported_delay, add_average, average_delays}
use go_libutp.Socket.Delay.Bounds.{IsBounded, magnitude, slot_average, average_delays-IsBounded}
use go_libutp.Socket.Extension.{unpack, payload}
use go_libutp.Socket.Extension.Chain.{
  Extensions, Inside, write_chain, unpack-write_chain, unpack-Inside,
}
use go_libutp.Socket.Send.{send_packet, send_data, prepare_send}
use go_libutp.Socket.Ack.{selective_ack, selective_ack_bytes}
use go_libutp.Socket.Arrival.{packets_past, accept_payload}
use go_libutp.Socket.Incoming.{utp_process_incoming, has_bad_ack}
use go_libutp.Socket.Incoming.Settled.{utp_process_incoming-IsTidy}
use go_libutp.Socket.Queue.Tidy.{IsTidy}
use go_libutp.Socket.Incoming.Handshake.{utp_process_incoming-connected}
use go_libutp.Socket.Opening.{utp_connect, utp_create_socket, Options}
use go_libutp.Socket.Opening.Fresh.{Opened, utp_connect-Opened}
use go_libutp.Socket.Tests.{packet, queue, conn, env, queue-IsSound}

-- Fixed point, in thousandths.
abbrev pub thousandths : Double
thousandths = record {
  Carrier = ℤ;
  of_int = λ a. a *ℤ pos 1000;
  nine_tenths = pos 900;
  plus = λ a b. a +ℤ b;
  times = λ a b. div_ℤ (a *ℤ b) 1000;
  over = λ a b. div_ℤ (a *ℤ pos 1000) (pos_part b);
  less = λ a b. ltb_ℤ a b;
  to_size = λ a. pos_part a / 1000;
}

-- The first cell of a list of empty ones and a last one that is full.
last_cell :
    (n r : ℕ) (x y : OutgoingPacket)
    → get_or (replicate n none ++ some x ∷ []) r none ≡ some y
    → (r ≡ n) × (x ≡ y)
last_cell zero zero x y e = (refl, cc e)
last_cell zero (suc r) x y e = absurd (omega (arith, ap weight e))
  where
    weight : Option OutgoingPacket → ℕ
    weight none = 0
    weight (some p) = 1
last_cell (suc n) zero x y e = absurd (omega (arith, ap weight e))
  where
    weight : Option OutgoingPacket → ℕ
    weight none = 0
    weight (some p) = 1
last_cell (suc n) (suc r) x y e = let (same, found) = last_cell n r x y e in (ap suc same, found)

-- Packet 0 is in cell 0 and packet 65535 in cell 15.
two_cells :
    (r : ℕ) (pkt : OutgoingPacket)
    → get_or queue.outbuf.elements r none ≡ some pkt
    → ((r ≡ 0) × (packet 3 0 ≡ pkt)) ⊎ ((r ≡ 15) × (packet 5 1 ≡ pkt))
two_cells zero pkt e = inl (refl, cc e)
two_cells (suc r) pkt e =
    let (same, found) = last_cell 14 r (packet 5 1) pkt e in inr (ap suc same, found)

queue-IsTidy : IsTidy 1 queue
unfolding get
queue-IsTidy = record {
  sound = queue-IsSound;
  placed = λ i pkt e. elim (two_cells (and_mask i 15) pkt e) [
    | inl (first, same) ↦ (1, omega arith, first)
    | inr (last, same) ↦ (0, omega arith, last)
  ];
  sent = λ i pkt e. elim (two_cells (and_mask i 15) pkt e) [
    | inl (first, same) ↦ omega (arith, ap (λ (p : OutgoingPacket). p.transmissions) same)
    | inr (last, same) ↦ omega (arith, ap (λ (p : OutgoingPacket). p.transmissions) same)
  ];
}

-- A state packet that acknowledges packet 65535 and has a selective acknowledgment.
abbrev acknowledgment : Header
acknowledgment = record zero_header {
  ver_type = 33;
  ext = 1;
  windowsize = 3000;
  reply_micro = 5000;
  seq_nr = 78;
  ack_nr = 65535;
}

abbrev selack_bytes : List ℕ
selack_bytes = 0 ∷ 4 ∷ 0 ∷ 0 ∷ 0 ∷ 0 ∷ []

abbrev after_ack : Conn
after_ack = (utp_process_incoming thousandths env acknowledgment selack_bytes false conn).1

-- Packet 65535 leaves the window, and packet 0, alone now, is sent.
acknowledged_and_sent : (after_ack.snd.cur_window_packets ≡ 1) × (after_ack.snd.cur_window ≡ 3)
unfolding utp_process_incoming packet_type wrapping_compare_less unpack packets_past accept_payload
    selective_ack get put send_packet send_data prepare_send reported_delay selective_ack_bytes
    apply_ccontrol
acknowledged_and_sent = (refl, refl)

utp_process_incoming-IsTidy_example : IsTidy 7 after_ack.snd
utp_process_incoming-IsTidy_example =
    utp_process_incoming-IsTidy thousandths env 1 acknowledgment selack_bytes false conn
      queue-IsTidy (omega arith)

average_delays-IsBounded_example :
    IsBounded (average_delays conn.drift 5000 9500)
    × (magnitude (slot_average (add_average conn.drift 5000)) < 2 ^ 31 - 1)
    × (int32 (slot_average (add_average conn.drift 5000))
        ≡ slot_average (add_average conn.drift 5000))
average_delays-IsBounded_example =
    average_delays-IsBounded conn.drift 5000 9500
      (record { average = omega arith; drift = omega arith; sum = omega arith })

apply_ccontrol-bounds_example :
    (min_window_size ≤ (apply_ccontrol thousandths conn 5 90000).cwnd.max_window)
    × ((apply_ccontrol thousandths conn 5 90000).cwnd.max_window ≤ max min_window_size 4000)
    × ((true || not (apply_ccontrol thousandths conn 5 90000).cwnd.slow_start) ≡ true)
apply_ccontrol-bounds_example = apply_ccontrol-bounds thousandths conn 5 90000

-- Extension bits and a selective acknowledgment.
abbrev chain : Extensions
chain = (2, replicate 8 1) ∷ (1, replicate 4 255) ∷ []

unpack-write_chain_example :
    unpack 2 (write_chain chain (7 ∷ 8 ∷ []))
    ≡ payload
        (record {
          selack = some (record { len = 4; mask = replicate 4 255 ++ 7 ∷ 8 ∷ [] });
          extensions = some (replicate 8 1);
        })
        (7 ∷ 8 ∷ [])
unpack-write_chain_example =
    unpack-write_chain chain (7 ∷ 8 ∷ []) (omega arith, refl, (omega arith, refl, tt))

-- The second extension claims more bytes than there are.
unpack-Inside_example :
    Inside (1 ∷ 1 ∷ 255 ∷ 0 ∷ 9 ∷ 7 ∷ []) (unpack 2 (1 ∷ 1 ∷ 255 ∷ 0 ∷ 9 ∷ 7 ∷ []))
unpack-Inside_example = unpack-Inside 2 (1 ∷ 1 ∷ 255 ∷ 0 ∷ 9 ∷ 7 ∷ [])

abbrev options : Options
options = record { target_delay = 100000; opt_sndbuf = 1048576; opt_rcvbuf = 1048576 }

-- The seed 4 is free.
abbrev connecting : Bool × Conn
connecting = utp_connect env (λ s. false) 1 (packet 9 9) (utp_create_socket options conn)

utp_connect-Opened_example : (connecting.0 ≡ true) × Opened connecting.1
utp_connect-Opened_example = utp_connect-Opened env (λ s. false) 1 (packet 9 9) options conn

-- The answer to a SYN, which acknowledges packet 0, the last one in the queue.
abbrev answer : Header
answer = record zero_header { ver_type = 0x21; seq_nr = 500; ack_nr = 0 }

abbrev waiting : Conn
waiting = record conn { state = syn_sent }

utp_process_incoming-connected_example :
    (utp_process_incoming thousandths env answer [] false waiting).1.state ≡ connected
unfolding packet_type has_bad_ack wrapping_compare_less
utp_process_incoming-connected_example =
    utp_process_incoming-connected thousandths env answer [] waiting refl refl refl refl
