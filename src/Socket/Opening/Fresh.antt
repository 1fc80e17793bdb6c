-- ===== src/Socket/Opening/Fresh.antt =====
-- The invariants hold of a socket that has just connected.
use go_libutp.Prelude.{
  ℕ, suc, ◌^◌, ◌<◌, ◌≡◌, inl, inr, refl, ap, sym, ◌∙◌, subst, Bool, true, false, Option, none, some,
  List, ◌%◌, if◌then◌else◌, [], ◌∷◌, add16, add32, add64, arith, get_or-replicate,
}
use go_libutp.Seq.{and_mask}
use go_libutp.CircBuf.{create, ensure_size, get, put}
use go_libutp.CircBuf.Window.{create-IsValid, put-IsValid, get-put_self}
use go_libutp.Packet.{OutgoingPacket, packet_type, version, set_type, set_version, st_syn}
use go_libutp.Mtu.{header_size}
use go_libutp.Socket.{Env, Conn, SendQueue, Event, sendto, syn_sent}
use go_libutp.Socket.Send.{
  send_packet, send_data, prepare_send, sent_packet, send_bandwidth, probing, udp_dontfrag,
}
use go_libutp.Socket.Delay.Bounds.{IsBounded}
use go_libutp.Socket.Queue.{weight, AllSmall, first_seq, slots}
use go_libutp.Socket.Queue.View.{flight, outstanding_bytes-flight, get-cong16}
use go_libutp.Socket.Queue.Tidy.{IsTidy, get-put_cases}
use go_libutp.Socket.Queue.Moves.{send_packet-Kept}
use go_libutp.Socket.Opening.{
  Options, utp_create_socket, initialize, initialize_seeded, syn_packet, start_syn, queue_syn,
  send_syn, utp_connect,
}

get-create : (i : ℕ) → get (create {A = OutgoingPacket}) i ≡ none
unfolding get create
get-create i = get_or-replicate 16 none (and_mask i 15)

-- A queue with a single packet, not sent yet.
abbrev single : SendQueue → ℕ → OutgoingPacket → SendQueue
single q s pkt = record q {
  outbuf = put create s (some pkt);
  seq_nr = add16 s 1;
  cur_window_packets = 1;
  cur_window = 0;
}

-- One more than the transmissions of a packet.
abbrev sent_times : Option OutgoingPacket → ℕ
sent_times none = 0
sent_times (some pkt) = suc pkt.transmissions

weight_unsent : (pkt : OutgoingPacket) → pkt.transmissions ≡ 0 → weight (some pkt) ≡ 0
weight_unsent pkt e = ground arith

single-IsTidy :
    (q : SendQueue) (s : ℕ) (pkt : OutgoingPacket)
    → s < 2 ^ 16
    → pkt.transmissions ≡ 0
    → pkt.payload ≡ 0
    → IsTidy 0 (single q s pkt)
unfolding put create
single-IsTidy q s pkt word unsent empty =
    let r = single q s pkt in
    let valid = put-IsValid create s (some pkt) create-IsValid in
    let first : first_seq r ≡ s = omega arith in
    let slot : get r.outbuf (add64 (first_seq r) 0) ≡ some pkt =
      get-cong16 r.outbuf (add64 (first_seq r) 0) s valid (omega arith)
      ∙ get-put_self create s (some pkt) create-IsValid in
    let all : slots r ≡ some pkt ∷ [] = ap (λ x. x ∷ []) slot in
    record {
      sound = record {
        buffer = valid;
        room = omega arith;
        packets = omega arith;
        seq_word = omega arith;
        in_flight = omega (
          arith,
          outstanding_bytes-flight r valid (omega arith) (omega arith),
          ap flight all,
          weight_unsent pkt unsent,
        );
        small = subst AllSmall (sym all) (omega arith, tt);
      };
      placed = λ i p e. elim (get-put_cases create s i (some pkt) (some p) create-IsValid e) [
        | inl (same, cell) ↦ (
          0,
          omega arith,
          sym cell ∙ ap (λ x. and_mask x 15) {x = s} {y = add16 (first_seq r) 0} (omega arith),
        )
        | inr (other, ne) ↦ absurd (omega (arith, ap sent_times (sym (get-create i) ∙ other)))
      ];
      sent = λ i p e. elim (get-put_cases create s i (some pkt) (some p) create-IsValid e) [
        | inl (same, cell) ↦ omega (arith, ap sent_times same, unsent)
        | inr (other, ne) ↦ absurd (omega (arith, ap sent_times (sym (get-create i) ∙ other)))
      ];
    }

-- A packet that is a SYN of the connection with the number `number`: of version 1 and with the receive
-- identifier, which the send identifier follows.
pub record IsSyn (c : Conn) (number : ℕ) (pkt : OutgoingPacket) : Type 0 where
  pub type : (packet_type pkt.header ≡ st_syn) × (version pkt.header ≡ 1) × (pkt.header.ext ≡ 0)
  pub names : pkt.header.connid ≡ c.ids.conn_id_recv % 2 ^ 16
  pub send_id : c.ids.conn_id_send ≡ add32 1 c.ids.conn_id_recv
  pub numbered : pkt.header.seq_nr ≡ number
  pub empty : (pkt.bytes ≡ []) × (pkt.payload ≡ 0) × (pkt.length ≡ header_size)
  pub once : (pkt.transmissions ≡ 1) × (pkt.need_resend ≡ false)

-- A connection that has sent its SYN and nothing else: the SYN stands in the send queue, under the
-- number before the next one, and went out as the newest event.
pub record Opened (c : Conn) : Type 0 where
  pub number : ℕ
  pub syn : OutgoingPacket
  pub is_syn : IsSyn c number syn
  pub next : c.snd.seq_nr ≡ add16 number 1
  pub queued : get c.snd.outbuf number ≡ some syn
  pub flags : ℕ
  pub others : List Event
  pub on_wire : c.ctx.events ≡ sendto syn.header [] header_size flags ∷ others
  pub waiting : c.state ≡ syn_sent
  pub tidy : IsTidy 1 c.snd
  pub syn_only : c.snd.cur_window_packets ≡ 1
  pub drift : IsBounded c.drift
  pub slow : c.cwnd.slow_start ≡ true

send_packet-frame :
    (env : Env) (i : ℕ) (pkt : OutgoingPacket) (c : Conn)
    → ((send_packet env i pkt c).state ≡ c.state)
      × ((send_packet env i pkt c).drift ≡ c.drift)
      × ((send_packet env i pkt c).cwnd ≡ c.cwnd)
unfolding send_packet send_data prepare_send sent_packet
send_packet-frame env i pkt c = (ground arith, ground arith, ground arith)

-- The send queue of a socket that was just created.
abbrev fresh_queue : SendQueue
fresh_queue = record {
  outbuf = create;
  seq_nr = 1;
  cur_window_packets = 0;
  cur_window = 0;
  duplicate_ack = 0;
  fast_resend_seq_nr = 1;
  timeout_seq_nr = 0;
  fast_timeout = false;
  retransmit_count = 0;
}

-- The packet as it stands in its slot when it was sent.
sent_syn : Env → Conn → OutgoingPacket → OutgoingPacket
sent_syn env c pkt =
    let out =
      send_data env (prepare_send env c pkt) (sent_packet env c pkt).header pkt.bytes pkt.length
        (send_bandwidth c.state (sent_packet env c pkt).transmissions)
        (if probing env c pkt then udp_dontfrag else 0) in
    record (sent_packet env c pkt) { header = out.0 }

sent_syn-queued :
    (env : Env) (i : ℕ) (pkt : OutgoingPacket) (c : Conn)
    → (send_packet env i pkt c).snd.outbuf ≡ put c.snd.outbuf i (some (sent_syn env c pkt))
unfolding send_packet send_data prepare_send sent_packet sent_syn
sent_syn-queued env i pkt c = refl

send_syn-Opened :
    (env : Env) (memory : OutgoingPacket) (c : Conn)
    → c.snd ≡ fresh_queue
    → IsBounded c.drift
    → c.cwnd.slow_start ≡ true
    → c.ids.conn_id_send ≡ add32 1 c.ids.conn_id_recv
    → Opened (send_syn env memory c)
unfolding send_syn start_syn queue_syn syn_packet ensure_size create send_packet send_data
    prepare_send sent_packet sent_syn packet_type version set_type set_version
send_syn-Opened env memory c fresh bounded slow follows =
    let started = start_syn env c in
    let number = started.snd.seq_nr in
    let pkt = syn_packet started memory in
    let queued = queue_syn pkt started in
    let frame = send_packet-frame env number pkt queued in
    let build : SendQueue → SendQueue = λ q. record q {
      outbuf = put (ensure_size q.outbuf number q.cur_window_packets) number (some pkt);
      seq_nr = add16 number 1;
      cur_window_packets = add16 q.cur_window_packets 1;
    } in
    let queue : queued.snd ≡ single fresh_queue number pkt = ap build fresh in
    let tidy : IsTidy 0 queued.snd =
      subst (IsTidy 0) (sym queue) (single-IsTidy fresh_queue number pkt (omega arith) refl refl) in
    let sent =
      send_packet-Kept env 0 number pkt queued tidy
        (ap (λ (q : SendQueue). get q.outbuf number) queue
          ∙ get-put_self create number (some pkt) create-IsValid)
        (omega arith) in
    record {
      number = number;
      syn = sent_syn env queued pkt;
      is_syn = record {
        type = (refl, refl, refl);
        names = refl;
        send_id = follows;
        numbered = refl;
        empty = (refl, refl, refl);
        once = (refl, refl);
      };
      next = refl;
      queued =
          ap (λ (q : SendQueue). get (put q.outbuf number (some (sent_syn env queued pkt))) number)
            queue
          ∙ get-put_self (put create number (some pkt)) number (some (sent_syn env queued pkt))
              (put-IsValid create number (some pkt) create-IsValid);
      flags = _;
      others = _;
      on_wire = refl;
      waiting = frame.0;
      tidy = sent.tidy;
      syn_only = sent.packets_kept ∙ ap (λ (q : SendQueue). q.cur_window_packets) queue;
      drift = subst IsBounded (sym frame.1) bounded;
      slow = ap (λ w. w.slow_start) frame.2 ∙ slow;
    }

-- A new socket, in whatever memory and with whatever options, clocks and random numbers, connects: its
-- SYN, of version 1 and with its receive identifier, is the newest datagram that was sent and stands
-- alone in the send queue, sent once; the socket waits for an answer, in slow start, and the
-- invariants of the send queue and of the delay averages hold of it.
pub utp_connect-Opened :
    (env : Env) (taken : ℕ → Bool) (fuel : ℕ) (memory : OutgoingPacket) (o : Options) (raw : Conn)
    → let opened = utp_connect env taken fuel memory (utp_create_socket o raw) in
      (opened.0 ≡ true) × Opened opened.1
unfolding utp_connect initialize_seeded initialize utp_create_socket
utp_connect-Opened env taken fuel memory o raw = (
  refl,
  send_syn-Opened env memory (initialize_seeded env taken fuel (utp_create_socket o raw)) refl
      (record { average = omega arith; drift = omega arith; sum = omega arith }) refl refl,
)
