-- ===== src/Socket/Queue/Moves.antt =====
-- What an operation on one packet of a tidy send queue does: sending it, acknowledging it, and dropping
-- an acknowledged packet from the window.
use go_libutp.Prelude.{
  ℕ, suc, ◌+◌, ◌-◌, ◌^◌, ◌<◌, ◌≤◌, ◌≡◌, ◌≢◌, inl, inr, refl, ap, ap₂, sym, ◌∙◌, subst, Option, none,
  some, ◌∷◌, ◌==◌, add16, sub16, add64, arith, Bool-cases, Option-cases,
}
use go_libutp.Seq.{and_mask}
use go_libutp.CircBuf.{get}
use go_libutp.CircBuf.Entries.{entries, entries-cons, entries_from-cong}
use go_libutp.Packet.{OutgoingPacket}
use go_libutp.Socket.{Env, Conn, SendQueue}
use go_libutp.Socket.Send.{send_packet, send_data, prepare_send, sent_packet}
use go_libutp.Socket.Ack.{ack_packet, ack_sent}
use go_libutp.Socket.Queue.{AllSmall, first_seq, slots, IsSound}
use go_libutp.Socket.Queue.View.{flight, outstanding_bytes-flight, cur_window-flight, get-cong16}
use go_libutp.Socket.Queue.Acked.{ack_sent-IsSound}
use go_libutp.Socket.Queue.Resent.{send_packet-IsSent, buffer_after, stored}
use go_libutp.Socket.Queue.Tidy.{IsTidy, IsTidy-put, IsTidy-cong, IsTidy-le, put-cell, get-cell}

-- The queue is tidy, and its window is where it was.
pub record Kept (k : ℕ) (q r : SendQueue) : Type 0 where
  pub tidy : IsTidy k r
  pub seq_kept : r.seq_nr ≡ q.seq_nr
  pub packets_kept : r.cur_window_packets ≡ q.cur_window_packets

-- A packet is named by its cell.
send_packet-index :
    (env : Env) (i j : ℕ) (pkt : OutgoingPacket) (c : Conn)
    → and_mask i c.snd.outbuf.mask ≡ and_mask j c.snd.outbuf.mask
    → send_packet env i pkt c ≡ send_packet env j pkt c
unfolding send_packet send_data prepare_send sent_packet
send_packet-index env i j pkt c e =
    ap (λ b. let c2 = send_packet env i pkt c in record c2 { snd = record c2.snd { outbuf = b } })
      (put-cell c.snd.outbuf i j (some (stored env c pkt)) e)

-- Sending any packet of a tidy queue keeps it tidy, with one transmission more.
pub send_packet-Kept :
    (env : Env) (k i : ℕ) (pkt : OutgoingPacket) (c : Conn)
    → IsTidy k c.snd
    → get c.snd.outbuf i ≡ some pkt
    → k + 1 < 2 ^ 31
    → Kept (k + 1) c.snd (send_packet env i pkt c).snd
send_packet-Kept env k i pkt c t e few =
    let (p, le, cell) = t.placed i pkt e in
    let j = add16 (first_seq c.snd) p in
    let here : get c.snd.outbuf j ≡ some pkt = sym (get-cell c.snd.outbuf i j cell) ∙ e in
    let once : pkt.transmissions + 1 < 2 ^ 31 = omega (arith, t.sent i pkt e) in
    let done = send_packet-IsSent env j p pkt c t.sound le refl here once in
    let shorter : Kept (k + 1) c.snd (send_packet env j pkt c).snd = record {
      tidy =
          IsTidy-put k (k + 1) c.snd (send_packet env j pkt c).snd p (some (stored env c pkt)) t
            done.sound le (buffer_after env j p pkt c t.sound le refl here once) done.seq_kept
            done.packets_kept (omega arith) (omega (arith, t.sent i pkt e));
      seq_kept = done.seq_kept;
      packets_kept = done.packets_kept;
    } in
    subst (λ c'. Kept (k + 1) c.snd c'.snd) (sym (send_packet-index env i j pkt c cell)) shorter

ack_sent-index :
    (env : Env) (i j : ℕ) (pkt : OutgoingPacket) (c : Conn)
    → and_mask i c.snd.outbuf.mask ≡ and_mask j c.snd.outbuf.mask
    → ack_sent env i pkt c ≡ ack_sent env j pkt c
unfolding ack_sent
ack_sent-index env i j pkt c e =
    ap (λ b. let c2 = ack_sent env i pkt c in record c2 { snd = record c2.snd { outbuf = b } })
      (put-cell c.snd.outbuf i j none e)

ack_sent-Kept :
    (env : Env) (k i : ℕ) (pkt : OutgoingPacket) (c : Conn)
    → IsTidy k c.snd
    → get c.snd.outbuf i ≡ some pkt
    → pkt.transmissions ≢ 0
    → Kept k c.snd (ack_sent env i pkt c).snd
unfolding ack_sent
ack_sent-Kept env k i pkt c t e sent =
    let (p, le, cell) = t.placed i pkt e in
    let j = add16 (first_seq c.snd) p in
    let here : get c.snd.outbuf j ≡ some pkt = sym (get-cell c.snd.outbuf i j cell) ∙ e in
    let done = ack_sent-IsSound env p pkt c t.sound le here sent in
    let shorter : Kept k c.snd (ack_sent env j pkt c).snd = record {
      tidy =
          IsTidy-put k k c.snd (ack_sent env j pkt c).snd p none t done.0 le refl refl refl
            (omega arith) (omega arith);
      seq_kept = refl;
      packets_kept = refl;
    } in
    subst (λ c'. Kept k c.snd c'.snd) (sym (ack_sent-index env i j pkt c cell)) shorter

-- Acknowledging any number keeps the queue tidy, whether a packet stands there or not.
pub ack_packet-Kept :
    (env : Env) (k i : ℕ) (c : Conn) → IsTidy k c.snd → Kept k c.snd (ack_packet env i c).1.snd
unfolding ack_packet
ack_packet-Kept env k i c t = elim (Option-cases (get c.snd.outbuf i)) [
  | inl e ↦ rw (ack_packet, e) same
  | inr (pkt, e) ↦ elim (Bool-cases (pkt.transmissions == 0)) [
    | inl z ↦ rw (ack_packet, e, z) same
    | inr nz ↦
        let sent : pkt.transmissions ≢ 0 = ground arith in
        rw (ack_packet, e, nz) (ack_sent-Kept env k i pkt c t e sent)
  ]
]
  where
    same : Kept k c.snd c.snd
    same = record { tidy = t; seq_kept = refl; packets_kept = refl }

-- The window without its oldest packet.
abbrev pub popped : SendQueue → SendQueue
popped q = record q { cur_window_packets = sub16 q.cur_window_packets 1 }

-- The slots of a window of at least one packet.
slots-split :
    (q : SendQueue)
    → IsSound q
    → 0 < q.cur_window_packets
    → slots q ≡ get q.outbuf (first_seq q) ∷ slots (popped q)
slots-split q s h =
    let n = sub16 q.cur_window_packets 1 in
    let one_more : q.cur_window_packets ≡ suc n = omega (arith, s.packets) in
    ap (entries q.outbuf (first_seq q)) one_more
    ∙ entries-cons q.outbuf (first_seq q) n
    ∙ ap₂ ◌∷◌ (get-cong16 q.outbuf (add64 (first_seq q) 0) (first_seq q) s.buffer (omega arith)) (
        entries_from-cong q.outbuf q.outbuf (add64 (first_seq q) 1) (first_seq (popped q)) 0 n
          (λ j lo hi.
            get-cong16 q.outbuf (add64 (add64 (first_seq q) 1) j) (add64 (first_seq (popped q)) j)
              s.buffer (omega (arith, s.packets, s.seq_word))))

-- A tidy window may drop its oldest slot when that is empty.
pub popped-IsTidy :
    (k : ℕ) (q : SendQueue)
    → IsTidy k q
    → 0 < q.cur_window_packets
    → get q.outbuf (first_seq q) ≡ none
    → IsTidy k (popped q)
popped-IsTidy k q t h e =
    let s = t.sound in
    let split : slots q ≡ none ∷ slots (popped q) =
      slots-split q s h ∙ ap (λ x. x ∷ slots (popped q)) e in
    record {
      sound = record {
        buffer = s.buffer;
        room = omega (arith, s.room, s.packets);
        packets = omega (arith, s.packets);
        seq_word = s.seq_word;
        in_flight = omega (
          arith,
          cur_window-flight q s,
          ap flight split,
          outstanding_bytes-flight (popped q) s.buffer s.seq_word (omega (arith, s.packets)),
        );
        small = (subst AllSmall split s.small).1;
      };
      placed = λ i pkt g.
          let (p, le, cell) = t.placed i pkt g in
          elim (Bool-cases (p == 0)) [
            | inl z ↦
                let first : p ≡ 0 = ground arith in
                let oldest : add16 (first_seq q) p ≡ first_seq q = omega arith in
                absurd (
                  omega (
                    arith,
                    ap weight_one (
                        sym e
                        ∙ sym (
                            get-cell q.outbuf i (first_seq q)
                              (cell ∙ ap (λ x. and_mask x q.outbuf.mask) oldest))
                        ∙ g),
                  ))
            | inr nz ↦
                let later : p ≢ 0 = ground arith in
                let moved : add16 (first_seq q) p ≡ add16 (first_seq (popped q)) (p - 1) =
                  omega (arith, s.packets, s.seq_word) in
                (p - 1, omega (arith, s.packets), cell ∙ ap (λ x. and_mask x q.outbuf.mask) moved)
          ];
      sent = t.sent;
    }
  where
    weight_one : Option OutgoingPacket → ℕ
    weight_one none = 0
    weight_one (some pkt) = 1

pub Kept-trans : (k l : ℕ) (q r s : SendQueue) → Kept k q r → Kept l r s → Kept l q s
Kept-trans k l q r s a b = record {
  tidy = b.tidy;
  seq_kept = b.seq_kept ∙ a.seq_kept;
  packets_kept = b.packets_kept ∙ a.packets_kept;
}

-- A change of other fields.
pub Kept-same :
    (k : ℕ) (q r : SendQueue)
    → IsTidy k q
    → r.outbuf ≡ q.outbuf
    → r.seq_nr ≡ q.seq_nr
    → r.cur_window_packets ≡ q.cur_window_packets
    → r.cur_window ≡ q.cur_window
    → Kept k q r
Kept-same k q r t b e n w = record {
  tidy = IsTidy-cong k q r t b e n w;
  seq_kept = e;
  packets_kept = n;
}

pub Kept-le : (k l : ℕ) (q r : SendQueue) → Kept k q r → k ≤ l → Kept l q r
Kept-le k l q r a h = record {
  tidy = IsTidy-le k l r a.tidy h;
  seq_kept = a.seq_kept;
  packets_kept = a.packets_kept;
}
