-- ===== src/Socket/Incoming/Acked.antt =====
-- The loops of a cumulative acknowledgment on a tidy send queue.
use go_libutp.Prelude.{
  ℕ, zero, suc, ◌<◌, ◌≤◌, ◌≡◌, inl, inr, refl, ap, ◌∙◌, Bool, true, false, ◌||◌, Option, none, some,
  ◌==◌, sub64, arith, Bool-cases, Option-cases, is_some,
}
use go_libutp.CircBuf.{get}
use go_libutp.CircBuf.Window.{get-put_self}
use go_libutp.Socket.{Env, Conn, SendQueue}
use go_libutp.Socket.Ack.{ack_packet, ack_sent}
use go_libutp.Socket.Incoming.{ack_loop, skip_loop, pop_oldest}
use go_libutp.Socket.Queue.{first_seq}
use go_libutp.Socket.Queue.View.{get-cong16}
use go_libutp.Socket.Queue.Tidy.{IsTidy}
use go_libutp.Socket.Queue.Moves.{popped-IsTidy, ack_packet-Kept}

-- The queue is tidy, and its window ends where it did and has at most as many packets.
pub record Shrunk (k : ℕ) (q r : SendQueue) : Type 0 where
  pub tidy : IsTidy k r
  pub seq_kept : r.seq_nr ≡ q.seq_nr
  pub packets_le : r.cur_window_packets ≤ q.cur_window_packets

-- A packet that was sent leaves its slot when it is acknowledged; one that was not stays.
acked_slot :
    (env : Env) (i k : ℕ) (c : Conn)
    → IsTidy k c.snd
    → ((ack_packet env i c).0 == 2) ≡ false
    → get (ack_packet env i c).1.snd.outbuf i ≡ none
unfolding ack_packet ack_sent
acked_slot env i k c t e = elim (Option-cases (get c.snd.outbuf i)) [
  | inl g ↦ rw (ack_packet, g) g
  | inr (pkt, g) ↦ elim (Bool-cases (pkt.transmissions == 0)) [
    | inl z ↦ cc (rw (ack_packet, g, z) at e)
    | inr nz ↦ rw (ack_packet, g, nz) (get-put_self c.snd.outbuf i none t.sound.buffer)
  ]
]

-- The loop never leaves the window, and takes at most `n` packets out of it.
pub ack_loop-Shrunk :
    (env : Env) (n k : ℕ) (c : Conn)
    → IsTidy k c.snd
    → n ≤ c.snd.cur_window_packets
    → Shrunk k c.snd (ack_loop env n c).snd
unfolding ack_loop pop_oldest
ack_loop-Shrunk env zero k c t h = record { tidy = t; seq_kept = refl; packets_le = omega arith }
ack_loop-Shrunk env (suc n) k c t h =
    let i = first_seq c.snd in
    let acked = ack_packet-Kept env k i c t in
    let c1 = (ack_packet env i c).1 in
    elim (Bool-cases ((ack_packet env i c).0 == 2)) [
      | inl stop ↦ rw stop (record {
        tidy = acked.tidy;
        seq_kept = acked.seq_kept;
        packets_le = omega (arith, acked.packets_kept);
      })
      | inr go ↦
          let empty : get c1.snd.outbuf (first_seq c1.snd) ≡ none =
            ap (λ t. get c1.snd.outbuf t)
              (first_seq-eq c1.snd c.snd acked.seq_kept acked.packets_kept)
            ∙ acked_slot env i k c t go in
          let fewer = popped-IsTidy k c1.snd acked.tidy (omega (arith, acked.packets_kept)) empty in
          let few : c1.snd.cur_window_packets ≤ 1024 = acked.tidy.sound.packets in
          let rest =
            ack_loop-Shrunk env n k (pop_oldest c1) fewer (omega (arith, acked.packets_kept)) in
          rw go (record {
            tidy = rest.tidy;
            seq_kept = rest.seq_kept ∙ acked.seq_kept;
            packets_le = omega (arith, rest.packets_le, acked.packets_kept);
          })
    ]
  where
    first_seq-eq :
        (r q : SendQueue)
        → r.seq_nr ≡ q.seq_nr
        → r.cur_window_packets ≡ q.cur_window_packets
        → first_seq r ≡ first_seq q
    first_seq-eq r q e n = omega arith

-- The oldest packet of the window is still to be acknowledged, if there is one.
abbrev pub HasFront : SendQueue → Type 0
HasFront q =
    (q.cur_window_packets == 0 || is_some (get q.outbuf (sub64 q.seq_nr q.cur_window_packets)))
    ≡ true

none_or_some : {A : Type 0} → (x : Option A) → is_some x ≡ false → x ≡ none
none_or_some none e = refl
none_or_some (some x) e = cc e

-- Packets that were acknowledged selectively leave the window: with fuel for all of it, the loop ends
-- at a packet that is still to be acknowledged, or with an empty window.
pub skip_loop_lem :
    (fuel k : ℕ) (c : Conn)
    → IsTidy k c.snd
    → c.snd.cur_window_packets ≤ fuel
    → Shrunk k c.snd (skip_loop fuel c).snd × HasFront (skip_loop fuel c).snd
unfolding skip_loop pop_oldest
skip_loop_lem zero k c t h =
    let z : (c.snd.cur_window_packets == 0) ≡ true = ground arith in
    (
      record { tidy = t; seq_kept = refl; packets_le = omega arith },
      ap (λ b. b || is_some (get c.snd.outbuf (sub64 c.snd.seq_nr c.snd.cur_window_packets))) z,
    )
skip_loop_lem (suc fuel) k c t h =
    let oldest = sub64 c.snd.seq_nr c.snd.cur_window_packets in
    elim (Bool-cases (c.snd.cur_window_packets == 0 || is_some (get c.snd.outbuf oldest))) [
      | inl front ↦ rw front (record { tidy = t; seq_kept = refl; packets_le = omega arith }, front)
      | inr gone ↦
          let some_left : (c.snd.cur_window_packets == 0) ≡ false =
            or_left (c.snd.cur_window_packets == 0) (is_some (get c.snd.outbuf oldest)) gone in
          let empty : get c.snd.outbuf oldest ≡ none =
            none_or_some (get c.snd.outbuf oldest)
              (or_right (c.snd.cur_window_packets == 0) (is_some (get c.snd.outbuf oldest)) gone) in
          let words = t.sound.seq_word in
          let few = t.sound.packets in
          let first : get c.snd.outbuf (first_seq c.snd) ≡ none =
            get-cong16 c.snd.outbuf (first_seq c.snd) oldest t.sound.buffer (omega arith) ∙ empty in
          let nonzero : 0 < c.snd.cur_window_packets = positive _ some_left in
          let (shrunk, front) =
            skip_loop_lem fuel k (pop_oldest c) (popped-IsTidy k c.snd t nonzero first)
              (omega arith) in
          rw gone (
            record {
              tidy = shrunk.tidy;
              seq_kept = shrunk.seq_kept;
              packets_le = omega (arith, shrunk.packets_le);
            },
            front,
          )
    ]
  where
    or_left : (a b : Bool) → (a || b) ≡ false → a ≡ false
    or_left a b e = ground arith

    or_right : (a b : Bool) → (a || b) ≡ false → b ≡ false
    or_right a b e = ground arith

    positive : (n : ℕ) → (n == 0) ≡ false → 0 < n
    positive n e = ground arith
