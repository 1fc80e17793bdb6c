-- ===== src/Socket/Timeout/Lost.antt =====
-- A timeout: every packet of the queue is considered lost.
use native.Mathlib.Decide.{dec_lt}
use go_libutp.Prelude.{
  ℕ, zero, suc, ◌+◌, ◌%◌, ◌^◌, ◌≤◌, ◌<◌, ◌≡◌, ◌≢◌, inl, inr, refl, ap, sym, ◌∙◌, subst, true, false,
  not, ◌||◌, Option, none, some, List, [], ◌∷◌, ◌==◌, if◌then◌else◌, add16, sub64, length, get_or,
  arith, Bool-cases, Option-cases, get_or-set_self, get_or-set_ne,
}
use go_libutp.CircBuf.{get, put}
use go_libutp.CircBuf.Entries.{length-entries}
use go_libutp.Packet.{OutgoingPacket}
use go_libutp.Socket.{SendQueue}
use go_libutp.Socket.Timeout.{lose_packet, lose_at, lose_loop}
use go_libutp.Socket.Queue.{weight, first_seq, slots, IsSound}
use go_libutp.Socket.Queue.View.{
  flight, get_or-slots, cur_window-flight, cur_window-bound, rewrite-IsSound, get-cong16,
  put-cong16,
}
use go_libutp.Socket.Queue.Acked.{weight-le, small_payload}

-- A packet as it waits to be sent again, or for the first time: the packet itself, marked if it was sent.
abbrev pub to_resend : Option OutgoingPacket → Option OutgoingPacket
to_resend none = none
to_resend (some pkt) =
    some (record pkt { need_resend = pkt.need_resend || not (pkt.transmissions == 0) })

to_resend_waits :
    (pkt : OutgoingPacket)
    → (pkt.transmissions == 0 || pkt.need_resend) ≡ true
    → to_resend (some pkt) ≡ some pkt
to_resend_waits pkt w =
    let same : (pkt.need_resend || not (pkt.transmissions == 0)) ≡ pkt.need_resend = ground arith in
    λ i. some (record pkt { need_resend = same i })

to_resend_flies :
    (pkt : OutgoingPacket)
    → (pkt.transmissions == 0 || pkt.need_resend) ≡ false
    → to_resend (some pkt) ≡ some (record pkt { need_resend = true })
to_resend_flies pkt f =
    let same : (pkt.need_resend || not (pkt.transmissions == 0)) ≡ true = ground arith in
    λ i. some (record pkt { need_resend = same i })

weight-to_resend : (x : Option OutgoingPacket) → weight (to_resend x) ≡ 0
weight-to_resend none = refl
weight-to_resend (some pkt) = ground arith

-- The packet at position `k` waits to be sent, and the others are as they were.
record IsLighter (k : ℕ) (q q' : SendQueue) : Type 0 where
  sound : IsSound q'
  seq_kept : q'.seq_nr ≡ q.seq_nr
  packets_kept : q'.cur_window_packets ≡ q.cur_window_packets
  marked : get_or (slots q') k none ≡ to_resend (get_or (slots q) k none)
  others : (j : ℕ) → k ≢ j → get_or (slots q') j none ≡ get_or (slots q) j none

module _ (q : SendQueue) (i k : ℕ) (s : IsSound q) (h : k < q.cur_window_packets)
    (at : i % 2 ^ 16 ≡ add16 (first_seq q) k) where
  here : get_or (slots q) k none ≡ get q.outbuf i
  here =
      get_or-slots q k s h
      ∙ get-cong16 q.outbuf (add16 (first_seq q) k) i s.buffer (omega (arith, at))

  lose_packet-IsLighter :
      (pkt : OutgoingPacket) → get q.outbuf i ≡ some pkt → IsLighter k q (lose_packet i pkt q)
  unfolding lose_packet
  lose_packet-IsLighter pkt e = elim (Bool-cases (pkt.transmissions == 0 || pkt.need_resend)) [
    | inl waits ↦ rw waits (record {
      sound = s;
      seq_kept = refl;
      packets_kept = refl;
      marked = here ∙ e ∙ sym (ap to_resend (here ∙ e) ∙ to_resend_waits pkt waits);
      others = λ j ne. refl;
    })
    | inr flies ↦ rw flies (
        let counted : weight (some pkt) ≡ pkt.payload =
          ap (λ t. if t then 0 else pkt.payload) flies in
        let slot : get q.outbuf (add16 (first_seq q) k) ≡ some pkt =
          sym (get_or-slots q k s h) ∙ here ∙ e in
        let (sound, written) =
          rewrite-IsSound q
            (record q {
              outbuf = put q.outbuf i (some (record pkt { need_resend = true }));
              cur_window = sub64 q.cur_window pkt.payload;
            })
            k (some (record pkt { need_resend = true })) s h (small_payload q k pkt s h slot)
            (put-cong16 q.outbuf i (add16 (first_seq q) k) _ s.buffer (omega (arith, at))) refl refl
            (omega (
              arith,
              weight-le q k s h,
              ap weight slot,
              counted,
              lost_weight pkt,
              cur_window-bound q s,
            )) in
        record {
          sound = sound;
          seq_kept = refl;
          packets_kept = refl;
          marked =
              ap (λ xs. get_or xs k none) written
              ∙ get_or-set_self (slots q) k _ none (omega (arith, many))
              ∙ sym (ap to_resend (here ∙ e) ∙ to_resend_flies pkt flies);
          others =
              λ j ne. ap (λ xs. get_or xs j none) written ∙ get_or-set_ne (slots q) k j _ none ne;
        })
  ]
    where
      lost_weight : (p : OutgoingPacket) → weight (some (record p { need_resend = true })) ≡ 0
      lost_weight p = ground arith

      many : length (slots q) ≡ q.cur_window_packets
      many = length-entries q.outbuf (first_seq q) q.cur_window_packets

  lose_at-IsLighter : IsLighter k q (lose_at i q)
  unfolding lose_at
  lose_at-IsLighter = elim (Option-cases (get q.outbuf i)) [
    | inl e ↦
        rw (lose_at, e)
          (record {
            sound = s;
            seq_kept = refl;
            packets_kept = refl;
            marked = here ∙ e ∙ sym (ap to_resend (here ∙ e));
            others = λ j ne. refl;
          })
    | inr (pkt, e) ↦ rw (lose_at, e) (lose_packet-IsLighter pkt e)
  ]

-- From position `k` on all packets wait, and those before are as they were.
record IsMarked (k : ℕ) (q q' : SendQueue) : Type 0 where
  before : (j : ℕ) → j < k → get_or (slots q') j none ≡ get_or (slots q) j none
  after : (j : ℕ) → k ≤ j → get_or (slots q') j none ≡ to_resend (get_or (slots q) j none)

-- Every packet is still at its place and waits to be sent, so that none is in flight.
pub record IsGrounded (q q' : SendQueue) : Type 0 where
  pub sound : IsSound q'
  pub seq_kept : q'.seq_nr ≡ q.seq_nr
  pub packets_kept : q'.cur_window_packets ≡ q.cur_window_packets
  pub nothing_in_flight : q'.cur_window ≡ 0
  pub all_wait : (j : ℕ) → get_or (slots q') j none ≡ to_resend (get_or (slots q) j none)

flight-light :
    (xs : List (Option OutgoingPacket)) → ((j : ℕ) → weight (get_or xs j none) ≡ 0) → flight xs ≡ 0
flight-light [] h = refl
flight-light (x ∷ xs) h = omega (arith, h 0, flight-light xs (λ j. h (suc j)))

lose_loop-IsGrounded :
    (n i : ℕ) (q q' : SendQueue)
    → IsSound q'
    → q'.seq_nr ≡ q.seq_nr
    → q'.cur_window_packets ≡ q.cur_window_packets
    → i + n ≡ q'.cur_window_packets
    → IsMarked n q q'
    → IsGrounded q (lose_loop n i q')
unfolding lose_loop
lose_loop-IsGrounded zero i q q' s e p c l = record {
  sound = s;
  seq_kept = e;
  packets_kept = p;
  nothing_in_flight =
      cur_window-flight q' s
      ∙ flight-light (slots q')
          (λ j. ap weight (l.after j (omega arith)) ∙ weight-to_resend (get_or (slots q) j none));
  all_wait = λ j. l.after j (omega arith);
}
lose_loop-IsGrounded (suc n) i q q' s e p c l =
    let q2 = lose_at (sub64 q'.seq_nr (i + 1)) q' in
    let o =
      lose_at-IsLighter q' (sub64 q'.seq_nr (i + 1)) n s (omega arith)
        (omega (arith, s.seq_word, s.packets, c)) in
    lose_loop-IsGrounded n (suc i) q q2 o.sound (o.seq_kept ∙ e) (o.packets_kept ∙ p)
      (omega (arith, o.packets_kept))
      (record {
        before = λ j lt. o.others j (omega arith) ∙ l.before j (omega arith);
        after = λ j le. elim (dec_lt n j) [
          | yes later ↦ o.others j (omega arith) ∙ l.after j (omega arith)
          | no same ↦
              let this : j ≡ n = omega arith in
              subst (λ t. get_or (slots q2) t none ≡ to_resend (get_or (slots q) t none)) (sym this)
                (o.marked ∙ ap to_resend (l.before n (omega arith)))
        ];
      })

-- The loop of a timeout on a sound send queue: every packet stays at its place and waits to be sent,
-- those that were sent marked for it, no byte counts as in flight, and the queue stays sound.
pub lose_loop_lem : (q : SendQueue) → IsSound q → IsGrounded q (lose_loop q.cur_window_packets 0 q)
lose_loop_lem q s =
    lose_loop-IsGrounded q.cur_window_packets 0 q q s refl refl (omega arith) (record {
      before = λ j lt. refl;
      after = λ j le.
          let past =
            beyond (slots q) j
              (omega (arith, length-entries q.outbuf (first_seq q) q.cur_window_packets)) in
          past ∙ sym (ap to_resend past);
    })
  where
    beyond : (xs : List (Option OutgoingPacket)) (j : ℕ) → length xs ≤ j → get_or xs j none ≡ none
    beyond [] j le = refl
    beyond (x ∷ xs) zero le = absurd (omega arith)
    beyond (x ∷ xs) (suc j) le = beyond xs j (omega arith)
