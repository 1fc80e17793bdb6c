-- ===== src/Socket/Queue/Tidy.antt =====
-- The send queue between operations: sound, with no packet outside of its window.
use go_libutp.Prelude.{
  ℕ, ◌<◌, ◌≤◌, ◌≡◌, ◌≢◌, ◌⊎◌, inl, inr, refl, ap, ap₂, sym, ◌∙◌, subst, Option, none, some, add16,
  sub16, get_or, set, arith,
}
use native.Mathlib.Decide.{ℕ_discrete}
use go_libutp.Seq.{and_mask}
use go_libutp.CircBuf.{CircBuf, get, put}
use go_libutp.CircBuf.Window
use go_libutp.CircBuf.Window.{get-put_self, get-put_ne}
use go_libutp.Packet.{OutgoingPacket}
use go_libutp.Socket.{SendQueue}
use go_libutp.Socket.Queue.{AllSmall, first_seq, IsSound}
use go_libutp.Socket.Queue.View.{flight, slots-cong, outstanding_bytes-flight, cur_window-flight}

-- Every packet of the buffer stands in the window, and was sent `k` times at most.
pub record IsTidy (k : ℕ) (q : SendQueue) : Type 0 where
  pub sound : IsSound q
  pub placed :
      (i : ℕ) (pkt : OutgoingPacket)
      → get q.outbuf i ≡ some pkt
      → (p : ℕ) × (p < q.cur_window_packets)
        × (and_mask i q.outbuf.mask ≡ and_mask (add16 (first_seq q) p) q.outbuf.mask)
  pub sent : (i : ℕ) (pkt : OutgoingPacket) → get q.outbuf i ≡ some pkt → pkt.transmissions ≤ k

-- Indices of one cell.
pub get-cell :
    {A : Type 0} (b : CircBuf A) (i j : ℕ)
    → and_mask i b.mask ≡ and_mask j b.mask
    → get b i ≡ get b j
unfolding get
get-cell b i j e = ap (λ t. get_or b.elements t none) e

pub put-cell :
    {A : Type 0} (b : CircBuf A) (i j : ℕ) (x : Option A)
    → and_mask i b.mask ≡ and_mask j b.mask
    → put b i x ≡ put b j x
unfolding put
put-cell b i j x e = ap (λ t. record b { elements = set b.elements t x }) e

mask-put : {A : Type 0} (b : CircBuf A) (i : ℕ) (x : Option A) → (put b i x).mask ≡ b.mask
unfolding put
mask-put b i x = refl

-- What one reads after a write: what was written, or what was there in another cell.
pub get-put_cases :
    {A : Type 0} (b : CircBuf A) (i j : ℕ) (x y : Option A)
    → Window.IsValid b
    → get (put b i x) j ≡ y
    → ((x ≡ y) × (and_mask i b.mask ≡ and_mask j b.mask))
      ⊎ ((get b j ≡ y) × (and_mask i b.mask ≢ and_mask j b.mask))
get-put_cases b i j x y v e = elim (ℕ_discrete (and_mask i b.mask) (and_mask j b.mask)) [
  | yes same ↦
      inl (sym (get-put_self b j x v) ∙ ap (λ t. get t j) (sym (put-cell b i j x same)) ∙ e, same)
  | no other ↦ inr (sym (get-put_ne b i j x other) ∙ e, other)
]

-- A queue that differs in none of the four fields that the account is about.
pub IsSound-cong :
    (q r : SendQueue)
    → IsSound q
    → r.outbuf ≡ q.outbuf
    → r.seq_nr ≡ q.seq_nr
    → r.cur_window_packets ≡ q.cur_window_packets
    → r.cur_window ≡ q.cur_window
    → IsSound r
IsSound-cong q r s b e n w = record {
  buffer = rw b s.buffer;
  room = omega (arith, s.room, ap (λ t. t.mask) b);
  packets = omega (arith, s.packets);
  seq_word = omega (arith, s.seq_word);
  in_flight =
      w
      ∙ cur_window-flight q s
      ∙ sym (ap flight (slots-cong q r b e n))
      ∙ sym (
          outstanding_bytes-flight r (rw b s.buffer) (omega (arith, s.seq_word))
            (omega (arith, s.packets)));
  small = subst AllSmall (sym (slots-cong q r b e n)) s.small;
}

pub IsTidy-cong :
    (k : ℕ) (q r : SendQueue)
    → IsTidy k q
    → r.outbuf ≡ q.outbuf
    → r.seq_nr ≡ q.seq_nr
    → r.cur_window_packets ≡ q.cur_window_packets
    → r.cur_window ≡ q.cur_window
    → IsTidy k r
IsTidy-cong k q r t b e n w = record {
  sound = IsSound-cong q r t.sound b e n w;
  placed = λ i pkt h.
      let (p, le, cell) = t.placed i pkt (ap (λ x. get x i) (sym b) ∙ h) in
      (
        p,
        omega arith,
        ap (λ x. and_mask i x.mask) b
            ∙ cell
            ∙ ap₂ (λ x y. and_mask (add16 x p) y) (ap₂ sub16 (sym e) (sym n))
                (ap (λ x. x.mask) (sym b)),
      );
  sent = λ i pkt h. t.sent i pkt (ap (λ x. get x i) (sym b) ∙ h);
}

pub IsTidy-le : (k l : ℕ) (q : SendQueue) → IsTidy k q → k ≤ l → IsTidy l q
IsTidy-le k l q t h = record {
  sound = t.sound;
  placed = t.placed;
  sent = λ i pkt e. omega (arith, t.sent i pkt e);
}

-- How often the packet of a slot was sent.
abbrev pub sendings : Option OutgoingPacket → ℕ
sendings none = 0
sendings (some pkt) = pkt.transmissions

-- The slot at position `p` is rewritten.
pub IsTidy-put :
    (k l : ℕ) (q r : SendQueue) (p : ℕ) (x : Option OutgoingPacket)
    → IsTidy k q
    → IsSound r
    → p < q.cur_window_packets
    → r.outbuf ≡ put q.outbuf (add16 (first_seq q) p) x
    → r.seq_nr ≡ q.seq_nr
    → r.cur_window_packets ≡ q.cur_window_packets
    → k ≤ l
    → sendings x ≤ l
    → IsTidy l r
IsTidy-put k l q r p x t s h b e n kl few = record {
  sound = s;
  placed = λ i pkt g.
      let from : and_mask i r.outbuf.mask ≡ and_mask i q.outbuf.mask = ap (and_mask i) masks in
      let to : (j : ℕ)
          → and_mask (add16 (first_seq q) j) q.outbuf.mask
            ≡ and_mask (add16 (first_seq r) j) r.outbuf.mask =
        λ j. ap₂ (λ x y. and_mask (add16 x j) y) (ap₂ sub16 (sym e) (sym n)) (sym masks) in
      elim (get-put_cases q.outbuf (add16 (first_seq q) p) i x (some pkt) t.sound.buffer
        (ap (λ x. get x i) (sym b) ∙ g)) [
          | inl (same, cell) ↦ (p, omega arith, from ∙ sym cell ∙ to p)
          | inr (old, cell) ↦
              let (j, le, at) = t.placed i pkt old in (j, omega arith, from ∙ at ∙ to j)
        ];
  sent = λ i pkt g.
      elim (get-put_cases q.outbuf (add16 (first_seq q) p) i x (some pkt) t.sound.buffer
        (ap (λ x. get x i) (sym b) ∙ g)) [
          | inl (same, cell) ↦ omega (arith, ap sendings same)
          | inr (old, cell) ↦ omega (arith, t.sent i pkt old)
        ];
}
  where
    masks : r.outbuf.mask ≡ q.outbuf.mask
    masks = ap (λ x. x.mask) b ∙ mask-put q.outbuf (add16 (first_seq q) p) x
