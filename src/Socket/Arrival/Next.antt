-- ===== src/Socket/Arrival/Next.antt =====
-- The expected packet: its bytes and those of the packets that waited for it go to the reader.
use native.Mathlib.Nat.{pow-le-pow_right}
use go_libutp.Prelude.{
  ℕ, suc, ◌+◌, ◌^◌, ◌≤◌, ◌<◌, ◌≡◌, refl, ap, ap₂, sym, ◌∙◌, Option, none, some, List, [], ◌∷◌, ◌++◌,
  add16, sub16, add64, length, arith, true, false, ltb, ◌&&◌, not, inl, inr, Bool-cases, subst,
}
use go_libutp.CircBuf.{get, put}
use go_libutp.CircBuf.Window
use go_libutp.CircBuf.Entries.{entries, length-entries}
use go_libutp.Socket.Queue.View.{get-cong16}
use go_libutp.Socket.{Receive, Conn, Event}
use go_libutp.Socket.Arrival.{deliver}
use go_libutp.Socket.Arrival.View.{
  rest, occupied, waiting, occupied-le, occupied-snoc, entries-rotate, entries-rotate_put,
}
use go_libutp.Socket.Arrival.Stream.{stream, Genuine, HasReceived}

append-nil : {A : Type 0} → (xs : List A) → xs ++ [] ≡ xs
append-nil [] = refl
append-nil (x ∷ xs) = ap (λ t. x ∷ t) (append-nil xs)

-- An empty packet is not given to the reader, which is the same to the stream.
pub stream-deliver :
    (c : Conn) (bytes : List ℕ)
    → c.rcv.read_shutdown ≡ false
    → stream (deliver c bytes).ctx.events ≡ stream c.ctx.events ++ bytes
unfolding deliver
stream-deliver c [] e = sym (append-nil (stream c.ctx.events))
stream-deliver c (b ∷ bytes) e = rw test refl
  where
    positive : ltb 0 (suc (length bytes)) ≡ true
    positive = ground arith

    test : (ltb 0 (length (b ∷ bytes)) && not c.rcv.read_shutdown) ≡ true
    test = ap₂ (λ x y. x && not y) positive e

pub deliver-rcv : (c : Conn) (bytes : List ℕ) → (deliver c bytes).rcv ≡ c.rcv
unfolding deliver
deliver-rcv c bytes = elim (Bool-cases (ltb 0 (length bytes) && not c.rcv.read_shutdown)) [
  | inl e ↦ rw e refl
  | inr e ↦ rw e refl
]

Genuine-snoc :
    (packets : ℕ → List ℕ) (n : ℕ) (xs : List (Option (List ℕ)))
    → Genuine packets n xs
    → Genuine packets n (xs ++ none ∷ [])
Genuine-snoc packets n [] g = tt
Genuine-snoc packets n (none ∷ xs) g = Genuine-snoc packets (suc n) xs g
Genuine-snoc packets n (some x ∷ xs) (e, g) = (e, Genuine-snoc packets (suc n) xs g)

pub Genuine-rest :
    (packets : ℕ → List ℕ) (n : ℕ) (xs : List (Option (List ℕ))) (x : Option (List ℕ))
    → Genuine packets n (x ∷ xs)
    → Genuine packets (suc n) xs
Genuine-rest packets n xs none g = g
Genuine-rest packets n xs (some x) (e, g) = g

pub waiting-head :
    (r : Receive) (x : Option (List ℕ))
    → Window.IsValid r.inbuf
    → r.ack_nr < 2 ^ 16
    → get r.inbuf (r.ack_nr + 1) ≡ x
    → waiting r ≡ x ∷ rest (waiting r)
waiting-head r x v h e =
    ap (λ t. t ∷ rest (waiting r))
      (get-cong16 r.inbuf (add64 (r.ack_nr + 1) 0) (r.ack_nr + 1) v (omega arith) ∙ e)

-- There are at most 2 ^ 16 slots.
occupied-word : (r : Receive) → Window.IsValid r.inbuf → occupied (waiting r) ≤ 2 ^ 16
occupied-word r v =
    let (k, e, h) = v.power in
    omega (
      arith,
      occupied-le (waiting r),
      length-entries r.inbuf (r.ack_nr + 1) (suc r.inbuf.mask),
      pow-le-pow_right {n = 2} (omega arith) {i = k} {j = 16} (omega arith),
    )

-- The packet that the reorder buffer holds next is taken out of it.
pub next-HasReceived :
    (packets : ℕ → List ℕ) (n : ℕ) (r : Receive) (events : List Event) (bytes : List ℕ)
    (events' : List Event)
    → HasReceived packets n r events
    → get r.inbuf (r.ack_nr + 1) ≡ some bytes
    → stream events' ≡ stream events ++ bytes
    → let r' : Receive = record r {
      inbuf = put r.inbuf (r.ack_nr + 1) none;
      ack_nr = add16 r.ack_nr 1;
      reorder_count = sub16 r.reorder_count 1;
    } in
      HasReceived packets (suc n) r' events'
      × (suc (occupied (waiting r')) ≡ occupied (waiting r))
      × (waiting r' ≡ rest (waiting r) ++ none ∷ [])
unfolding put
next-HasReceived packets n r events bytes events' h e es = (
  record {
    buffer = Window.put-IsValid r.inbuf (r.ack_nr + 1) none h.buffer;
    ack_word = omega arith;
    counted = omega (arith, fewer, h.counted, occupied-word r h.buffer);
    genuine = rw shifted (
        Genuine-snoc packets (suc n) (rest (waiting r))
          (Genuine-rest packets n (rest (waiting r)) (some bytes) g));
    reader = es ∙ ap₂ (λ a b. a ++ b) h.reader g.0;
    no_fin = h.no_fin;
    reading = h.reading;
  },
  fewer,
  shifted,
)
  where
    w : waiting r ≡ some bytes ∷ rest (waiting r)
    w = waiting-head r (some bytes) h.buffer h.ack_word e

    g : Genuine packets n (some bytes ∷ rest (waiting r))
    g = subst (Genuine packets n) w h.genuine

    shifted :
        entries (put r.inbuf (r.ack_nr + 1) none) (add16 r.ack_nr 1 + 1) (suc r.inbuf.mask)
        ≡ rest (waiting r) ++ none ∷ []
    shifted = entries-rotate_put r.inbuf r.ack_nr h.buffer h.ack_word

    fewer :
        suc (
          occupied
            (entries (put r.inbuf (r.ack_nr + 1) none) (add16 r.ack_nr 1 + 1) (suc r.inbuf.mask)))
        ≡ occupied (waiting r)
    fewer = ap suc (ap occupied shifted ∙ occupied-snoc (rest (waiting r))) ∙ sym (ap occupied w)

-- The packet that was missing: nothing has to be taken out.
pub expected-HasReceived :
    (packets : ℕ → List ℕ) (n : ℕ) (r : Receive) (events : List Event) (events' : List Event)
    → HasReceived packets n r events
    → get r.inbuf (r.ack_nr + 1) ≡ none
    → stream events' ≡ stream events ++ packets n
    → HasReceived packets (suc n) (record r { ack_nr = add16 r.ack_nr 1 }) events'
expected-HasReceived packets n r events events' h e es = record {
  buffer = h.buffer;
  ack_word = omega arith;
  counted =
      h.counted
      ∙ ap occupied w
      ∙ sym (occupied-snoc (rest (waiting r)))
      ∙ sym (ap occupied shifted);
  genuine = rw shifted (
      Genuine-snoc packets (suc n) (rest (waiting r))
        (Genuine-rest packets n (rest (waiting r)) none (subst (Genuine packets n) w h.genuine)));
  reader = es ∙ ap (λ a. a ++ packets n) h.reader;
  no_fin = h.no_fin;
  reading = h.reading;
}
  where
    w : waiting r ≡ none ∷ rest (waiting r)
    w = waiting-head r none h.buffer h.ack_word e

    shifted :
        entries r.inbuf (add16 r.ack_nr 1 + 1) (suc r.inbuf.mask) ≡ rest (waiting r) ++ none ∷ []
    shifted = entries-rotate r.inbuf r.ack_nr h.buffer h.ack_word e
