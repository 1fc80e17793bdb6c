-- ===== src/Socket/Arrival/Later.antt =====
-- A packet past the expected one: it waits at its place in the reorder buffer.
use go_libutp.Prelude.{
  ℕ, zero, suc, ◌+◌, ◌-◌, ◌^◌, ◌%◌, ◌<◌, ◌≡◌, refl, ap, sym, ◌∙◌, Option, none, some, List, [], ◌∷◌,
  ◌++◌, add16, add64, sub64, arith, false, inl, inr, Bool-cases, Option-cases, ltb, ◌==◌, ltb→le,
  subst, if◌then◌else◌, replicate, length, set, get_or, ◌&&◌,
}
use native.Mathlib.Nat.{pow-le-pow_right}
use go_libutp.CircBuf.{CircBuf, get, put, ensure_size}
use go_libutp.CircBuf.Window
use go_libutp.CircBuf.Window.{ensure_size_lem, get-put_window}
use go_libutp.CircBuf.Entries.{entries, get_or-entries_from, put-entries, length-entries}
use go_libutp.Socket.{Receive, Conn, Event}
use go_libutp.Socket.Queue.View.{get-cong16, put-cong16}
use go_libutp.Socket.Arrival.{packets_past, keep_later, schedule_ack}
use go_libutp.Socket.Arrival.View.{occupied, waiting, occupied-le, rest}
use go_libutp.Socket.Arrival.Next.{waiting-head}
use go_libutp.Socket.Arrival.Stream.{Genuine, HasReceived, IsUpToDate}
use go_libutp.Socket.Arrival.Room.{ensure_size-ring, occupied-append_none, Genuine-append_none}

occupied-set :
    {A : Type 0}
    → (xs : List (Option A)) (k : ℕ) (x : A) → k < length xs
    → get_or xs k none ≡ none
    → occupied (set xs k (some x)) ≡ suc (occupied xs)
occupied-set [] k x h e = elim h [ ]
occupied-set (none ∷ xs) zero x h e = refl
occupied-set (some y ∷ xs) zero x h e = absurd (omega (arith, ap (λ t. occupied (t ∷ [])) e))
occupied-set (none ∷ xs) (suc k) x h e = occupied-set xs k x (omega arith) e
occupied-set (some y ∷ xs) (suc k) x h e = ap suc (occupied-set xs k x (omega arith) e)

Genuine-set :
    (packets : ℕ → List ℕ) (n k : ℕ) (xs : List (Option (List ℕ)))
    → Genuine packets n xs
    → Genuine packets n (set xs k (some (packets (n + k))))
Genuine-set packets n k [] g = tt
Genuine-set packets n zero (none ∷ xs) g =
    let here : n + zero ≡ n = omega arith in (ap packets here, g)
Genuine-set packets n zero (some y ∷ xs) (e, g) =
    let here : n + zero ≡ n = omega arith in (ap packets here, g)
Genuine-set packets n (suc k) (none ∷ xs) g =
    let there : suc n + k ≡ n + suc k = omega arith in
    subst (λ t. Genuine packets (suc n) (set xs k (some (packets t)))) there
      (Genuine-set packets (suc n) k xs g)
Genuine-set packets n (suc k) (some y ∷ xs) (e, g) =
    let there : suc n + k ≡ n + suc k = omega arith in
    (
      e,
      subst (λ t. Genuine packets (suc n) (set xs k (some (packets t)))) there
          (Genuine-set packets (suc n) k xs g),
    )

-- The packets between two steps, of the receiving side alone.
abbrev Holds : (ℕ → List ℕ) → ℕ → Receive → List Event → Type 0
Holds packets n r events = HasReceived packets n r events × (get r.inbuf (r.ack_nr + 1) ≡ none)

-- Room is made for the number `pk`, which is `past` past the expected one.
room-Holds :
    (packets : ℕ → List ℕ) (n pk past : ℕ) (r : Receive) (events : List Event)
    → Holds packets n r events
    → (r.ack_nr + 1 + past) % 2 ^ 16 ≡ pk
    → past < 1024
    → let inbuf : CircBuf (List ℕ) = ensure_size r.inbuf (pk + 1) (past + 1) in
      Holds packets n (record r { inbuf = inbuf }) events × (past < inbuf.mask)
room-Holds packets n pk past r events (h, missing) number near =
    let base : (r.ack_nr + 1) % 2 ^ 16 ≡ sub64 (pk + 1) (past + 1) % 2 ^ 16 =
      omega (arith, number, h.ack_word) in
    let (kept, valid, room, larger) =
      ensure_size_lem r.inbuf (pk + 1) (past + 1) h.buffer (omega arith) in
    let inbuf = ensure_size r.inbuf (pk + 1) (past + 1) in
    let ring : entries inbuf (r.ack_nr + 1) (suc inbuf.mask)
        ≡ waiting r ++ replicate (inbuf.mask - r.inbuf.mask) none =
      ensure_size-ring r.inbuf (r.ack_nr + 1) (pk + 1) (past + 1) h.buffer (omega arith) base in
    (
      (
        record {
          buffer = valid;
          ack_word = h.ack_word;
          counted = h.counted ∙ sym (ap occupied ring ∙ occupied-append_none (waiting r) _);
          genuine =
              subst (Genuine packets n) (sym ring)
                (Genuine-append_none packets n _ (waiting r) h.genuine);
          reader = h.reader;
          no_fin = h.no_fin;
          reading = h.reading;
        },
        get-cong16 inbuf (r.ack_nr + 1) (add64 (sub64 (pk + 1) (past + 1)) 0) valid
              (omega (arith, base))
            ∙ kept 0 (omega arith)
            ∙ get-cong16 r.inbuf (add64 (sub64 (pk + 1) (past + 1)) 0) (r.ack_nr + 1) h.buffer
                (omega (arith, base))
            ∙ missing,
      ),
      omega (arith, room),
    )

-- The packet is put at its place, where there was none.
put-Holds :
    (packets : ℕ → List ℕ) (n pk past : ℕ) (r : Receive) (events : List Event)
    → Holds packets n r events
    → (r.ack_nr + 1 + past) % 2 ^ 16 ≡ pk
    → 0 < past
    → past < r.inbuf.mask
    → get r.inbuf pk ≡ none
    → Holds packets n
        (record r {
          inbuf = put r.inbuf pk (some (packets (n + past)));
          reorder_count = add16 r.reorder_count 1;
        })
        events
unfolding put
put-Holds packets n pk past r events (h, missing) number later room free = (
  record {
    buffer = Window.put-IsValid r.inbuf pk _ h.buffer;
    ack_word = h.ack_word;
    counted = omega (arith, h.counted, more, few);
    genuine =
        subst (Genuine packets n) (sym placed) (Genuine-set packets n past (waiting r) h.genuine);
    reader = h.reader;
    no_fin = h.no_fin;
    reading = h.reading;
  },
  still_missing,
)
  where
    x : Option (List ℕ)
    x = some (packets (n + past))

    pk_place : pk % 2 ^ 16 ≡ add64 (r.ack_nr + 1) past % 2 ^ 16
    pk_place = omega (arith, number)

    placed : entries (put r.inbuf pk x) (r.ack_nr + 1) (suc r.inbuf.mask) ≡ set (waiting r) past x
    placed =
        ap (λ b. entries b (r.ack_nr + 1) (suc r.inbuf.mask))
          (put-cong16 r.inbuf pk (add64 (r.ack_nr + 1) past) x h.buffer pk_place)
        ∙ put-entries r.inbuf (r.ack_nr + 1) (suc r.inbuf.mask) past x h.buffer (omega arith)
            (omega arith)

    empty_place : get_or (waiting r) past none ≡ none
    empty_place =
        get_or-entries_from r.inbuf (r.ack_nr + 1) 0 (suc r.inbuf.mask) past (omega arith)
        ∙ get-cong16 r.inbuf (add64 (r.ack_nr + 1) (0 + past)) pk h.buffer (omega (arith, pk_place))
        ∙ free

    more :
        occupied (entries (put r.inbuf pk x) (r.ack_nr + 1) (suc r.inbuf.mask))
        ≡ suc (occupied (waiting r))
    more =
        ap occupied placed
        ∙ occupied-set (waiting r) past (packets (n + past))
            (omega (arith, length-entries r.inbuf (r.ack_nr + 1) (suc r.inbuf.mask))) empty_place

    still_missing : get (put r.inbuf pk x) (r.ack_nr + 1) ≡ none
    still_missing =
        ap (λ b. get b (r.ack_nr + 1))
          (put-cong16 r.inbuf pk (add64 (r.ack_nr + 1) past) x h.buffer pk_place)
        ∙ get-cong16 (put r.inbuf (add64 (r.ack_nr + 1) past) x) (r.ack_nr + 1)
            (add64 (r.ack_nr + 1) 0) (Window.put-IsValid r.inbuf _ x h.buffer) (omega arith)
        ∙ get-put_window r.inbuf (r.ack_nr + 1) past 0 x h.buffer (omega arith) (omega arith)
        ∙ not_first
        ∙ get-cong16 r.inbuf (add64 (r.ack_nr + 1) 0) (r.ack_nr + 1) h.buffer (omega arith)
        ∙ missing
      where
        not_first :
            (if past == 0 then x else get r.inbuf (add64 (r.ack_nr + 1) 0))
            ≡ get r.inbuf (add64 (r.ack_nr + 1) 0)
        not_first = ground arith

    after : List (Option (List ℕ))
    after = entries (put r.inbuf pk x) (r.ack_nr + 1) (suc r.inbuf.mask)

    -- The first slot is empty: not all are taken, so the 16-bit counter does not wrap around.
    few : suc (occupied (waiting r)) < 2 ^ 16
    few =
        let (k, e, small) = h.buffer.power in
        let head : after ≡ none ∷ rest after =
          waiting-head (record r { inbuf = put r.inbuf pk x }) none
            (Window.put-IsValid r.inbuf pk x h.buffer) h.ack_word still_missing in
        omega (
          arith,
          more,
          ap occupied head,
          ap length head,
          occupied-le (rest after),
          length-entries (put r.inbuf pk x) (r.ack_nr + 1) (suc r.inbuf.mask),
          pow-le-pow_right {n = 2} (omega arith) {i = k} {j = 16} (omega arith),
        )

-- Any packet past the expected one comes while no FIN has been seen: it is kept at its place, or it is
-- dropped because it is too far off or waits already. The reader is given nothing.
pub keep_later_lem :
    (packets : ℕ → List ℕ) (n pk : ℕ) (c : Conn)
    → IsUpToDate packets n c
    → pk < 2 ^ 16
    → 0 < packets_past c.rcv pk
    → IsUpToDate packets n
        (keep_later pk (packets_past c.rcv pk) (packets (n + packets_past c.rcv pk)) c).1
unfolding keep_later schedule_ack
keep_later_lem packets n pk c up word later =
    let fin_test : (c.rcv.got_fin && ltb c.rcv.eof_pkt pk) ≡ false =
      ap (λ f. f && ltb c.rcv.eof_pkt pk) up.0.no_fin in
    rw fin_test (elim (Bool-cases (ltb 0x3ff past)) [
      | inl far ↦ rw far up
      | inr near ↦
          let (held, room) =
            room-Holds packets n pk past c.rcv c.ctx.events up (number c.rcv pk up.0.ack_word word)
              (omega (arith, ltb→le _ _ near)) in
          rw near (elim (Option-cases (get (ensure_size c.rcv.inbuf (pk + 1) (past + 1)) pk)) [
            | inr (y, e) ↦ rw e held
            | inl e ↦ rw e (
                put-Holds packets n pk past _ c.ctx.events held (number c.rcv pk up.0.ack_word word)
                  later room e)
          ])
    ])
  where
    past : ℕ
    past = packets_past c.rcv pk

    number :
        (r : Receive) (p : ℕ)
        → r.ack_nr < 2 ^ 16
        → p < 2 ^ 16
        → (r.ack_nr + 1 + packets_past r p) % 2 ^ 16 ≡ p
    number r p h w = unfold packets_past in omega arith
