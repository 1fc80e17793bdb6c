-- ===== src/Socket/Queue/View.antt =====
-- The send queue's slots: reading and writing one of them, and the sum of the bytes in flight.
use go_libutp.Prelude.{
  ℕ, zero, suc, ◌+◌, ◌*◌, ◌%◌, ◌^◌, ◌≤◌, ◌<◌, ◌≡◌, refl, ap, ap₂, sym, ◌∙◌, Option, none, some,
  List, [], ◌∷◌, ◌++◌, add16, sub16, add64, sub64, length, get_or, set, arith,
}
use go_libutp.CircBuf.{CircBuf, get, put}
use go_libutp.CircBuf.Window
use go_libutp.CircBuf.Entries.{
  entries, entries_from-snoc, get_or-entries_from, put-entries, get-mod16, put-mod16,
  length-entries,
}
use go_libutp.Packet.{OutgoingPacket}
use go_libutp.Socket.{SendQueue}
use go_libutp.Socket.Queue.{
  weight, IsSmall, AllSmall, outstanding_loop, outstanding_bytes, first_seq, slots, IsSound,
}

module _ {A : Type 0} where
  -- Indices that agree modulo 2 ^ 16 name the same slot.
  pub get-cong16 :
      (b : CircBuf A) (x y : ℕ) → Window.IsValid b → x % 2 ^ 16 ≡ y % 2 ^ 16 → get b x ≡ get b y
  get-cong16 b x y v e = sym (get-mod16 b x v) ∙ ap (get b) e ∙ get-mod16 b y v

  pub put-cong16 :
      (b : CircBuf A) (x y : ℕ) (a : Option A)
      → Window.IsValid b
      → x % 2 ^ 16 ≡ y % 2 ^ 16
      → put b x a ≡ put b y a
  put-cong16 b x y a v e = sym (put-mod16 b x a v) ∙ ap (λ t. put b t a) e ∙ put-mod16 b y a v

-- The bytes in flight of a list of slots.
abbrev pub flight : List (Option OutgoingPacket) → ℕ
flight [] = 0
flight (x ∷ xs) = weight x + flight xs

pub flight-append :
    (xs ys : List (Option OutgoingPacket)) → flight (xs ++ ys) ≡ flight xs + flight ys
flight-append [] ys = omega arith
flight-append (x ∷ xs) ys = omega (arith, flight-append xs ys)

-- Exchanging one slot exchanges its bytes.
pub flight-set :
    (xs : List (Option OutgoingPacket)) (k : ℕ) (x : Option OutgoingPacket)
    → k < length xs
    → flight (set xs k x) + weight (get_or xs k none) ≡ flight xs + weight x
flight-set [] k x h = elim h [ ]
flight-set (y ∷ xs) zero x h = omega arith
flight-set (y ∷ xs) (suc k) x h = omega (arith, flight-set xs k x (omega arith))

outstanding_loop-flight :
    (n i : ℕ) (q : SendQueue)
    → Window.IsValid q.outbuf
    → q.seq_nr < 2 ^ 16
    → i + n ≡ q.cur_window_packets
    → q.cur_window_packets ≤ 1024
    → outstanding_loop n i q ≡ flight (entries q.outbuf (first_seq q) n)
unfolding outstanding_loop
outstanding_loop-flight zero i q v w e h = refl
outstanding_loop-flight (suc n) i q v w e h = omega (
  arith,
  outstanding_loop-flight n (suc i) q v w (omega arith) h,
  flight-append (entries q.outbuf (first_seq q) n)
      (get q.outbuf (add64 (first_seq q) (0 + n)) ∷ []),
  ap flight (entries_from-snoc q.outbuf (first_seq q) 0 n),
  ap weight
      (get-cong16 q.outbuf (sub64 q.seq_nr (i + 1)) (add64 (first_seq q) (0 + n)) v (omega arith)),
)

-- The sum that `check_invariant` computes is that of the list of slots.
pub outstanding_bytes-flight :
    (q : SendQueue)
    → Window.IsValid q.outbuf
    → q.seq_nr < 2 ^ 16
    → q.cur_window_packets ≤ 1024
    → outstanding_bytes q ≡ flight (slots q)
unfolding outstanding_bytes
outstanding_bytes-flight q v w h =
    outstanding_loop-flight q.cur_window_packets 0 q v w (omega arith) h

-- The slot at position `k` of the queue.
pub get_or-slots :
    (q : SendQueue) (k : ℕ)
    → IsSound q
    → k < q.cur_window_packets
    → get_or (slots q) k none ≡ get q.outbuf (add16 (first_seq q) k)
get_or-slots q k s h =
    get_or-entries_from q.outbuf (first_seq q) 0 q.cur_window_packets k h
    ∙ get-cong16 q.outbuf (add64 (first_seq q) (0 + k)) (add16 (first_seq q) k) s.buffer
        (omega arith)

-- Writing the slot at position `k`.
pub put-slots :
    (q : SendQueue) (k : ℕ) (x : Option OutgoingPacket)
    → IsSound q
    → k < q.cur_window_packets
    → slots (record q { outbuf = put q.outbuf (add16 (first_seq q) k) x }) ≡ set (slots q) k x
put-slots q k x s h =
    ap (λ t. entries t (first_seq q) q.cur_window_packets)
      (put-cong16 q.outbuf (add16 (first_seq q) k) (add64 (first_seq q) k) x s.buffer (omega arith))
    ∙ put-entries q.outbuf (first_seq q) q.cur_window_packets k x s.buffer s.room h

AllSmall-set :
    (xs : List (Option OutgoingPacket)) (k : ℕ) (x : Option OutgoingPacket)
    → IsSmall x
    → AllSmall xs
    → AllSmall (set xs k x)
AllSmall-set [] k x h a = tt
AllSmall-set (y ∷ xs) zero x h a = (h, a.1)
AllSmall-set (y ∷ xs) (suc k) x h a = (a.0, AllSmall-set xs k x h a.1)

pub AllSmall-get_or :
    (xs : List (Option OutgoingPacket)) (k : ℕ) → AllSmall xs → IsSmall (get_or xs k none)
AllSmall-get_or [] k a = tt
AllSmall-get_or (x ∷ xs) zero a = a.0
AllSmall-get_or (x ∷ xs) (suc k) a = AllSmall-get_or xs k a.1

weight-small : (x : Option OutgoingPacket) → IsSmall x → weight x ≤ 2 ^ 32
weight-small none h = omega arith
weight-small (some pkt) h = ground arith

flight-le : (xs : List (Option OutgoingPacket)) → AllSmall xs → flight xs ≤ 2 ^ 32 * length xs
flight-le [] a = omega arith
flight-le (x ∷ xs) a = omega (arith, weight-small x a.0, flight-le xs a.1)

pub cur_window-flight : (q : SendQueue) → IsSound q → q.cur_window ≡ flight (slots q)
cur_window-flight q s = s.in_flight ∙ outstanding_bytes-flight q s.buffer s.seq_word s.packets

-- The bytes in flight of a sound queue are far from wrapping.
pub cur_window-bound : (q : SendQueue) → IsSound q → q.cur_window ≤ 2 ^ 42
cur_window-bound q s = omega (
  arith,
  cur_window-flight q s,
  flight-le (slots q) s.small,
  length-entries q.outbuf (first_seq q) q.cur_window_packets,
  s.packets,
)

-- The slots depend on three fields only.
pub slots-cong :
    (q r : SendQueue)
    → r.outbuf ≡ q.outbuf
    → r.seq_nr ≡ q.seq_nr
    → r.cur_window_packets ≡ q.cur_window_packets
    → slots r ≡ slots q
slots-cong q r b s n =
    ap (λ t. entries t (first_seq r) r.cur_window_packets) b
    ∙ ap₂ (λ x y. entries q.outbuf (sub16 x y) y) s n

-- A sound queue in which the slot at position `k` is rewritten, and the bytes in flight are adjusted
-- to the difference, is sound.
pub rewrite-IsSound :
    (q r : SendQueue) (k : ℕ) (x : Option OutgoingPacket)
    → IsSound q
    → k < q.cur_window_packets
    → IsSmall x
    → r.outbuf ≡ put q.outbuf (add16 (first_seq q) k) x
    → r.seq_nr ≡ q.seq_nr
    → r.cur_window_packets ≡ q.cur_window_packets
    → r.cur_window + weight (get q.outbuf (add16 (first_seq q) k)) ≡ q.cur_window + weight x
    → IsSound r × (slots r ≡ set (slots q) k x)
rewrite-IsSound q r k x s h hx b e n w = (
  record {
    buffer = rw b valid;
    room = rw (b, n) room_kept;
    packets = omega (arith, s.packets);
    seq_word = omega (arith, s.seq_word);
    in_flight = omega (
      arith,
      outstanding_bytes-flight r (rw b valid) (omega (arith, s.seq_word))
          (omega (arith, s.packets)),
      ap flight same,
      flight-set (slots q) k x (omega (arith, counted)),
      ap weight (get_or-slots q k s h),
      cur_window-flight q s,
    );
    small = rw same (AllSmall-set (slots q) k x hx s.small);
  },
  same,
)
  where
    valid : Window.IsValid (put q.outbuf (add16 (first_seq q) k) x)
    valid = Window.put-IsValid q.outbuf (add16 (first_seq q) k) x s.buffer

    room_kept : q.cur_window_packets ≤ (put q.outbuf (add16 (first_seq q) k) x).mask + 1
    room_kept = unfold put in s.room

    counted : length (slots q) ≡ q.cur_window_packets
    counted = length-entries q.outbuf (first_seq q) q.cur_window_packets

    same : slots r ≡ set (slots q) k x
    same =
        slots-cong (record q { outbuf = put q.outbuf (add16 (first_seq q) k) x }) r b e n
        ∙ put-slots q k x s h
