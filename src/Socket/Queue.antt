-- ===== src/Socket/Queue.antt =====
-- utp_internal.cpp: the send queue as a list, and the bytes in flight (`check_invariant`).
pub mod View
pub mod Acked
pub mod Resent
pub mod Handled
pub mod Round
pub mod Flushed
pub mod Tidy
pub mod Moves
pub mod Selective
use go_libutp.Prelude.{
  ℕ, zero, suc, ◌+◌, ◌<◌, ◌≤◌, ◌^◌, ◌≡◌, ◌≢◌, ◌⊎◌, Bool, true, false, ◌||◌, Option, none, some,
  List, [], ◌∷◌, if◌then◌else◌, ◌==◌, sub16, sub64,
}
use go_libutp.CircBuf.{CircBuf, get}
use go_libutp.CircBuf.Entries.{entries}
use go_libutp.CircBuf.Window
use go_libutp.Packet.{OutgoingPacket}
use go_libutp.Socket.{SendQueue}

-- The bytes of a packet that count as in flight: of one that was sent and is not to be sent again.
abbrev pub weight : Option OutgoingPacket → ℕ
weight none = 0
weight (some pkt) = if pkt.transmissions == 0 || pkt.need_resend then 0 else pkt.payload

-- The loop of `check_invariant`, for `n` more packets from the `i`-th newest on.
unfoldable pub outstanding_loop : ℕ → ℕ → SendQueue → ℕ
outstanding_loop zero i q = 0
outstanding_loop (suc n) i q =
    weight (get q.outbuf (sub64 q.seq_nr (i + 1))) + outstanding_loop n (suc i) q

unfoldable pub outstanding_bytes : SendQueue → ℕ
unfolding outstanding_loop
outstanding_bytes q = outstanding_loop q.cur_window_packets 0 q

-- The index of the oldest packet.
abbrev pub first_seq : SendQueue → ℕ
first_seq q = sub16 q.seq_nr q.cur_window_packets

-- The slots of the queue, the oldest packet first.
abbrev pub slots : SendQueue → List (Option OutgoingPacket)
slots q = entries q.outbuf (first_seq q) q.cur_window_packets

-- A payload is far below 2 ^ 32 bytes: a packet fits a datagram.
abbrev pub IsSmall : Option OutgoingPacket → Type 0
IsSmall none = Unit {0}
IsSmall (some pkt) = pkt.payload < 2 ^ 32

abbrev pub AllSmall : List (Option OutgoingPacket) → Type 0
AllSmall [] = Unit {0}
AllSmall (x ∷ xs) = IsSmall x × AllSmall xs

-- What every operation on the send queue keeps: the buffer is well formed and has room for the window,
-- the counters are in range, `cur_window` is what `check_invariant` asserts, and every payload is small.
pub record IsSound (q : SendQueue) : Type 0 where
  pub buffer : Window.IsValid q.outbuf
  pub room : q.cur_window_packets ≤ q.outbuf.mask + 1
  pub packets : q.cur_window_packets ≤ 1024
  pub seq_word : q.seq_nr < 2 ^ 16
  pub in_flight : q.cur_window ≡ outstanding_bytes q
  pub small : AllSmall (slots q)
