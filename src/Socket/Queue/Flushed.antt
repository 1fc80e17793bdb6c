-- ===== src/Socket/Queue/Flushed.antt =====
-- `flush_packets`: the packets of the send queue that wait, as far as the window lets them.
use go_libutp.Prelude.{ℕ, ◌+◌, ◌^◌, ◌≤◌, ◌<◌, ◌≡◌, Bool, false, Option, none, some, List, ◌++◌}
use go_libutp.Packet.{OutgoingPacket}
use go_libutp.Socket.{Conn, SendQueue, Event}
use go_libutp.Socket.Queue.{IsSound}
use go_libutp.Socket.Queue.Round.{IsDone, slot, Round}
use go_libutp.Socket.Queue.Handled.{Handled}

-- The packet was sent fewer than 2 ^ 31 - 1 times.
abbrev pub IsFew : Option OutgoingPacket → Type 0
IsFew none = Unit {0}
IsFew (some pkt) = pkt.transmissions + 1 < 2 ^ 31

-- What the loop has done from position `k` on: `newer` are the events it added.
pub record Flushed (c : Conn) (k : ℕ) (out : Bool × Conn) : Type 0 where
  pub sound : IsSound out.1.snd
  pub seq_kept : out.1.snd.seq_nr ≡ c.snd.seq_nr
  pub packets_kept : out.1.snd.cur_window_packets ≡ c.snd.cur_window_packets
  pub before_kept : (j : ℕ) → j < k → slot out.1.snd j ≡ slot c.snd j
  pub newer : List Event
  pub grown : out.1.ctx.events ≡ newer ++ c.ctx.events
  pub handled : (j : ℕ) → k ≤ j → Handled newer (slot c.snd j) (slot out.1.snd j)
  pub sent :
      out.0 ≡ false → (j : ℕ) → k ≤ j → j + 1 < c.snd.cur_window_packets → IsDone (slot out.1.snd j)

-- The slots from position `k` on were sent a number of times that can still be counted.
abbrev pub FewFrom : SendQueue → ℕ → Type 0
FewFrom q k = (j : ℕ) → k ≤ j → IsFew (slot q j)
