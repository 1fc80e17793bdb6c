-- ===== src/Socket/Queue/Handled.antt =====
-- What one call of `flush_packets` does to a slot of the send queue.
use go_libutp.Prelude.{ℕ, ◌+◌, ◌≡◌, ◌∙◌, ap, sym, true, false, Option, some, List, ◌∷◌, ◌++◌}
use mathlib.Core.List.{append_assoc}
use go_libutp.Packet.{OutgoingPacket}
use go_libutp.Socket.{Event, sendto}
use go_libutp.Socket.Send.{is_waiting}

-- `now` is the packet after it was sent once more, with its payload untouched.
pub record IsResent (pkt now : OutgoingPacket) : Type 0 where
  pub counted : now.transmissions ≡ pkt.transmissions + 1
  pub current : now.need_resend ≡ false
  pub unchanged : (now.bytes ≡ pkt.bytes) × (now.payload ≡ pkt.payload)

-- The slot is as it was, or the packet in it, which waited, is there still, and among the events
-- `newer` is the datagram with its header and its bytes.
pub data Handled (newer : List Event) (before after : Option OutgoingPacket) : Type 0 where
  kept : after ≡ before → Handled newer before after
  went :
      (pkt now : OutgoingPacket) (flags : ℕ) (later earlier : List Event)
      → before ≡ some pkt
      → is_waiting pkt ≡ true
      → after ≡ some now
      → IsResent pkt now
      → newer ≡ later ++ (sendto now.header pkt.bytes pkt.length flags ∷ earlier)
      → Handled newer before after

-- Events that come after the datagram.
pub Handled-before :
    (newest newer : List Event) {before after : Option OutgoingPacket}
    → Handled newer before after
    → Handled (newest ++ newer) before after
Handled-before newest newer (kept same) = kept same
Handled-before newest newer (went pkt now flags later earlier was waits is resent there) =
    went pkt now flags (newest ++ later) earlier was waits is resent
      (ap (λ t. newest ++ t) there ∙ sym (append_assoc newest later _))

-- Events that came before the datagram.
pub Handled-after :
    (newer oldest : List Event) {before after : Option OutgoingPacket}
    → Handled newer before after
    → Handled (newer ++ oldest) before after
Handled-after newer oldest (kept same) = kept same
Handled-after newer oldest (went pkt now flags later earlier was waits is resent there) =
    went pkt now flags later (earlier ++ oldest) was waits is resent
      (ap (λ t. t ++ oldest) there ∙ append_assoc later _ oldest)
