-- ===== src/Socket/Arrival/Stream.antt =====
-- What the reader has been given, against what the other end sent.
use go_libutp.Prelude.{
  ℕ, zero, suc, ◌+◌, ◌<◌, ◌^◌, ◌≡◌, false, Option, none, some, List, [], ◌∷◌, ◌++◌,
}
use go_libutp.CircBuf.{get}
use go_libutp.CircBuf.Window
use go_libutp.Socket.{Event, Conn, Receive, on_read}
use go_libutp.Socket.Arrival.View.{occupied, waiting}

-- The bytes given to the reader by a list of events, newest first.
abbrev pub stream : List Event → List ℕ
stream [] = []
stream (on_read bytes ∷ events) = stream events ++ bytes
stream (event ∷ events) = stream events

-- The bytes of the first `n` packets of a sender.
abbrev pub message : (ℕ → List ℕ) → ℕ → List ℕ
message packets zero = []
message packets (suc n) = message packets n ++ packets n

-- Every packet that waits is the sender's packet of its place, counted from `n`.
abbrev pub Genuine : (ℕ → List ℕ) → ℕ → List (Option (List ℕ)) → Type 0
Genuine packets n [] = Unit {0}
Genuine packets n (none ∷ xs) = Genuine packets (suc n) xs
Genuine packets n (some x ∷ xs) = (x ≡ packets n) × Genuine packets (suc n) xs

-- The connection has received the first `n` packets of `packets`, and given their bytes to the reader:
-- the next packet it expects is number `n`. No FIN has come, and reading was not shut down.
pub record HasReceived (packets : ℕ → List ℕ) (n : ℕ) (r : Receive) (events : List Event)
    : Type 0 where
  pub buffer : Window.IsValid r.inbuf
  pub ack_word : r.ack_nr < 2 ^ 16
  pub counted : r.reorder_count ≡ occupied (waiting r)
  pub genuine : Genuine packets n (waiting r)
  pub reader : stream events ≡ message packets n
  pub no_fin : r.got_fin ≡ false
  pub reading : r.read_shutdown ≡ false

-- The same between two packets: the next packet expected does not wait in the reorder buffer.
abbrev pub IsUpToDate : (ℕ → List ℕ) → ℕ → Conn → Type 0
IsUpToDate packets n c =
    HasReceived packets n c.rcv c.ctx.events × (get c.rcv.inbuf (c.rcv.ack_nr + 1) ≡ none)
