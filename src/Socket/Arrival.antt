-- ===== src/Socket/Arrival.antt =====
-- utp_internal.cpp: the payload of a packet that arrived, the last part of `utp_process_incoming`. The
-- packet's bytes go to the reader at once or wait in the reorder buffer.
pub mod View
pub mod Stream
pub mod Next
pub mod InOrder
pub mod Room
pub mod Later
pub mod Delivery
pub mod Frame
use go_libutp.Prelude.{
  ℕ, zero, suc, ◌+◌, ◌*◌, ◌%◌, ◌^◌, Bool, true, false, ◌&&◌, ◌||◌, not, none, some, List, [], ◌∷◌,
  ltb, ◌==◌, min, if◌then◌else◌, add16, sub16, sub32, add64, length, is_some,
}
use go_libutp.Seq.{and_mask, seq_nr_mask}
use go_libutp.CircBuf.{get, put, ensure_size, size}
use go_libutp.AckList.{schedule}
use go_libutp.Packet.{st_state, st_fin}
use go_libutp.Socket.{Env, Conn, Receive, ConnState, Event, emit_conn}
use go_libutp.Socket.{
  connected, connected_full, on_read, on_state_change, state_writable, state_eof,
}
use go_libutp.Socket.Window.{is_full}
use go_libutp.Socket.Send.{send_ack}

-- How many packets past the next expected one: `(pk_seq_nr - ack_nr - 1) & SEQ_NR_MASK`.
unfoldable pub packets_past : Receive → ℕ → ℕ
packets_past r pk_seq_nr = and_mask (sub32 (sub32 pk_seq_nr r.ack_nr) 1) seq_nr_mask

-- The socket becomes writable again when its window is no longer full.
unfoldable pub mark_writable : Conn → Conn
mark_writable c = elim c.state [
  | connected_full ↦
      let (full, c1) = is_full c none in
      if full
      then c1
      else emit_conn (record c1 { state = connected }) (on_state_change state_writable)
  | _ ↦ c
]

-- Bytes go to the reader, unless there are none or reading was shut down.
unfoldable pub deliver : Conn → List ℕ → Conn
deliver c bytes =
    if ltb 0 (length bytes) && not c.rcv.read_shutdown then emit_conn c (on_read bytes) else c

-- A FIN packet names the number of the last packet.
unfoldable pub note_fin : ℕ → ℕ → Conn → Conn
note_fin pk_flags pk_seq_nr c =
    if pk_flags == st_fin && not c.rcv.got_fin
    then record c { rcv = record c.rcv { got_fin = true; eof_pkt = pk_seq_nr } }
    else c

-- All packets up to the last one have arrived.
unfoldable pub reach_fin : Env → Conn → Conn
reach_fin env c =
    let c1 = record c {
      rcv = record c.rcv { got_fin_reached = true };
      tm = record c.tm { rto_timeout = add64 c.ctx.current_ms (min (c.tm.rto * 3 % 2 ^ 32) 60) };
    } in
    let c2 = send_ack env (emit_conn c1 (on_state_change state_eof)) in
    if not c.rcv.got_fin_reached && c.rcv.got_fin && c.rcv.eof_pkt == c.rcv.ack_nr
    then record c2 { rcv = record c2.rcv { reorder_count = 0 } }
    else c

-- The packet that waited at `ack_nr + 1` leaves the reorder buffer and goes to the reader.
unfoldable pub deliver_waiting : Conn → List ℕ → Conn
unfolding deliver
deliver_waiting c bytes =
    let cleared = record c {
      rcv = record c.rcv { inbuf = put c.rcv.inbuf (c.rcv.ack_nr + 1) none };
    } in
    let c1 = deliver cleared bytes in
    record c1 {
      rcv = record c1.rcv {
        ack_nr = add16 c1.rcv.ack_nr 1;
        reorder_count = sub16 c1.rcv.reorder_count 1;
      };
    }

-- The loop, on fuel: a round that goes on empties a slot of the reorder buffer.
unfoldable pub reorder_loop : Env → ℕ → Conn → Conn
unfolding reach_fin deliver_waiting
reorder_loop env zero c = c
reorder_loop env (suc fuel) c =
    let c1 = reach_fin env c in
    let next : Conn = elim (get c1.rcv.inbuf (c1.rcv.ack_nr + 1)) [
      | none ↦ c1
      | some bytes ↦ reorder_loop env fuel (deliver_waiting c1 bytes)
    ] in
    if c1.rcv.reorder_count == 0 then c1 else next

unfoldable pub schedule_ack : Conn → Conn
schedule_ack c = record c { ctx = record c.ctx { ack_sockets = schedule c.ctx.ack_sockets c.self } }

-- The expected packet.
unfoldable pub accept_next : Env → List ℕ → Conn → Conn
unfolding deliver reorder_loop schedule_ack
accept_next env payload c =
    let c1 = deliver c payload in
    let c2 = record c1 { rcv = record c1.rcv { ack_nr = add16 c1.rcv.ack_nr 1 } } in
    schedule_ack (reorder_loop env (size c2.rcv.inbuf + 1) c2)

-- A later packet: it waits, unless it is past the end, too far off, or here already. The answer says
-- whether it was taken.
unfoldable pub keep_later : ℕ → ℕ → List ℕ → Conn → Bool × Conn
unfolding schedule_ack
keep_later pk_seq_nr seqnr payload c =
    let inbuf = ensure_size c.rcv.inbuf (pk_seq_nr + 1) (seqnr + 1) in
    let grown = record c { rcv = record c.rcv { inbuf = inbuf } } in
    let kept = record grown {
      rcv = record grown.rcv {
        inbuf = put inbuf pk_seq_nr (some payload);
        reorder_count = add16 c.rcv.reorder_count 1;
      };
    } in
    if c.rcv.got_fin && ltb c.rcv.eof_pkt pk_seq_nr
    then (false, c)
    else (if ltb 0x3ff seqnr
        then (false, c)
        else (if is_some (get inbuf pk_seq_nr) then (false, grown) else (true, schedule_ack kept)))

unfoldable pub can_accept : ConnState → Bool
can_accept connected = true
can_accept connected_full = true
can_accept state = false

-- What is done with the payload, and the number of bytes taken.
unfoldable pub store_payload : Env → ℕ → ℕ → List ℕ → Conn → ℕ × Conn
unfolding accept_next keep_later
store_payload env pk_seq_nr seqnr payload c =
    let (taken, kept) = keep_later pk_seq_nr seqnr payload c in
    if seqnr == 0
    then (length payload, accept_next env payload c)
    else (if taken then length payload else 0, kept)

-- From the test of the writable state to the end of `utp_process_incoming`, with the number of bytes
-- that it returns. The sequence distance `seqnr` was computed before.
unfoldable pub accept_payload : Env → ℕ → ℕ → ℕ → List ℕ → Conn → ℕ × Conn
unfolding mark_writable note_fin can_accept store_payload
accept_payload env pk_flags pk_seq_nr seqnr payload c =
    let c1 = mark_writable c in
    if pk_flags == st_state || not (can_accept c1.state)
    then (0, c1)
    else store_payload env pk_seq_nr seqnr payload (note_fin pk_flags pk_seq_nr c1)
