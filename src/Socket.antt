-- ===== src/Socket.antt =====
-- utp_internal.cpp, utp_internal.h: the state of a connection, `UTPSocket`, with the parts of its context
-- (`struct_utp_context`) that its functions read and write. The source's flat structure is cut into
-- the records below by what the fields serve; every field keeps its name. Fields for logging and
-- debugging builds are left out.
pub mod Window
pub mod Send
pub mod Ack
pub mod Queue
pub mod Arrival
pub mod Timeout
pub mod Control
pub mod Written
pub mod Delay
pub mod Ccontrol
pub mod Extension
pub mod Incoming
pub mod Writev
pub mod Opening
pub mod Teardown
pub mod Tests
use go_libutp.Prelude.{
  ℕ, zero, suc, ◌+◌, Bool, true, false, Option, none, some, List, [], ◌∷◌, if◌then◌else◌, ◌==◌,
}
use go_libutp.Prelude.Int.{ℤ}
use go_libutp.CircBuf.{CircBuf}
use go_libutp.DelayHist.{DelayHist}
use go_libutp.AckList.{AckList}
use go_libutp.Mtu.{Mtu}
use go_libutp.Packet.{Header, OutgoingPacket}

-- `CONN_STATE`.
pub data ConnState : Type 0 where
  uninitialized idle syn_sent syn_recv connected connected_full reset destroy : ConnState

-- The order of the enumeration, for `state >= CS_CONNECTED`.
abbrev pub state_rank : ConnState → ℕ
state_rank uninitialized = 0
state_rank idle = 1
state_rank syn_sent = 2
state_rank syn_recv = 3
state_rank connected = 4
state_rank connected_full = 5
state_rank reset = 6
state_rank destroy = 7

abbrev pub is_state : ConnState → ConnState → Bool
is_state s t = state_rank s == state_rank t

-- `bandwidth_type_t`.
pub data Bandwidth : Type 0 where
  payload_bandwidth connect_overhead close_overhead ack_overhead header_overhead
        retransmit_overhead :
      Bandwidth

-- The error codes and the states that the callbacks are given.
pub data ErrorCode : Type 0 where
  econnrefused econnreset etimedout : ErrorCode

pub data StateChange : Type 0 where
  state_connect state_writable state_eof state_destroying : StateChange

-- What a function tells the world through the callbacks.
pub data Event : Type 0 where
  -- header, the bytes after it, the datagram's length, flags
  sendto : Header → List ℕ → ℕ → ℕ → Event
  on_overhead_statistics : Bool → ℕ → Bandwidth → Event
  on_error : ErrorCode → Event
  on_state_change : StateChange → Event
  on_connect : Event
  on_read : List ℕ → Event
  on_delay_sample : ℤ → Event
  on_accept : Event

-- What the callbacks answer. Each call has a number, and any answer is possible at any call: the
-- functions are arbitrary. A number may be skipped where the source makes a call on one branch only.
pub record Env : Type 0 where
  pub get_milliseconds : ℕ → ℕ
  pub get_microseconds : ℕ → ℕ
  pub get_read_buffer_size : ℕ → ℕ
  pub get_udp_mtu : ℕ → ℕ
  pub get_udp_overhead : ℕ → ℕ
  pub get_random : ℕ → ℕ
  pub on_firewall : ℕ → Bool

-- The context. `calls` numbers the next call of a callback, `events` are those made, newest first.
pub record Context : Type 0 where
  pub current_ms : ℕ
  pub ack_sockets : AckList
  pub raw_send : List ℕ
  pub raw_recv : List ℕ
  pub has_on_connect : Bool
  pub has_overhead_statistics : Bool
  pub calls : ℕ
  pub events : List Event

-- The send queue: the packets from `seq_nr - cur_window_packets` to `seq_nr - 1`.
pub record SendQueue : Type 0 where
  pub outbuf : CircBuf OutgoingPacket
  pub seq_nr : ℕ
  pub cur_window_packets : ℕ
  pub cur_window : ℕ
  pub duplicate_ack : ℕ
  pub fast_resend_seq_nr : ℕ
  pub timeout_seq_nr : ℕ
  pub fast_timeout : Bool
  pub retransmit_count : ℕ

-- The receiving side. A packet in the reorder buffer is its payload's bytes.
pub record Receive : Type 0 where
  pub inbuf : CircBuf (List ℕ)
  pub ack_nr : ℕ
  pub reorder_count : ℕ
  pub got_fin : Bool
  pub got_fin_reached : Bool
  pub eof_pkt : ℕ
  pub read_shutdown : Bool
  pub opt_rcvbuf : ℕ
  pub last_rcv_win : ℕ
  pub extensions : List ℕ

-- The congestion window.
pub record Congestion : Type 0 where
  pub max_window : ℕ
  pub max_window_user : ℕ
  pub opt_sndbuf : ℕ
  pub target_delay : ℕ
  pub last_rwin_decay : ℕ
  pub last_maxed_out_window : ℕ
  pub slow_start : Bool
  pub ssthresh : ℕ

-- Round trip times and timers.
pub record Timers : Type 0 where
  pub rtt : ℕ
  pub rtt_var : ℕ
  pub rto : ℕ
  pub rtt_hist : DelayHist
  pub retransmit_timeout : ℕ
  pub rto_timeout : ℕ
  pub zerowindow_time : ℕ
  pub last_got_packet : ℕ
  pub last_sent_packet : ℕ
  pub last_measured_delay : ℕ

-- One-way delays. Those that the source keeps in signed integers are bit patterns here.
pub record Delays : Type 0 where
  pub our_hist : DelayHist
  pub their_hist : DelayHist
  pub reply_micro : ℕ

-- The average of the delay samples of the last five seconds, and the clock drift seen in its slope.
pub record Drift : Type 0 where
  pub average_delay : ℤ
  pub current_delay_sum : ℤ
  pub current_delay_samples : ℕ
  pub average_delay_base : ℕ
  pub average_sample_time : ℕ
  pub clock_drift : ℤ
  pub clock_drift_raw : ℤ

pub record Ids : Type 0 where
  pub conn_seed : ℕ
  pub conn_id_recv : ℕ
  pub conn_id_send : ℕ

-- A socket, `self`, with its context.
pub record Conn : Type 0 where
  pub self : ℕ
  pub ctx : Context
  pub ids : Ids
  pub state : ConnState
  pub fin_sent : Bool
  pub fin_sent_acked : Bool
  pub close_requested : Bool
  pub snd : SendQueue
  pub rcv : Receive
  pub cwnd : Congestion
  pub tm : Timers
  pub dl : Delays
  pub drift : Drift
  pub mtu : Mtu

-- A callback is called: the event is noted.
abbrev pub emit : Context → Event → Context
emit ctx e = record ctx { events = e ∷ ctx.events }

abbrev pub emit_conn : Conn → Event → Conn
emit_conn c e = record c { ctx = emit c.ctx e }
