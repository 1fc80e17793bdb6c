-- ===== src/Packet.antt =====
-- utp_internal.cpp: the packet header `PacketFormatV1`, its bit fields and its bytes in network order
-- (utp_templates.h, `big_endian`), the sizes by which packets are counted, and `OutgoingPacket`.
pub mod Wire
mod Tests
use go_libutp.Prelude.{
  ℕ, zero, suc, ◌+◌, ◌-◌, ◌*◌, ◌/◌, ◌%◌, ◌^◌, Bool, true, false, ◌&&◌, Option, none, some, List, [],
  ◌∷◌, ◌++◌, ltb, leb, if◌then◌else◌, get_or, set,
}

-- The packet types.
abbrev pub st_data : ℕ
st_data = 0

abbrev pub st_fin : ℕ
st_fin = 1

abbrev pub st_state : ℕ
st_state = 2

abbrev pub st_reset : ℕ
st_reset = 3

abbrev pub st_syn : ℕ
st_syn = 4

abbrev pub st_num_states : ℕ
st_num_states = 5

pub record Header : Type 0 where
  pub ver_type : ℕ
  pub ext : ℕ
  pub connid : ℕ
  pub tv_usec : ℕ
  pub reply_micro : ℕ
  pub windowsize : ℕ
  pub seq_nr : ℕ
  pub ack_nr : ℕ

-- `ver_type & 0xf` and `ver_type >> 4`.
unfoldable pub version : Header → ℕ
version h = h.ver_type % 16

unfoldable pub packet_type : Header → ℕ
packet_type h = h.ver_type / 16

-- `(ver_type & 0xf0) | (v & 0xf)` and `(ver_type & 0xf) | (t << 4)`, on a byte: the two halves of the
-- disjunction have no bit in common, so it is a sum.
unfoldable pub set_version : Header → ℕ → Header
set_version h v = record h { ver_type = h.ver_type / 16 * 16 % 256 + v % 16 }

unfoldable pub set_type : Header → ℕ → Header
set_type h t = record h { ver_type = h.ver_type % 16 + t * 16 % 256 }

-- A header of zeroes, as by `zeromem`.
abbrev pub zero_header : Header
zero_header = record {
  ver_type = 0;
  ext = 0;
  connid = 0;
  tv_usec = 0;
  reply_micro = 0;
  windowsize = 0;
  seq_nr = 0;
  ack_nr = 0;
}

-- `UTP_Version`: 0 for what is no packet of version 1.
unfoldable pub utp_version : Header → ℕ
unfolding version packet_type
utp_version h = if ltb (packet_type h) st_num_states && ltb h.ext 3 then version h else 0

-- The bytes of a number in network order.
unfoldable pub bytes16 : ℕ → List ℕ
bytes16 n = n / 256 % 256 ∷ n % 256 ∷ []

unfoldable pub bytes32 : ℕ → List ℕ
bytes32 n = n / 2 ^ 24 % 256 ∷ n / 2 ^ 16 % 256 ∷ n / 256 % 256 ∷ n % 256 ∷ []

-- The 20 bytes of the header.
unfoldable pub encode : Header → List ℕ
unfolding bytes16 bytes32
encode h =
    h.ver_type % 256
    ∷ h.ext % 256
    ∷ (bytes16 h.connid
        ++ (bytes32 h.tv_usec
            ++ (bytes32 h.reply_micro
                ++ (bytes32 h.windowsize ++ (bytes16 h.seq_nr ++ bytes16 h.ack_nr)))))

unfoldable pub number16 : ℕ → ℕ → ℕ
number16 a b = a * 256 + b

unfoldable pub number32 : ℕ → ℕ → ℕ → ℕ → ℕ
number32 a b c d = a * 2 ^ 24 + b * 2 ^ 16 + c * 256 + d

-- The header read from a buffer at byte `i`; the caller has checked that 20 bytes are there.
unfoldable pub decode : List ℕ → Header
unfolding number16 number32
decode b =
    let at = λ (i : ℕ). get_or b i 0 in
    record {
      ver_type = at 0;
      ext = at 1;
      connid = number16 (at 2) (at 3);
      tv_usec = number32 (at 4) (at 5) (at 6) (at 7);
      reply_micro = number32 (at 8) (at 9) (at 10) (at 11);
      windowsize = number32 (at 12) (at 13) (at 14) (at 15);
      seq_nr = number16 (at 16) (at 17);
      ack_nr = number16 (at 18) (at 19);
    }

-- `OutgoingPacket`: `data` is the header and the payload's bytes.
pub record OutgoingPacket : Type 0 where
  pub length : ℕ
  pub payload : ℕ
  pub time_sent : ℕ
  pub transmissions : ℕ
  pub need_resend : Bool
  pub header : Header
  pub bytes : List ℕ

-- The five buckets of packet sizes.
abbrev pub packet_size_empty : ℕ
packet_size_empty = 23

abbrev pub packet_size_small : ℕ
packet_size_small = 373

abbrev pub packet_size_mid : ℕ
packet_size_mid = 723

abbrev pub packet_size_big : ℕ
packet_size_big = 1400

unfoldable pub size_bucket : ℕ → ℕ
size_bucket length =
    if leb length packet_size_mid
    then (if leb length packet_size_empty
        then 0
        else (if leb length packet_size_small then 1 else 2))
    else (if leb length packet_size_big then 3 else 4)

-- `utp_register_sent_packet` and `utp_register_recv_packet`: one count for each bucket, `uint32`.
unfoldable pub register_packet : List ℕ → ℕ → List ℕ
unfolding size_bucket
register_packet counts length =
    let i = size_bucket length in set counts i ((get_or counts i 0 + 1) % 2 ^ 32)
