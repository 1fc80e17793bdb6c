-- ===== src/Packet/Wire.antt =====
-- The header's bit fields and bytes: what is written is read back.
use go_libutp.Prelude.{ℕ, ◌/◌, ◌%◌, ◌^◌, ◌<◌, ◌≡◌, List, ◌++◌, length, arith}
use go_libutp.Packet.{
  Header, version, packet_type, set_version, set_type, encode, decode, number16, number32,
}

-- Every field fits its width.
pub record IsValid (h : Header) : Type 0 where
  pub ver_type_byte : h.ver_type < 256
  pub ext_byte : h.ext < 256
  pub connid_word : h.connid < 2 ^ 16
  pub tv_usec_word : h.tv_usec < 2 ^ 32
  pub reply_micro_word : h.reply_micro < 2 ^ 32
  pub windowsize_word : h.windowsize < 2 ^ 32
  pub seq_nr_word : h.seq_nr < 2 ^ 16
  pub ack_nr_word : h.ack_nr < 2 ^ 16

-- Setting the version leaves the type, and setting the type leaves the version; each is read back,
-- and the byte stays a byte.
pub set_type-version :
    (h : Header) (v t : ℕ)
    → h.ver_type < 256
    → v < 16
    → t < 16
    → (version (set_version h v) ≡ v)
      × (packet_type (set_version h v) ≡ packet_type h)
      × (packet_type (set_type h t) ≡ t)
      × (version (set_type h t) ≡ version h)
      × ((set_type (set_version h v) t).ver_type < 256)
unfolding version packet_type set_version set_type
set_type-version h v t b hv ht = omega arith

number16-bytes : (n : ℕ) → n < 2 ^ 16 → number16 (n / 256 % 256) (n % 256) ≡ n
unfolding number16
number16-bytes n h = omega arith

number32-bytes :
    (n : ℕ)
    → n < 2 ^ 32
    → number32 (n / 2 ^ 24 % 256) (n / 2 ^ 16 % 256) (n / 256 % 256) (n % 256) ≡ n
unfolding number32
number32-bytes n h = omega arith

-- A header written in network order and followed by any bytes takes 20 bytes and is read back.
pub decode-encode :
    (h : Header) (rest : List ℕ)
    → IsValid h
    → (decode (encode h ++ rest) ≡ h) × (length (encode h) ≡ 20)
unfolding decode encode
decode-encode h rest v = (
  ground (
    arith,
    number16-bytes h.connid v.connid_word,
    number32-bytes h.tv_usec v.tv_usec_word,
    number32-bytes h.reply_micro v.reply_micro_word,
    number32-bytes h.windowsize v.windowsize_word,
    number16-bytes h.seq_nr v.seq_nr_word,
    number16-bytes h.ack_nr v.ack_nr_word,
  ),
  omega arith,
)
