-- ===== src/Packet/Tests.antt =====
-- Runs and witnesses of the packet header.
use go_libutp.Prelude.{◌≡◌, refl, [], ◌∷◌, ◌++◌, length, replicate, arith}
use go_libutp.Packet.{Header, encode, decode, register_packet, utp_version}
use go_libutp.Packet.Wire.{IsValid, decode-encode}

-- A SYN packet.
abbrev syn : Header
syn = record {
  ver_type = 0x41;
  ext = 0;
  connid = 0x1234;
  tv_usec = 0xdeadbeef;
  reply_micro = 0;
  windowsize = 1_048_576;
  seq_nr = 65535;
  ack_nr = 1;
}

syn-IsValid : IsValid syn
syn-IsValid = omega arith

syn_bytes :
    encode syn
    ≡ 0x41 ∷ 0 ∷ 0x12 ∷ 0x34 ∷ 0xde ∷ 0xad ∷ 0xbe ∷ 0xef ∷ 0 ∷ 0 ∷ 0 ∷ 0 ∷ 0 ∷ 0x10 ∷ 0 ∷ 0 ∷ 0xff
      ∷ 0xff ∷ 0 ∷ 1 ∷ []
unfolding encode
syn_bytes = refl

syn_version : utp_version syn ≡ 1
unfolding utp_version
syn_version = refl

counted : register_packet (replicate 5 0) 400 ≡ 0 ∷ 0 ∷ 1 ∷ 0 ∷ 0 ∷ []
unfolding register_packet
counted = refl

decode-encode_example : (decode (encode syn ++ 5 ∷ []) ≡ syn) × (length (encode syn) ≡ 20)
decode-encode_example = decode-encode syn (5 ∷ []) syn-IsValid
