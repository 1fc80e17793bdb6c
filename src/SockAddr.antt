-- ===== src/SockAddr.antt =====
-- utp_packedsockaddr.cpp, utp_packedsockaddr.h: addresses of the other end. utp_hash.cpp: `utp_hash_mem`.
-- utp_internal.h: `UTPSocketKey`, the key of the table of sockets.
-- An IPv4 address stands in the last four bytes of the sixteen, behind a fixed prefix.
pub mod Laws
mod Tests
use go_libutp.Prelude.{
  ℕ, zero, suc, ◌+◌, ◌-◌, ◌*◌, ◌/◌, ◌%◌, ◌^◌, Bool, true, false, ◌&&◌, List, [], ◌∷◌, ◌++◌, ◌==◌,
  if◌then◌else◌, replicate, bit_xor, take, drop,
}

-- `memcmp(a, b, n) == 0`, for blocks of one size.
abbrev pub same_bytes : List ℕ → List ℕ → Bool
same_bytes [] [] = true
same_bytes (x ∷ xs) (y ∷ ys) = x == y && same_bytes xs ys
same_bytes [] (y ∷ ys) = false
same_bytes (x ∷ xs) [] = false

-- The sixteen bytes: the first twelve, and the four of `_sin4`. The port is in host order.
pub record PackedSockAddr : Type 0 where
  pub high : List ℕ
  pub sin4 : List ℕ
  pub port : ℕ

-- A port in network order: the high byte and the low one.
abbrev pub ntohs : ℕ × ℕ → ℕ
ntohs (hi, lo) = hi * 256 + lo

abbrev pub htons : ℕ → ℕ × ℕ
htons p = (p / 256, p % 256)

-- `sockaddr_storage`, with the members of `sockaddr_in` or `sockaddr_in6`.
pub data SockAddr : Type 0 where
  inet : List ℕ → ℕ × ℕ → SockAddr
  -- the first twelve bytes of the address, the last four, the port, the flow label and the scope
  inet6 : List ℕ → List ℕ → ℕ × ℕ → ℕ → ℕ → SockAddr

-- The prefix of an IPv4 address that is mapped to IPv6.
abbrev pub v4_prefix : List ℕ
v4_prefix = replicate 10 0 ++ 0xFF ∷ 0xFF ∷ []

-- `get_family`: true for `AF_INET`.
unfoldable pub is_v4 : PackedSockAddr → Bool
is_v4 a = same_bytes a.high v4_prefix

unfoldable pub set_sockaddr : SockAddr → PackedSockAddr
set_sockaddr (inet addr p) = record { high = v4_prefix; sin4 = addr; port = ntohs p }
set_sockaddr (inet6 high low p flow scope) = record { high = high; sin4 = low; port = ntohs p }

unfoldable pub get_sockaddr_storage : PackedSockAddr → SockAddr
unfolding is_v4
get_sockaddr_storage a =
    if is_v4 a then inet a.sin4 (htons a.port) else inet6 a.high a.sin4 (htons a.port) 0 0

-- `operator==`.
unfoldable pub same_addr : PackedSockAddr → PackedSockAddr → Bool
same_addr a b = a.port == b.port && (same_bytes a.high b.high && same_bytes a.sin4 b.sin4)

-- A rotation of a 32-bit word to the left: `(h << k) | (h >> (32 - k))`.
abbrev pub rotate : ℕ → ℕ → ℕ
rotate k h = h * 2 ^ k % 2 ^ 32 + h / 2 ^ (32 - k)

-- `Read32`, on a little-endian host.
abbrev pub read32 : ℕ → ℕ → ℕ → ℕ → ℕ
read32 a b c d = a + 2 ^ 8 * b + 2 ^ 16 * c + 2 ^ 24 * d

-- The bytes after the last whole word.
abbrev pub hash_byte : ℕ → ℕ → ℕ
hash_byte h a = rotate 8 (bit_xor h a)

-- The loops of `utp_hash_mem`, from the hash so far.
unfoldable pub hash_loop : ℕ → List ℕ → ℕ
hash_loop h [] = h
hash_loop h (a ∷ []) = hash_byte h a
hash_loop h (a ∷ b ∷ []) = hash_byte (hash_byte h a) b
hash_loop h (a ∷ b ∷ c ∷ []) = hash_byte (hash_byte (hash_byte h a) b) c
hash_loop h (a ∷ b ∷ c ∷ d ∷ rest) = hash_loop (rotate 13 (bit_xor h (read32 a b c d))) rest

unfoldable pub utp_hash_mem : List ℕ → ℕ
unfolding hash_loop
utp_hash_mem bytes = hash_loop 0 bytes

unfoldable pub addr_hash : PackedSockAddr → ℕ
unfolding utp_hash_mem
addr_hash a = bit_xor (utp_hash_mem (a.high ++ a.sin4)) a.port

-- `UTPSocketKey`.
pub record SocketKey : Type 0 where
  pub addr : PackedSockAddr
  pub recv_id : ℕ

unfoldable pub same_key : SocketKey → SocketKey → Bool
unfolding same_addr
same_key a b = a.recv_id == b.recv_id && same_addr a.addr b.addr

unfoldable pub key_hash : SocketKey → ℕ
unfolding addr_hash
key_hash k = bit_xor k.recv_id (addr_hash k.addr)
