-- ===== src/SockAddr/Laws.antt =====
-- Addresses are kept, and keys are compared as they should be.
use go_libutp.Prelude.{
  ℕ, ◌+◌, ◌*◌, ◌/◌, ◌%◌, ◌<◌, ◌≡◌, ◌↔◌, refl, ap, ap₂, sym, inl, inr, Bool, true, ◌&&◌, List, [],
  ◌∷◌, ==_iff, if◌then◌else◌, arith, Bool-cases,
}
use go_libutp.HashTable.{Key}
use go_libutp.SockAddr.{
  PackedSockAddr, SockAddr, inet, inet6, same_bytes, ntohs, htons, v4_prefix, set_sockaddr,
  get_sockaddr_storage, same_addr, SocketKey, same_key, key_hash,
}

pub same_bytes_iff : (xs ys : List ℕ) → (same_bytes xs ys ≡ true) ↔ (xs ≡ ys)
same_bytes_iff [] [] = (λ h. refl, λ h. refl)
same_bytes_iff [] (y ∷ ys) = (λ h. cc h, λ h. cc h)
same_bytes_iff (x ∷ xs) [] = (λ h. cc h, λ h. cc h)
same_bytes_iff (x ∷ xs) (y ∷ ys) = (
  λ h. ground (arith, same_bytes_iff xs ys, ==_iff x y),
  λ h. ground (arith, same_bytes_iff xs ys, ==_iff x y),
)

-- The bytes of a port are bytes.
abbrev pub IsPort : ℕ × ℕ → Type 0
IsPort p = p.1 < 256

-- What a stored address is given back as: without flow label and scope, and as IPv4 if it is one that
-- is mapped to IPv6.
abbrev pub plain : SockAddr → SockAddr
plain (inet addr p) = inet addr p
plain (inet6 high low p flow scope) =
    if same_bytes high v4_prefix then inet low p else inet6 high low p 0 0

abbrev pub port_of : SockAddr → ℕ × ℕ
port_of (inet addr p) = p
port_of (inet6 high low p flow scope) = p

htons-ntohs : (p : ℕ × ℕ) → IsPort p → htons (ntohs p) ≡ p
htons-ntohs (hi, lo) h =
    let high : (hi * 256 + lo) / 256 ≡ hi = omega arith in
    let low : (hi * 256 + lo) % 256 ≡ lo = omega arith in λ i. (high i, low i)

-- An address that is stored is given back as it was, an IPv4 address that was mapped to IPv6 as the
-- IPv4 address, and without the flow label and the scope; and what is given back is stored as the same.
pub get-set_sockaddr :
    (a : SockAddr)
    → IsPort (port_of a)
    → (get_sockaddr_storage (set_sockaddr a) ≡ plain a)
      × (set_sockaddr (get_sockaddr_storage (set_sockaddr a)) ≡ set_sockaddr a)
unfolding get_sockaddr_storage set_sockaddr
get-set_sockaddr (inet addr p) h = (
  ap (inet addr) (htons-ntohs p h),
  ap (λ q. record { high = v4_prefix; sin4 = addr; port = ntohs q }) (htons-ntohs p h),
)
get-set_sockaddr (inet6 high low p flow scope) h = elim (Bool-cases (same_bytes high v4_prefix)) [
  | inl mapped ↦ rw mapped (
      (
        ap (inet low) (htons-ntohs p h),
        ap₂ (λ x q. record { high = x; sin4 = low; port = ntohs q })
            (sym ((same_bytes_iff high v4_prefix).0 mapped)) (htons-ntohs p h),
      ))
  | inr other ↦ rw other (
      (
        ap (λ q. inet6 high low q 0 0) (htons-ntohs p h),
        ap (λ q. record { high = high; sin4 = low; port = ntohs q }) (htons-ntohs p h),
      ))
]

eq_of_parts : (a b : PackedSockAddr) → a.high ≡ b.high → a.sin4 ≡ b.sin4 → a.port ≡ b.port → a ≡ b
eq_of_parts a b h s p = λ i. record { high = h i; sin4 = s i; port = p i }

pub same_addr_iff : (a b : PackedSockAddr) → (same_addr a b ≡ true) ↔ (a ≡ b)
unfolding same_addr
same_addr_iff a b = (
  λ h.
      let (ports, highs, lows) = three h in
      eq_of_parts a b ((same_bytes_iff a.high b.high).0 highs)
        ((same_bytes_iff a.sin4 b.sin4).0 lows) ((==_iff a.port b.port).0 ports),
  λ e.
      rw
        (
          (==_iff a.port b.port).1 (ap (λ (x : PackedSockAddr). x.port) e),
          (same_bytes_iff a.high b.high).1 (ap (λ (x : PackedSockAddr). x.high) e),
          (same_bytes_iff a.sin4 b.sin4).1 (ap (λ (x : PackedSockAddr). x.sin4) e),
        )
        refl,
)
  where
    three : {x y z : Bool} → (x && (y && z)) ≡ true → (x ≡ true) × (y ≡ true) × (z ≡ true)
    three {x} {y} {z} h = ground arith

pub same_key_iff : (a b : SocketKey) → (same_key a b ≡ true) ↔ (a ≡ b)
unfolding same_key
same_key_iff a b = (
  λ h.
      let (ids, addrs) = two h in
      λ i. record {
        addr = (same_addr_iff a.addr b.addr).0 addrs i;
        recv_id = (==_iff a.recv_id b.recv_id).0 ids i;
      },
  λ e.
      rw
        (
          (==_iff a.recv_id b.recv_id).1 (ap (λ (x : SocketKey). x.recv_id) e),
          (same_addr_iff a.addr b.addr).1 (ap (λ (x : SocketKey). x.addr) e),
        )
        refl,
)
  where
    two : {x y : Bool} → (x && y) ≡ true → (x ≡ true) × (y ≡ true)
    two {x} {y} h = ground arith

-- The keys of the table of sockets: an identifier at an address.
abbrev pub socket_key : Key
socket_key = record {
  Carrier = SocketKey;
  compute_hash = key_hash;
  same = same_key;
  same_iff = same_key_iff;
}
