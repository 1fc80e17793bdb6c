-- ===== src/SockAddr/Tests.antt =====
-- Witnesses of the addresses.
use go_libutp.Prelude.{◌≡◌, refl, [], ◌∷◌, arith}
use go_libutp.SockAddr.{
  SockAddr, inet, inet6, set_sockaddr, get_sockaddr_storage, v4_prefix, utp_hash_mem, hash_loop,
}
use go_libutp.SockAddr.Laws.{get-set_sockaddr}

-- An IPv4 address, mapped to IPv6.
abbrev mapped : SockAddr
mapped = inet6 v4_prefix (127 ∷ 0 ∷ 0 ∷ 1 ∷ []) (31, 144) 9 2

get-set_sockaddr_example :
    (get_sockaddr_storage (set_sockaddr mapped) ≡ inet (127 ∷ 0 ∷ 0 ∷ 1 ∷ []) (31, 144))
    × (set_sockaddr (get_sockaddr_storage (set_sockaddr mapped)) ≡ set_sockaddr mapped)
get-set_sockaddr_example = get-set_sockaddr mapped (omega arith)

-- A word and two bytes.
hashed : utp_hash_mem (1 ∷ 0 ∷ 0 ∷ 0 ∷ 2 ∷ 3 ∷ []) ≡ 0x20020300
unfolding utp_hash_mem hash_loop
hashed = refl
