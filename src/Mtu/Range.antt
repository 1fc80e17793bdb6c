-- ===== src/Mtu/Range.antt =====
-- The range of the MTU search stays in order, whatever a probe or an ICMP message does to it.
use go_libutp.Prelude.{ℕ, ◌+◌, ◌^◌, ◌≤◌, ◌<◌, ◌≡◌, ◌⊎◌, min, max, arith}
use go_libutp.Mtu.{
  Mtu, header_size, mtu_floor_min, mtu_search_update, mtu_reset, get_packet_size, probe_lost,
  icmp_fragmentation,
}

-- The sizes are such that no sum of two wraps.
pub record IsSmall (m : Mtu) : Type 0 where
  pub floor_small : m.floor < 2 ^ 31
  pub ceiling_small : m.ceiling < 2 ^ 31

-- The range is in order and the size in use lies in it.
pub record InOrder (m : Mtu) : Type 0 where
  pub range : m.floor ≤ m.ceiling
  pub last_low : m.floor ≤ m.last
  pub last_high : m.last ≤ m.ceiling
  pub small : m.ceiling < 2 ^ 31

-- Any floor and ceiling, in either order, give a search in order: the size in use lies between the
-- new floor and ceiling, neither leaves the span of the old ones nor (if they were above it) falls
-- below 576, no probe is outstanding, and a range of at most 16 closes on its floor.
pub mtu_search_update_lem :
    (m : Mtu) (now : ℕ)
    → IsSmall m
    → let m' = mtu_search_update m now in
      InOrder m'
      × (m'.ceiling ≤ max m.floor m.ceiling)
      × (min (min m.floor m.ceiling) mtu_floor_min ≤ m'.floor)
      × (m'.probe_seq ≡ 0)
      × (m'.probe_size ≡ 0)
      × ((m'.ceiling ≡ m'.floor) ⊎ (m'.floor + 16 < m'.ceiling))
unfolding mtu_search_update
mtu_search_update_lem m now s = ground arith

-- After a reset the range is in order: the ceiling is the interface's MTU, and the floor is 576 or the
-- ceiling, whichever is less.
pub mtu_reset_lem :
    (m : Mtu) (udp_mtu now : ℕ)
    → udp_mtu < 2 ^ 32
    → let m' = mtu_reset m udp_mtu now in
      (m'.ceiling ≡ udp_mtu) × (m'.floor ≡ min mtu_floor_min udp_mtu)
unfolding mtu_reset
mtu_reset_lem m udp_mtu now h = ground arith

-- A lost probe lowers the ceiling below the size of the probe, unless the floor had reached that size.
pub probe_lost_lem :
    (m : Mtu) (now : ℕ)
    → IsSmall m
    → 0 < m.probe_size
    → m.probe_size < 2 ^ 31
    → InOrder (probe_lost m now)
      × (m.floor < m.probe_size → (probe_lost m now).ceiling < m.probe_size)
unfolding probe_lost mtu_search_update
probe_lost_lem m now s p q = ground arith

-- Whatever MTU an ICMP message claims, the search stays in order, its ceiling rises above neither the
-- old floor nor the old ceiling, and a claim that is believed and not below the floor is the size
-- used next (or the floor, when it is at most 16 above it).
pub icmp_fragmentation_lem :
    (m : Mtu) (next_hop_mtu now : ℕ)
    → InOrder m
    → let m' = icmp_fragmentation m next_hop_mtu now in
      InOrder m'
      × (m'.ceiling ≤ m.ceiling)
      × (576 ≤ next_hop_mtu
          → next_hop_mtu < 0x2000
          → next_hop_mtu ≤ m.ceiling
          → m.floor + 16 < next_hop_mtu
          → m'.last ≡ next_hop_mtu)
unfolding icmp_fragmentation mtu_search_update
icmp_fragmentation_lem m next_hop_mtu now s = ground arith

-- The payload of a full packet and its header make up the size in use.
pub get_packet_size_lem :
    (m : Mtu) → InOrder m → header_size ≤ m.floor → get_packet_size m + header_size ≡ m.last
unfolding get_packet_size
get_packet_size_lem m o h = ground arith
