-- ===== src/Mtu/Tests.antt =====
-- Runs and witnesses of path MTU discovery.
use go_libutp.Prelude.{◌+◌, ◌≤◌, ◌<◌, ◌≡◌, refl, min, true, arith}
use go_libutp.Mtu.{
  Mtu, header_size, mtu_floor_min, mtu_search_update, mtu_reset, get_packet_size, probe_acked,
  probe_lost, icmp_fragmentation, use_as_mtu_probe,
}
use go_libutp.Mtu.Range.{InOrder, mtu_reset_lem, icmp_fragmentation_lem, get_packet_size_lem}
use go_libutp.Mtu.Search.{IsFound, probe, search_path, search_path_finds}

-- As after `mtu_reset` with the default MTU for IPv4, and one lost probe of 1402 bytes.
abbrev searching : Mtu
searching = record {
  discover_time = 1_800_000;
  ceiling = 1401;
  floor = 576;
  last = 988;
  probe_seq = 0;
  probe_size = 0;
}

-- A floor of 1200 that was acknowledged, and then an ICMP message that claims less.
abbrev inverted : Mtu
inverted = record searching { ceiling = 1000; floor = 1200 }

repaired :
    ((mtu_search_update inverted 5).floor ≡ 888) × ((mtu_search_update inverted 5).last ≡ 1044)
unfolding mtu_search_update
repaired = (refl, refl)

searched : (search_path 6 searching 1300 5).last ≡ 1297
unfolding search_path probe probe_acked probe_lost mtu_search_update
searched = refl

full_packet : get_packet_size searching ≡ 968
unfolding get_packet_size
full_packet = refl

probe_of_full_packet : use_as_mtu_probe searching 988 7 0 ≡ true
unfolding use_as_mtu_probe
probe_of_full_packet = refl

searching-InOrder : InOrder searching
searching-InOrder = omega arith

mtu_reset_lem_example :
    let m' = mtu_reset searching 1402 5 in (m'.ceiling ≡ 1402) × (m'.floor ≡ min mtu_floor_min 1402)
mtu_reset_lem_example = mtu_reset_lem searching 1402 5 (omega arith)

icmp_fragmentation_lem_example :
    let m' = icmp_fragmentation searching 1280 5 in
    InOrder m'
    × (m'.ceiling ≤ 1401)
    × (576 ≤ 1280 → 1280 < 0x2000 → 1280 ≤ 1401 → 576 + 16 < 1280 → m'.last ≡ 1280)
icmp_fragmentation_lem_example = icmp_fragmentation_lem searching 1280 5 (omega arith)

get_packet_size_lem_example : get_packet_size searching + header_size ≡ 988
get_packet_size_lem_example = get_packet_size_lem searching (omega arith) (omega arith)

search_path_finds_example : IsFound (search_path 6 searching 1300 5) 1300
search_path_finds_example = search_path_finds 6 searching 1300 5 (omega arith) (omega arith)
