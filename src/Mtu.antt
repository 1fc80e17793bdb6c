-- ===== src/Mtu.antt =====
-- utp_internal.cpp: path MTU discovery. `mtu_search_update`, `mtu_reset`, `get_packet_size`, and what
-- the packet handlers do to the search when a probe is sent, acknowledged or lost, or when an ICMP
-- message tells of a smaller MTU. The fields are those of `UTPSocket` with the prefix `mtu_`.
pub mod Search
pub mod Range
mod Tests
use go_libutp.Prelude.{
  ℕ, zero, suc, ◌+◌, ◌-◌, ◌*◌, ◌/◌, ◌%◌, ◌^◌, Bool, true, false, ◌&&◌, not, ltb, leb, ◌==◌, min,
  if◌then◌else◌, add32, sub32, add64, sub64, sub16,
}
use go_libutp.Seq.{and_mask, ack_nr_mask}

abbrev pub mtu_floor_min : ℕ
mtu_floor_min = 576

-- `sizeof(PacketFormatV1)`
abbrev pub header_size : ℕ
header_size = 20

-- 30 minutes
abbrev pub discover_interval : ℕ
discover_interval = 30 * 60 * 1000

pub record Mtu : Type 0 where
  pub discover_time : ℕ
  pub ceiling : ℕ
  pub floor : ℕ
  pub last : ℕ
  pub probe_seq : ℕ
  pub probe_size : ℕ

-- The repair of a range whose floor is above its ceiling.
unfoldable pub repair : Mtu → Mtu
repair m =
    if ltb m.ceiling m.floor
    then record m {
      ceiling = m.floor;
      floor = if ltb mtu_floor_min m.floor then add32 mtu_floor_min m.floor / 2 else m.floor;
    }
    else m

-- `now` is the clock in milliseconds, which the source reads only when the search is done.
unfoldable pub bisect : Mtu → ℕ → Mtu
bisect m now =
    if leb (sub32 m.ceiling m.floor) 16
    then record m {
      last = m.floor;
      probe_seq = 0;
      probe_size = 0;
      ceiling = m.floor;
      discover_time = add64 now discover_interval;
    }
    else record m { last = add32 m.floor m.ceiling / 2; probe_seq = 0; probe_size = 0 }

unfoldable pub mtu_search_update : Mtu → ℕ → Mtu
unfolding repair bisect
mtu_search_update m now = bisect (repair m) now

-- The callback's answer is truncated to 32 bits.
unfoldable pub mtu_reset : Mtu → ℕ → ℕ → Mtu
mtu_reset m udp_mtu now =
    let ceiling = udp_mtu % 2 ^ 32 in
    record m {
      ceiling = ceiling;
      floor = if ltb ceiling mtu_floor_min then ceiling else mtu_floor_min;
      discover_time = add64 now discover_interval;
    }

unfoldable pub get_packet_size : Mtu → ℕ
get_packet_size m = sub64 (if m.last == 0 then m.ceiling else m.last) header_size

-- In `send_packet`: may this packet serve as a probe?
unfoldable pub use_as_mtu_probe : Mtu → ℕ → ℕ → ℕ → Bool
use_as_mtu_probe m length seq_nr transmissions =
    ltb m.floor m.ceiling
    && ltb m.floor length
    && leb length m.ceiling
    && m.probe_seq == 0
    && not (seq_nr == 1)
    && transmissions == 0

-- `seq_nr` has been incremented for this packet already.
unfoldable pub start_probe : Mtu → ℕ → ℕ → Mtu
start_probe m length seq_nr = record m {
  probe_seq = and_mask (sub32 seq_nr 1) ack_nr_mask;
  probe_size = length % 2 ^ 32;
}

-- The probe was acknowledged.
unfoldable pub probe_acked : Mtu → ℕ → Mtu
probe_acked m now = mtu_search_update (record m { floor = m.probe_size }) now

-- The probe timed out, or duplicate acknowledgments show that it was lost.
unfoldable pub probe_lost : Mtu → ℕ → Mtu
probe_lost m now = mtu_search_update (record m { ceiling = sub32 m.probe_size 1 }) now

-- `utp_process_icmp_fragmentation`, once the connection is found.
unfoldable pub icmp_fragmentation : Mtu → ℕ → ℕ → Mtu
icmp_fragmentation m next_hop_mtu now =
    if leb 576 next_hop_mtu && ltb next_hop_mtu 0x2000
    then (let m' = mtu_search_update (record m { ceiling = min next_hop_mtu m.ceiling }) now in
        record m' { last = m'.ceiling })
    else mtu_search_update (record m { ceiling = add32 m.floor m.ceiling / 2 }) now
