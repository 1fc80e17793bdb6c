-- ===== src/Seq.antt =====
-- utp_internal.cpp: `wrapping_compare_less` and the masks that it is called with.
pub mod Order
mod Tests
use go_libutp.Prelude.{ℕ, ◌+◌, ◌-◌, ◌%◌, ◌^◌, Bool, ltb, sub32}

-- `x & mask`. Every mask of the program is 2 ^ k - 1, so this is the remainder by 2 ^ k.
abbrev pub and_mask : ℕ → ℕ → ℕ
and_mask x mask = x % (mask + 1)

abbrev pub seq_nr_mask : ℕ
seq_nr_mask = 0xFFFF

abbrev pub ack_nr_mask : ℕ
ack_nr_mask = 0xFFFF

abbrev pub timestamp_mask : ℕ
timestamp_mask = 0xFFFFFFFF

unfoldable pub wrapping_compare_less : ℕ → ℕ → ℕ → Bool
wrapping_compare_less lhs rhs mask =
    let dist_down = and_mask (sub32 lhs rhs) mask in
    let dist_up = and_mask (sub32 rhs lhs) mask in ltb dist_up dist_down
