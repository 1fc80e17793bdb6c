-- ===== src/Seq/Order.antt =====
-- What `wrapping_compare_less` decides on sequence numbers and on timestamps.
use go_libutp.Prelude.{
  ℕ, ◌^◌, ◌<◌, ◌≡◌, ◌≢◌, true, false, ◌&&◌, not, ltb, add16, add32, sub32, sub16, arith,
}
use go_libutp.Seq.{wrapping_compare_less, seq_nr_mask, timestamp_mask}

-- From any sequence number `a`, the number `d` steps ahead (wrapping at 2 ^ 16) counts as later
-- exactly when `d` is positive and less than half of the number space.
pub compare_ahead16 :
    (a d : ℕ)
    → a < 2 ^ 16
    → d < 2 ^ 16
    → wrapping_compare_less a (add16 a d) seq_nr_mask ≡ (ltb 0 d && ltb d (2 ^ 15))
unfolding wrapping_compare_less
compare_ahead16 a d ha hd = ground arith

-- From any timestamp `a`, the one `d` units ahead (wrapping at 2 ^ 32) counts as later
-- exactly when `d` is positive and less than half of the clock's range.
pub compare_ahead32 :
    (a d : ℕ)
    → a < 2 ^ 32
    → d < 2 ^ 32
    → wrapping_compare_less a (add32 a d) timestamp_mask ≡ (ltb 0 d && ltb d (2 ^ 31))
unfolding wrapping_compare_less
compare_ahead32 a d ha hd = ground arith

pub compare_asym16 :
    (a b : ℕ)
    → wrapping_compare_less a b seq_nr_mask ≡ true
    → wrapping_compare_less b a seq_nr_mask ≡ false
unfolding wrapping_compare_less
compare_asym16 a b h = ground arith

-- Two sequence numbers are never each less than the other, one of them is less unless they are
-- equal or exactly half of the number space apart.
pub compare_total16 :
    (a b : ℕ)
    → a < 2 ^ 16
    → b < 2 ^ 16
    → a ≢ b
    → sub16 a b ≢ 2 ^ 15
    → wrapping_compare_less a b seq_nr_mask ≡ not (wrapping_compare_less b a seq_nr_mask)
unfolding wrapping_compare_less
compare_total16 a b ha hb ne far = ground arith

-- Moving both timestamps by one offset does not change how they compare.
pub compare_shift32 :
    (a b o : ℕ)
    → a < 2 ^ 32
    → b < 2 ^ 32
    → wrapping_compare_less (add32 a o) (add32 b o) timestamp_mask
      ≡ wrapping_compare_less a b timestamp_mask
unfolding wrapping_compare_less
compare_shift32 a b o ha hb = ground arith

-- The comparison of timestamps, in terms of the distance from `b` up to `a`.
pub compare_less32 :
    (a b : ℕ)
    → a < 2 ^ 32
    → b < 2 ^ 32
    → wrapping_compare_less a b timestamp_mask ≡ ltb (2 ^ 31) (sub32 a b)
unfolding wrapping_compare_less
compare_less32 a b ha hb = ground arith
