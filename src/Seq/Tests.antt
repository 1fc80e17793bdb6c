-- ===== src/Seq/Tests.antt =====
-- Runs and witnesses of the wrapping comparison.
use go_libutp.Prelude.{◌^◌, ◌≡◌, refl, true, ◌&&◌, ltb, add16, arith}
use go_libutp.Seq.{wrapping_compare_less, seq_nr_mask}
use go_libutp.Seq.Order.{compare_ahead16}

-- 65535 comes before 3.
wrapped : wrapping_compare_less 65535 3 seq_nr_mask ≡ true
unfolding wrapping_compare_less
wrapped = refl

compare_ahead16_example :
    wrapping_compare_less 65535 (add16 65535 4) seq_nr_mask ≡ (ltb 0 4 && ltb 4 (2 ^ 15))
compare_ahead16_example = compare_ahead16 65535 4 (omega arith) (omega arith)
