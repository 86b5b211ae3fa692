-- ===== src/Argon2/Tests.antt =====
-- Products and references at concrete numbers.
use maspassword.Base.{◌+◌, ◌*◌, ◌/◌, ◌%◌, ◌^◌, ◌==◌, ◌≡◌, refl, arith}
use maspassword.Blake2b.Pairs.{Pair}
use maspassword.Blake2b.Words.{value}
use maspassword.Base.{codes}
use maspassword.Argon2.Fill.{Params}
use maspassword.Argon2.{f_bla_mka, umul_hi, Step, rel, ref_lane, ref_idx}
use maspassword.Argon2.Exact.{f_bla_mka_exact}
use maspassword.Argon2.Reference.{IsStep, OwnLane, rel_exact, ref_idx-OwnLane}

abbrev big : Pair
big = record { lo = 0xffffffff; hi = 0xfedcba98 }

f_bla_mka_exact_example :
    value (f_bla_mka big big) ≡ (value big + value big + 2 * (0xffffffff * 0xffffffff)) % 2 ^ 64
f_bla_mka_exact_example =
    f_bla_mka_exact big big (record { lo_lt = omega arith; hi_lt = omega arith })
      (record { lo_lt = omega arith; hi_lt = omega arith })

-- The third slice of the second pass, lane 1 of 2, segments of 8 blocks.
abbrev later_step : Step
later_step = record { pass = 1; slice = 2; lane = 1; idx = 0 }

later_step-IsStep : IsStep 8 2 later_step
later_step-IsStep = record {
  seg_len_ge = omega arith;
  slice_lt = omega arith;
  lane_lt = omega arith;
  idx_lt = omega arith;
  begins = λ p e. omega arith;
}

ref_idx-OwnLane_example :
    OwnLane 8 later_step (ref_idx 8 later_step (ref_lane 2 later_step 5 == 1) 0x80000000)
ref_idx-OwnLane_example = ref_idx-OwnLane 8 2 later_step later_step-IsStep 0x80000000 5 refl

rel_exact_example : rel 20 0xffffffff + 1 + 20 * umul_hi 0xffffffff / 2 ^ 32 ≡ 20
rel_exact_example = rel_exact 20 0xffffffff (omega arith)

abbrev small : Params
small = record {
  variant = 2;
  version = 0x13;
  password = codes "pw";
  salt = codes "saltsalt";
  passes = 1;
  mem_kib = 8;
  lanes = 1;
  tag_len = 8;
}
