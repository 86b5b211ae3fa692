-- ===== src/Totp/Tests.antt =====
-- A secret, a counter and a truncated HMAC. The upper case map is the identity, for texts that are in
-- upper case.
use maspassword.Base.{
  ℕ, ◌*◌, ◌/◌, ◌%◌, ◌^◌, ◌≡◌, refl, List, [], ◌∷◌, Text, codes, length, is_space,
}
use maspassword.Totp.{base32_decode, indices, clean}
use maspassword.Totp.Base32.{in_base, base32_decode_number}

abbrev same : Text → Text
same s = s

hello : base32_decode same (codes "JBSW Y3DP-EE======") ≡ codes "Hello!"
unfolding base32_decode is_space
hello = refl

base32_decode_number_example :
    (in_base 256 0 (base32_decode same (codes "JBSWY3DP"))
      ≡ in_base 32 0 (indices (clean (codes "JBSWY3DP")))
        / 2 ^ (5 * length (indices (clean (codes "JBSWY3DP"))) % 8))
    × (length (base32_decode same (codes "JBSWY3DP"))
        ≡ 5 * length (indices (clean (codes "JBSWY3DP"))) / 8)
base32_decode_number_example = base32_decode_number same (codes "JBSWY3DP")

-- The HMAC of the example of RFC 4226.
abbrev hmac : List ℕ
hmac =
    0x1f ∷ 0x86 ∷ 0x98 ∷ 0x69 ∷ 0x0e ∷ 0x02 ∷ 0xca ∷ 0x16 ∷ 0x61 ∷ 0x85 ∷ 0x50 ∷ 0xef ∷ 0x7f ∷ 0x19
    ∷ 0xda ∷ 0x8e ∷ 0x94 ∷ 0x5b ∷ 0x55 ∷ 0x5a ∷ []
