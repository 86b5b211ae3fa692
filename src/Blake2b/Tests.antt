-- ===== src/Blake2b/Tests.antt =====
-- Digests of short inputs.
use maspassword.Base.{ℕ, List, some, codes, ◌≡◌, refl, arith}
use maspassword.Blake2b.Wide.{fold_in, iv_halves, round, add64, sigma, load64, rotr64}
use maspassword.Blake2b.Context.{start, init, update, final, blake2b256_hex}
use maspassword.Blake2b.Pairs.{blake2b}
use maspassword.Blake2b.Digest.{blake2b_digest}

abbrev abc : List ℕ
abc = codes "abc"

-- The digest of "abc" that RFC 7693's function has for 32 bytes.
wide_abc :
    blake2b256_hex abc
    ≡ some (codes "bddd813c634239723171ef3fee98579b94964e3bb1cb3e427262c8c068d52319")
unfolding blake2b256_hex fold_in iv_halves round start add64 sigma load64 rotr64
wide_abc = refl

blake2b_digest_example : final (update (init 32) abc) ≡ some (blake2b abc 32)
blake2b_digest_example = blake2b_digest abc 32 (omega arith) (omega arith) (omega arith)
