-- ===== src/Qr/Interleave/Checks.antt =====
-- The check codewords of interleave in web/qr.js, and its codewords as a reader takes them.
use maspassword.Base.{
  ℕ, ◌+◌, ◌*◌, ◌<◌, ◌≤◌, ◌≡◌, refl, sym, ap, ◌∙◌, max, Bool, true, ◌==◌, List, [], ◌∷◌, ◌++◌, map,
  length, length-append, length-map, length-replicate, replicate, All, append-nil, arith,
}
use maspassword.Qr.{blocks_in, data_codewords, columns, block_list, interleave}
use maspassword.Qr.Code.{rs_remainder}
use maspassword.Qr.Interleave.Blocks.{
  bounded, block_sizes, block_number, block_bound, join-block_list,
}
use maspassword.Qr.Encode.Version.{tested, of_tested}
use maspassword.Qr.Interleave.{
  read_columns, read_columns_all, sizes_of, join, length-columns, write_over-all,
}
use maspassword.Qr.Interleave.Cut.{length-rs_remainder, length-join}

block_count : ℕ → ℕ
block_count v = let b = blocks_in v in b.g1n + b.g2n

-- The table is consistent: the codewords are those of the data and of the checks.
consistent : ℕ → Bool
consistent v = let b = blocks_in v in (b.total == data_codewords v + (b.g1n + b.g2n) * b.ecc)

all_consistent : tested consistent 15 ≡ true
unfolding tested consistent data_codewords
all_consistent = refl

total-codewords :
    (v : ℕ)
    → 0 < v
    → v ≤ 15
    → (blocks_in v).total ≡ data_codewords v + block_count v * (blocks_in v).ecc
unfolding consistent block_count
total-codewords v lo hi = let e = of_tested consistent 15 v all_consistent lo hi in ground arith

-- A reader deals the codewords out to the blocks of the version, first the data, then the checks.
unfoldable pub read_blocks : ℕ → List ℕ → List (List ℕ) × List (List ℕ)
read_blocks v codewords =
    let b = blocks_in v in
    let n = b.g1n + b.g2n in
    let got =
      read_columns (max b.g1d b.g2d) 0 (replicate b.g1n b.g1d ++ replicate b.g2n b.g2d)
        (replicate n []) codewords in
    (got.0, (read_columns b.ecc 0 (replicate n b.ecc) (replicate n []) got.1).0)

module _ (v : ℕ) (bytes : List ℕ) (size : length bytes ≡ data_codewords v) where
  checks : List (List ℕ)
  checks = map (λ block. rs_remainder block (blocks_in v).ecc) (block_list bytes v)

  equal_checks :
      (blocks : List (List ℕ))
      → All
          (λ b. length b ≡ (blocks_in v).ecc)
          (map (λ block. rs_remainder block (blocks_in v).ecc) blocks)
  equal_checks [] = tt
  equal_checks (block ∷ blocks) = (length-rs_remainder block (blocks_in v).ecc, equal_checks blocks)

  written : List ℕ
  written =
      columns (max (blocks_in v).g1d (blocks_in v).g2d) 0 (block_list bytes v)
      ++ columns (blocks_in v).ecc 0 checks

  check_number : length checks ≡ (blocks_in v).g1n + (blocks_in v).g2n
  unfolding checks
  check_number = length-map (block_list bytes v) _ ∙ (block_number v bytes size)

  check_bound : All (λ b. length b ≤ (blocks_in v).ecc) checks
  unfolding checks
  check_bound =
      bounded (blocks_in v).ecc (blocks_in v).ecc _ (omega arith)
        (equal_checks (block_list bytes v))

  length-written :
      length written
      ≡ data_codewords v + ((blocks_in v).g1n + (blocks_in v).g2n) * (blocks_in v).ecc
  unfolding written
  length-written =
      length-append (columns (max (blocks_in v).g1d (blocks_in v).g2d) 0 (block_list bytes v))
        (columns (blocks_in v).ecc 0 checks)
      ∙ (λ i.
          length-columns (max (blocks_in v).g1d (blocks_in v).g2d) (block_list bytes v)
            (block_bound v bytes size) i
          + length-columns (blocks_in v).ecc checks check_bound i)
      ∙ (λ i.
          (ap (λ t. length t) (join-block_list v bytes size) ∙ size) i
          + (joined_checks ∙ ap (λ t. t * (blocks_in v).ecc) check_number) i)
    where
      joined_checks : length (join checks) ≡ length checks * (blocks_in v).ecc
      joined_checks =
          unfold checks in length-join (blocks_in v).ecc _ (equal_checks (block_list bytes v))

  equal_sizes :
      (xs : List (List ℕ))
      → All (λ b. length b ≡ (blocks_in v).ecc) xs
      → sizes_of xs ≡ replicate (length xs) (blocks_in v).ecc
  equal_sizes [] h = refl
  equal_sizes (x ∷ xs) h = λ i. h.0 i ∷ equal_sizes xs h.1 i

  check_sizes :
      sizes_of checks ≡ replicate ((blocks_in v).g1n + (blocks_in v).g2n) (blocks_in v).ecc
  unfolding checks
  check_sizes =
      equal_sizes checks (equal_checks (block_list bytes v))
      ∙ ap (λ n. replicate n (blocks_in v).ecc) check_number

  interleaved : 0 < v → v ≤ 15 → interleave bytes v ≡ written
  unfolding interleave written checks block_count
  interleaved lo hi =
      write_over-all (replicate (blocks_in v).total 0) written
        (length-replicate (blocks_in v).total 0 ∙ total-codewords v lo hi ∙ sym length-written)

  pub length-interleave : 0 < v → v ≤ 15 → length (interleave bytes v) ≡ (blocks_in v).total
  unfolding block_count
  length-interleave lo hi =
      ap (λ t. length t) (interleaved lo hi) ∙ length-written ∙ sym (total-codewords v lo hi)

  -- The blocks are read back, each with the remainder of the code.
  pub read_blocks-interleave :
      0 < v
      → v ≤ 15
      → read_blocks v (interleave bytes v) ≡ (
        block_list bytes v,
        map (λ block. rs_remainder block (blocks_in v).ecc) (block_list bytes v),
      )
  unfolding read_blocks checks written
  read_blocks-interleave lo hi =
      let m = max (blocks_in v).g1d (blocks_in v).g2d in
      let n = (blocks_in v).g1n + (blocks_in v).g2n in
      let ecc = (blocks_in v).ecc in
      let data_read : read_columns m 0
            (replicate (blocks_in v).g1n (blocks_in v).g1d
              ++ replicate (blocks_in v).g2n (blocks_in v).g2d)
            (replicate n []) (interleave bytes v)
          ≡ (block_list bytes v, columns ecc 0 checks) =
        (λ i.
          read_columns m 0 (sym (block_sizes v bytes size) i)
            (replicate (sym (block_number v bytes size) i) []) (interleaved lo hi i))
        ∙ read_columns_all m (block_list bytes v) (columns ecc 0 checks)
            (block_bound v bytes size) in
      let checks_read : read_columns ecc 0 (replicate n ecc) (replicate n []) (columns ecc 0 checks)
          ≡ (checks, []) =
        (λ i.
          read_columns ecc 0 (sym check_sizes i) (replicate (sym check_number i) [])
            (sym (append-nil (columns ecc 0 checks)) i))
        ∙ read_columns_all ecc checks [] check_bound in
      ap (λ r. (r.0, (read_columns ecc 0 (replicate n ecc) (replicate n []) r.1).0)) data_read
      ∙ ap (λ r. (block_list bytes v, r.0)) checks_read
