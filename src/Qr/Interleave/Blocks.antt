-- ===== src/Qr/Interleave/Blocks.antt =====
-- The blocks that interleave of web/qr.js cuts from the data that fill a version.
use maspassword.Base.{
  ℕ, zero, suc, ◌+◌, ◌*◌, ◌≤◌, ◌≡◌, refl, sym, ap, ◌∙◌, max, List, [], ◌∷◌, ◌++◌, length,
  length-append, length-map, length-drop, length-replicate, drop, replicate, get_or, All,
  All-append, All-map, append-nil, arith,
}
use maspassword.Qr.{blocks_in, data_codewords, group_blocks, block_list}
use maspassword.Qr.Interleave.{sizes_of, join, join-append}
use maspassword.Qr.Interleave.Cut.{sizes_of-group_blocks, join-group_blocks}

-- Blocks of two sizes have at most the larger one.
sized : (m n : ℕ) (xs : List (List ℕ)) → sizes_of xs ≡ replicate m n → All (λ b. length b ≡ n) xs
sized zero n [] e = tt
sized zero n (x ∷ xs) e = cc
sized (suc m) n [] e = cc
sized (suc m) n (x ∷ xs) e = (ap (λ l. get_or l 0 0) e, sized m n xs (ap (λ l. drop 1 l) e))

pub bounded :
    (n k : ℕ) (xs : List (List ℕ)) → n ≤ k → All (λ b. length b ≡ n) xs → All (λ b. length b ≤ k) xs
bounded n k xs le h =
    All-map (λ b. length b ≡ n) (λ b. length b ≤ k) xs (λ b e. omega (arith, e, le)) h

sizes_of-append : (xs ys : List (List ℕ)) → sizes_of (xs ++ ys) ≡ sizes_of xs ++ sizes_of ys
sizes_of-append [] ys = refl
sizes_of-append (x ∷ xs) ys = ap (λ t. length x ∷ t) (sizes_of-append xs ys)

drop_whole : (n : ℕ) (xs : List ℕ) → length xs ≡ n → drop n xs ≡ []
drop_whole zero [] e = refl
drop_whole zero (x ∷ xs) e = absurd (omega arith)
drop_whole (suc n) [] e = refl
drop_whole (suc n) (x ∷ xs) e = drop_whole n xs (omega arith)

-- The blocks of data that fill a version.
module _ (v : ℕ) (bytes : List ℕ) (size : length bytes ≡ data_codewords v) where
  first_part : List (List ℕ)
  first_part = group_blocks (blocks_in v).g1n (blocks_in v).g1d bytes

  second_part : List (List ℕ)
  second_part =
      group_blocks (blocks_in v).g2n (blocks_in v).g2d
        (drop ((blocks_in v).g1n * (blocks_in v).g1d) bytes)

  first_sizes : sizes_of first_part ≡ replicate (blocks_in v).g1n (blocks_in v).g1d
  unfolding first_part data_codewords
  first_sizes =
      sizes_of-group_blocks (blocks_in v).g1d (blocks_in v).g1n bytes (omega (arith, size))

  left_over :
      length (drop ((blocks_in v).g1n * (blocks_in v).g1d) bytes)
      ≡ (blocks_in v).g2n * (blocks_in v).g2d
  unfolding data_codewords
  left_over = omega (arith, size, length-drop ((blocks_in v).g1n * (blocks_in v).g1d) bytes)

  second_sizes : sizes_of second_part ≡ replicate (blocks_in v).g2n (blocks_in v).g2d
  unfolding second_part
  second_sizes =
      sizes_of-group_blocks (blocks_in v).g2d (blocks_in v).g2n
        (drop ((blocks_in v).g1n * (blocks_in v).g1d) bytes) (omega (arith, left_over))

  pub block_sizes :
      sizes_of (block_list bytes v)
      ≡ replicate (blocks_in v).g1n (blocks_in v).g1d
        ++ replicate (blocks_in v).g2n (blocks_in v).g2d
  unfolding first_part second_part
  block_sizes = sizes_of-append first_part second_part ∙ (λ i. first_sizes i ++ second_sizes i)

  pub block_number : length (block_list bytes v) ≡ (blocks_in v).g1n + (blocks_in v).g2n
  block_number = omega (
    arith,
    length-map (block_list bytes v) (λ b. length b),
    ap (λ t. length t) block_sizes,
    length-append (replicate (blocks_in v).g1n (blocks_in v).g1d)
        (replicate (blocks_in v).g2n (blocks_in v).g2d),
    length-replicate (blocks_in v).g1n (blocks_in v).g1d,
    length-replicate (blocks_in v).g2n (blocks_in v).g2d,
  )

  pub block_bound :
      All (λ b. length b ≤ max (blocks_in v).g1d (blocks_in v).g2d) (block_list bytes v)
  unfolding first_part second_part
  block_bound =
      All-append _ first_part second_part
        (bounded (blocks_in v).g1d _ first_part (omega arith) (sized _ _ first_part first_sizes))
        (bounded (blocks_in v).g2d _ second_part (omega arith) (sized _ _ second_part second_sizes))

  pub join-block_list : join (block_list bytes v) ≡ bytes
  unfolding first_part second_part
  join-block_list =
      let past = drop ((blocks_in v).g1n * (blocks_in v).g1d) bytes in
      let all_used : drop ((blocks_in v).g2n * (blocks_in v).g2d) past ≡ [] =
        drop_whole ((blocks_in v).g2n * (blocks_in v).g2d) past left_over in
      join-append first_part second_part
      ∙ ap (λ t. join first_part ++ t)
          (sym (append-nil (join second_part))
            ∙ ap (λ t. join second_part ++ t) (sym all_used)
            ∙ join-group_blocks (blocks_in v).g2d (blocks_in v).g2n past)
      ∙ join-group_blocks (blocks_in v).g1d (blocks_in v).g1n bytes
