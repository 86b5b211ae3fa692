-- ===== src/Qr/Interleave.antt =====
-- interleave of web/qr.js: a reader that deals the codewords out to the blocks gets them back.
pub mod Cut
pub mod Blocks
pub mod Checks
use maspassword.Base.{
  ℕ, zero, suc, ◌+◌, ◌-◌, ◌*◌, ◌<◌, ◌≤◌, ◌≡◌, inl, inr, refl, sym, ap, ◌∙◌, min, max, true, false,
  ltb, if◌then◌else◌, Bool-cases, List, [], ◌∷◌, ◌++◌, map, length, length-append, get_or, take,
  drop, replicate, All, append_assoc, append-nil, arith,
}
use maspassword.Qr.{group_blocks, column, columns, write_over}

-- The first item of `xs`, with what is behind it.
abbrev uncons : List ℕ → ℕ × List ℕ
uncons [] = (0, [])
uncons (x ∷ xs) = (x, xs)

-- One round: each block that is longer than `i` gets one item.
unfoldable pub read_column : ℕ → List ℕ → List (List ℕ) → List ℕ → List (List ℕ) × List ℕ
read_column i (n ∷ sizes) (b ∷ blocks) xs =
    let (x, behind) = uncons xs in
    let got = read_column i sizes blocks behind in
    let passed = read_column i sizes blocks xs in
    if ltb i n then ((b ++ x ∷ []) ∷ got.0, got.1) else (b ∷ passed.0, passed.1)
read_column i sizes blocks xs = ([], xs)

unfoldable pub read_columns : ℕ → ℕ → List ℕ → List (List ℕ) → List ℕ → List (List ℕ) × List ℕ
read_columns zero i sizes blocks xs = (blocks, xs)
read_columns (suc n) i sizes blocks xs =
    let r = read_column i sizes blocks xs in read_columns n (suc i) sizes r.0 r.1

abbrev pub sizes_of : List (List ℕ) → List ℕ
sizes_of = map length

take-grow : (i : ℕ) (b : List ℕ) → i < length b → take i b ++ get_or b i 0 ∷ [] ≡ take (suc i) b
take-grow i [] h = absurd (omega arith)
take-grow zero (x ∷ b) h = refl
take-grow (suc i) (x ∷ b) h = ap (λ t. x ∷ t) (take-grow i b (omega arith))

take-whole : (i : ℕ) (b : List ℕ) → length b ≤ i → take i b ≡ b
take-whole zero [] h = refl
take-whole zero (x ∷ b) h = absurd (omega arith)
take-whole (suc i) [] h = refl
take-whole (suc i) (x ∷ b) h = ap (λ t. x ∷ t) (take-whole i b (omega arith))

read_column-column :
    (i : ℕ) (blocks : List (List ℕ)) (rest : List ℕ)
    → read_column i (sizes_of blocks) (map (take i) blocks) (column i blocks ++ rest)
      ≡ (map (take (suc i)) blocks, rest)
unfolding read_column column
read_column-column i [] rest = refl
read_column-column i (b ∷ blocks) rest =
    let ih = read_column-column i blocks rest in
    elim (Bool-cases (ltb i (length b))) [
      | inl longer ↦ rw longer (λ j. (take-grow i b (ground arith) j ∷ (ih j).0, (ih j).1))
      | inr ended ↦ rw ended (λ j. (
        (take-whole i b (ground arith) ∙ sym (take-whole (suc i) b (ground arith))) j ∷ (ih j).0,
        (ih j).1,
      ))
    ]

read_columns-columns :
    (n i : ℕ) (blocks : List (List ℕ)) (rest : List ℕ)
    → read_columns n i (sizes_of blocks) (map (take i) blocks) (columns n i blocks ++ rest)
      ≡ (map (take (i + n)) blocks, rest)
unfolding read_columns columns
read_columns-columns zero i blocks rest =
    let same : i ≡ i + 0 = omega arith in λ j. (map (take (same j)) blocks, rest)
read_columns-columns (suc n) i blocks rest =
    let later = columns n (suc i) blocks in
    let one =
      ap (read_column i (sizes_of blocks) (map (take i) blocks))
        (append_assoc (column i blocks) later rest)
      ∙ read_column-column i blocks (later ++ rest) in
    let same : suc i + n ≡ i + suc n = omega arith in
    ap (λ r. read_columns n (suc i) (sizes_of blocks) r.0 r.1) one
    ∙ read_columns-columns n (suc i) blocks rest
    ∙ (λ j. (map (take (same j)) blocks, rest))

-- With as many rounds as the longest block has items, the blocks are back.
take-blocks :
    (n : ℕ) (blocks : List (List ℕ)) → All (λ b. length b ≤ n) blocks → map (take n) blocks ≡ blocks
take-blocks n [] h = refl
take-blocks n (b ∷ blocks) h = λ j. take-whole n b h.0 j ∷ take-blocks n blocks h.1 j

empties : (blocks : List (List ℕ)) → map (take 0) blocks ≡ replicate (length blocks) []
empties [] = refl
empties (b ∷ blocks) = ap (λ t. [] ∷ t) (empties blocks)

pub read_columns_all :
    (n : ℕ) (blocks : List (List ℕ)) (rest : List ℕ)
    → All (λ b. length b ≤ n) blocks
    → read_columns n 0 (sizes_of blocks) (replicate (length blocks) []) (columns n 0 blocks ++ rest)
      ≡ (blocks, rest)
read_columns_all n blocks rest h =
    let zero_more : 0 + n ≡ n = omega arith in
    ap (λ t. read_columns n 0 (sizes_of blocks) t (columns n 0 blocks ++ rest))
      (sym (empties blocks))
    ∙ read_columns-columns n 0 blocks rest
    ∙ (λ j. ((ap (λ t. map (take t) blocks) zero_more ∙ take-blocks n blocks h) j, rest))

-- The items of all blocks, in order.
unfoldable pub join : List (List ℕ) → List ℕ
join [] = []
join (b ∷ blocks) = b ++ join blocks

pub join-append : (xs ys : List (List ℕ)) → join (xs ++ ys) ≡ join xs ++ join ys
unfolding join
join-append [] ys = refl
join-append (b ∷ xs) ys =
    ap (λ t. b ++ t) (join-append xs ys) ∙ sym (append_assoc b (join xs) (join ys))

-- How many items the first `i` rounds deal out.
dealt : ℕ → List (List ℕ) → ℕ
dealt i [] = 0
dealt i (b ∷ blocks) = min i (length b) + dealt i blocks

length-column :
    (i : ℕ) (blocks : List (List ℕ))
    → length (column i blocks) + dealt i blocks ≡ dealt (suc i) blocks
unfolding column dealt
length-column i [] = refl
length-column i (b ∷ blocks) =
    let ih = length-column i blocks in
    elim (Bool-cases (ltb i (length b))) [
      | inl longer ↦ rw longer (ground (arith, ih))
      | inr ended ↦ rw ended (ground (arith, ih))
    ]

length-columns-dealt :
    (n i : ℕ) (blocks : List (List ℕ))
    → length (columns n i blocks) + dealt i blocks ≡ dealt (i + n) blocks
unfolding columns
length-columns-dealt zero i blocks =
    let same : i ≡ i + 0 = omega arith in omega (arith, ap (λ t. dealt t blocks) same)
length-columns-dealt (suc n) i blocks =
    let same : suc i + n ≡ i + suc n = omega arith in
    omega (
      arith,
      length-append (column i blocks) (columns n (suc i) blocks),
      length-column i blocks,
      length-columns-dealt n (suc i) blocks,
      ap (λ t. dealt t blocks) same,
    )

dealt-start : (blocks : List (List ℕ)) → dealt 0 blocks ≡ 0
unfolding dealt
dealt-start [] = refl
dealt-start (b ∷ blocks) = omega (arith, dealt-start blocks)

dealt-join :
    (n : ℕ) (blocks : List (List ℕ))
    → All (λ b. length b ≤ n) blocks
    → dealt n blocks ≡ length (join blocks)
unfolding dealt join
dealt-join n [] h = refl
dealt-join n (b ∷ blocks) h =
    omega (arith, dealt-join n blocks h.1, h.0, length-append b (join blocks))

pub length-columns :
    (n : ℕ) (blocks : List (List ℕ))
    → All (λ b. length b ≤ n) blocks
    → length (columns n 0 blocks) ≡ length (join blocks)
length-columns n blocks h =
    let same : 0 + n ≡ n = omega arith in
    omega (
      arith,
      length-columns-dealt n 0 blocks,
      dealt-start blocks,
      dealt-join n blocks h,
      ap (λ t. dealt t blocks) same,
    )

-- What was written over a list of its own length replaces it.
pub write_over-all : (out xs : List ℕ) → length out ≡ length xs → write_over out xs ≡ xs
unfolding write_over
write_over-all [] [] e = refl
write_over-all [] (x ∷ xs) e = absurd (omega arith)
write_over-all (o ∷ out) [] e = absurd (omega arith)
write_over-all (o ∷ out) (x ∷ xs) e = ap (λ t. x ∷ t) (write_over-all out xs (omega arith))
