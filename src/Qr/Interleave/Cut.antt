-- ===== src/Qr/Interleave/Cut.antt =====
-- The blocks of interleave in web/qr.js: their sizes, and the data that they are cut from.
use maspassword.Base.{
  ℕ, zero, suc, ◌*◌, ◌≤◌, ◌≡◌, inl, inr, refl, ap, ◌∙◌, ◌==◌, Bool-cases, List, [], ◌∷◌, ◌++◌,
  length, length-append, length-take, length-drop, length-replicate, get_or, take, drop,
  take-append-drop, replicate, All, append_assoc, arith,
}
use maspassword.Kdbx.Bytes.{drop-drop}
use native.Mathlib.Nat.{suc-mul}
use Prim.Native.Nat.{bit_xor}
use maspassword.Qr.{group_blocks}
use maspassword.Qr.Code.{add_multiple, rs_step, rs_loop, rs_remainder, rs_generator}
use maspassword.Qr.Interleave.{sizes_of, join}

module _ (size : ℕ) where
  pub sizes_of-group_blocks :
      (n : ℕ) (bytes : List ℕ)
      → n * size ≤ length bytes
      → sizes_of (group_blocks n size bytes) ≡ replicate n size
  unfolding group_blocks
  sizes_of-group_blocks zero bytes le = refl
  sizes_of-group_blocks (suc n) bytes le =
      let one : length (take size bytes) ≡ size =
        omega (arith, length-take size bytes, suc-mul n size) in
      let others =
        sizes_of-group_blocks n (drop size bytes)
          (omega (arith, length-drop size bytes, suc-mul n size)) in
      λ i. one i ∷ others i

  pub join-group_blocks :
      (n : ℕ) (bytes : List ℕ) → join (group_blocks n size bytes) ++ drop (n * size) bytes ≡ bytes
  unfolding group_blocks join
  join-group_blocks zero bytes =
      let none_cut : zero * size ≡ 0 = omega arith in ap (λ t. drop t bytes) none_cut
  join-group_blocks (suc n) bytes =
      append_assoc (take size bytes) (join (group_blocks n size (drop size bytes)))
        (drop (suc n * size) bytes)
      ∙ ap (λ t. take size bytes ++ (join (group_blocks n size (drop size bytes)) ++ t))
          (drop-drop size (n * size) (suc n * size) bytes (omega (arith, suc-mul n size)))
      ∙ ap (λ t. take size bytes ++ t) (join-group_blocks n (drop size bytes))
      ∙ take-append-drop size bytes

-- The size of the remainder.
length-add_multiple :
    (factor : ℕ) (gen rem : List ℕ) → length (add_multiple factor gen rem) ≡ length rem
unfolding add_multiple
length-add_multiple factor [] [] = refl
length-add_multiple factor [] (r ∷ rem) = refl
length-add_multiple factor (g ∷ gen) [] = refl
length-add_multiple factor (g ∷ gen) (r ∷ rem) = ap suc (length-add_multiple factor gen rem)

length-rs_step : (gen : List ℕ) (b : ℕ) (rem : List ℕ) → length (rs_step gen b rem) ≡ length rem
unfolding rs_step
length-rs_step gen b rem = elim (Bool-cases (factor == 0)) [
  | inl zero_factor ↦ rw zero_factor (moved_size rem)
  | inr other ↦ rw other (length-add_multiple factor (drop 1 gen) (moved rem) ∙ moved_size rem)
]
  where
    factor : ℕ
    factor = bit_xor b (get_or rem 0 0)

    moved : List ℕ → List ℕ
    moved rem = drop 1 rem ++ take (length rem) (0 ∷ [])

    moved_size : (rem : List ℕ) → length (moved rem) ≡ length rem
    moved_size rem = omega (
      arith,
      length-append (drop 1 rem) (take (length rem) (0 ∷ [])),
      length-drop 1 rem,
      length-take {A = ℕ} (length rem) (0 ∷ []),
    )

length-rs_loop : (gen bytes rem : List ℕ) → length (rs_loop gen bytes rem) ≡ length rem
unfolding rs_loop
length-rs_loop gen [] rem = refl
length-rs_loop gen (b ∷ bytes) rem =
    length-rs_loop gen bytes (rs_step gen b rem) ∙ length-rs_step gen b rem

pub length-rs_remainder :
    (bytes : List ℕ) (degree : ℕ) → length (rs_remainder bytes degree) ≡ degree
unfolding rs_remainder
length-rs_remainder bytes degree =
    length-rs_loop (rs_generator degree) bytes (replicate degree 0) ∙ length-replicate degree 0

pub length-join :
    (size : ℕ) (blocks : List (List ℕ))
    → All (λ b. length b ≡ size) blocks
    → length (join blocks) ≡ length blocks * size
unfolding join
length-join size [] h = omega arith
length-join size (b ∷ blocks) h = omega (
  arith,
  length-append b (join blocks),
  h.0,
  length-join size blocks h.1,
  suc-mul (length blocks) size,
)
