-- ===== src/Blake2b/Mix.antt =====
-- G on BigInts and b2bG on pairs do the same to four words, and so do the rounds.
use Prim.Native.Nat.{bit_xor}
use maspassword.Base.{ℕ, ◌≡◌, sym, ap, ◌∙◌, List, get_or, length}
use maspassword.Blake2b.Wide.{add64, rotr64, add_word, xor_rotate, add_to, mix}
use maspassword.Blake2b.Registers.{
  Apart, put, put_same, set_a, set_b, set_c, set_d, get_a, get_b, get_c, get_d,
}

-- The four words behind a call of G.
pub record Mixed : Type 0 where
  pub a : ℕ
  pub b : ℕ
  pub c : ℕ
  pub d : ℕ

abbrev pub half_mix : Mixed → ℕ → ℕ → ℕ → Mixed
half_mix q x n k =
    let a : ℕ = add64 (add64 q.a q.b) x in
    let d : ℕ = rotr64 (bit_xor q.d a) n in
    let c : ℕ = add64 q.c d in record { a = a; b = rotr64 (bit_xor q.b c) k; c = c; d = d }

abbrev pub mixed : Mixed → ℕ → ℕ → Mixed
mixed q x y = half_mix (half_mix q x 32 24) y 16 63

module _ (v : List ℕ) (a b c d : ℕ) (apart : Apart (length v) a b c d) where
  abbrev pub store : Mixed → List ℕ
  store q = put v a b c d q.a q.b q.c q.d

  -- One half of G, on the array.
  abbrev pub half : List ℕ → ℕ → ℕ → ℕ → List ℕ
  half v x n k = xor_rotate (add_to (xor_rotate (add_word v a b x) d a n) c d) b c k

  add_word-store :
      (q : Mixed) (x : ℕ)
      → add_word (store q) a b x ≡ store (record q { a = add64 (add64 q.a q.b) x })
  add_word-store q x =
      rw (get_a v a b c d apart q.a q.b q.c q.d, get_b v a b c d apart q.a q.b q.c q.d)
        (set_a v a b c d apart q.a q.b q.c q.d (add64 (add64 q.a q.b) x))

  xor_d-store :
      (q : Mixed) (n : ℕ)
      → xor_rotate (store q) d a n ≡ store (record q { d = rotr64 (bit_xor q.d q.a) n })
  xor_d-store q n =
      rw (get_a v a b c d apart q.a q.b q.c q.d, get_d v a b c d apart q.a q.b q.c q.d)
        (set_d v a b c d apart q.a q.b q.c q.d (rotr64 (bit_xor q.d q.a) n))

  add_to-store : (q : Mixed) → add_to (store q) c d ≡ store (record q { c = add64 q.c q.d })
  add_to-store q =
      rw (get_c v a b c d apart q.a q.b q.c q.d, get_d v a b c d apart q.a q.b q.c q.d)
        (set_c v a b c d apart q.a q.b q.c q.d (add64 q.c q.d))

  xor_b-store :
      (q : Mixed) (n : ℕ)
      → xor_rotate (store q) b c n ≡ store (record q { b = rotr64 (bit_xor q.b q.c) n })
  xor_b-store q n =
      rw (get_b v a b c d apart q.a q.b q.c q.d, get_c v a b c d apart q.a q.b q.c q.d)
        (set_b v a b c d apart q.a q.b q.c q.d (rotr64 (bit_xor q.b q.c) n))

  half-store : (q : Mixed) (x n k : ℕ) → half (store q) x n k ≡ store (half_mix q x n k)
  half-store q x n k =
      ap (λ t. xor_rotate (add_to (xor_rotate t d a n) c d) b c k) (add_word-store q x)
      ∙ ap (λ t. xor_rotate (add_to t c d) b c k)
          (xor_d-store (record q { a = add64 (add64 q.a q.b) x }) n)
      ∙ ap (λ t. xor_rotate t b c k) (add_to-store _)
      ∙ xor_b-store _ k

  abbrev pub load : Mixed
  load = record { a = get_or v a 0; b = get_or v b 0; c = get_or v c 0; d = get_or v d 0 }

  pub mix-mixed : (x y : ℕ) → mix v a b c d x y ≡ store (mixed load x y)
  unfolding mix
  mix-mixed x y =
      ap (λ t. half (half t x 32 24) y 16 63) (sym (put_same v a b c d))
      ∙ ap (λ t. half t y 16 63) (half-store load x 32 24)
      ∙ half-store (half_mix load x 32 24) y 16 63
