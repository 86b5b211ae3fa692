-- ===== src/Argon2/Tag.antt =====
-- The sizes of the hashes of web/kdbx-read.js.
use maspassword.Base.{
  ℕ, zero, suc, ◌-◌, ◌≤◌, ◌≡◌, ◌≢◌, refl, ap, inl, inr, none, some, List, ◌++◌, length,
  length-append, length-take, take, leb, ltb, if◌then◌else◌, Bool-cases, arith,
}
use maspassword.Blake2b.Pairs.{b2b_out, blake2b}
use maspassword.Argon2.Fill.{le32, h_links, h_prime, Params, argon2_tag, argon2}

length-b2b_out : (h : List ℕ) (i n : ℕ) → length (b2b_out h i n) ≡ n
length-b2b_out h i zero = refl
length-b2b_out h i (suc n) = ap suc (length-b2b_out h (suc i) n)

length-blake2b : (input : List ℕ) (n : ℕ) → length (blake2b input n) ≡ n
unfolding blake2b
length-blake2b input n = length-b2b_out _ 0 n

-- The size of the link that comes before `rem` bytes.
abbrev link_size : ℕ → ℕ
link_size rem = if ltb 64 rem then 64 else rem

length-h_links :
    (fuel rem : ℕ) (v : List ℕ)
    → rem ≤ fuel
    → length v ≡ link_size rem
    → length (h_links fuel rem v) ≡ rem
unfolding h_links
length-h_links zero rem v le e = ground arith
length-h_links (suc fuel) rem v le e = elim (Bool-cases (ltb 64 rem)) [
  | inr last ↦ rw last (ground arith)
  | inl more ↦
      let next = blake2b v (link_size (rem - 32)) in
      let ih =
        length-h_links fuel (rem - 32) next (ground arith)
          (length-blake2b v (link_size (rem - 32))) in
      rw more (
        ground
          (arith, ih, length-append (take 32 v) (h_links fuel (rem - 32) next), length-take 32 v))
]

length-h_prime : (input : List ℕ) (n : ℕ) → length (h_prime input n) ≡ n
unfolding h_prime
length-h_prime input n = elim (Bool-cases (leb n 64)) [
  | inl small ↦ rw small (length-blake2b (le32 n ++ input) n)
  | inr large ↦ rw large (
      length-h_links n n (blake2b (le32 n ++ input) 64) (omega arith)
        (ground (arith, length-blake2b (le32 n ++ input) 64)))
]

argon2_size :
    (p : Params)
    → (p.version ≡ 0x13 → (tag : List ℕ) × (argon2 p ≡ some tag) × (length tag ≡ p.tag_len))
      × (p.version ≡ 0x10 → (tag : List ℕ) × (argon2 p ≡ some tag) × (length tag ≡ p.tag_len))
      × (p.version ≢ 0x13 → p.version ≢ 0x10 → argon2 p ≡ none)
unfolding argon2
argon2_size p = (
  λ e. (argon2_tag p, ground arith, size),
  λ e. (argon2_tag p, ground arith, size),
  λ n m. ground arith,
)
  where
    size : length (argon2_tag p) ≡ p.tag_len
    size = unfold argon2_tag in length-h_prime _ p.tag_len
