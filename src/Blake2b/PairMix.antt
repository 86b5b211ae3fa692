-- ===== src/Blake2b/PairMix.antt =====
-- b2bG on pairs is G on the words that they are.
use Prim.Native.Nat.{bit_xor}
use maspassword.Base.{ℕ, ◌*◌, ◌≡◌, sym, ap, ◌∙◌, List, get_or, set, length, arith}
use maspassword.Blake2b.Wide.{add64, rotr64, mix}
use maspassword.Blake2b.Pairs.{
  Pair, read, write, plus2, plus3, xor_pair, rotr_32, rotr_24, rotr_16, rotr_63, b2b_g,
}
use maspassword.Blake2b.Words.{
  value, IsPair, Rotates, plus2-IsPair, plus3-IsPair, value-plus2, value-plus3, xor_pair-IsPair,
  value-xor_pair, rotr_32-Rotates, rotr_24-Rotates, rotr_16-Rotates, rotr_63-Rotates,
}
use maspassword.Blake2b.Arrays.{
  words, Small, get_or-words, words-write, read-IsPair, write-Small, length-write, length-words,
}
use maspassword.Blake2b.Registers.{Apart, put}
use maspassword.Blake2b.Mix.{Mixed, half_mix, mixed, store, load, mix-mixed}

record Quad : Type 0 where
  a : Pair
  b : Pair
  c : Pair
  d : Pair

record IsQuad (q : Quad) : Type 0 where
  a : IsPair q.a
  b : IsPair q.b
  c : IsPair q.c
  d : IsPair q.d

abbrev values : Quad → Mixed
values q = record { a = value q.a; b = value q.b; c = value q.c; d = value q.d }

abbrev half_quad : (Pair → Pair) → (Pair → Pair) → Quad → Pair → Quad
half_quad f g q x =
    let a1 : Pair = plus3 q.a q.b x in
    let d1 : Pair = f (xor_pair q.d a1) in
    let c1 : Pair = plus2 q.c d1 in record { a = a1; b = g (xor_pair q.b c1); c = c1; d = d1 }

module _ {f g : Pair → Pair} {n k : ℕ} (rf : Rotates f n) (rg : Rotates g k) where
  half_quad-IsQuad : (q : Quad) (x : Pair) → IsQuad q → IsQuad (half_quad f g q x)
  half_quad-IsQuad q x h =
      let a = plus3-IsPair q.a q.b x in
      let d = rf.pair _ (xor_pair-IsPair q.d _ h.d a) in
      let c = plus2-IsPair q.c (half_quad f g q x).d in
      record { a = a; b = rg.pair _ (xor_pair-IsPair q.b _ h.b c); c = c; d = d }

  rotated :
      {r : Pair → Pair} {m : ℕ}
      → Rotates r m
      → (p q : Pair) → IsPair p
      → IsPair q
      → value (r (xor_pair p q)) ≡ rotr64 (bit_xor (value p) (value q)) m
  rotated {m} rot p q hp hq =
      rot.word (xor_pair p q) (xor_pair-IsPair p q hp hq)
      ∙ ap (λ t. rotr64 t m) (value-xor_pair p q hp hq)

  values-half_quad :
      (q : Quad) (x : Pair)
      → IsQuad q
      → values (half_quad f g q x) ≡ half_mix (values q) (value x) n k
  values-half_quad q x h = λ i. record { a = a_eq i; b = b_eq i; c = c_eq i; d = d_eq i }
    where
      out : Quad
      out = half_quad f g q x

      out-IsQuad : IsQuad out
      out-IsQuad = half_quad-IsQuad q x h

      words_out : Mixed
      words_out = half_mix (values q) (value x) n k

      a_eq : value out.a ≡ words_out.a
      a_eq = value-plus3 q.a q.b x

      d_eq : value out.d ≡ words_out.d
      d_eq = rotated rf q.d out.a h.d out-IsQuad.a ∙ ap (λ t. rotr64 (bit_xor (value q.d) t) n) a_eq

      c_eq : value out.c ≡ words_out.c
      c_eq = value-plus2 q.c out.d ∙ ap (add64 (value q.c)) d_eq

      b_eq : value out.b ≡ words_out.b
      b_eq = rotated rg q.b out.c h.b out-IsQuad.c ∙ ap (λ t. rotr64 (bit_xor (value q.b) t) k) c_eq

abbrev write_quad : List ℕ → ℕ → ℕ → ℕ → ℕ → Quad → List ℕ
write_quad v a b c d q = write (write (write (write v a q.a) b q.b) c q.c) d q.d

-- An array of `2 n` halves, in range.
pub record IsArray (n : ℕ) (v : List ℕ) : Type 0 where
  pub size : length v ≡ 2 * n
  pub small : Small v

pub write-IsArray :
    (n : ℕ) (v : List ℕ) (i : ℕ) (x : Pair) → IsArray n v → IsPair x → IsArray n (write v i x)
write-IsArray n v i x h k = record {
  size = length-write v i x ∙ h.size;
  small = write-Small v i x h.small k;
}

module _ (v : List ℕ) (a b c d : ℕ) (array : IsArray 16 v) (apart : Apart 16 a b c d) (q : Quad)
    (quad : IsQuad q) where
  written_a : IsArray 16 (write v a q.a)
  written_a = write-IsArray 16 v a q.a array quad.a

  written_b : IsArray 16 (write (write v a q.a) b q.b)
  written_b = write-IsArray 16 _ b q.b written_a quad.b

  written_c : IsArray 16 (write (write (write v a q.a) b q.b) c q.c)
  written_c = write-IsArray 16 _ c q.c written_b quad.c

  write_quad-IsArray : IsArray 16 (write_quad v a b c d q)
  write_quad-IsArray = write-IsArray 16 _ d q.d written_c quad.d

  words-write_quad :
      words (write_quad v a b c d q)
      ≡ put (words v) a b c d (value q.a) (value q.b) (value q.c) (value q.d)
  words-write_quad =
      words-write _ d q.d (omega (arith, apart.d_lt, written_c.size))
      ∙ ap (λ t. set t d (value q.d))
          (words-write _ c q.c (omega (arith, apart.c_lt, written_b.size))
            ∙ ap (λ t. set t c (value q.c))
                (words-write _ b q.b (omega (arith, apart.b_lt, written_a.size))
                  ∙ ap (λ t. set t b (value q.b))
                      (words-write v a q.a (omega (arith, apart.a_lt, array.size)))))

abbrev read_quad : List ℕ → ℕ → ℕ → ℕ → ℕ → Quad
read_quad v a b c d = record { a = read v a; b = read v b; c = read v c; d = read v d }

module _ (v m : List ℕ) (a b c d x y : ℕ) (array : IsArray 16 v) (small : Small m)
    (apart : Apart 16 a b c d) where
  abbrev start : Quad
  start = read_quad v a b c d

  start-IsQuad : IsQuad start
  start-IsQuad = record {
    a = read-IsPair v a array.small;
    b = read-IsPair v b array.small;
    c = read-IsPair v c array.small;
    d = read-IsPair v d array.small;
  }

  abbrev middle : Quad
  middle = half_quad rotr_32 rotr_24 start (read m x)

  middle-IsQuad : IsQuad middle
  middle-IsQuad = half_quad-IsQuad rotr_32-Rotates rotr_24-Rotates start (read m x) start-IsQuad

  abbrev done : Quad
  done = half_quad rotr_16 rotr_63 middle (read m y)

  done-IsQuad : IsQuad done
  done-IsQuad = half_quad-IsQuad rotr_16-Rotates rotr_63-Rotates middle (read m y) middle-IsQuad

  pub b2b_g-IsArray : IsArray 16 (b2b_g v m a b c d x y)
  unfolding b2b_g
  b2b_g-IsArray = write_quad-IsArray v a b c d array apart done done-IsQuad

  places : Apart (length (words v)) a b c d
  places = rw (length-words v 16 array.size) apart

  values-start : values start ≡ load (words v) a b c d places
  values-start = λ i. record {
    a = sym (get_or-words v a) i;
    b = sym (get_or-words v b) i;
    c = sym (get_or-words v c) i;
    d = sym (get_or-words v d) i;
  }

  values-done :
      values done
      ≡ mixed (load (words v) a b c d places) (get_or (words m) x 0) (get_or (words m) y 0)
  values-done =
      values-half_quad rotr_16-Rotates rotr_63-Rotates middle (read m y) middle-IsQuad
      ∙ ap (λ t. half_mix (values middle) t 16 63) (sym (get_or-words m y))
      ∙ ap (λ q. half_mix q (get_or (words m) y 0) 16 63)
          (values-half_quad rotr_32-Rotates rotr_24-Rotates start (read m x) start-IsQuad
            ∙ ap (λ t. half_mix (values start) t 32 24) (sym (get_or-words m x))
            ∙ ap (λ q. half_mix q (get_or (words m) x 0) 32 24) values-start)

  pub words-b2b_g :
      words (b2b_g v m a b c d x y)
      ≡ mix (words v) a b c d (get_or (words m) x 0) (get_or (words m) y 0)
  unfolding b2b_g
  words-b2b_g =
      words-write_quad v a b c d array apart done done-IsQuad
      ∙ ap (store (words v) a b c d places) values-done
      ∙ sym (mix-mixed (words v) a b c d places (get_or (words m) x 0) (get_or (words m) y 0))
