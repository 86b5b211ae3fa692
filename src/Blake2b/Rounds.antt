-- ===== src/Blake2b/Rounds.antt =====
-- The twelve rounds on pairs are those on BigInts.
use mathlib.Core.Path.{subst}
use maspassword.Base.{
  ℕ, ◌%◌, Bool, true, ◌&&◌, not, ◌==◌, ltb, ◌≡◌, refl, ap, ◌∙◌, List, [], ◌∷◌, get_or, All, arith,
}
use maspassword.Blake2b.Wide.{mix, round, rounds, twelve, sigma}
use maspassword.Blake2b.Pairs.{b2b_g, b2b_round, b2b_rounds, b2b_sigma}
use maspassword.Blake2b.Arrays.{words, Small}
use maspassword.Blake2b.Registers.{Apart}
use maspassword.Blake2b.PairMix.{IsArray, b2b_g-IsArray, words-b2b_g}

abbrev all_apart : ℕ → ℕ → ℕ → ℕ → ℕ → Bool
all_apart n a b c d =
    ltb a n
    && (ltb b n
        && (ltb c n
            && (ltb d n
                && (not (a == b)
                    && (not (a == c)
                        && (not (a == d) && (not (b == c) && (not (b == d) && not (c == d)))))))))

Apart_of : (n a b c d : ℕ) → all_apart n a b c d ≡ true → Apart n a b c d
Apart_of n a b c d h = record {
  a_lt = ground arith;
  b_lt = ground arith;
  c_lt = ground arith;
  d_lt = ground arith;
  ab = ground arith;
  ac = ground arith;
  ad = ground arith;
  bc = ground arith;
  bd = ground arith;
  cd = ground arith;
}

-- An array of pairs that stands for the words.
pub record Same (p v : List ℕ) : Type 0 where
  pub array : IsArray 16 p
  pub eq : words p ≡ v

module _ (m : List ℕ) (small : Small m) where
  b2b_g-Same :
      {p v : List ℕ} (a b c d x y : ℕ)
      → all_apart 16 a b c d ≡ true
      → Same p v
      → Same (b2b_g p m a b c d x y) (mix v a b c d (get_or (words m) x 0) (get_or (words m) y 0))
  b2b_g-Same {p} a b c d x y apart h =
      let places = Apart_of 16 a b c d apart in
      record {
        array = b2b_g-IsArray p m a b c d x y h.array small places;
        eq =
            words-b2b_g p m a b c d x y h.array small places
            ∙ ap (λ t. mix t a b c d (get_or (words m) x 0) (get_or (words m) y 0)) h.eq;
      }

  b2b_round-Same :
      {p v : List ℕ} (s : List ℕ) → Same p v → Same (b2b_round m s p) (round (words m) s v)
  unfolding b2b_round round
  b2b_round-Same s h0 =
      let h1 = b2b_g-Same 0 4 8 12 _ _ refl h0 in
      let h2 = b2b_g-Same 1 5 9 13 _ _ refl h1 in
      let h3 = b2b_g-Same 2 6 10 14 _ _ refl h2 in
      let h4 = b2b_g-Same 3 7 11 15 _ _ refl h3 in
      let h5 = b2b_g-Same 0 5 10 15 _ _ refl h4 in
      let h6 = b2b_g-Same 1 6 11 12 _ _ refl h5 in
      let h7 = b2b_g-Same 2 7 8 13 _ _ refl h6 in b2b_g-Same 3 4 9 14 _ _ refl h7

  abbrev SameRow : ℕ → Type 0
  SameRow r = get_or b2b_sigma (r % 10) [] ≡ get_or sigma r []

  b2b_rounds-Same :
      (rs : List ℕ) {p v : List ℕ}
      → All SameRow rs
      → Same p v
      → Same (b2b_rounds rs m p) (rounds rs (words m) v)
  unfolding b2b_rounds rounds
  b2b_rounds-Same [] rows h = h
  b2b_rounds-Same (r ∷ rs) {p} {v} rows h = b2b_rounds-Same rs rows.1 (
      subst (λ s. Same (b2b_round m (get_or b2b_sigma (r % 10) []) p) (round (words m) s v)) rows.0
        (b2b_round-Same (get_or b2b_sigma (r % 10) []) h))

  same_rows : All SameRow twelve
  unfolding b2b_sigma sigma
  same_rows = (
    refl,
    (refl, (refl, (refl, (refl, (refl, (refl, (refl, (refl, (refl, (refl, (refl, tt))))))))))),
  )

  pub twelve-Same :
      {p v : List ℕ} → Same p v → Same (b2b_rounds twelve m p) (rounds twelve (words m) v)
  twelve-Same h = b2b_rounds-Same twelve same_rows h
