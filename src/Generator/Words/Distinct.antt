-- ===== src/Generator/Words/Distinct.antt =====
-- The words of the list are in strict order, and so distinct.
use Prim.Native.String.{String}
use maspassword.Base.{
  ℕ, zero, suc, ◌+◌, ◌*◌, ◌<◌, Bool, true, ◌&&◌, ◌≡◌, refl, some, List, [], ◌∷◌, Text, codes, ltb,
  get_elem?, arith,
}
use maspassword.Generator.Words.{word_list}

-- A word read as a number in base 256.
value_from : ℕ → Text → ℕ
value_from n [] = n
value_from n (c ∷ s) = value_from (n * 256 + c) s

value : String → ℕ
unfolding value_from
value word = value_from 0 (codes word)

-- The values rise from above `n`.
rising : ℕ → List String → Bool
rising n [] = true
rising n (w ∷ words) = ltb n (value w) && rising (value w) words

word_list-rising : rising 0 word_list ≡ true
unfolding rising value word_list
word_list-rising = refl

above :
    (n : ℕ) (words : List String) (i : ℕ) (w : String)
    → rising n words ≡ true
    → get_elem? words i ≡ some w
    → n < value w
unfolding rising
above n [] i w h e = absurd (ground arith)
above n (v ∷ words) zero w h e = ground arith
above n (v ∷ words) (suc i) w h e = ground (arith, above (value v) words i w)

distinct :
    (n : ℕ) (words : List String) (i j : ℕ) (w : String)
    → rising n words ≡ true
    → get_elem? words i ≡ some w
    → get_elem? words j ≡ some w
    → i ≡ j
unfolding rising
distinct n [] i j w h e e' = absurd (ground arith)
distinct n (v ∷ words) zero zero w h e e' = refl
distinct n (v ∷ words) zero (suc j) w h e e' = absurd (ground (arith, above (value v) words j w))
distinct n (v ∷ words) (suc i) zero w h e e' = absurd (ground (arith, above (value v) words i w))
distinct n (v ∷ words) (suc i) (suc j) w h e e' = ground (arith, distinct (value v) words i j w)

-- A word stands at one place of the list only, so a pick gives each word with the same chance.
word_list_distinct :
    (i j : ℕ) (w : String) → get_elem? word_list i ≡ some w → get_elem? word_list j ≡ some w → i ≡ j
word_list_distinct i j w = distinct 0 word_list i j w word_list-rising
