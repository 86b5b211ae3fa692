-- ===== src/Generator/Shuffle.antt =====
-- shuffle permutes its argument, and ends.
use native.Mathlib.Nat.{mod-lt}
use maspassword.Base.{
  ℕ, zero, suc, ◌+◌, ◌-◌, ◌≤◌, ◌<◌, ◌%◌, ◌≡◌, refl, ◌∙◌, some, List, [], ◌∷◌, length, get_elem?,
  set, arith, length-set, get_elem?_of_lt,
}
use maspassword.Base.Swaps.{IsShuffled, IsShuffled-refl, IsShuffled-trans, exchange-IsShuffled}
use maspassword.Generator.{done, at, random_int, swap, shuffle_from, shuffle}
use maspassword.Generator.Random.{random_int-Ensures, random_int_accepts}
use maspassword.Generator.Run.{
  Ensures, Ensures-bind, Ensures-map, Ensures-done, Delivers, Delivers-map, Delivers-bind,
  Delivers-done,
}

pub at-Ensures :
    {A : Type 0} (xs : List A) (i : ℕ) (draws : List ℕ)
    → i < length xs
    → Ensures (λ c. get_elem? xs i ≡ some c) (at xs i draws)
at-Ensures xs i draws h = let (c, e) = get_elem?_of_lt xs i h in rw (e, at) refl

swap-Ensures :
    (xs : List ℕ) (i j : ℕ) (draws : List ℕ)
    → i < length xs
    → j < length xs
    → Ensures (IsShuffled xs) (swap xs i j draws)
unfolding swap
swap-Ensures xs i j draws hi hj =
    Ensures-bind _ _ (at xs i) _ draws (at-Ensures xs i draws hi) λ a mid e.
      Ensures-bind _ _ (at xs j) _ mid (at-Ensures xs j mid hj)
        λ b rest e'. exchange-IsShuffled xs i j a b e e'

shuffle_from-Ensures :
    (i : ℕ) (xs : List ℕ) (draws : List ℕ)
    → i < length xs
    → Ensures (IsShuffled xs) (shuffle_from i xs draws)
unfolding shuffle_from
shuffle_from-Ensures zero xs draws h = IsShuffled-refl xs
shuffle_from-Ensures (suc i) xs draws h =
    Ensures-bind _ _ (random_int (suc i + 1)) _ draws
      (random_int-Ensures (suc i + 1) draws (omega arith))
      λ j mid hj.
        Ensures-bind _ _ (swap xs (suc i) j) _ mid (swap-Ensures xs (suc i) j mid h (omega arith))
          λ ys rest p.
            Ensures-map _ _ (shuffle_from i ys rest) (λ zs q. IsShuffled-trans p q)
              (shuffle_from-Ensures i ys rest (omega (arith, p.size)))

pub shuffle-Ensures : (xs : List ℕ) (draws : List ℕ) → Ensures (IsShuffled xs) (shuffle xs draws)
unfolding shuffle
shuffle-Ensures [] draws = IsShuffled-refl []
shuffle-Ensures (x ∷ xs) draws = shuffle_from-Ensures _ (x ∷ xs) draws (omega arith)

-- Whatever values are drawn, the shuffled array has the length and, each as often, the elements of
-- the array.
shuffle_permutes :
    (xs draws : List ℕ) {ys rest : List ℕ} → shuffle xs draws ≡ done ys rest → IsShuffled xs ys
shuffle_permutes xs draws e = Ensures-done (IsShuffled xs) e (shuffle-Ensures xs draws)

pub random_int-Delivers :
    (k max : ℕ) → 0 < max → max ≤ k → Delivers k 1 (λ j. j < max) (random_int max)
random_int-Delivers k max pos le later [] h = absurd (omega (arith, h.many))
random_int-Delivers k max pos le later (x ∷ draws) h = (
  x % max,
  draws,
  random_int_accepts max x draws pos (omega (arith, h.small.0)),
  mod-lt x pos,
  record { many = omega (arith, h.many); small = h.small.1 },
)

pub at-Delivers :
    {A : Type 0} (k i : ℕ) (xs : List A)
    → i < length xs
    → Delivers k 0 (λ c. get_elem? xs i ≡ some c) (at xs i)
at-Delivers k i xs h later draws e =
    let (c, there) = get_elem?_of_lt xs i h in
    (c, draws, rw (there), there, record { many = omega (arith, e.many); small = e.small })

swap-Delivers :
    (k i j : ℕ) (xs : List ℕ)
    → i < length xs
    → j < length xs
    → Delivers k 0 (λ ys. length ys ≡ length xs) (swap xs i j)
unfolding swap
swap-Delivers k i j xs hi hj = Delivers-bind k 0 0 (at-Delivers k i xs hi) λ a e.
    Delivers-bind k 0 0 (at-Delivers k j xs hj)
      λ b e'. Delivers-done k (length-set (set xs i b) j a ∙ length-set xs i b)

shuffle_from-Delivers :
    (k i : ℕ) (xs : List ℕ)
    → i < length xs
    → length xs ≤ k
    → Delivers k i (λ ys. length ys ≡ length xs) (shuffle_from i xs)
unfolding shuffle_from
shuffle_from-Delivers k zero xs h le = Delivers-done k refl
shuffle_from-Delivers k (suc i) xs h le =
    Delivers-map k (1 + (0 + i)) (suc i) (omega arith) (λ ys e. e)
      (Delivers-bind k 1 (0 + i) (random_int-Delivers k (suc i + 1) (omega arith) (omega arith))
        λ j hj. Delivers-bind k 0 i (swap-Delivers k (suc i) j xs h (omega arith)) λ ys e.
          Delivers-map k i i (omega arith) (λ zs e'. e' ∙ e)
            (shuffle_from-Delivers k i ys (omega arith) (omega arith)))

-- An array of n elements is shuffled with n - 1 values, each at most 2^32 - k for some k that is at
-- least n.
pub shuffle-Delivers :
    (k : ℕ) (xs : List ℕ)
    → length xs ≤ k
    → Delivers k (length xs - 1) (λ ys. length ys ≡ length xs) (shuffle xs)
unfolding shuffle
shuffle-Delivers k [] le = Delivers-map k 0 (0 - 1) (omega arith) (λ ys e. e) (Delivers-done k refl)
shuffle-Delivers k (x ∷ xs) le =
    shuffle_from-Delivers k (length (x ∷ xs) - 1) (x ∷ xs) (omega arith) le
