-- ===== src/Base/Swaps.antt =====
-- Lists with the same numbers, and the exchange of two elements.
use Prim.Native.Nat.{ℕ}
use mathlib.Core.Path.{◌≡◌, refl, ◌∙◌}
use mathlib.Core.Logic.{inl, inr}
use mathlib.Core.List.{List}
use mathlib.Core.Option.{some}
use native.Mathlib.Omega.{arith}
use maspassword.Base.Test.{◌==◌, Bool-cases}
use maspassword.Base.Lists.{
  length, get_elem?, set, count, count-set, length-set, get_elem?-set_self, get_elem?-set_ne,
  lt_of_get_elem?,
}

-- The same numbers, each as often.
pub record IsShuffled (xs ys : List ℕ) : Type 0 where
  pub size : length ys ≡ length xs
  pub counts : (c : ℕ) → count c ys ≡ count c xs

pub IsShuffled-refl : (xs : List ℕ) → IsShuffled xs xs
IsShuffled-refl xs = record { size = refl; counts = λ c. refl }

pub IsShuffled-trans : {xs ys zs : List ℕ} → IsShuffled xs ys → IsShuffled ys zs → IsShuffled xs zs
IsShuffled-trans p q = record { size = q.size ∙ p.size; counts = λ c. q.counts c ∙ p.counts c }

pub exchange-IsShuffled :
    (xs : List ℕ) (i j a b : ℕ)
    → get_elem? xs i ≡ some a
    → get_elem? xs j ≡ some b
    → IsShuffled xs (set (set xs i b) j a)
exchange-IsShuffled xs i j a b hi hj = record {
  size = length-set (set xs i b) j a ∙ length-set xs i b;
  counts = λ c. omega (arith, count-set c (set xs i b) j a b there, count-set c xs i b a hi);
}
  where
    there : get_elem? (set xs i b) j ≡ some b
    there = elim (Bool-cases (i == j)) [
      | inl e ↦ ground (arith, get_elem?-set_self xs i b (lt_of_get_elem? xs i a hi))
      | inr e ↦ get_elem?-set_ne xs {i = i} {j = j} b (ground arith) ∙ hj
    ]
