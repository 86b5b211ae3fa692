-- ===== src/Generator.antt =====
-- web/generator.js, its random choices: randomInt, pick and shuffle.
-- crypto.getRandomValues is the list of the 32-bit values that it will deliver: a run takes them
-- from the front and returns the rest. `starved` is a run that still waits for a value when the
-- list is at its end.
pub mod Run
pub mod Random
pub mod Shuffle
pub mod Password
pub mod Words
pub mod Phrase
pub mod Extension
mod Tests
use maspassword.Base.{
  ℕ, zero, suc, ◌+◌, ◌-◌, ◌*◌, ◌/◌, ◌%◌, ◌^◌, Bool, true, false, ◌&&◌, not, Option, none, some,
  List, [], ◌∷◌, ◌++◌, Text, length, get_elem?, set, ltb, leb, ◌==◌, if◌then◌else◌, has, join,
}

pub data Outcome {ℓ} (A : Type ℓ) : Type ℓ where
  done : A → List ℕ → Outcome A
  -- an exception
  failed : Outcome A
  starved : Outcome A

abbrev pub resume {ℓ κ} :
    {A : Type ℓ} {B : Type κ} → Outcome A → (A → List ℕ → Outcome B) → Outcome B
resume (done a rest) f = f a rest
resume failed f = failed
resume starved f = starved

infixl 5 ◌>>=◌
abbrev pub ◌>>=◌ {ℓ κ} :
    {A : Type ℓ} {B : Type κ} → (List ℕ → Outcome A) → (A → List ℕ → Outcome B) → List ℕ → Outcome B
◌>>=◌ m f draws = resume (m draws) f

-- Math.floor(2^32 / max) * max
abbrev pub limit : ℕ → ℕ
limit max = 2 ^ 32 / max * max

-- The loop `do … while (x >= limit)`.
pub accept : ℕ → List ℕ → Outcome ℕ
accept max [] = starved
accept max (x ∷ draws) =
    let more = accept max draws in if leb (limit max) x then more else done (x % max) draws

unfoldable pub random_int : ℕ → List ℕ → Outcome ℕ
unfolding accept
random_int max draws = if max == 0 then failed else accept max draws

-- `str[randomInt(str.length)]`; an index past the end, which would read `undefined`, fails.
abbrev pub found {ℓ} : {A : Type ℓ} → Option A → List ℕ → Outcome A
found none draws = failed
found (some c) draws = done c draws

abbrev pub at {ℓ} : {A : Type ℓ} → List A → ℕ → List ℕ → Outcome A
at str i = found (get_elem? str i)

unfoldable pub pick {ℓ} : {A : Type ℓ} → List A → List ℕ → Outcome A
pick str = do i ← random_int (length str); at str i

unfoldable pub swap {ℓ} : {A : Type ℓ} → List A → ℕ → ℕ → List ℕ → Outcome (List A)
swap arr i j = do a ← at arr i; b ← at arr j; λ draws. done (set (set arr i b) j a) draws

-- The Fisher-Yates loop from index `i` down to 1.
pub shuffle_from {ℓ} : {A : Type ℓ} → ℕ → List A → List ℕ → Outcome (List A)
shuffle_from zero arr = λ draws. done arr draws
shuffle_from (suc i) arr = do
  j ← random_int (suc i + 1)
  arr' ← swap arr (suc i) j
  shuffle_from i arr'

unfoldable pub shuffle {ℓ} : {A : Type ℓ} → List A → List ℕ → Outcome (List A)
unfolding shuffle_from swap
shuffle arr = shuffle_from (length arr - 1) arr
