-- ===== src/Generator/Random.antt =====
-- randomInt is unbiased, and ends when a value below the limit comes.
use native.Mathlib.Nat.{
  div-add-mod', div-lt_iff_lt-mul, mod-lt, mul-add-mod_self_right, mod-eq_of_lt, lt-div-mul-add,
}
use maspassword.Base.{
  ℕ, ◌+◌, ◌*◌, ◌/◌, ◌%◌, ◌^◌, ◌≤◌, ◌<◌, ◌≡◌, ◌↔◌, inl, inr, List, [], ◌∷◌, leb, arith, Bool-cases,
}
use maspassword.Generator.Run.{Ensures}
use maspassword.Generator.{done, limit, random_int}

below_limit : (max x : ℕ) → 0 < max → x < limit max → x / max < 2 ^ 32 / max
below_limit max x pos h = (div-lt_iff_lt-mul {k = max} pos).1 h

quotient_below : (max q r : ℕ) → q < 2 ^ 32 / max → r < max → q * max + r < limit max
quotient_below max q r hq hr = grind arith

-- For a positive `max`, a value `x` is accepted and gives `r` exactly if it is one of the
-- `2 ^ 32 / max` values `q * max + r`, as many for each `r` below `max`.
pub random_int_unbiased :
    (max x r : ℕ)
    → 0 < max
    → (random_int max (x ∷ []) ≡ done r [])
      ↔ ((q : ℕ) × (q < 2 ^ 32 / max) × (r < max) × (x ≡ q * max + r))
unfolding random_int
random_int_unbiased max x r pos = (there, back)
  where
    there :
        random_int max (x ∷ []) ≡ done r []
        → (q : ℕ) × (q < 2 ^ 32 / max) × (r < max) × (x ≡ q * max + r)
    there h = elim (Bool-cases (leb (limit max) x)) [
      | inl e ↦ absurd (ground arith)
      | inr e ↦ (
        x / max,
        below_limit max x pos (ground arith),
        ground (arith, mod-lt x pos),
        ground (arith, div-add-mod' x max),
      )
    ]

    back :
        ((q : ℕ) × (q < 2 ^ 32 / max) × (r < max) × (x ≡ q * max + r))
        → random_int max (x ∷ []) ≡ done r []
    back (q, hq, hr, e) = ground (
      arith,
      quotient_below max q r hq hr,
      mul-add-mod_self_right q max r,
      mod-eq_of_lt {n = r} {m = max} hr,
    )

-- No exception for a positive `max`, and a result below it.
pub random_int-Ensures :
    (max : ℕ) (draws : List ℕ) → 0 < max → Ensures (λ r. r < max) (random_int max draws)
unfolding random_int
random_int-Ensures max [] pos = ground arith
random_int-Ensures max (x ∷ draws) pos =
    ground (arith, random_int-Ensures max draws pos, mod-lt x pos)

-- A value that is small enough is taken at once.
pub random_int_accepts :
    (max x : ℕ) (draws : List ℕ)
    → 0 < max
    → x + max ≤ 2 ^ 32
    → random_int max (x ∷ draws) ≡ done (x % max) draws
unfolding random_int
random_int_accepts max x draws pos h = ground (arith, lt-div-mul-add {a = 2 ^ 32} {b = max} pos)
