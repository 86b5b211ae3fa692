-- ===== src/Generator/Password/Classes.antt =====
-- The sizes of the character classes of generatePassword.
use maspassword.Base.{
  ℕ, ◌+◌, ◌≡◌, ◌≢◌, ◌<◌, ◌≤◌, Bool, refl, true, false, List, [], ◌∷◌, Text, length, All, arith,
  join, length-append,
}
use maspassword.Generator.Password.{
  Options, ambiguous, upper_case, lower_case, digit_chars, symbol_chars, strip, stripped, push_if,
  classes,
}

abbrev pub IsClass : Text → Type 0
IsClass cls = (0 < length cls) × (length cls ≤ 26)

stripped_upper : (b : Bool) → IsClass (stripped b upper_case)
unfolding strip ambiguous
stripped_upper true = omega arith
stripped_upper false = omega arith

stripped_lower : (b : Bool) → IsClass (stripped b lower_case)
unfolding strip ambiguous
stripped_lower true = omega arith
stripped_lower false = omega arith

stripped_digits :
    (b : Bool) → (0 < length (stripped b digit_chars)) × (length (stripped b digit_chars) ≤ 10)
unfolding strip ambiguous
stripped_digits true = omega arith
stripped_digits false = omega arith

length-join :
    (s : Text) (ts : List Text) → length (join [] (s ∷ ts)) ≡ length s + length (join [] ts)
unfolding join
length-join s [] = omega arith
length-join s (t ∷ ts) = length-append s (join [] (t ∷ ts))

-- With a class more the pool grows by that class, which bounds it.
push_if-sizes :
    (b : Bool) (cls : Text) (rest : List Text) (m n : ℕ)
    → (0 < length cls) × (length cls ≤ m)
    → m ≤ 26
    → All IsClass rest × (length (join [] rest) ≤ n)
    → All IsClass (push_if b cls rest) × (length (join [] (push_if b cls rest)) ≤ m + n)
push_if-sizes true cls rest m n h le (all, size) =
    (((h.0, omega arith), all), omega (arith, length-join cls rest))
push_if-sizes false cls rest m n h le (all, size) = (all, omega arith)

-- Every class has 1 to 26 characters, and the pool at most 85.
pub classes_sizes :
    (opts : Options) → All IsClass (classes opts) × (length (join [] (classes opts)) ≤ 85)
unfolding classes
classes_sizes opts =
    push_if-sizes opts.upper _ _ 26 59 (stripped_upper opts.avoid_ambiguous) (omega arith) (
      push_if-sizes opts.lower _ _ 26 33 (stripped_lower opts.avoid_ambiguous) (omega arith) (
        push_if-sizes opts.digits _ _ 10 23 (stripped_digits opts.avoid_ambiguous) (omega arith) (
          push_if-sizes opts.symbols symbol_chars [] 23 0 (omega arith) (omega arith)
            (tt, unfold join in omega arith))))

pub pool-pos : (cls : List Text) → All IsClass cls → cls ≢ [] → 0 < length (join [] cls)
pool-pos [] h ne = absurd (ne refl)
pool-pos (s ∷ cls) h ne = omega (arith, length-join s cls)
