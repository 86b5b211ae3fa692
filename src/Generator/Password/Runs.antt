-- ===== src/Generator/Password/Runs.antt =====
-- generatePassword ends: an exception if no class is enabled, else a password once enough values
-- have been drawn.
use mathlib.Core.Path.{subst}
use maspassword.Base.{
  ℕ, zero, suc, ◌+◌, ◌-◌, ◌≤◌, ◌<◌, ◌≡◌, ◌≢◌, refl, List, [], ◌∷◌, ◌++◌, ap, ◌∙◌, inl, inr, Text,
  length, length-append, All, arith, join, leb, if◌then◌else◌, Bool-cases,
}
use maspassword.Generator.{Outcome, done, ◌>>=◌, pick, shuffle}
use maspassword.Generator.Run.{Enough, Delivers, Delivers-bind, Delivers-done, Delivers-map}
use maspassword.Generator.Shuffle.{random_int-Delivers, at-Delivers, shuffle-Delivers}
use maspassword.Generator.Password.{
  Options, classes, pick_each, fill, guaranteed, from_classes, generate_password,
}
use maspassword.Generator.Password.Classes.{IsClass, classes_sizes, pool-pos}

pick-Delivers :
    (k : ℕ) (str : Text) → 0 < length str → length str ≤ k → Delivers k 1 (λ c. Unit {0}) (pick str)
unfolding pick
pick-Delivers k str pos le =
    Delivers-bind k 1 0 (random_int-Delivers k (length str) pos le)
      λ i h. Delivers-map k 0 0 (omega arith) (λ c e. tt) (at-Delivers k i str h)

pick_each-Delivers :
    (k : ℕ) (cls : List Text)
    → All (λ s. (0 < length s) × (length s ≤ 26)) cls
    → 26 ≤ k
    → Delivers k (length cls) (λ cs. length cs ≡ length cls) (pick_each cls)
unfolding pick_each
pick_each-Delivers k [] h le = Delivers-done k refl
pick_each-Delivers k (s ∷ cls) ((pos, small), h) le =
    Delivers-map k (1 + (length cls + 0)) (suc (length cls)) (omega arith) (λ cs e. e)
      (Delivers-bind k 1 (length cls + 0) (pick-Delivers k s pos (omega arith)) λ c u.
        Delivers-bind k (length cls) 0 (pick_each-Delivers k cls h le)
          λ cs e. Delivers-done k (ap suc e))

fill-Delivers :
    (k n : ℕ) (pool : Text)
    → 0 < length pool
    → length pool ≤ k
    → Delivers k n (λ cs. length cs ≡ n) (fill n pool)
unfolding fill
fill-Delivers k zero pool pos le = Delivers-done k refl
fill-Delivers k (suc n) pool pos le =
    Delivers-map k (1 + (n + 0)) (suc n) (omega arith) (λ cs e. e)
      (Delivers-bind k 1 (n + 0) (pick-Delivers k pool pos le) λ c u.
        Delivers-bind k n 0 (fill-Delivers k n pool pos le) λ cs e. Delivers-done k (ap suc e))

-- How many characters are guaranteed.
abbrev front_size : ℕ → List Text → ℕ
front_size len cls = if leb (length cls) len then length cls else 0

guaranteed-Delivers :
    (k len : ℕ) (cls : List Text)
    → All IsClass cls
    → 26 ≤ k
    → Delivers k (front_size len cls) (λ cs. length cs ≡ front_size len cls) (guaranteed len cls)
guaranteed-Delivers k len cls h le = elim (Bool-cases (leb (length cls) len)) [
  | inl e ↦ rw e (pick_each-Delivers k cls h le)
  | inr e ↦ rw e (Delivers-done k refl)
]

from_classes-Delivers :
    (k len : ℕ) (cls : List Text)
    → All IsClass cls
    → length (join [] cls) ≤ k
    → cls ≢ []
    → 26 ≤ k
    → len ≤ k
    → Delivers k (len + len) (λ pw. length pw ≡ len) (from_classes len cls)
from_classes-Delivers k len [] h pool ne le big = absurd (ne refl)
from_classes-Delivers k len (c ∷ rest) h pool ne le big =
    Delivers-map k (n + (len - n + (len - 1))) (len + len) (ground arith) (λ pw e. e)
      (Delivers-bind k n (len - n + (len - 1)) (guaranteed-Delivers k len (c ∷ rest) h le)
        λ front e.
          subst (λ m. Delivers k (len - m + (len - 1)) (λ pw. length pw ≡ len) (after front)) e
            (Delivers-bind k (len - length front) (len - 1)
              (fill-Delivers k (len - length front) (join [] (c ∷ rest)) (pool-pos (c ∷ rest) h ne)
                pool)
              λ back e'. shuffled front back (ground (arith, length-append front back))))
  where
    n : ℕ
    n = front_size len (c ∷ rest)

    after : Text → List ℕ → Outcome Text
    after front = do back ← fill (len - length front) (join [] (c ∷ rest)); shuffle (front ++ back)

    shuffled :
        (front back : Text)
        → length (front ++ back) ≡ len
        → Delivers k (len - 1) (λ pw. length pw ≡ len) (shuffle (front ++ back))
    shuffled front back e =
        Delivers-map k (length (front ++ back) - 1) (len - 1) (omega arith) (λ pw e'. e' ∙ e)
          (shuffle-Delivers k (front ++ back) (omega arith))

-- With a class enabled generatePassword returns a password of the length asked for from 2 * length
-- values, if each of them is at most 2^32 - k for some k that is at least the length and 85, the size
-- of the largest pool.
pub generate_password_runs :
    (opts : Options) (k : ℕ) (draws : List ℕ)
    → opts.length ≤ k
    → 85 ≤ k
    → classes opts ≢ []
    → Enough k (opts.length + opts.length) draws
    → (pw : Text) × (rest : List ℕ) × (generate_password opts draws ≡ done pw rest)
      × (length pw ≡ opts.length)
unfolding generate_password
generate_password_runs opts k draws big pool ne enough =
    let sizes = classes_sizes opts in
    let (pw, rest, e, size, left) =
      from_classes-Delivers k opts.length (classes opts) sizes.0 (omega (arith, sizes.1)) ne
        (omega arith) big 0 draws
        (record { many = omega (arith, enough.many); small = enough.small }) in
    (pw, rest, e, size)
