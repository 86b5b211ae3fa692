-- ===== src/Generator/Password/Sound.antt =====
-- What generatePassword promises of its result.
use mathlib.Core.Path.{subst}
use maspassword.Base.{
  ◌⊎◌, ==_iff, ℕ, zero, suc, ◌+◌, ◌-◌, ◌≤◌, ◌<◌, Bool, true, false, ◌||◌, ◌≡◌, ◌≢◌, refl, ◌∙◌, sym,
  ap, List, [], ◌∷◌, ◌++◌, inl, inr, Text, length, length-append, has, has-append, has_of_get_elem?,
  count-pos_iff-has, All-of_has, has_of_All, All, All-append, All-map, arith, join, leb, Bool-cases,
}
use maspassword.Generator.{done, failed, at, random_int, pick, shuffle}
use maspassword.Generator.Run.{Ensures, Ensures-bind, Ensures-done, Ensures-map}
use maspassword.Generator.Random.{random_int-Ensures}
use maspassword.Generator.Password.Classes.{IsClass, classes_sizes, pool-pos}
use maspassword.Base.Swaps.{IsShuffled}
use maspassword.Generator.Shuffle.{at-Ensures, shuffle-Ensures}
use maspassword.Generator.Password.{
  Options, ambiguous, symbol_chars, upper_case, lower_case, digit_chars, strip, stripped, push_if,
  classes, pick_each, fill, guaranteed, from_classes, generate_password,
}

-- One character for each class, in their order.
abbrev Picked : List Text → Text → Type 0
Picked [] [] = Unit
Picked [] (c ∷ cs) = ⊥
Picked (cls ∷ rest) [] = ⊥
Picked (cls ∷ rest) (c ∷ cs) = (has c cls ≡ true) × Picked rest cs

-- A character of the class stands in the password.
abbrev pub Meets : Text → Text → Type 0
Meets pw cls = (c : ℕ) × (has c cls ≡ true) × (has c pw ≡ true)

abbrev AllIn : Text → Text → Type 0
AllIn pool cs = All (λ c. has c pool ≡ true) cs

pick-Ensures :
    (str : Text) (draws : List ℕ)
    → 0 < length str
    → Ensures (λ c. has c str ≡ true) (pick str draws)
unfolding pick
pick-Ensures str draws pos =
    Ensures-bind _ _ (random_int (length str)) (at str) draws
      (random_int-Ensures (length str) draws pos)
      λ i rest h. Ensures-map _ _ (at str i rest) (has_of_get_elem? str i) (at-Ensures str i rest h)

pick_each-Ensures :
    (cls : List Text) (draws : List ℕ)
    → All IsClass cls
    → Ensures (Picked cls) (pick_each cls draws)
unfolding pick_each
pick_each-Ensures [] draws all = tt
pick_each-Ensures (cls ∷ rest) draws all =
    Ensures-bind _ _ (pick cls) _ draws (pick-Ensures cls draws all.0.0) λ c mid h.
      Ensures-bind (Picked rest) _ (pick_each rest) _ mid (pick_each-Ensures rest mid all.1)
        λ cs last p. (h, p)

fill-Ensures :
    (n : ℕ) (pool : Text) (draws : List ℕ)
    → 0 < length pool
    → Ensures (λ cs. (length cs ≡ n) × AllIn pool cs) (fill n pool draws)
unfolding fill
fill-Ensures zero pool draws pos = (refl, tt)
fill-Ensures (suc n) pool draws pos =
    Ensures-bind _ _ (pick pool) _ draws (pick-Ensures pool draws pos) λ c mid h.
      Ensures-bind (λ cs. (length cs ≡ n) × AllIn pool cs) _ (fill n pool) _ mid
        (fill-Ensures n pool mid pos) λ cs last p. (ap suc p.0, (h, p.1))

has-join :
    (cls rest : _) (c : ℕ) → has c (join [] (cls ∷ rest)) ≡ (has c cls || has c (join [] rest))
unfolding join
has-join cls [] c = ground arith
has-join cls (d ∷ rest) c = has-append c cls (join [] (d ∷ rest))

Picked-length : (cls : List Text) (cs : Text) → Picked cls cs → length cs ≡ length cls
Picked-length [] [] p = refl
Picked-length [] (c ∷ cs) p = absurd p
Picked-length (cls ∷ rest) [] p = absurd p
Picked-length (cls ∷ rest) (c ∷ cs) p = ap suc (Picked-length rest cs p.1)

Picked-AllIn : (cls : List Text) (cs : Text) → Picked cls cs → AllIn (join [] cls) cs
Picked-AllIn [] [] p = tt
Picked-AllIn [] (c ∷ cs) p = absurd p
Picked-AllIn (cls ∷ rest) [] p = absurd p
Picked-AllIn (cls ∷ rest) (c ∷ cs) p = (
  ground (arith, has-join cls rest c, p.0),
  All-map _ _ cs (λ d h. ground (arith, has-join cls rest d, h)) (Picked-AllIn rest cs p.1),
)

Picked-Meets : (cls : List Text) (cs : Text) → Picked cls cs → All (Meets cs) cls
Picked-Meets [] cs p = tt
Picked-Meets (cls ∷ rest) [] p = absurd p
Picked-Meets (cls ∷ rest) (c ∷ cs) p = (
  (c, p.0, ground arith),
  All-map _ _ rest (λ d (e, h, k). (e, h, ground (arith, k))) (Picked-Meets rest cs p.1),
)

-- A password of `len` characters from the classes `cls`.
pub record IsPassword (cls : List Text) (len : ℕ) (pw : Text) : Type 0 where
  pub size : length pw ≡ len
  pub from_pool : (c : ℕ) → has c pw ≡ true → has c (join [] cls) ≡ true
  pub covers : length cls ≤ len → All (Meets pw) cls

has-IsShuffled : {xs ys : Text} → IsShuffled xs ys → (c : ℕ) → has c ys ≡ has c xs
has-IsShuffled {xs} {ys} p c =
    ground (arith, count-pos_iff-has c xs, count-pos_iff-has c ys, p.counts c)

-- The characters before the shuffle: the guaranteed ones, if there is room, and the others.
record IsUnshuffled (cls : List Text) (len : ℕ) (front back : Text) : Type 0 where
  front_in : AllIn (join [] cls) front
  back_in : AllIn (join [] cls) back
  size : length front + length back ≡ len
  picked : length cls ≤ len → Picked cls front

IsUnshuffled-IsPassword :
    {cls : List Text} {len : ℕ} (front back pw : Text)
    → IsUnshuffled cls len front back
    → IsShuffled (front ++ back) pw
    → IsPassword cls len pw
IsUnshuffled-IsPassword {cls} front back pw u s = record {
  size = omega (arith, s.size, length-append front back, u.size);
  from_pool = λ c h.
      has_of_All (λ d. has d (join [] cls) ≡ true) (front ++ back)
        (All-append _ front back u.front_in u.back_in) c (sym (has-IsShuffled s c) ∙ h);
  covers = λ room.
      All-map _ _ cls
        (λ d (c, h, k). (c, h, has-IsShuffled s c ∙ ground (arith, has-append c front back, k)))
        (Picked-Meets cls front (u.picked room));
}

-- What the guaranteed characters are, by whether they fit.
abbrev IsFront : List Text → ℕ → Text → Type 0
IsFront cls len front =
    AllIn (join [] cls) front × (length front ≤ len) × (length cls ≤ len → Picked cls front)

guaranteed-Ensures :
    (len : ℕ) (cls : List Text) (draws : List ℕ)
    → All IsClass cls
    → Ensures (IsFront cls len) (guaranteed len cls draws)
guaranteed-Ensures len cls draws all = elim (Bool-cases (leb (length cls) len)) [
  | inl fits ↦ rw fits (
      Ensures-map _ _ (pick_each cls draws)
        (λ cs p. (Picked-AllIn cls cs p, ground (arith, Picked-length cls cs p), λ h. p))
        (pick_each-Ensures cls draws all))
  | inr full ↦ rw full (tt, omega arith, λ h. absurd (ground arith))
]

from_classes-Ensures :
    (len : ℕ) (cls : List Text) (draws : List ℕ)
    → All IsClass cls
    → cls ≢ []
    → Ensures (IsPassword cls len) (from_classes len cls draws)
from_classes-Ensures len [] draws all ne = absurd (ne refl)
from_classes-Ensures len (c ∷ rest) draws all ne =
    Ensures-bind (IsFront (c ∷ rest) len) _ (guaranteed len (c ∷ rest)) _ draws
      (guaranteed-Ensures len (c ∷ rest) draws all)
      λ front r1 f.
        Ensures-bind _ _ (fill (len - length front) (join [] (c ∷ rest))) _ r1
          (fill-Ensures (len - length front) (join [] (c ∷ rest)) r1 (pool-pos (c ∷ rest) all ne))
          λ back r2 b.
            let u : IsUnshuffled (c ∷ rest) len front back = record {
              front_in = f.0;
              back_in = b.1;
              size = omega (arith, f.1, b.0);
              picked = f.2;
            } in
            Ensures-map _ _ (shuffle (front ++ back) r2)
              (λ pw. IsUnshuffled-IsPassword front back pw u) (shuffle-Ensures (front ++ back) r2)

generate_password-IsPassword :
    (opts : Options) (draws : List ℕ) {pw : Text} {rest : List ℕ}
    → generate_password opts draws ≡ done pw rest
    → IsPassword (classes opts) opts.length pw
unfolding generate_password
generate_password-IsPassword opts draws {pw} {rest} e = go (classes opts) refl
  where
    go : (cls : List Text) → classes opts ≡ cls → IsPassword (classes opts) opts.length pw
    go [] empty = absurd (
        let bad : failed ≡ done pw rest =
          sym (ap (λ c. from_classes opts.length c draws) empty) ∙ e in
        ground arith)
    go (c ∷ cls) some_class = Ensures-done (IsPassword (classes opts) opts.length) e (
        from_classes-Ensures opts.length (classes opts) draws (classes_sizes opts).0
          (λ h. ground arith))

-- Whatever values are drawn, a generated password has the length asked for, and each of its
-- characters is of an enabled class.
pub generate_password_sound :
    (opts : Options) (draws : List ℕ) {pw : Text} {rest : List ℕ}
    → generate_password opts draws ≡ done pw rest
    → (length pw ≡ opts.length) × All (λ c. has c (join [] (classes opts)) ≡ true) pw
generate_password_sound opts draws {pw} e =
    let p = generate_password-IsPassword opts draws e in
    (p.size, All-of_has (λ c. has c (join [] (classes opts)) ≡ true) pw p.from_pool)

-- A password that has room for one character of each enabled class has one of each.
pub generate_password_covers :
    (opts : Options) (draws : List ℕ) {pw : Text} {rest : List ℕ}
    → length (classes opts) ≤ opts.length
    → generate_password opts draws ≡ done pw rest
    → All (Meets pw) (classes opts)
generate_password_covers opts draws room e = (generate_password-IsPassword opts draws e).covers room

has-strip : (c : ℕ) (s : Text) → has c (strip s) ≡ true → has c ambiguous ≡ false
unfolding strip
has-strip c [] h = absurd (ground arith)
has-strip c (d ∷ s) h = elim (Bool-cases (has d ambiguous)) [
  | inl e ↦ has-strip c s (rw e at h)
  | inr e ↦ ground (arith, has-strip c s, ==_iff c d)
]

has-symbol_chars : (c : ℕ) → has c symbol_chars ≡ true → has c ambiguous ≡ false
has-symbol_chars =
    has_of_All (λ c. has c ambiguous ≡ false) symbol_chars (unfold ambiguous in ground arith)

has-push_if :
    (b : Bool) (cls : Text) (rest : List Text) (c : ℕ)
    → has c (join [] (push_if b cls rest)) ≡ true
    → (has c cls ≡ true) ⊎ (has c (join [] rest) ≡ true)
has-push_if true cls rest c h = ground (arith, has-join cls rest c)
has-push_if false cls rest c h = inr h

has-classes :
    (opts : Options) (c : ℕ)
    → opts.avoid_ambiguous ≡ true
    → has c (join [] (classes opts)) ≡ true
    → has c ambiguous ≡ false
unfolding classes
has-classes opts c avoid h = elim (has-push_if opts.upper _ _ c h) [
  | inl k ↦ from_strip upper_case k
  | inr k ↦ elim (has-push_if opts.lower _ _ c k) [
    | inl l ↦ from_strip lower_case l
    | inr l ↦ elim (has-push_if opts.digits _ _ c l) [
      | inl m ↦ from_strip digit_chars m
      | inr m ↦ elim (has-push_if opts.symbols _ _ c m) [
        | inl n ↦ has-symbol_chars c n
        | inr n ↦ absurd (unfold join in ground arith)
      ]
    ]
  ]
]
  where
    from_strip :
        (s : Text) → has c (stripped opts.avoid_ambiguous s) ≡ true → has c ambiguous ≡ false
    from_strip s k = has-strip c s (subst (λ b. has c (stripped b s) ≡ true) avoid k)

-- With avoidAmbiguous no character of the password is one of the ambiguous ones.
generate_password_unambiguous :
    (opts : Options) (draws : List ℕ) {pw : Text} {rest : List ℕ}
    → opts.avoid_ambiguous ≡ true
    → generate_password opts draws ≡ done pw rest
    → All (λ c. has c ambiguous ≡ false) pw
generate_password_unambiguous opts draws {pw} avoid e =
    All-of_has (λ c. has c ambiguous ≡ false) pw
      (λ c h. has-classes opts c avoid ((generate_password-IsPassword opts draws e).from_pool c h))
