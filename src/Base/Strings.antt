-- ===== src/Base/Strings.antt =====
-- JavaScript strings as lists of UTF-16 code units, and the tests that the program makes on them.
use Prim.Native.Char.{code}
use Prim.Native.String.{String}
use Prim.Native.Nat.{ℕ}
use mathlib.Core.Path.{◌≡◌, refl, sym, ap}
use mathlib.Core.Bool.{Bool, true, false, ◌&&◌, ◌||◌}
use mathlib.Core.List.{List, [], ◌∷◌, ◌++◌, append_assoc}
use mathlib.Core.Logic.{◌↔◌, ◌≢◌, inl, inr}
use native.Mathlib.Omega.{arith}
use maspassword.Base.Test.{◌==◌, ==_iff, leb, if◌then◌else◌, Bool-cases}

abbrev pub Text : Type 0
Text = List ℕ

-- A literal of the source, all of them in the basic plane.
abbrev pub codes : String → Text
codes String.[] = []
codes (String.◌∷◌ c s) = code c ∷ codes s

-- `a === b` on strings.
abbrev pub same_text : Text → Text → Bool
same_text [] [] = true
same_text [] (_ ∷ _) = false
same_text (_ ∷ _) [] = false
same_text (a ∷ s) (b ∷ t) = a == b && same_text s t

pub same_text_iff : (s t : Text) → (same_text s t ≡ true) ↔ (s ≡ t)
same_text_iff [] [] = ground arith
same_text_iff [] (b ∷ t) = ground arith
same_text_iff (a ∷ s) [] = ground arith
same_text_iff (a ∷ s) (b ∷ t) = ground (arith, same_text_iff s t)

pub same_text_refl : (s : Text) → same_text s s ≡ true
same_text_refl s = (same_text_iff s s).1 refl

-- `array.includes(s)`.
abbrev pub includes : Text → List Text → Bool
includes s [] = false
includes s (t ∷ ts) = same_text s t || includes s ts

-- `array.join(sep)`.
unfoldable pub join : Text → List Text → Text
join sep [] = []
join sep (s ∷ []) = s
join sep (s ∷ t ∷ ts) = s ++ (sep ++ join sep (t ∷ ts))

-- White space and line ends, which `trim` and `\s` take.
unfoldable pub is_space : ℕ → Bool
is_space c =
    leb 9 c && leb c 13
    || (c == 32
        || (c == 0xa0
            || (c == 0x1680
                || (leb 0x2000 c && leb c 0x200a
                    || (c == 0x2028
                        || (c == 0x2029
                            || (c == 0x202f || (c == 0x205f || (c == 0x3000 || c == 0xfeff)))))))))

pub trim_start : Text → Text
trim_start [] = []
trim_start (c ∷ s) = let rest = trim_start s in if is_space c then rest else c ∷ s

-- Without the white space at the end: a space stays if something else stays behind it.
abbrev pub keep_space : ℕ → Text → Text
keep_space c [] = if is_space c then [] else c ∷ []
keep_space c (d ∷ t) = c ∷ d ∷ t

pub trim_end : Text → Text
trim_end [] = []
trim_end (c ∷ s) = keep_space c (trim_end s)

unfoldable pub trim : Text → Text
unfolding trim_start trim_end is_space
trim s = trim_end (trim_start s)

-- `str.startsWith(prefix)`.
abbrev pub starts_with : Text → Text → Bool
starts_with [] s = true
starts_with (p ∷ prefix) [] = false
starts_with (p ∷ prefix) (c ∷ s) = p == c && starts_with prefix s

-- `str.split(sep)` for a separator of one code unit: at least one part.
abbrev pub cons_head : ℕ → List Text → List Text
cons_head c [] = (c ∷ []) ∷ []
cons_head c (part ∷ parts) = (c ∷ part) ∷ parts

unfoldable pub split : ℕ → Text → List Text
split sep [] = [] ∷ []
split sep (c ∷ s) = let parts = split sep s in if c == sep then [] ∷ parts else cons_head c parts

pub split-ne-nil : (sep : ℕ) (s : Text) → split sep s ≢ []
unfolding split
split-ne-nil sep [] = ground arith
split-ne-nil sep (c ∷ s) = go (split sep s)
  where
    go : (parts : List Text) → (if c == sep then [] ∷ parts else cons_head c parts) ≢ []
    go [] = ground arith
    go (p ∷ parts) = ground arith

join-cons_head :
    (sep c : ℕ) (parts : List Text)
    → parts ≢ []
    → join (sep ∷ []) (cons_head c parts) ≡ c ∷ join (sep ∷ []) parts
unfolding join
join-cons_head sep c [] h = absurd (h refl)
join-cons_head sep c (p ∷ []) h = refl
join-cons_head sep c (p ∷ q ∷ parts) h = refl

pub join-cons :
    (sep : ℕ) (p : Text) (parts : List Text)
    → parts ≢ []
    → join (sep ∷ []) (p ∷ parts) ≡ p ++ sep ∷ join (sep ∷ []) parts
unfolding join
join-cons sep p [] h = absurd (h refl)
join-cons sep p (q ∷ parts) h = refl

-- Joining the parts again gives the text.
pub join-split : (sep : ℕ) (s : Text) → join (sep ∷ []) (split sep s) ≡ s
unfolding split
join-split sep [] = unfold join in refl
join-split sep (c ∷ s) = elim (Bool-cases (c == sep)) [
  | inl e ↦
      rw (e, join-cons sep [] (split sep s) (split-ne-nil sep s), join-split sep s)
        (ap (λ d. d ∷ s) (sym ((==_iff c sep).0 e)))
  | inr e ↦ rw (e, join-cons_head sep c (split sep s) (split-ne-nil sep s), join-split sep s)
]

pub join-append :
    (sep : ℕ) (xs ys : List Text)
    → xs ≢ []
    → ys ≢ []
    → join (sep ∷ []) (xs ++ ys) ≡ join (sep ∷ []) xs ++ sep ∷ join (sep ∷ []) ys
join-append sep [] ys h k = absurd (h refl)
join-append sep (x ∷ []) ys h k = rw (join-cons sep x ys k) (unfold join in refl)
join-append sep (x ∷ y ∷ xs) ys h k = rw (
  join-cons sep x (y ∷ (xs ++ ys)) (λ e. ground arith),
  join-append sep (y ∷ xs) ys (λ e. ground arith) k,
  join-cons sep x (y ∷ xs) (λ e. ground arith),
  append_assoc x (sep ∷ join (sep ∷ []) (y ∷ xs)) (sep ∷ join (sep ∷ []) ys),
)
