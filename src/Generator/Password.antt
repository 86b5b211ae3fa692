-- ===== src/Generator/Password.antt =====
-- generatePassword of web/generator.js.
pub mod Classes
pub mod Sound
pub mod Runs
use maspassword.Base.{
  ℕ, zero, suc, ◌+◌, ◌-◌, Bool, true, false, ◌&&◌, not, List, [], ◌∷◌, ◌++◌, Text, codes, length,
  leb, if◌then◌else◌, has, join,
}
use maspassword.Generator.{Outcome, done, failed, ◌>>=◌, pick, shuffle}

unfoldable pub ambiguous : Text
ambiguous = codes "iIlL1oO0"

abbrev pub upper_case : Text
upper_case = codes "ABCDEFGHIJKLMNOPQRSTUVWXYZ"

abbrev pub lower_case : Text
lower_case = codes "abcdefghijklmnopqrstuvwxyz"

abbrev pub digit_chars : Text
digit_chars = codes "0123456789"

abbrev pub symbol_chars : Text
symbol_chars = codes "!@#$%^&*()-_=+[]{};:,.?"

-- The options, with the defaults filled in; `length` is a natural number.
pub record Options : Type 0 where
  pub length : ℕ
  pub upper : Bool
  pub lower : Bool
  pub digits : Bool
  pub symbols : Bool
  pub avoid_ambiguous : Bool

pub strip : Text → Text
strip [] = []
strip (c ∷ s) = let rest = strip s in if has c ambiguous then rest else c ∷ rest

abbrev pub stripped : Bool → Text → Text
stripped avoid s = if avoid then strip s else s

-- `if (on) classes.push(cls)`
abbrev pub push_if : Bool → Text → List Text → List Text
push_if true cls classes = cls ∷ classes
push_if false cls classes = classes

unfoldable pub classes : Options → List Text
unfolding strip
classes opts = push_if opts.upper (stripped opts.avoid_ambiguous upper_case) (
    push_if opts.lower (stripped opts.avoid_ambiguous lower_case) (
      push_if opts.digits (stripped opts.avoid_ambiguous digit_chars)
        (push_if opts.symbols symbol_chars [])))

-- `for (const cls of classes) chars.push(pick(cls))`
pub pick_each : List Text → List ℕ → Outcome Text
pick_each [] = done []
pick_each (cls ∷ rest) = do c ← pick cls; cs ← pick_each rest; done (c ∷ cs)

-- `while (chars.length < length) chars.push(pick(pool))`, by the number of characters missing.
pub fill : ℕ → Text → List ℕ → Outcome Text
fill zero pool = done []
fill (suc missing) pool = do c ← pick pool; cs ← fill missing pool; done (c ∷ cs)

-- The guaranteed characters, if the password has room for one of each class.
abbrev pub guaranteed : ℕ → List Text → List ℕ → Outcome Text
guaranteed len cls = if leb (length cls) len then pick_each cls else done []

-- The password from the enabled classes, of which there is none or more.
abbrev pub from_classes : ℕ → List Text → List ℕ → Outcome Text
from_classes len [] draws = failed
from_classes len (cls ∷ rest) draws =
    (do
      front ← guaranteed len (cls ∷ rest)
      back ← fill (len - length front) (join [] (cls ∷ rest))
      shuffle (front ++ back))
      draws

unfoldable pub generate_password : Options → List ℕ → Outcome Text
unfolding classes pick_each fill
generate_password opts = from_classes opts.length (classes opts)
