-- ===== src/Generator/Extension.antt =====
-- extension/generator.js: the password generator of the browser extension.
pub mod Sound
mod Tests
use maspassword.Base.{
  ℕ, zero, suc, ◌+◌, Bool, true, false, List, [], ◌∷◌, ◌++◌, Text, codes, length, ◌==◌,
  if◌then◌else◌, min, max,
}
use maspassword.Generator.{Outcome, done, ◌>>=◌, accept, at}

abbrev pub lower_set : Text
lower_set = codes "abcdefghijklmnopqrstuvwxyz"

abbrev pub upper_set : Text
upper_set = codes "ABCDEFGHIJKLMNOPQRSTUVWXYZ"

abbrev pub digit_set : Text
digit_set = codes "0123456789"

abbrev pub symbol_set : Text
symbol_set = codes "!@#$%^&*()-_=+[]{}<>?.,;:"

-- The options, with the defaults filled in; `length` is a natural number.
pub record SetOptions : Type 0 where
  pub length : ℕ
  pub lower : Bool
  pub upper : Bool
  pub digits : Bool
  pub symbols : Bool

-- The loop of randomIndex is the one of randomInt of the web client; a `max` of 0 has no guard.
abbrev pub random_index : ℕ → List ℕ → Outcome ℕ
random_index max = accept max

-- `if (on) pool += set`
abbrev pub add_if : Bool → Text → Text → Text
add_if true set pool = pool ++ set
add_if false set pool = pool

-- An empty pool is that of the lower case letters.
abbrev pub or_lower : Text → Text
or_lower [] = lower_set
or_lower (c ∷ pool) = c ∷ pool

unfoldable pub pool_of : SetOptions → Text
pool_of opts = or_lower (
    add_if opts.symbols symbol_set
      (add_if opts.digits digit_set (add_if opts.upper upper_set (add_if opts.lower lower_set []))))

-- `Math.max(1, Math.min(128, Math.floor(length) || 20))`
abbrev pub clamp : ℕ → ℕ
clamp n = max 1 (min 128 (if n == 0 then 20 else n))

-- `out += pool[randomIndex(pool.length)]`, by the number of turns left.
pub draw : ℕ → Text → List ℕ → Outcome Text
draw zero pool = done []
draw (suc turns) pool = do
  i ← random_index (length pool)
  c ← at pool i
  out ← draw turns pool
  done (c ∷ out)

unfoldable pub extension_password : SetOptions → List ℕ → Outcome Text
unfolding draw pool_of
extension_password opts = draw (clamp opts.length) (pool_of opts)
