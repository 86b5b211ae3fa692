-- ===== src/Generator/Phrase.antt =====
-- generatePassphrase of web/generator.js.
pub mod Sound
use Prim.Native.String.{String}
use maspassword.Base.{
  ℕ, zero, suc, ◌+◌, ◌-◌, ◌%◌, Bool, true, false, ◌&&◌, Option, none, some, List, [], ◌∷◌, ◌++◌,
  Text, codes, length, ltb, leb, if◌then◌else◌, join, set, map,
}
use maspassword.Generator.{Outcome, done, failed, ◌>>=◌, pick, at, random_int}
use maspassword.Generator.Words.{word_list}

pub record PhraseOptions : Type 0 where
  pub words : ℕ
  pub separator : Text
  pub capitalize : Bool
  pub include_number : Bool

-- toUpperCase on the ASCII letters, the only ones that the list has.
abbrev pub ascii_upper : ℕ → ℕ
ascii_upper c = if leb b'a' c && leb c b'z' then c - 32 else c

-- `word.charAt(0).toUpperCase() + word.slice(1)`
abbrev pub capital : Text → Text
capital [] = []
capital (c ∷ rest) = ascii_upper c ∷ rest

abbrev pub cased : Bool → Text → Text
cased capitalize word = if capitalize then capital word else word

-- The loop `for (let i = 0; i < words; i++)`, by the words missing.
pub choose : ℕ → Bool → List ℕ → Outcome (List Text)
choose zero capitalize = done []
choose (suc missing) capitalize = do
  word ← pick word_list
  rest ← choose missing capitalize
  done (cased capitalize (codes word) ∷ rest)

-- The decimal text of a number below 10.
abbrev pub digit : ℕ → Text
digit n = (b'0' + n) ∷ []

-- `chosen[idx] = chosen[idx] + randomInt(10)`
pub add_number : List Text → List ℕ → Outcome (List Text)
add_number chosen = do
  idx ← random_int (length chosen)
  word ← at chosen idx
  n ← random_int 10
  done (set chosen idx (word ++ digit n))

unfoldable pub generate_passphrase : PhraseOptions → List ℕ → Outcome Text
unfolding choose add_number
generate_passphrase opts = do
  chosen ← choose opts.words opts.capitalize
  numbered ← if opts.include_number && ltb 0 (length chosen) then add_number chosen else done chosen
  done (join opts.separator numbered)
