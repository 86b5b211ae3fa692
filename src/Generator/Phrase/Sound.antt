-- ===== src/Generator/Phrase/Sound.antt =====
-- What generatePassphrase promises of its result.
use Prim.Native.String.{String}
use mathlib.Core.Path.{subst}
use maspassword.Base.{
  ℕ, zero, suc, ◌<◌, Bool, true, false, ◌&&◌, ◌≡◌, refl, ap, some, List, ◌++◌, Text, codes, length,
  ltb, if◌then◌else◌, join, set, get_elem?, All, arith,
}
use maspassword.Generator.{done, pick, at, random_int}
use maspassword.Generator.Words.{word_list}
use maspassword.Generator.Run.{Ensures, Ensures-bind, Ensures-map, Ensures-done}
use maspassword.Generator.Random.{random_int-Ensures}
use maspassword.Generator.Shuffle.{at-Ensures}
use maspassword.Generator.Phrase.{
  PhraseOptions, cased, choose, digit, add_number, generate_passphrase,
}

-- A word of the list, capitalised if that is asked for.
abbrev pub IsWord : Bool → Text → Type 0
IsWord capitalize text =
    (i : ℕ) × (word : String) × (get_elem? word_list i ≡ some word)
    × (text ≡ cased capitalize (codes word))

-- `n` words.
abbrev pub AreWords : ℕ → Bool → List Text → Type 0
AreWords n capitalize chosen = (length chosen ≡ n) × All (IsWord capitalize) chosen

word_list-pos : 0 < length word_list
unfolding word_list
word_list-pos = omega arith

choose-Ensures :
    (n : ℕ) (capitalize : Bool) (draws : List ℕ)
    → Ensures (AreWords n capitalize) (choose n capitalize draws)
unfolding choose pick
choose-Ensures zero capitalize draws = (refl, tt)
choose-Ensures (suc n) capitalize draws =
    Ensures-bind (λ w. (i : ℕ) × (get_elem? word_list i ≡ some w)) _ (pick word_list) _ draws
      (Ensures-bind _ _ (random_int (length word_list)) (at word_list) draws
        (random_int-Ensures (length word_list) draws word_list-pos)
        λ i mid h.
          Ensures-map _ _ (at word_list i mid) (λ w e. (i, e)) (at-Ensures word_list i mid h))
      λ word mid (i, e).
        Ensures-bind (AreWords n capitalize) _ (choose n capitalize) _ mid
          (choose-Ensures n capitalize mid)
          λ rest last (size, all). (ap suc size, ((i, word, e, refl), all))

-- The words with a decimal digit behind one of them.
abbrev pub IsNumbered : List Text → List Text → Type 0
IsNumbered chosen numbered =
    (i : ℕ) × (word : Text) × (n : ℕ) × (get_elem? chosen i ≡ some word)
    × (n < 10)
    × (numbered ≡ set chosen i (word ++ digit n))

add_number-Ensures :
    (chosen : List Text) (draws : List ℕ)
    → 0 < length chosen
    → Ensures (IsNumbered chosen) (add_number chosen draws)
unfolding add_number
add_number-Ensures chosen draws pos =
    Ensures-bind _ _ (random_int (length chosen)) _ draws (random_int-Ensures _ draws pos)
      λ i mid h. Ensures-bind _ _ (at chosen i) _ mid (at-Ensures chosen i mid h) λ word mid' e.
        Ensures-bind _ _ (random_int 10) _ mid' (random_int-Ensures 10 mid' (omega arith))
          λ n last h'. (i, word, n, e, h', refl)

abbrev pub IsShown : Bool → List Text → List Text → Type 0
IsShown true chosen shown = IsNumbered chosen shown
IsShown false chosen shown = shown ≡ chosen

-- What stands in the phrase: the words, one of them with a digit if that is asked for and there is
-- one.
abbrev pub IsPhrase : PhraseOptions → Text → Type 0
IsPhrase opts phrase =
    (chosen : List Text) × (shown : List Text) × AreWords opts.words opts.capitalize chosen
    × IsShown (opts.include_number && ltb 0 opts.words) chosen shown
    × (phrase ≡ join opts.separator shown)

IsShown-Ensures :
    (b : Bool) (chosen : List Text) (draws : List ℕ)
    → (b ≡ true → 0 < length chosen)
    → Ensures (IsShown b chosen) ((if b then add_number chosen else done chosen) draws)
IsShown-Ensures true chosen draws pos = add_number-Ensures chosen draws (pos refl)
IsShown-Ensures false chosen draws pos = refl

generate_passphrase-Ensures :
    (opts : PhraseOptions) (draws : List ℕ)
    → Ensures (IsPhrase opts) (generate_passphrase opts draws)
unfolding generate_passphrase
generate_passphrase-Ensures opts draws =
    Ensures-bind (AreWords opts.words opts.capitalize) (IsPhrase opts)
      (choose opts.words opts.capitalize) _ draws (choose-Ensures opts.words opts.capitalize draws)
      λ chosen mid p.
        Ensures-bind (IsShown (opts.include_number && ltb 0 (length chosen)) chosen) (IsPhrase opts)
          (if opts.include_number && ltb 0 (length chosen) then add_number chosen else done chosen)
          (λ shown. done (join opts.separator shown)) mid
          (IsShown-Ensures (opts.include_number && ltb 0 (length chosen)) chosen mid
            (λ e. ground arith))
          λ shown last q. (
            chosen,
            shown,
            p,
            subst (λ n. IsShown (opts.include_number && ltb 0 n) chosen shown) p.0 q,
            refl,
          )

-- Whatever values are drawn, the phrase of generatePassphrase is the number of words
-- asked for, each from the list (capitalised if that is asked for), joined by the separator; with
-- includeNumber, and at least one word, exactly one of them has a decimal digit behind it.
generate_passphrase_sound :
    (opts : PhraseOptions) (draws : List ℕ) {phrase : Text} {rest : List ℕ}
    → generate_passphrase opts draws ≡ done phrase rest
    → IsPhrase opts phrase
generate_passphrase_sound opts draws e =
    Ensures-done (IsPhrase opts) e (generate_passphrase-Ensures opts draws)
