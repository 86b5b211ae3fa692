-- ===== src/Generator/Tests.antt =====
-- Runs of the generators, and instances of their theorems.
use maspassword.Base.{
  ℕ, ◌+◌, ◌*◌, ◌/◌, ◌^◌, ◌≡◌, ◌≢◌, ◌≤◌, ◌<◌, ◌↔◌, refl, true, false, some, List, [], ◌∷◌, Text,
  codes, length, arith, has, All, join, replicate, get_elem?,
}
use maspassword.Generator.{done, random_int, shuffle, pick}
use maspassword.Generator.Random.{random_int_unbiased}
use maspassword.Generator.Run.{Enough}
use maspassword.Generator.Password.{Options, ambiguous, classes, generate_password}
use maspassword.Generator.Password.Sound.{Meets, generate_password_sound, generate_password_covers}
use maspassword.Generator.Password.Runs.{generate_password_runs}
use maspassword.Generator.Phrase.{PhraseOptions, generate_passphrase}
use maspassword.Generator.Words.{word_list}

abbrev digits_and_lower : Options
digits_and_lower = record {
  length = 4;
  upper = false;
  lower = true;
  digits = true;
  symbols = false;
  avoid_ambiguous = true;
}

abbrev draws : List ℕ
draws = 30 ∷ 25 ∷ 0xffff_ffff ∷ 1 ∷ 40 ∷ 2 ∷ 9 ∷ 6 ∷ 77 ∷ []

-- The third value is at the limit for a pool of 31 characters, and another is drawn.
password_run : generate_password digits_and_lower draws ≡ done (codes "3khb") (77 ∷ [])
unfolding generate_password pick random_int shuffle ambiguous join
password_run = refl

random_int_unbiased_example :
    (random_int 6 (4294967291 ∷ []) ≡ done 5 [])
    ↔ ((q : ℕ) × (q < 2 ^ 32 / 6) × (5 < 6) × (4294967291 ≡ q * 6 + 5))
random_int_unbiased_example = random_int_unbiased 6 4294967291 5 (omega arith)

shuffle_run : shuffle {A = ℕ} (1 ∷ 2 ∷ 3 ∷ []) (7 ∷ 4 ∷ 5 ∷ []) ≡ done (3 ∷ 1 ∷ 2 ∷ []) (5 ∷ [])
unfolding shuffle random_int
shuffle_run = refl

generate_password_sound_example :
    (length (codes "3khb") ≡ 4)
    × All (λ c. has c (join [] (classes digits_and_lower)) ≡ true) (codes "3khb")
generate_password_sound_example = generate_password_sound digits_and_lower draws password_run

room : length (classes digits_and_lower) ≤ 4
unfolding classes
room = omega arith

generate_password_covers_example : All (Meets (codes "3khb")) (classes digits_and_lower)
generate_password_covers_example = generate_password_covers digits_and_lower draws room password_run

some_class : classes digits_and_lower ≢ []
unfolding classes
some_class = ground arith

enough : Enough 85 8 (replicate 8 4000000000)
enough = record { many = omega arith; small = omega arith }

generate_password_runs_example :
    (pw : Text) × (rest : List ℕ) × (generate_password digits_and_lower (replicate 8 4000000000)
      ≡ done pw rest)
    × (length pw ≡ 4)
generate_password_runs_example =
    generate_password_runs digits_and_lower 85 (replicate 8 4000000000) (omega arith) (omega arith)
      some_class enough

abbrev two_words : PhraseOptions
two_words = record { words = 2; separator = codes "-"; capitalize = true; include_number = true }

phrase_run : generate_passphrase two_words (0 ∷ 623 ∷ 1 ∷ 17 ∷ []) ≡ done (codes "Able-Zoom7") []
unfolding generate_passphrase pick random_int word_list join
phrase_run = refl

able_first : get_elem? word_list 0 ≡ some "able"
unfolding word_list
able_first = refl
