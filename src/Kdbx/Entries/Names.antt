-- ===== src/Kdbx/Entries/Names.antt =====
-- The loop for a free name ends, and the fields of an entry have names of their own.
use maspassword.Base.{
  ℕ, zero, suc, ◌+◌, ◌-◌, ◌*◌, ◌/◌, ◌%◌, ◌≤◌, ◌<◌, ◌≡◌, ◌≢◌, refl, sym, ◌∙◌, ap, inl, inr, Bool,
  true, false, not, ◌&&◌, some, List, [], ◌∷◌, ◌++◌, append-nil, Text, codes, length, drop, All,
  ltb, ◌==◌, if◌then◌else◌, Bool-cases, same_text, same_text_iff, includes, arith,
}
use maspassword.Item.{CustomField, or_else, truthy}
use maspassword.Kdbx.Bytes.{drop-append}
use maspassword.Kdbx.Entries.{decimal_from, decimal, candidate, free_key, custom_entry_fields, keys}

-- The number that a text starts with, up to a bracket.
value : ℕ → Text → ℕ
value v [] = v
value v (c ∷ s) = let more = value (v * 10 + (c - b'0')) s in if c == b')' then v else more

value-decimal_from :
    (fuel n : ℕ) (later : Text) → n < fuel → value 0 (decimal_from fuel n later) ≡ value n later
unfolding decimal_from
value-decimal_from zero n later h = absurd (omega arith)
value-decimal_from (suc fuel) n later h = elim (Bool-cases (ltb n 10)) [
  | inl small ↦
      let digit : (b'0' + n == b')') ≡ false = ground arith in
      let same : 0 * 10 + (b'0' + n - b'0') ≡ n = omega arith in
      rw small (unfold value in rw (digit, same) refl)
  | inr large ↦
      let digit : (b'0' + n % 10 == b')') ≡ false = ground arith in
      let same : n / 10 * 10 + (b'0' + n % 10 - b'0') ≡ n = omega arith in
      rw (large, value-decimal_from fuel (n / 10) ((b'0' + n % 10) ∷ later) (ground arith))
        (unfold value in rw (digit, same) refl)
]

decimal_from-append :
    (fuel n : ℕ) (later s : Text)
    → decimal_from fuel n later ++ s ≡ decimal_from fuel n (later ++ s)
unfolding decimal_from
decimal_from-append zero n later s = refl
decimal_from-append (suc fuel) n later s = elim (Bool-cases (ltb n 10)) [
  | inl small ↦ rw small refl
  | inr large ↦ rw large (decimal_from-append fuel (n / 10) ((b'0' + n % 10) ∷ later) s)
]

value-decimal : (n : ℕ) → value 0 (decimal n ++ codes ")") ≡ n
unfolding decimal
value-decimal n =
    rw
      (
        decimal_from-append (suc n) n [] (codes ")"),
        value-decimal_from (suc n) n (codes ")") (omega arith),
      )
      (unfold value in refl)

-- The names that are tried are different.
candidate_suffix : ℕ → Text
candidate_suffix zero = []
candidate_suffix (suc n) = codes " (" ++ (decimal (suc (suc n)) ++ codes ")")

candidate_parts : (label : Text) (n : ℕ) → candidate label n ≡ label ++ candidate_suffix n
unfolding candidate_suffix
candidate_parts label zero = sym (append-nil label)
candidate_parts label (suc n) = refl

suffix_injective : (m n : ℕ) → candidate_suffix m ≡ candidate_suffix n → m ≡ n
unfolding candidate_suffix
suffix_injective zero zero e = refl
suffix_injective zero (suc n) e = cc
suffix_injective (suc m) zero e = cc
suffix_injective (suc m) (suc n) e =
    let numbers : value 0 (decimal (suc (suc m)) ++ codes ")")
        ≡ value 0 (decimal (suc (suc n)) ++ codes ")") =
      ap (λ s. value 0 (drop 2 s)) e in
    omega (arith, numbers, value-decimal (suc (suc m)), value-decimal (suc (suc n)))

candidate_injective : (label : Text) (m n : ℕ) → candidate label m ≡ candidate label n → m ≡ n
candidate_injective label m n e = suffix_injective m n (
    sym (drop-append label (candidate_suffix m))
    ∙ (ap (drop (length label)) (sym (candidate_parts label m) ∙ (e ∙ candidate_parts label n))
        ∙ drop-append label (candidate_suffix n)))

-- The result of the loop is one of them.
free_key_from :
    (fuel : ℕ) (used : List Text) (label : Text) (n : ℕ)
    → (m : ℕ) × (n ≤ m) × (free_key fuel used label n ≡ candidate label m)
unfolding free_key
free_key_from zero used label n = (n, omega arith, refl)
free_key_from (suc fuel) used label n = elim (Bool-cases (includes (candidate label n) used)) [
  | inl taken ↦
      let (m, le, e) = free_key_from fuel used label (n + 1) in (m, omega arith, rw taken e)
  | inr free ↦ (n, omega arith, rw free refl)
]

without : Text → List Text → List Text
without c [] = []
without c (t ∷ used) = let rest = without c used in if same_text c t then rest else t ∷ rest

includes-without :
    (c t : Text) (used : List Text)
    → same_text t c ≡ false
    → includes t (without c used) ≡ includes t used
unfolding without
includes-without c t [] h = refl
includes-without c t (u ∷ used) h =
    ground
      (arith, includes-without c t used h, same_text_iff c u, same_text_iff t c, same_text_iff t u)

length-without :
    (c : Text) (used : List Text)
    → (length (without c used) ≤ length used)
      × (includes c used ≡ true → length (without c used) < length used)
unfolding without
length-without c [] = (omega arith, λ h. absurd (ground arith))
length-without c (t ∷ used) = ground (arith, length-without c used)

-- Another name does not matter to what comes after it.
free_key-without :
    (fuel : ℕ) (used : List Text) (label : Text) (n : ℕ) (c : Text)
    → ((m : ℕ) → n ≤ m → same_text (candidate label m) c ≡ false)
    → free_key fuel (without c used) label n ≡ free_key fuel used label n
unfolding free_key
free_key-without zero used label n c other = refl
free_key-without (suc fuel) used label n c other =
    rw
      (
        includes-without c (candidate label n) used (other n (omega arith)),
        free_key-without fuel used label (n + 1) c (λ m h. other m (omega arith)),
      )
      refl

different :
    (label : Text) (m n : ℕ) → m ≢ n → same_text (candidate label m) (candidate label n) ≡ false
different label m n ne = elim (Bool-cases (same_text (candidate label m) (candidate label n))) [
  | inl same ↦ absurd (
      ne (
        candidate_injective label m n
          ((same_text_iff (candidate label m) (candidate label n)).0 same)))
  | inr other ↦ other
]

-- With more turns than used names, the name is free.
pub free_key_free :
    (fuel : ℕ) (used : List Text) (label : Text) (n : ℕ)
    → length used < fuel
    → includes (free_key fuel used label n) used ≡ false
free_key_free zero used label n lt = absurd (omega arith)
free_key_free (suc fuel) used label n lt = elim (Bool-cases (includes (candidate label n) used)) [
  | inr free ↦ unfold free_key in rw (free, free) refl
  | inl taken ↦
      let c = candidate label n in
      let less = (length-without c used).1 taken in
      taken_turn taken (free_key_free fuel (without c used) label (n + 1) (omega arith))
]
  where
    taken_turn :
        includes (candidate label n) used ≡ true
        → includes
            (free_key fuel (without (candidate label n) used) label (n + 1))
            (without (candidate label n) used)
          ≡ false
        → includes (free_key (suc fuel) used label n) used ≡ false
    taken_turn taken ih =
        let c = candidate label n in
        let r = free_key fuel used label (n + 1) in
        let same =
          free_key-without fuel used label (n + 1) c
            (λ m h. different label m n (λ e. absurd (omega arith))) in
        let (m, le, e) = free_key_from fuel used label (n + 1) in
        let other : same_text r c ≡ false =
          rw e (different label m n (λ q. absurd (omega arith))) in
        let step : free_key (suc fuel) used label n ≡ r = unfold free_key in rw taken refl in
        rw step (
          sym (includes-without c r used other)
          ∙ (ap (λ t. includes t (without c used)) (sym same) ∙ ih))

-- No two of the names are the same.
abbrev pub NoRepeat : List Text → Type 0
NoRepeat [] = Unit
NoRepeat (k ∷ names) = (includes k names ≡ false) × NoRepeat names

unfoldable pub no_repeat : List Text → Bool
no_repeat [] = true
no_repeat (k ∷ names) = not (includes k names) && no_repeat names

pub no_repeat_sound : (names : List Text) → no_repeat names ≡ true → NoRepeat names
unfolding no_repeat
no_repeat_sound [] h = tt
no_repeat_sound (k ∷ names) h = (ground arith, no_repeat_sound names (ground arith))

-- None of the names is used.
abbrev pub AreFree : List Text → List Text → Type 0
AreFree used = All (λ k. includes k used ≡ false)

AreFree-cons :
    (c : Text) (used names : List Text)
    → AreFree (c ∷ used) names
    → AreFree used names × (includes c names ≡ false)
AreFree-cons c used [] h = (tt, refl)
AreFree-cons c used (k ∷ names) (first, h) =
    let (free, new) = AreFree-cons c used names h in
    ((ground arith, free), ground (arith, new, same_text_iff k c, same_text_iff c k))

pub custom-NoRepeat :
    (used : List Text) (fields : List CustomField)
    → NoRepeat (keys (custom_entry_fields used fields))
      × AreFree used (keys (custom_entry_fields used fields))
unfolding custom_entry_fields
custom-NoRepeat used [] = (tt, tt)
custom-NoRepeat used (f ∷ fields) = go (custom-NoRepeat used fields) (
    custom-NoRepeat
      (free_key (suc (length used)) used (or_else (some f.label) (codes "Field")) 0 ∷ used) fields)
  where
    key : Text
    key = free_key (suc (length used)) used (or_else (some f.label) (codes "Field")) 0

    go :
        NoRepeat (keys (custom_entry_fields used fields))
          × AreFree used (keys (custom_entry_fields used fields))
        → NoRepeat (keys (custom_entry_fields (key ∷ used) fields))
          × AreFree (key ∷ used) (keys (custom_entry_fields (key ∷ used) fields))
        → NoRepeat (keys (custom_entry_fields used (f ∷ fields)))
          × AreFree used (keys (custom_entry_fields used (f ∷ fields)))
    go skipped (once, free) =
        elim (Bool-cases (not (truthy (some f.label)) && not (truthy f.value))) [
          | inl blank ↦ rw blank skipped
          | inr full ↦
              let (old, new) =
                AreFree-cons key used (keys (custom_entry_fields (key ∷ used) fields)) free in
              rw full (
                (new, once),
                (
                  free_key_free (suc (length used)) used (or_else (some f.label) (codes "Field")) 0
                      (omega arith),
                  old,
                ),
              )
        ]
