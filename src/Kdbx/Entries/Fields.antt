-- ===== src/Kdbx/Entries/Fields.antt =====
-- The reader's Map finds every field of an entry that the writer made: none hides another.
use mathlib.Core.List.{map-append}
use mathlib.Core.Path.{subst}
use maspassword.Base.{
  ◌≡◌, refl, sym, inl, inr, true, false, ◌||◌, none, some, List, [], ◌∷◌, ◌++◌, Text, codes, All,
  Bool-cases, same_text, same_text_iff, same_text_refl, includes, arith,
}
use maspassword.Item.{ItemData, extra_fields, or_blank}
use maspassword.Kdbx.Entries.{EntryField, custom_entry_fields, base_fields, keys, entry_fields}
use maspassword.Kdbx.Entries.Reader.{by_key}
use maspassword.Kdbx.Entries.Names.{NoRepeat, AreFree, no_repeat, no_repeat_sound, custom-NoRepeat}

includes-append :
    (t : Text) (xs ys : List Text) → includes t (xs ++ ys) ≡ (includes t xs || includes t ys)
includes-append t [] ys = refl
includes-append t (x ∷ xs) ys = ground (arith, includes-append t xs ys)

-- A name is in none of the free names.
includes-AreFree :
    (x : Text) (xs ys : List Text) → AreFree (x ∷ xs) ys → (includes x ys ≡ false) × AreFree xs ys
includes-AreFree x xs [] h = (refl, tt)
includes-AreFree x xs (y ∷ ys) (first, h) =
    let (new, free) = includes-AreFree x xs ys h in
    (ground (arith, new, same_text_iff x y, same_text_iff y x), (ground arith, free))

NoRepeat-append :
    (xs ys : List Text) → NoRepeat xs → NoRepeat ys → AreFree xs ys → NoRepeat (xs ++ ys)
NoRepeat-append [] ys h k free = k
NoRepeat-append (x ∷ xs) ys (first, h) k free =
    let (new, free') = includes-AreFree x xs ys free in
    (rw (includes-append x xs ys, first, new) refl, NoRepeat-append xs ys h k free')

distinct_base : (d : ItemData) (otp : Text) → no_repeat (keys (base_fields d otp)) ≡ true
unfolding no_repeat extra_fields
distinct_base d [] = elim (Bool-cases (same_text (or_blank d.kind) (codes "card"))) [
  | inl card ↦ rw card refl
  | inr other ↦ elim (Bool-cases (same_text (or_blank d.kind) (codes "identity"))) [
    | inl identity ↦ rw (other, identity) refl
    | inr login ↦ rw (other, login) refl
  ]
]
distinct_base d (c ∷ otp) = elim (Bool-cases (same_text (or_blank d.kind) (codes "card"))) [
  | inl card ↦ rw card refl
  | inr other ↦ elim (Bool-cases (same_text (or_blank d.kind) (codes "identity"))) [
    | inl identity ↦ rw (other, identity) refl
    | inr login ↦ rw (other, login) refl
  ]
]

entry_fields-NoRepeat : (d : ItemData) (otp : Text) → NoRepeat (keys (entry_fields d otp))
unfolding entry_fields
entry_fields-NoRepeat d otp =
    let custom = custom_entry_fields (keys (base_fields d otp)) d.custom_fields in
    let (once, free) = custom-NoRepeat (keys (base_fields d otp)) d.custom_fields in
    subst NoRepeat (sym (map-append (λ f. f.key) (base_fields d otp) custom)) (
      NoRepeat-append (keys (base_fields d otp)) (keys custom)
        (no_repeat_sound (keys (base_fields d otp)) (distinct_base d otp)) once free)

by_key-none :
    (key : Text) (fields : List EntryField)
    → includes key (keys fields) ≡ false
    → by_key key fields ≡ none
unfolding by_key
by_key-none key [] h = refl
by_key-none key (f ∷ fields) h =
    let other : same_text f.key key ≡ false =
      ground (arith, same_text_iff f.key key, same_text_iff key f.key) in
    rw (by_key-none key fields (ground arith), other) refl

-- In a list with names of their own, every field is found by its name.
Found : List EntryField → List EntryField → Type 0
Found all = All (λ f. by_key f.key all ≡ some f)

Found-cons :
    (g : EntryField) (all fields : List EntryField) → Found all fields → Found (g ∷ all) fields
unfolding Found by_key
Found-cons g all [] h = tt
Found-cons g all (f ∷ fields) (first, h) = (rw first refl, Found-cons g all fields h)

NoRepeat-Found : (fields : List EntryField) → NoRepeat (keys fields) → Found fields fields
unfolding Found
NoRepeat-Found [] h = tt
NoRepeat-Found (f ∷ fields) (new, h) = (
  unfold by_key in rw (by_key-none f.key fields new, same_text_refl f.key) refl,
  unfold Found in Found-cons f fields fields (NoRepeat-Found fields h),
)

pub by_key-entry_fields :
    (d : ItemData) (otp : Text)
    → All (λ f. by_key f.key (entry_fields d otp) ≡ some f) (entry_fields d otp)
unfolding Found
by_key-entry_fields d otp = NoRepeat-Found (entry_fields d otp) (entry_fields-NoRepeat d otp)
