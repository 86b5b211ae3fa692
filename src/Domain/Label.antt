-- ===== src/Domain/Label.antt =====
-- The registrable domain is a tail of the host that begins at a label, and no bare public suffix.
use mathlib.Core.Path.{subst}
use maspassword.Base.{
  ℕ, suc, ◌-◌, ◌+◌, ◌≤◌, ◌<◌, true, false, ◌≡◌, ◌≢◌, refl, sym, ap, ◌∙◌, ◌⊎◌, inl, inr, List, [],
  ◌∷◌, ◌++◌, Text, codes, length, leb, same_text, same_text_iff, includes, split, join, drop, take,
  take-append-drop, length-drop, length-take, join-cons, join-append, join-split, arith, Bool-cases,
  count, count-append, All,
}
use maspassword.Domain.{
  dot, multi_part_suffixes, last_labels, from_labels, is_ip_address, registrable_of,
}

-- The host is `domain`, or ends in a dot and `domain`.
abbrev pub Under : Text → Text → Type 0
Under domain host = (host ≡ domain) ⊎ ((labels : Text) × (host ≡ labels ++ dot ∷ domain))

ne-nil : (xs : List Text) → 0 < length xs → xs ≢ []
ne-nil [] h e = absurd (omega arith)
ne-nil (x ∷ xs) h e = ground arith

last_labels-Under :
    (n : ℕ) (host : Text)
    → 0 < n
    → n < length (split dot host)
    → Under (last_labels n (split dot host)) host
last_labels-Under n host pos lt = inr (front, whole)
  where
    labels : List Text
    labels = split dot host

    k : ℕ
    k = length labels - n

    front : Text
    front = join (dot ∷ []) (take k labels)

    whole : host ≡ front ++ dot ∷ last_labels n labels
    whole =
        sym (join-split dot host)
        ∙ ap (join (dot ∷ [])) (sym (take-append-drop k labels))
        ∙ join-append dot (take k labels) (drop k labels)
            (ne-nil (take k labels) (omega (arith, length-take k labels)))
            (ne-nil (drop k labels) (omega (arith, length-drop k labels)))

last_three-Under :
    (host : Text) → 3 ≤ length (split dot host) → Under (last_labels 3 (split dot host)) host
last_three-Under host le = elim (Bool-cases (leb (length (split dot host)) 3)) [
  | inl e ↦ inl (whole (ground arith))
  | inr e ↦ last_labels-Under 3 host (omega arith) (ground arith)
]
  where
    whole : length (split dot host) ≡ 3 → host ≡ last_labels 3 (split dot host)
    whole e = rw e (sym (join-split dot host))

from_labels-Under : (host : Text) → Under (from_labels (split dot host) host) host
unfolding from_labels
from_labels-Under host = elim (Bool-cases (leb (length (split dot host)) 2)) [
  | inl short ↦ rw short (inl refl)
  | inr long ↦ elim (Bool-cases (includes (last_labels 2 (split dot host)) multi_part_suffixes)) [
    | inl e ↦ rw (long, e) (last_three-Under host (ground arith))
    | inr e ↦ rw (long, e) (last_labels-Under 2 host (omega arith) (ground arith))
  ]
]

registrable_of-Under : (host : Text) → Under (registrable_of host) host
unfolding registrable_of
registrable_of-Under [] = inl refl
registrable_of-Under (c ∷ host) = elim (Bool-cases (same_text (c ∷ host) (codes "localhost"))) [
  | inl e ↦ rw e (inl refl)
  | inr e ↦ elim (Bool-cases (is_ip_address (c ∷ host))) [
    | inl ip ↦ rw (e, ip) (inl refl)
    | inr name ↦ rw (e, name) (from_labels-Under (c ∷ host))
  ]
]

dots-join : (labels : List Text) → length labels ≤ count dot (join (dot ∷ []) labels) + 1
dots-join [] = omega arith
dots-join (l ∷ []) = omega arith
dots-join (l ∷ m ∷ labels) = rw (join-cons dot l (m ∷ labels) (λ e. ground arith)) (
    omega (
      arith,
      count-append dot l (dot ∷ join (dot ∷ []) (m ∷ labels)),
      dots-join (m ∷ labels),
      step,
    ))
  where
    step :
        count dot (dot ∷ join (dot ∷ []) (m ∷ labels))
        ≡ suc (count dot (join (dot ∷ []) (m ∷ labels)))
    step = unfold count in omega arith

suffix_dots : All (λ s. count dot s ≡ 1) multi_part_suffixes
unfolding multi_part_suffixes count
suffix_dots = ground arith

includes-All :
    (P : Text → Type 0) (s : Text) (ts : List Text) → All P ts → includes s ts ≡ true → P s
includes-All P s [] h e = absurd (ground arith)
includes-All P s (t ∷ ts) h e = elim (Bool-cases (same_text s t)) [
  | inl same ↦ subst P (sym ((same_text_iff s t).0 same)) h.0
  | inr other ↦ includes-All P s ts h.1 (ground arith)
]

suffix_one_dot : (s : Text) → includes s multi_part_suffixes ≡ true → count dot s ≡ 1
suffix_one_dot s = includes-All (λ t. count dot t ≡ 1) s multi_part_suffixes suffix_dots

last_three-ne-suffix :
    (labels : List Text)
    → 3 ≤ length labels
    → includes (last_labels 3 labels) multi_part_suffixes ≡ true
    → ⊥
last_three-ne-suffix labels le h = omega (
  arith,
  suffix_one_dot (last_labels 3 labels) h,
  dots-join (drop (length labels - 3) labels),
  length-drop (length labels - 3) labels,
)

from_labels_suffix :
    (labels : List Text) (host : Text)
    → includes (from_labels labels host) multi_part_suffixes ≡ true
    → from_labels labels host ≡ host
unfolding from_labels
from_labels_suffix labels host h = elim (Bool-cases (leb (length labels) 2)) [
  | inl short ↦ rw short
  | inr long ↦ elim (Bool-cases (includes (last_labels 2 labels) multi_part_suffixes)) [
    | inl e ↦ absurd (last_three-ne-suffix labels (ground arith) (rw (long, e) at h))
    | inr e ↦ absurd (false_true (sym e ∙ (rw (long, e) at h)))
  ]
]
  where
    false_true : false ≡ true → ⊥
    false_true e = cc

-- A registrable domain that is a public suffix of two labels is the whole host.
registrable_of_suffix :
    (host : Text)
    → includes (registrable_of host) multi_part_suffixes ≡ true
    → registrable_of host ≡ host
unfolding registrable_of
registrable_of_suffix [] h = refl
registrable_of_suffix (c ∷ host) h = elim (Bool-cases (same_text (c ∷ host) (codes "localhost"))) [
  | inl e ↦ rw e
  | inr e ↦ elim (Bool-cases (is_ip_address (c ∷ host))) [
    | inl ip ↦ rw (e, ip)
    | inr name ↦
        rw (e, name) (from_labels_suffix (split dot (c ∷ host)) (c ∷ host) (rw (e, name) at h))
  ]
]

-- The registrable domain of a host stands in it as the whole or behind a dot, and if it is one of the
-- two-label public suffixes it is the whole host.
pub registrable_of_bounds :
    (host : Text)
    → Under (registrable_of host) host
      × ((includes (registrable_of host) multi_part_suffixes ≡ false)
          ⊎ (registrable_of host ≡ host))
registrable_of_bounds host = (
  registrable_of-Under host,
  elim (Bool-cases (includes (registrable_of host) multi_part_suffixes)) [
    | inl e ↦ inr (registrable_of_suffix host e)
    | inr e ↦ inl e
  ],
)
