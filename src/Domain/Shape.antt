-- ===== src/Domain/Shape.antt =====
-- What a registrable domain looks like, by the number of its dots.
use maspassword.Base.{
  ℕ, zero, suc, ◌-◌, ◌+◌, ◌≤◌, ◌<◌, true, false, ◌≡◌, ◌≢◌, refl, ap, ◌∙◌, ◌⊎◌, inl, inr, List, [],
  ◌∷◌, ◌++◌, Text, codes, length, leb, ◌==◌, same_text, same_text_iff, includes, split,
  split-ne-nil, cons_head, join, join-cons, drop, length-drop, arith, Bool-cases, count,
  count-append, All,
}
use maspassword.Domain.{
  dot, multi_part_suffixes, last_labels, from_labels, is_ip_address, registrable_of,
}

-- A domain of a host is all of a host that has at most two labels, is `localhost` or is an IP address;
-- or it has two labels, which are no listed suffix; or it is one label before a listed suffix.
pub data Registrable (domain host : Text) : Type 0 where
  whole :
      host ≡ domain
      → (domain ≡ codes "localhost") ⊎ (is_ip_address domain ≡ true) ⊎ (count dot domain ≤ 1)
      → Registrable domain host
  two_labels :
      count dot domain ≡ 1 → includes domain multi_part_suffixes ≡ false → Registrable domain host
  on_suffix :
      (label suffix : Text)
      → domain ≡ label ++ dot ∷ suffix
      → count dot label ≡ 0
      → count dot suffix ≡ 1
      → includes suffix multi_part_suffixes ≡ true
      → Registrable domain host

abbrev NoDots : List Text → Type 0
NoDots labels = All (λ l. count dot l ≡ 0) labels

cons_head-NoDots :
    (c : ℕ) (parts : List Text) → (c == dot) ≡ false → NoDots parts → NoDots (cons_head c parts)
unfolding count
cons_head-NoDots c [] e h = (ground arith, tt)
cons_head-NoDots c (p ∷ parts) e h = (ground (arith, h.0), h.1)

length-cons_head :
    (c : ℕ) (parts : List Text) → parts ≢ [] → length (cons_head c parts) ≡ length parts
length-cons_head c [] h = absurd (h refl)
length-cons_head c (p ∷ parts) h = refl

split-NoDots : (s : Text) → NoDots (split dot s)
unfolding split
split-NoDots [] = (unfold count in refl, tt)
split-NoDots (c ∷ s) = elim (Bool-cases (c == dot)) [
  | inl e ↦ rw e (unfold count in refl, split-NoDots s)
  | inr e ↦ rw e (cons_head-NoDots c (split dot s) e (split-NoDots s))
]

length-split : (s : Text) → length (split dot s) ≡ count dot s + 1
unfolding split count
length-split [] = refl
length-split (c ∷ s) = elim (Bool-cases (c == dot)) [
  | inl e ↦ rw e (ground (arith, e, length-split s))
  | inr e ↦
      rw e
        (length-cons_head c (split dot s) (split-ne-nil dot s) ∙ ground (arith, e, length-split s))
]

count-join :
    (labels : List Text)
    → labels ≢ []
    → NoDots labels
    → count dot (join (dot ∷ []) labels) + 1 ≡ length labels
count-join [] ne h = absurd (ne refl)
count-join (l ∷ []) ne h = unfold join in omega (arith, h.0)
count-join (l ∷ m ∷ labels) ne h = rw (join-cons dot l (m ∷ labels) (λ e. ground arith)) (
    omega (
      arith,
      count-append dot l (dot ∷ join (dot ∷ []) (m ∷ labels)),
      count-join (m ∷ labels) (λ e. ground arith) h.1,
      h.0,
      step,
    ))
  where
    step :
        count dot (dot ∷ join (dot ∷ []) (m ∷ labels))
        ≡ suc (count dot (join (dot ∷ []) (m ∷ labels)))
    step = unfold count in omega arith

drop-NoDots : (n : ℕ) (labels : List Text) → NoDots labels → NoDots (drop n labels)
drop-NoDots zero labels h = h
drop-NoDots (suc n) [] h = tt
drop-NoDots (suc n) (l ∷ labels) h = drop-NoDots n labels h.1

ne-nil : (xs : List Text) → 0 < length xs → xs ≢ []
ne-nil [] h e = absurd (omega arith)
ne-nil (x ∷ xs) h e = ground arith

-- The last `n` labels have one dot less.
count-last_labels :
    (n : ℕ) (host : Text)
    → 0 < n
    → n ≤ length (split dot host)
    → count dot (last_labels n (split dot host)) + 1 ≡ n
count-last_labels n host pos le =
    count-join (drop k labels) (ne-nil (drop k labels) (omega (arith, size)))
      (drop-NoDots k labels (split-NoDots host))
    ∙ omega (arith, size)
  where
    labels : List Text
    labels = split dot host

    k : ℕ
    k = length labels - n

    size : length (drop k labels) ≡ length labels - k
    size = length-drop k labels

drop-first :
    (k : ℕ) (labels : List Text)
    → NoDots labels
    → k < length labels
    → (label : Text) × (drop k labels ≡ label ∷ drop (suc k) labels) × (count dot label ≡ 0)
drop-first k [] h lt = absurd (omega arith)
drop-first zero (l ∷ labels) h lt = (l, refl, h.0)
drop-first (suc k) (l ∷ labels) h lt = drop-first k labels h.1 (omega arith)

-- Three labels are one before two.
last_three :
    (host : Text)
    → 3 ≤ length (split dot host)
    → (label : Text) × (last_labels 3 (split dot host)
        ≡ label ++ dot ∷ last_labels 2 (split dot host))
      × (count dot label ≡ 0)
last_three host le =
    let labels = split dot host in
    let (label, first, plain) =
      drop-first (length labels - 3) labels (split-NoDots host) (omega arith) in
    let next : suc (length labels - 3) ≡ length labels - 2 = omega arith in
    let some_left : 0 < length (drop (length labels - 2) labels) =
      omega (arith, length-drop (length labels - 2) labels) in
    (
      label,
      ap (join (dot ∷ [])) (first ∙ ap (λ k. label ∷ drop k labels) next)
          ∙ join-cons dot label (drop (length labels - 2) labels) (ne-nil _ some_left),
      plain,
    )

from_labels-Registrable : (host : Text) → Registrable (from_labels (split dot host) host) host
unfolding from_labels
from_labels-Registrable host = elim (Bool-cases (leb (length (split dot host)) 2)) [
  | inl short ↦ rw short (whole refl (inr (inr (ground (arith, length-split host)))))
  | inr long ↦ elim (Bool-cases (includes (last_labels 2 (split dot host)) multi_part_suffixes)) [
    | inl e ↦
        let (label, eq, plain) = last_three host (ground arith) in
        rw (long, e)
          (on_suffix label (last_labels 2 (split dot host)) eq plain
            (omega (arith, count-last_labels 2 host (omega arith) (ground arith))) e)
    | inr e ↦
        rw (long, e)
          (two_labels (omega (arith, count-last_labels 2 host (omega arith) (ground arith))) e)
  ]
]

-- The registrable domain of a host is one of those.
pub registrable_of-Registrable : (host : Text) → Registrable (registrable_of host) host
unfolding registrable_of
registrable_of-Registrable [] = whole refl (inr (inr (unfold count in omega arith)))
registrable_of-Registrable (c ∷ host) =
    elim (Bool-cases (same_text (c ∷ host) (codes "localhost"))) [
      | inl e ↦ rw e (whole refl (inl ((same_text_iff (c ∷ host) (codes "localhost")).0 e)))
      | inr e ↦ elim (Bool-cases (is_ip_address (c ∷ host))) [
        | inl ip ↦ rw (e, ip) (whole refl (inr (inl ip)))
        | inr name ↦ rw (e, name) (from_labels-Registrable (c ∷ host))
      ]
    ]
