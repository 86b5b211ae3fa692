-- ===== src/WebAuthn/RpId.antt =====
-- rpIdValidFor of extension/webauthn.js: which RP IDs a page may ask for.
use maspassword.Base.{
  ◌-◌, ◌≡◌, ◌≢◌, ◌⊎◌, inl, inr, refl, sym, ap, ◌∙◌, Bool, true, false, not, ◌&&◌, ◌||◌, [], ◌∷◌,
  ◌++◌, Text, length, drop, take, take-append-drop, same_text, same_text_iff, includes,
  if◌then◌else◌, arith,
}
use maspassword.Domain.{dot, multi_part_suffixes, normal_host, registrable_domain}
use maspassword.Domain.Label.{Under, registrable_of_bounds}
use maspassword.WebAuthn.{ends_with, normal_name, valid_suffix, rp_id_valid_for}

-- A suffix behind a dot.
ends_with-Under : (s d : Text) → ends_with s (dot ∷ d) ≡ true → Under d s
ends_with-Under s d e =
    let cut = length s - length (dot ∷ d) in
    let tail : drop cut s ≡ dot ∷ d = (same_text_iff (drop cut s) (dot ∷ d)).0 (second _ _ e) in
    inr (take cut s, sym (take-append-drop cut s) ∙ ap (λ t. take cut s ++ t) tail)
  where
    second : (a b : Bool) → (a && b) ≡ true → b ≡ true
    second a b e = ground arith

-- The RP ID `r` of a host `h`: the host itself, or what stands behind a dot in it and still holds
-- the registrable domain of the host. That is one of the listed public suffixes only if it is all of
-- the host, but for a `www.` before it.
abbrev pub Allowed : (Text → Text) → Text → Text → Type 0
Allowed lower h r =
    (r ≡ h)
    ⊎ (Under r h
        × Under (registrable_domain lower h) r
        × Under (registrable_domain lower h) (normal_host lower h)
        × ((includes (registrable_domain lower h) multi_part_suffixes ≡ false)
            ⊎ (registrable_domain lower h ≡ normal_host lower h)))

-- The ways to be accepted.
chosen :
    (same behind all longer : Bool)
    → (if not same && not behind then false else if same then true else all || longer) ≡ true
    → (same ≡ true) ⊎ ((behind ≡ true) × ((all ≡ true) ⊎ (longer ≡ true)))
chosen true behind all longer e = inl refl
chosen false true true longer e = inr (refl, inl refl)
chosen false true false longer e = inr (refl, inr e)
chosen false false all longer e = cc

module _ (lower : Text → Text) where
  bounds :
      (h : Text)
      → h ≢ []
      → Under (registrable_domain lower h) (normal_host lower h)
        × ((includes (registrable_domain lower h) multi_part_suffixes ≡ false)
            ⊎ (registrable_domain lower h ≡ normal_host lower h))
  bounds [] ne = absurd (ne refl)
  bounds (c ∷ h) ne = unfold registrable_domain in registrable_of_bounds (normal_host lower (c ∷ h))

  tail-ne-nil : (h r : Text) → ends_with h (dot ∷ r) ≡ true → h ≢ []
  tail-ne-nil [] r e k = absurd (ground arith)
  tail-ne-nil (c ∷ h) r e k = ground arith

  valid_suffix-Allowed : (h r : Text) → valid_suffix lower h r ≡ true → Allowed lower h r
  valid_suffix-Allowed h r e =
      let rd = registrable_domain lower h in
      elim (chosen (same_text h r) (ends_with h (dot ∷ r)) (same_text r rd) (ends_with r (dot ∷ rd))
        e) [
          | inl same ↦ inl (sym ((same_text_iff h r).0 same))
          | inr (behind, holds) ↦
              let (under, listed) = bounds h (tail-ne-nil h r behind) in
              inr (
                ends_with-Under h r behind,
                elim holds [
                  | inl all ↦ inl ((same_text_iff r rd).0 all)
                  | inr longer ↦ ends_with-Under r rd longer
                ],
                under,
                listed,
              )
        ]

  -- if rpIdValidFor accepts an RP ID for a host then, both in lower case and without a final dot, it is the host, or stands behind a dot in it and holds its registrable domain. That is a listed public suffix only if the host is that suffix, but for a `www.` before it.
  pub rp_id_valid_for_sound :
      (hostname rp_id : Text)
      → rp_id_valid_for lower hostname rp_id ≡ true
      → Allowed lower (normal_name lower hostname) (normal_name lower rp_id)
  unfolding rp_id_valid_for
  rp_id_valid_for_sound [] rp_id e = absurd (ground arith)
  rp_id_valid_for_sound (c ∷ hostname) [] e = absurd (ground arith)
  rp_id_valid_for_sound (c ∷ hostname) (d ∷ rp_id) e = valid_suffix-Allowed _ _ e
