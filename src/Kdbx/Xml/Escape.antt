-- ===== src/Kdbx/Xml/Escape.antt =====
-- xmlDecode reads back what xmlEsc wrote.
use mathlib.Core.Path.{subst}
use maspassword.Base.{
  ℕ, zero, suc, ◌≤◌, ◌≡◌, refl, sym, inl, inr, true, false, Option, [], ◌∷◌, Text, codes, length,
  ◌==◌, ==_iff, Bool-cases, arith,
}
use maspassword.Kdbx.{ok}
use maspassword.Kdbx.Xml.Entity.{
  without_controls, replace_with, xml_esc, span, entity_at, entity_value, decode_from, xml_decode,
}

-- The four replacements on a text.
escaped : Text → Text
escaped s = replace_with b'"' (codes "&quot;") (
    replace_with b'>' (codes "&gt;")
      (replace_with b'<' (codes "&lt;") (replace_with b'&' (codes "&amp;") s)))

module _ (inherited : Text → Option Text) where
  -- Escaping and decoding give the text back, whatever the fuel that is enough.
  Decodes : Text → Type 0
  Decodes s = (fuel : ℕ) → length (escaped s) ≤ fuel → decode_from inherited fuel (escaped s) ≡ ok s

  amp : (s : Text) → Decodes s → Decodes (b'&' ∷ s)
  unfolding Decodes escaped replace_with decode_from entity_at span entity_value
  amp s h zero le = absurd (omega arith)
  amp s h (suc fuel) le = rw (h fuel (omega arith)) refl

  lt : (s : Text) → Decodes s → Decodes (b'<' ∷ s)
  unfolding Decodes escaped replace_with decode_from entity_at span entity_value
  lt s h zero le = absurd (omega arith)
  lt s h (suc fuel) le = rw (h fuel (omega arith)) refl

  gt : (s : Text) → Decodes s → Decodes (b'>' ∷ s)
  unfolding Decodes escaped replace_with decode_from entity_at span entity_value
  gt s h zero le = absurd (omega arith)
  gt s h (suc fuel) le = rw (h fuel (omega arith)) refl

  quot : (s : Text) → Decodes s → Decodes (b'"' ∷ s)
  unfolding Decodes escaped replace_with decode_from entity_at span entity_value
  quot s h zero le = absurd (omega arith)
  quot s h (suc fuel) le = rw (h fuel (omega arith)) refl

  other :
      (c : ℕ) (s : Text)
      → (c == b'&') ≡ false
      → (c == b'<') ≡ false
      → (c == b'>') ≡ false
      → (c == b'"') ≡ false
      → Decodes s
      → Decodes (c ∷ s)
  unfolding Decodes
  other c s e1 e2 e3 e4 h fuel le = rw kept (stays fuel (subst (λ t. length t ≤ fuel) kept le))
    where
      kept : escaped (c ∷ s) ≡ c ∷ escaped s
      kept = unfold escaped replace_with in rw (e1, e2, e3, e4) refl

      stays :
          (fuel : ℕ)
          → length (c ∷ escaped s) ≤ fuel
          → decode_from inherited fuel (c ∷ escaped s) ≡ ok (c ∷ s)
      stays zero le = absurd (omega arith)
      stays (suc fuel) le = unfold decode_from in rw (e1, h fuel (omega arith)) refl

  decodes : (s : Text) → Decodes s
  decodes [] = unfold Decodes in none_left
    where
      none_left :
          (fuel : ℕ) → length (escaped []) ≤ fuel → decode_from inherited fuel (escaped []) ≡ ok []
      none_left zero le = unfold escaped replace_with decode_from in refl
      none_left (suc fuel) le = unfold escaped replace_with decode_from in refl
  decodes (c ∷ s) = by_character (decodes s)
    where
      moved : (k : ℕ) → (c == k) ≡ true → Decodes (k ∷ s) → Decodes (c ∷ s)
      moved k e h = subst (λ d. Decodes (d ∷ s)) (sym ((==_iff c k).0 e)) h

      by_character : Decodes s → Decodes (c ∷ s)
      by_character h = elim (Bool-cases (c == b'&')) [
        | inl e ↦ moved b'&' e (amp s h)
        | inr e1 ↦ elim (Bool-cases (c == b'<')) [
          | inl e ↦ moved b'<' e (lt s h)
          | inr e2 ↦ elim (Bool-cases (c == b'>')) [
            | inl e ↦ moved b'>' e (gt s h)
            | inr e3 ↦ elim (Bool-cases (c == b'"')) [
              | inl e ↦ moved b'"' e (quot s h)
              | inr e4 ↦ other c s e1 e2 e3 e4 h
            ]
          ]
        ]
      ]

  pub xml_decode-xml_esc : (s : Text) → xml_decode inherited (xml_esc s) ≡ ok (without_controls s)
  unfolding xml_decode xml_esc
  xml_decode-xml_esc s =
      unfold escaped Decodes in
      decodes (without_controls s) (length (escaped (without_controls s))) (omega arith)
