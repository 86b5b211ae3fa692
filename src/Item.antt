-- ===== src/Item.antt =====
-- The decrypted data of an item, as web/export.js reads it and web/import.js makes it.
use maspassword.Base.{
  Bool, true, false, Option, none, some, List, [], ◌∷◌, Text, codes, if◌then◌else◌, same_text,
}

-- `value` may be missing; a missing label is an empty one to the code.
pub record CustomField : Type 0 where
  pub label : Text
  pub value : Option Text
  pub hidden : Bool

pub record ItemData : Type 0 where
  pub kind : Option Text
  pub title : Option Text
  pub username : Option Text
  pub password : Option Text
  pub url : Option Text
  pub notes : Option Text
  pub totp_secret : Option Text
  pub card_holder : Option Text
  pub card_number : Option Text
  pub card_brand : Option Text
  pub card_exp : Option Text
  pub card_cvv : Option Text
  pub card_pin : Option Text
  pub id_fullname : Option Text
  pub id_email : Option Text
  pub id_phone : Option Text
  pub id_address : Option Text
  pub id_company : Option Text
  pub custom_fields : List CustomField
  pub tags : List Text

-- `v || ''` and `v || other`, for a text that may be missing.
abbrev pub or_else : Option Text → Text → Text
or_else none other = other
or_else (some []) other = other
or_else (some (c ∷ s)) other = c ∷ s

abbrev pub or_blank : Option Text → Text
or_blank v = or_else v []

abbrev pub truthy : Option Text → Bool
truthy none = false
truthy (some []) = false
truthy (some (c ∷ s)) = true

-- The value of a text in a template: a missing one is printed so.
abbrev pub shown : Option Text → Text
shown none = codes "undefined"
shown (some s) = s

-- A type-specific field: its key, its value, and whether it is protected.
pub record ExtraField : Type 0 where
  pub key : Text
  pub value : Option Text
  pub is_protected : Bool

abbrev extra : Text → Option Text → Bool → ExtraField
extra key value is_protected = record { key = key; value = value; is_protected = is_protected }

unfoldable pub extra_fields : ItemData → List ExtraField
extra_fields d =
    if same_text (or_blank d.kind) (codes "card")
    then extra (codes "Card Holder") d.card_holder false
      ∷ extra (codes "Card Number") d.card_number true
      ∷ extra (codes "Card Brand") d.card_brand false
      ∷ extra (codes "Card Expiry") d.card_exp false
      ∷ extra (codes "Card CVV") d.card_cvv true
      ∷ extra (codes "Card PIN") d.card_pin true
      ∷ []
    else if same_text (or_blank d.kind) (codes "identity")
    then extra (codes "Full Name") d.id_fullname false
      ∷ extra (codes "Email") d.id_email false
      ∷ extra (codes "Phone") d.id_phone false
      ∷ extra (codes "Address") d.id_address false
      ∷ extra (codes "Company") d.id_company false
      ∷ []
    else []
