-- ===== src/Background/Passkeys/Assertions.antt =====
-- passkeyAssert of extension/background.js: what an assertion signs, and for whom.
use mathlib.Core.Path.{subst}
use maspassword.Base.{
  ℕ, ◌≡◌, refl, sym, ap, ◌∙◌, Bool, true, false, if◌then◌else◌, Option, none, some, List, Text,
  same_text, same_text_iff,
}
use maspassword.Item.{truthy}
use maspassword.Background.{Passkey, Item, World, Env}
use maspassword.Background.Monad.{ok, thrown, continue-ok}
use maspassword.Background.Pending.{Sender}
use maspassword.Background.Passkeys.Origin.{Granted, enter-Granted}
use maspassword.Background.Passkeys.{
  Signer, Assertion, assertion, not_found, assertion_flags, signed, sign_with, assert_passkey,
  passkey_of, passkey_in, assert_item, passkey_assert, Gate, bad_origin, locked, security_error,
  open_for, enter,
}
use maspassword.Base.{codes, ◌++◌}
use maspassword.WebAuthn.{build_auth_data, raw_sig_to_der}
use maspassword.Background.Pending.{or_empty}
use maspassword.Background.Items.{find_item}

assertion_injective : (a b : Assertion) → ok (assertion a) ≡ ok (assertion b) → a ≡ b
assertion_injective a b e = cc

module _ {N : Type 0} (env : Env N) (signer : Signer) where
  abbrev client_text : Text → Text → Text
  client_text origin challenge = signer.client_data (codes "webauthn.get") challenge origin

  abbrev authenticator : Text → List ℕ
  authenticator rp = build_auth_data (signer.sha256 (signer.utf8 rp)) assertion_flags none

  abbrev signed_data : Text → Text → Text → List ℕ
  signed_data origin rp challenge =
      authenticator rp ++ signer.sha256 (signer.utf8 (client_text origin challenge))

  -- What an assertion of a passkey is: one for the RP ID, and a signature over the data that name the
  -- RP ID, the challenge and the origin.
  abbrev pub Asserted : Text → Text → Text → Passkey → Assertion → Type 0
  Asserted origin rp challenge pk a =
      (raw : List ℕ) × (pk.rp_id ≡ rp)
      × (a.credential_id ≡ pk.credential_id)
      × (a.client_data_json ≡ client_text origin challenge)
      × (a.authenticator_data ≡ authenticator rp)
      × (signer.sign (or_empty pk.private_key) (signed_data origin rp challenge) ≡ some raw)
      × (raw_sig_to_der raw ≡ some a.signature)

  abbrev made : Text → Text → Passkey → List ℕ → Assertion
  made rp client pk der = record {
    credential_id = pk.credential_id;
    client_data_json = client;
    authenticator_data = authenticator rp;
    signature = der;
    user_handle = (if truthy (some pk.user_handle) then some pk.user_handle else none);
  }

  signed-Asserted :
      (origin rp challenge : Text) (pk : Passkey) (a : Assertion) (raw : Option (List ℕ))
      → pk.rp_id ≡ rp
      → signer.sign (or_empty pk.private_key) (signed_data origin rp challenge) ≡ raw
      → signed env signer rp (client_text origin challenge) pk raw ≡ ok (assertion a)
      → Asserted origin rp challenge pk a
  signed-Asserted origin rp challenge pk a none same s e = cc
  signed-Asserted origin rp challenge pk a (some raw) same s e = by_der (raw_sig_to_der raw) refl e
    where
      by_der :
          (der : Option (List ℕ))
          → raw_sig_to_der raw ≡ der
          → elim der [
            | none ↦ thrown (codes "signature: expected 64 bytes r||s")
            | some d ↦ ok (assertion (made rp (client_text origin challenge) pk d))
          ]
            ≡ ok (assertion a)
          → Asserted origin rp challenge pk a
      by_der none d e = cc
      by_der (some der) d e =
          let made = assertion_injective _ _ e in
          (
            raw,
            same,
            ap (λ a. a.credential_id) (sym made),
            ap (λ a. a.client_data_json) (sym made),
            ap (λ a. a.authenticator_data) (sym made),
            s,
            d ∙ ap (λ a. some a.signature) made,
          )

  assert_passkey-Asserted :
      (origin rp challenge : Text) (o : Option Passkey) (a : Assertion)
      → assert_passkey env signer origin rp challenge o ≡ ok (assertion a)
      → (pk : Passkey) × (o ≡ some pk) × Asserted origin rp challenge pk a
  unfolding sign_with
  assert_passkey-Asserted origin rp challenge none a e = cc
  assert_passkey-Asserted origin rp challenge (some pk) a e =
      (pk, refl, by_test (same_text pk.rp_id rp) refl e)
    where
      by_test :
          (b : Bool)
          → same_text pk.rp_id rp ≡ b
          → (if b then sign_with env signer origin rp challenge pk else ok not_found)
            ≡ ok (assertion a)
          → Asserted origin rp challenge pk a
      by_test true t e =
          signed-Asserted origin rp challenge pk a _ ((same_text_iff pk.rp_id rp).0 t) refl e
      by_test false t e = cc

  -- The item with the id, and its passkey.
  abbrev pub Chosen : Text → List Item → Passkey → Type 0
  Chosen item_id items pk =
      (i : Item) × (find_item item_id items ≡ some i) × (passkey_of i ≡ some pk)

  passkey_in-Chosen :
      (item_id : Text) (items : List Item) (o : Option Item) (pk : Passkey)
      → find_item item_id items ≡ o
      → passkey_in env signer o ≡ some pk
      → Chosen item_id items pk
  passkey_in-Chosen item_id items none pk f e = cc
  passkey_in-Chosen item_id items (some i) pk f e = (i, f, e)

  assert_item-Asserted :
      (item_id challenge : Text) (gate : Gate) (u v : World N) (a : Assertion)
      → assert_item env signer item_id challenge gate u ≡ (ok (assertion a), v)
      → (origin : Text) × (rp : Text) × (pk : Passkey) × (gate ≡ open_for origin rp)
        × Chosen item_id v.memory.items pk
        × Asserted origin rp challenge pk a
  unfolding assert_item
  assert_item-Asserted item_id challenge bad_origin u v a e = cc
  assert_item-Asserted item_id challenge locked u v a e = cc
  assert_item-Asserted item_id challenge security_error u v a e = cc
  assert_item-Asserted item_id challenge (open_for origin rp) u v a e =
      let found = find_item item_id u.memory.items in
      let (pk, has, asserted) =
        assert_passkey-Asserted origin rp challenge (passkey_in env signer found) a
          (ap (λ p. p.0) e) in
      (
        origin,
        rp,
        pk,
        refl,
        subst (λ w. Chosen item_id w.memory.items pk) (ap (λ p. p.1) e)
            (passkey_in-Chosen item_id u.memory.items found pk refl has),
        asserted,
      )

  -- if passkeyAssert makes an assertion then the worker is unlocked, and there is an RP ID that is valid for the host of the origin that the browser reports for the sender. The assertion is by the passkey of the cached item that was asked for, whose RP ID is that one, and its signature covers the hashed RP ID and the challenge with that origin.
  pub passkey_assert_scoped :
      (requested : Option Text) (item_id challenge : Text) (sender : Sender) (w v : World N)
      (a : Assertion)
      → passkey_assert env signer requested item_id challenge sender w ≡ (ok (assertion a), v)
      → (origin : Text) × (rp : Text) × (pk : Passkey) × Granted env sender w origin rp
        × Chosen item_id v.memory.items pk
        × Asserted origin rp challenge pk a
  unfolding passkey_assert
  passkey_assert_scoped requested item_id challenge sender w v a e =
      let (gate, u, first, after) = continue-ok (enter env sender requested w) _ _ _ e in
      let (origin, rp, pk, passed, chosen, asserted) =
        assert_item-Asserted item_id challenge gate u v a after in
      (
        origin,
        rp,
        pk,
        enter-Granted env sender requested origin rp w u (first ∙ ap (λ g. (ok g, u)) passed),
        chosen,
        asserted,
      )
