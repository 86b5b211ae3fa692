-- ===== src/Background/Registration.antt =====
-- passkeyRegister of extension/background.js. The new key pair, the credential id and base64url are
-- parameters.
pub mod Locked
use maspassword.Base.{
  ℕ, Bool, false, ◌||◌, if◌then◌else◌, Option, none, some, List, [], ◌∷◌, Text, codes, same_text,
  includes,
}
use maspassword.Item.{truthy}
use maspassword.WebAuthn.{
  build_auth_data, build_attested_credential_data, build_attestation_object, cose_ec2_key,
}
use maspassword.Background.{Key, Passkey, ItemData, Item, Vault, World, Env}
use maspassword.Background.Monad.{
  Result, ok, thrown, Action, pure, gets, or_throw, ◌>>=◌, ◌>>◌, continue,
}
use maspassword.Background.Session.{api}
use maspassword.Background.Items.{find_vault, vault_key, refresh_all_items, save_new_item}
use maspassword.Background.Pending.{Sender, or_empty, chosen_vault}
use maspassword.Background.Passkeys.{
  Signer, Gate, bad_origin, locked, security_error, open_for, passkey_of, or_text, enter,
  passkey_items_for,
}

-- generatePasskeyKeypair: the private key as JSON, and the public point.
pub record Keypair : Type 0 where
  pub private_key : Text
  pub x : List ℕ
  pub y : List ℕ

-- What WebCrypto and its random source give from what is behind the network.
pub record Registrar (N : Type 0) : Type 0 where
  pub generate_passkey_keypair : N → Keypair
  pub random_credential_id : N → List ℕ
  pub b64url_encode : List ℕ → Text
  pub spki : Text → List ℕ

pub record RegisterMessage : Type 0 where
  pub rp : Option Text
  pub rp_name : Option Text
  pub exclude : List Text
  pub user_handle : Option Text
  pub user_name : Option Text
  pub user_display_name : Option Text
  pub vault_id : Option Text
  pub challenge : Text

pub record Registered : Type 0 where
  pub rp : Text
  pub credential_id : Text
  pub client_data_json : Text
  pub attestation_object : Text
  pub authenticator_data : Text
  pub public_key : Text

pub data RegisterReply : Type 0 where
  not_registered : Gate → RegisterReply
  excluded no_vault : RegisterReply
  registered : Registered → RegisterReply

-- FLAG_UP | FLAG_UV | FLAG_BE | FLAG_BS | FLAG_AT
abbrev registration_flags : ℕ
registration_flags = 0x5d

abbrev credential_in : List Text → Option Passkey → Bool
credential_in exclude none = false
credential_in exclude (some pk) = includes pk.credential_id exclude

-- `existing.some(…)`.
unfoldable pub any_excluded : List Text → List Item → Bool
any_excluded exclude [] = false
any_excluded exclude (i ∷ items) =
    credential_in exclude (passkey_of i) || any_excluded exclude items

abbrev same_handle : Text → Option Passkey → Bool
same_handle handle none = false
same_handle handle (some pk) = same_text pk.user_handle handle

-- `existing.find(…)`.
unfoldable pub replaceable : Text → List Item → Option Item
replaceable handle [] = none
replaceable handle (i ∷ items) =
    let later = replaceable handle items in
    if same_handle handle (passkey_of i) then some i else later

-- `alg`, which is always ES256, is left out of a passkey.
abbrev pub passkey_for : RegisterMessage → Text → Text → Text → ℕ → Passkey
passkey_for msg rp credential_id private_key now = record {
  rp_id = rp;
  credential_id = credential_id;
  user_handle = or_empty msg.user_handle;
  user_name = or_empty msg.user_name;
  user_display_name = or_empty msg.user_display_name;
  private_key = some private_key;
  created_at = now;
}

-- `{ ...replaceable.data, username: …, passkey }`.
abbrev pub with_passkey : Passkey → ItemData → ItemData
with_passkey pk d = record d {
  username = some (or_text d.username pk.user_name);
  passkey = some pk;
}

abbrev pub passkey_item : RegisterMessage → Text → Text → Passkey → ItemData
passkey_item msg origin rp pk = record {
  type = some (codes "login");
  title = some (or_text msg.rp_name rp);
  username = some pk.user_name;
  password = some [];
  url = some origin;
  notes = some [];
  pw_changed_at = none;
  passkey = some pk;
  others = [];
}

-- `${item.itemId}`.
abbrev id_text : Option Text → Text
id_text none = codes "undefined"
id_text (some id) = id

module _ {N : Type 0} (env : Env N) (signer : Signer) (registrar : Registrar N) where
  -- A passkey of the same user is replaced. A vault that is not there or has no key is a TypeError.
  unfoldable pub replace_passkey : Item → Passkey → Action N (Unit {0})
  replace_passkey item pk = do
    vault ← or_throw (find_vault item.vault_id (← gets (λ w. w.memory.vaults))) (codes "TypeError")
    key ← or_throw (← vault_key env vault) (codes "TypeError")
    encrypted ← gets (λ w. env.encrypt w.net key (env.stringify (with_passkey pk item.contents)))
    api (env.put_item item.vault_id (id_text item.item_id) encrypted item.version)
    refresh_all_items env

  -- The reply, which throws for a public point that is not of 32 bytes each.
  unfoldable pub reply_with :
      RegisterMessage → Text → Text → Keypair → List ℕ → Result RegisterReply
  reply_with msg origin rp pair credential_id = elim (cose_ec2_key signer.utf8 pair.x pair.y) [
    | none ↦ thrown (codes "COSE: x/y must be 32 bytes")
    | some cose ↦
        let auth_data =
          build_auth_data (signer.sha256 (signer.utf8 rp)) registration_flags
            (some (build_attested_credential_data credential_id cose)) in
        elim (build_attestation_object signer.utf8 auth_data) [
          | none ↦ thrown (codes "CBOR: value too large")
          | some object ↦ ok (
              registered (record {
                rp = rp;
                credential_id = registrar.b64url_encode credential_id;
                client_data_json =
                    signer.client_data (codes "webauthn.create") msg.challenge origin;
                attestation_object = registrar.b64url_encode object;
                authenticator_data = registrar.b64url_encode auth_data;
                public_key = registrar.b64url_encode (registrar.spki pair.private_key);
              }))
        ]
  ]

  abbrev replying : Result RegisterReply → Action N RegisterReply
  replying r w = (r, w)

  abbrev store_passkey :
      RegisterMessage
      → Text
      → Text
      → Passkey
      → Option Item
      → Option Text
      → Result RegisterReply
      → Action N RegisterReply
  store_passkey msg origin rp pk (some item) vault_id reply w =
      (replace_passkey item pk >> replying reply) w
  store_passkey msg origin rp pk none none reply w = (ok no_vault, w)
  store_passkey msg origin rp pk none (some vault_id) reply w =
      if truthy (some vault_id)
      then (save_new_item env vault_id (passkey_item msg origin rp pk) >> replying reply) w
      else (ok no_vault, w)

  unfoldable pub register_for : RegisterMessage → Text → Text → Action N RegisterReply
  register_for msg origin rp w =
      let existing = passkey_items_for env rp w.memory.items in
      if any_excluded msg.exclude existing
      then (ok excluded, w)
      else let pair = registrar.generate_passkey_keypair w.net in
        let id = registrar.random_credential_id w.net in
        let pk = passkey_for msg rp (registrar.b64url_encode id) pair.private_key w.now in
        store_passkey msg origin rp pk (replaceable pk.user_handle existing)
          (chosen_vault env msg.vault_id w.memory.vaults) (reply_with msg origin rp pair id) w

  unfoldable pub register_at : RegisterMessage → Gate → Action N RegisterReply
  register_at msg (open_for origin rp) w = register_for msg origin rp w
  register_at msg bad_origin w = (ok (not_registered bad_origin), w)
  register_at msg locked w = (ok (not_registered locked), w)
  register_at msg security_error w = (ok (not_registered security_error), w)

  -- passkeyRegister, which begins with the tests of the other handlers.
  unfoldable pub passkey_register : RegisterMessage → Sender → Action N RegisterReply
  passkey_register msg sender w = continue (enter env sender msg.rp w) (register_at msg)
