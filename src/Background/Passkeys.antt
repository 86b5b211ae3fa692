-- ===== src/Background/Passkeys.antt =====
-- extension/background.js: the passkeys that a page may see and use.
pub mod Locked
pub mod Origin
pub mod Scope
pub mod Assertions
use maspassword.Base.{
  ℕ, ◌+◌, Bool, true, false, ◌&&◌, ◌||◌, not, if◌then◌else◌, Option, none, some, List, [], ◌∷◌,
  ◌++◌, map, Text, codes, same_text, starts_with, includes,
}
use maspassword.Item.{truthy}
use maspassword.WebAuthn.{build_auth_data, raw_sig_to_der, rp_id_valid_for}
use maspassword.Background.{Passkey, ItemData, Item, World, Env}
use maspassword.Background.Monad.{
  Result, ok, thrown, Action, pure, throw, gets, or_throw, ◌>>=◌, ◌>>◌, throw_if, continue,
}
use maspassword.Background.Session.{is_some, logged_in}
use maspassword.Background.Items.{has_id, find_item, ensure_items_cache, filter_items}
use maspassword.Background.Pending.{Sender, or_empty}

-- SHA-256, ECDSA with a stored key, TextEncoder, and JSON.stringify of a clientDataJSON.
pub record Signer : Type 0 where
  pub sha256 : List ℕ → List ℕ
  pub sign : Text → List ℕ → Option (List ℕ)
  pub utf8 : Text → List ℕ
  pub client_data : Text → Text → Text → Text

pub record Candidate : Type 0 where
  pub item_id : Option Text
  pub title : Text
  pub user_name : Text
  pub credential_id : Text

pub record Assertion : Type 0 where
  pub credential_id : Text
  pub client_data_json : Text
  pub authenticator_data : List ℕ
  pub signature : List ℕ
  pub user_handle : Option Text

-- What a page asks for, once its origin and the login are known.
pub data Gate : Type 0 where
  bad_origin locked security_error : Gate
  open_for : Text → Text → Gate

pub data CandidatesReply : Type 0 where
  no_candidates : Gate → CandidatesReply
  candidates : Text → List Candidate → CandidatesReply

pub data AssertReply : Type 0 where
  no_assertion : Gate → AssertReply
  not_found : AssertReply
  assertion : Assertion → AssertReply

abbrev is_web : Text → Bool
is_web raw = starts_with (codes "http://") raw || starts_with (codes "https://") raw

abbrev web_origin : Text → Option Text
web_origin raw = if is_web raw then some raw else none

abbrev pub passkey_of : Item → Option Passkey
passkey_of i = i.contents.passkey

-- `a || b` on texts that may be missing.
abbrev pub or_text : Option Text → Text → Text
or_text none b = b
or_text (some a) b = if truthy (some a) then a else b

abbrev usable_passkey : Text → Option Passkey → Bool
usable_passkey rp none = false
usable_passkey rp (some pk) = same_text pk.rp_id rp && truthy pk.private_key

abbrev allowed_credential : List Text → Option Passkey → Bool
allowed_credential allow none = false
allowed_credential allow (some pk) = includes pk.credential_id allow

abbrev candidate_of : Text → Item → Option Passkey → Candidate
candidate_of rp i none = record {
  item_id = i.item_id;
  title = or_text i.contents.title rp;
  user_name = [];
  credential_id = [];
}
candidate_of rp i (some pk) = record {
  item_id = i.item_id;
  title = or_text i.contents.title rp;
  user_name = or_text (some pk.user_name) (or_empty i.contents.username);
  credential_id = pk.credential_id;
}

-- FLAG_UP | FLAG_UV | FLAG_BE | FLAG_BS
abbrev pub assertion_flags : ℕ
assertion_flags = 0x1d

module _ {N : Type 0} (env : Env N) where
  -- senderOrigin. Where `new URL` throws, so does it.
  abbrev url_origin : Option Text → Result (Option Text)
  url_origin none = ok none
  url_origin (some url) =
      if truthy (some url)
      then elim (env.origin_of url) [
        | none ↦ thrown (codes "Invalid URL")
        | some o ↦ ok (web_origin o)
      ]
      else ok none

  unfoldable pub sender_origin : Sender → Result (Option Text)
  sender_origin sender =
      if truthy sender.origin
      then ok (web_origin (or_empty sender.origin))
      else url_origin sender.url

  -- resolveRpId, for the host of the origin.
  unfoldable pub resolve_rp_id : Text → Option Text → Option Text
  resolve_rp_id hostname requested =
      let rp = or_text requested hostname in
      if rp_id_valid_for env.lower hostname rp then some rp else none

  abbrev resolved : Text → Option Text → Gate
  resolved origin none = security_error
  resolved origin (some rp) = open_for origin rp

  abbrev gate_for : Text → Option Text → Action N Gate
  gate_for origin requested = do
    ensure_items_cache env
    hostname ← or_throw (env.host_of origin) (codes "Invalid URL")
    pure (resolved origin (resolve_rp_id hostname requested))

  abbrev gate_of : Option Text → Option Text → Action N Gate
  gate_of none requested w = (ok bad_origin, w)
  gate_of (some origin) requested w =
      if logged_in w then gate_for origin requested w else (ok locked, w)

  -- The tests that passkeyCandidates and passkeyAssert begin with.
  unfoldable pub enter : Sender → Option Text → Action N Gate
  enter sender requested w = continue (sender_origin sender, w) (λ origin. gate_of origin requested)

  -- passkeyItemsFor.
  unfoldable pub passkey_items_for : Text → List Item → List Item
  passkey_items_for rp items = filter_items env (λ i. usable_passkey rp (passkey_of i)) items

  abbrev restricted : List Text → List Item → List Item
  restricted [] items = items
  restricted (a ∷ allow) items =
      filter_items env (λ i. allowed_credential (a ∷ allow) (passkey_of i)) items

  unfoldable pub list_candidates : List Text → Gate → Action N CandidatesReply
  list_candidates allow (open_for origin rp) w = (
    ok (
        candidates rp (
          map (λ i. candidate_of rp i (passkey_of i))
            (restricted allow (passkey_items_for rp w.memory.items)))),
    w,
  )
  list_candidates allow bad_origin w = (ok (no_candidates bad_origin), w)
  list_candidates allow locked w = (ok (no_candidates locked), w)
  list_candidates allow security_error w = (ok (no_candidates security_error), w)

  -- passkeyCandidates.
  unfoldable pub passkey_candidates : Option Text → List Text → Sender → Action N CandidatesReply
  passkey_candidates requested allow sender w =
      continue (enter sender requested w) (list_candidates allow)

  module _ (signer : Signer) where
    abbrev signed : Text → Text → Passkey → Option (List ℕ) → Result AssertReply
    signed rp client_data pk none = thrown (codes "OperationError")
    signed rp client_data pk (some raw) = elim (raw_sig_to_der raw) [
      | none ↦ thrown (codes "signature: expected 64 bytes r||s")
      | some der ↦ ok (
          assertion (record {
            credential_id = pk.credential_id;
            client_data_json = client_data;
            authenticator_data =
                build_auth_data (signer.sha256 (signer.utf8 rp)) assertion_flags none;
            signature = der;
            user_handle = (if truthy (some pk.user_handle) then some pk.user_handle else none);
          }))
    ]

    -- The signature covers the authenticator's data and the hash of the client's.
    unfoldable pub sign_with : Text → Text → Text → Passkey → Result AssertReply
    sign_with origin rp challenge pk =
        let client_data = signer.client_data (codes "webauthn.get") challenge origin in
        let auth_data = build_auth_data (signer.sha256 (signer.utf8 rp)) assertion_flags none in
        signed rp client_data pk (
          signer.sign (or_empty pk.private_key)
            (auth_data ++ signer.sha256 (signer.utf8 client_data)))

    abbrev assert_passkey : Text → Text → Text → Option Passkey → Result AssertReply
    assert_passkey origin rp challenge none = ok not_found
    assert_passkey origin rp challenge (some pk) =
        if same_text pk.rp_id rp then sign_with origin rp challenge pk else ok not_found

    abbrev passkey_in : Option Item → Option Passkey
    passkey_in none = none
    passkey_in (some i) = passkey_of i

    unfoldable pub assert_item : Text → Text → Gate → Action N AssertReply
    assert_item item_id challenge (open_for origin rp) w =
        (assert_passkey origin rp challenge (passkey_in (find_item item_id w.memory.items)), w)
    assert_item item_id challenge bad_origin w = (ok (no_assertion bad_origin), w)
    assert_item item_id challenge locked w = (ok (no_assertion locked), w)
    assert_item item_id challenge security_error w = (ok (no_assertion security_error), w)

    -- passkeyAssert.
    unfoldable pub passkey_assert : Option Text → Text → Text → Sender → Action N AssertReply
    passkey_assert requested item_id challenge sender w =
        continue (enter sender requested w) (assert_item item_id challenge)
