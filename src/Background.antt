-- ===== src/Background.antt =====
-- extension/background.js: the state of the service worker, its handlers and the events that drive
-- them. A handler runs to its end before the next one starts.
pub mod Monad
pub mod Session
pub mod Items
pub mod Pending
pub mod Passkeys
pub mod Unlock
pub mod Login
pub mod Vaults
pub mod Registration
pub mod Events
mod Tests
use maspassword.Base.{ℕ, Bool, false, true, Option, none, some, List, [], ◌∷◌, Text}

-- A CryptoKey is its raw bytes.
abbrev pub Key : Type 0
Key = List ℕ

pub record Passkey : Type 0 where
  pub rp_id : Text
  pub credential_id : Text
  pub user_handle : Text
  pub user_name : Text
  pub user_display_name : Text
  pub private_key : Option Text
  pub created_at : ℕ

-- The decrypted data of an item; what the handlers never read is `others`.
pub record ItemData : Type 0 where
  pub type : Option Text
  pub title : Option Text
  pub username : Option Text
  pub password : Option Text
  pub url : Option Text
  pub notes : Option Text
  pub pw_changed_at : Option ℕ
  pub passkey : Option Passkey
  pub others : List (Text × Text)

pub record Item : Type 0 where
  pub vault_id : Text
  pub item_id : Option Text
  pub version : Option ℕ
  pub contents : ItemData

pub record Vault : Type 0 where
  pub id : Text
  pub team_id : Option Text
  pub name_encrypted : Text

-- pendingSSO.
pub record Sso : Type 0 where
  pub token : Text
  pub email : Text
  pub encrypted_private_key : Text

-- A staged entry of pendingSaves.
pub record PendingSave : Type 0 where
  pub username : Text
  pub password : Text
  pub url : Text
  pub site : Text
  pub at : ℕ
  pub is_update : Bool
  pub item_id : Option Text
  pub title : Text

-- The variables of the worker, which are lost when it is stopped.
pub record Memory : Type 0 where
  pub token : Option Text
  pub enc_key : Option Key
  pub private_key : Option Key
  pub vaults : List Vault
  pub vault_keys : List (Text × Key)
  pub items : List Item
  pub cache_primed : Bool
  pub pending_sso : Option Sso

abbrev pub fresh : Memory
fresh = record {
  token = none;
  enc_key = none;
  private_key = none;
  vaults = [];
  vault_keys = [];
  items = [];
  cache_primed = false;
  pending_sso = none;
}

-- chrome.storage.session. `pendingSaves` is a list of tab ids with their entries.
pub record Storage : Type 0 where
  pub token : Option Text
  pub enc_key_b64 : Option Text
  pub private_key_jwk : Option Text
  pub pending_sso : Option Sso
  pub pending_saves : List (ℕ × PendingSave)

abbrev pub cleared : Storage
cleared = record {
  token = none;
  enc_key_b64 = none;
  private_key_jwk = none;
  pending_sso = none;
  pending_saves = [];
}

-- The worker, its storage, the clock, and the world behind the network.
pub record World (N : Type 0) : Type 0 where
  pub memory : Memory
  pub session : Storage
  pub now : ℕ
  pub net : N

-- What `fetch` delivers: `body` is the parsed text, `message` its error.message.
pub record Answer (A : Type 0) : Type 0 where
  pub status : ℕ
  pub body : Option A
  pub message : Option Text

-- An item as the server stores it.
pub record StoredItem : Type 0 where
  pub id : Text
  pub version : ℕ
  pub data_encrypted : Text

-- What the server answers to a new or changed item.
pub record Saved : Type 0 where
  pub id : Option Text
  pub version : Option ℕ

-- A request with the token that it carries; `none` is a failure of the network.
abbrev pub Request : Type 0 → Type 0 → Type 0
Request N A = Option Text → N → Option (Answer A) × N

-- The browser and the server: WebCrypto, JSON, the URL parser, and the requests.
pub record Env (N : Type 0) : Type 0 where
  pub lower : Text → Text
  pub host_of : Text → Option Text
  pub origin_of : Text → Option Text
  pub derive_key : Text → Text → Key
  pub export_key : Key → Text
  pub import_key : Text → Option Key
  pub export_rsa : Key → Text
  pub import_rsa : Text → Option Key
  pub encrypt : N → Key → Text → Text
  pub decrypt : Key → Text → Option Text
  pub rsa_decrypt : Key → Text → Option Text
  pub stringify : ItemData → Text
  pub parse : Text → Option ItemData
  pub get_vaults : Request N (List Vault)
  pub get_vault_key : Text → Request N Text
  pub get_items : Text → Request N (List StoredItem)
  pub post_item : Text → Text → Request N Saved
  pub put_item : Text → Text → Text → Option ℕ → Request N Saved
