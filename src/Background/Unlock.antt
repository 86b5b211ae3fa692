-- ===== src/Background/Unlock.antt =====
-- extension/background.js: the login through an SSO provider. The window of the provider, the request
-- for the session and decodeURIComponent are parameters.
pub mod Locked
pub mod Password
use maspassword.Base.{
  ℕ, Bool, true, false, not, ◌==◌, leb, ltb, ◌&&◌, if◌then◌else◌, Option, none, some, List, [], ◌∷◌,
  Text, codes, starts_with, drop,
}
use maspassword.Item.{truthy}
use maspassword.Background.{Key, Sso, Memory, Storage, World, Answer, Request, Env}
use maspassword.Background.Monad.{
  Result, ok, thrown, Action, pure, throw, gets, or_throw, ◌>>=◌, ◌>>◌, modify_memory,
  modify_session, continue,
}
use maspassword.Background.Session.{is_some, decrypt_private_key, save_session}
use maspassword.Background.Items.{refresh_all_items}

-- What the server tells of a session.
pub record SessionInfo : Type 0 where
  pub token : Option Text
  pub email : Text
  pub encryption_setup : Bool
  pub encrypted_private_key : Text

-- The window of the provider ends at a URL, or without one; `none` is a window that fails, such as one
-- that is closed. `decode` may throw.
pub record Identity (N : Type 0) : Type 0 where
  pub launch : Text → N → Option (Option Text) × N
  pub decode : Text → Option Text
  pub get_session : Text → N → Option (Answer SessionInfo) × N

pub data StartReply : Type 0 where
  cancelled : StartReply
  failed : ℕ → StartReply
  needs_setup : Text → StartReply
  started : Text → StartReply

pub data UnlockReply : Type 0 where
  unlocked wrong_password : UnlockReply

-- The code units up to an `&`.
abbrev before_amp : Text → Text
before_amp [] = []
before_amp (c ∷ s) = let rest = before_amp s in if c == b'&' then [] else c ∷ rest

abbrev not_blank : Text → Option Text
not_blank [] = none
not_blank (c ∷ s) = some (c ∷ s)

abbrev or_later : Option Text → Option Text → Option Text
or_later none later = later
or_later (some t) later = some t

-- /#sso=([^&]+)/, at the first place where it matches.
unfoldable pub sso_fragment : Text → Option Text
sso_fragment [] = none
sso_fragment (c ∷ s) =
    let later = sso_fragment s in
    if starts_with (codes "#sso=") (c ∷ s)
    then or_later (not_blank (before_amp (drop 5 (c ∷ s)))) later
    else later

abbrev or_token : Option Text → Text → Text
or_token none t = t
or_token (some s) t = if truthy (some s) then s else t

abbrev sso_of : Text → SessionInfo → Sso
sso_of sso_token s = record {
  token = or_token s.token sso_token;
  email = s.email;
  encrypted_private_key = s.encrypted_private_key;
}

abbrev with_sso : Option Sso → Memory → Memory
with_sso p m = record m { pending_sso = p }

abbrev store_sso : Option Sso → Storage → Storage
store_sso p s = record s { pending_sso = p }

abbrev set_unlocked : Text → Key → Key → Memory → Memory
set_unlocked token key private_key m = record m {
  token = some token;
  enc_key = some key;
  private_key = some private_key;
  vault_keys = [];
  pending_sso = none;
}

abbrev first_sso : Option Sso → Option Sso → Option Sso
first_sso none stored = stored
first_sso (some p) stored = some p

module _ {N : Type 0} (env : Env N) (identity : Identity N) where
  unfoldable pub begin_sso : Text → Option SessionInfo → Action N StartReply
  begin_sso sso_token none w = (thrown (codes "TypeError"), w)
  begin_sso sso_token (some s) w =
      if not s.encryption_setup then (ok (needs_setup s.email), w) else (
        ok (started s.email),
        record w {
          memory = with_sso (some (sso_of sso_token s)) w.memory;
          session = store_sso (some (sso_of sso_token s)) w.session;
        },
      )

  unfoldable pub take_session : Text → Option (Answer SessionInfo) × N → Action N StartReply
  take_session sso_token (none, net) w = (thrown (codes "Failed to fetch"), record w { net = net })
  take_session sso_token (some a, net) w =
      if not (leb 200 a.status && ltb a.status 300)
      then (ok (failed a.status), record w { net = net })
      else begin_sso sso_token a.body (record w { net = net })

  abbrev decoded_token : Option Text → Result (Option Text)
  decoded_token none = ok none
  decoded_token (some t) = elim (identity.decode t) [
    | none ↦ thrown (codes "URIError")
    | some d ↦ ok (some d)
  ]

  abbrev final_url : Option Text → Text
  final_url none = []
  final_url (some url) = url

  abbrev request_session : Option Text → Action N StartReply
  request_session none w = (ok cancelled, w)
  request_session (some token) w = take_session token (identity.get_session token w.net) w

  unfoldable pub take_url : Option (Option Text) → Action N StartReply
  take_url none w = (thrown (codes "The user did not approve access."), w)
  take_url (some url) w = continue (decoded_token (sso_fragment (final_url url)), w) request_session

  -- ssoStart.
  unfoldable pub sso_start : Text → Action N StartReply
  sso_start provider w =
      let (url, net) = identity.launch provider w.net in take_url url (record w { net = net })

  abbrev unlock_with : Text → Key → Option Key → Action N UnlockReply
  unlock_with token key none = pure wrong_password
  unlock_with token key (some private_key) = do
    modify_memory (set_unlocked token key private_key)
    modify_session (store_sso none)
    save_session env
    refresh_all_items env
    pure unlocked

  abbrev unlock_sso : Text → Option Sso → Action N UnlockReply
  unlock_sso password none = throw (codes "No pending SSO session")
  unlock_sso password (some p) =
      let key = env.derive_key password p.email in
      unlock_with p.token key (decrypt_private_key env key p.encrypted_private_key)

  -- ssoUnlock. The error that it returns is a message, like those that it throws.
  unfoldable pub sso_unlock : Text → Action N UnlockReply
  sso_unlock password = do
    pending ← gets (λ w. first_sso w.memory.pending_sso w.session.pending_sso)
    modify_memory (with_sso pending)
    unlock_sso password pending
