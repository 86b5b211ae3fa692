-- ===== src/Background/Session.antt =====
-- extension/background.js: requests, keys, and the session that outlives the worker. The server's URL
-- and mode are left out.
pub mod Locked
pub mod Restored
pub mod Restart
use maspassword.Base.{
  ℕ, ◌+◌, ◌/◌, ◌%◌, ◌++◌, Bool, true, false, ◌&&◌, not, ◌==◌, ltb, leb, if◌then◌else◌, Option, none,
  some, List, [], ◌∷◌, Text, codes, same_text,
}
use maspassword.Item.{truthy}
use maspassword.Kdbx.Entries.{decimal}
use maspassword.Background.{
  Key, Vault, Sso, Memory, fresh, Storage, cleared, World, Answer, Request, Env,
}
use maspassword.Background.Monad.{
  Result, ok, thrown, Action, pure, throw, gets, or_throw, ◌>>=◌, ◌>>◌, try, modify_memory,
  modify_session, throw_if, continue, recover,
}

abbrev pub is_some : {A : Type 0} → Option A → Bool
is_some none = false
is_some (some a) = true

-- isLoggedIn. A token that is the empty text counts as none.
abbrev pub logged_in : {N : Type 0} → World N → Bool
logged_in w = truthy w.memory.token && is_some w.memory.enc_key

-- logout.
abbrev pub logout_world : {N : Type 0} → World N → World N
logout_world w = record w { memory = fresh; session = cleared }

abbrev pub logout : {N : Type 0} → Action N (Unit {0})
logout w = (ok tt, logout_world w)

abbrev or_status : ℕ → Option Text → Text
or_status status none = codes "HTTP " ++ decimal status
or_status status (some m) = if truthy (some m) then m else codes "HTTP " ++ decimal status

-- What `api` does with an answer to a request that carried a token, or not.
unfoldable pub take_answer : {N A : Type 0} → Bool → Option (Answer A) × N → Action N (Option A)
take_answer had_token (none, net) w = (thrown (codes "Failed to fetch"), record w { net = net })
take_answer had_token (some a, net) w =
    let w = record w { net = net } in
    if a.status == 401 && had_token
    then (thrown (codes "session expired"), logout_world w)
    else if leb 200 a.status && ltb a.status 300
    then (ok a.body, w)
    else (thrown (or_status a.status a.message), w)

-- api.
unfoldable pub api : {N A : Type 0} → Request N A → Action N (Option A)
api request w = take_answer (truthy w.memory.token) (request w.memory.token w.net) w

abbrev pub find_key : Text → List (Text × Key) → Option Key
find_key id [] = none
find_key id ((k, v) ∷ keys) = if same_text k id then some v else find_key id keys

-- `if (text) variable = await import(text)`, which may throw.
abbrev imported : (Text → Option Key) → Option Text → Option Key → Result (Option Key)
imported import none old = ok old
imported import (some t) old =
    if truthy (some t)
    then elim (import t) [ none ↦ thrown (codes "DataError") | some k ↦ ok (some k) ]
    else ok old

abbrev set_enc_key : Option Key → Memory → Memory
set_enc_key k m = record m { enc_key = k }

abbrev set_private_key : Option Key → Memory → Memory
set_private_key k m = record m { private_key = k }

abbrev set_token : Option Text → Memory → Memory
set_token t m = if truthy t then record m { token = t } else m

abbrev set_sso : Option Sso → Memory → Memory
set_sso p m = if is_some m.pending_sso then m else record m { pending_sso = p }

module _ {N : Type 0} (env : Env N) where
  -- decryptPrivateKey.
  unfoldable pub decrypt_private_key : Key → Text → Option Key
  decrypt_private_key key encrypted = elim (env.decrypt key encrypted) [
    | none ↦ none
    | some json ↦ env.import_rsa json
  ]

  abbrev maybe : {A B : Type 0} → (A → B) → Option A → Option B → Option B
  maybe f none old = old
  maybe f (some a) old = some (f a)

  -- saveSession: what is not there is not written.
  unfoldable pub save_session : Action N (Unit {0})
  save_session w =
      let m = w.memory in
      let s = w.session in
      (
        ok tt,
        record w {
          session = record s {
            token = m.token;
            enc_key_b64 = maybe env.export_key m.enc_key s.enc_key_b64;
            private_key_jwk = maybe env.export_rsa m.private_key s.private_key_jwk;
          };
        },
      )

  abbrev import_into :
      (World N → Result (Option Key)) → (Option Key → Memory → Memory) → Action N (Unit {0})
  import_into read set w = continue (read w, w) (λ k. modify_memory (set k))

  abbrev set_memory : (World N → Memory) → Action N (Unit {0})
  set_memory f w = (ok tt, record w { memory = f w })

  unfoldable pub import_enc_key : Action N (Unit {0})
  import_enc_key =
      import_into (λ w. imported env.import_key w.session.enc_key_b64 w.memory.enc_key) set_enc_key

  unfoldable pub import_private_key : Action N (Unit {0})
  import_private_key =
      import_into (λ w. imported env.import_rsa w.session.private_key_jwk w.memory.private_key)
        set_private_key

  -- restoreSession.
  unfoldable pub restore_session : Action N (Unit {0})
  restore_session = do
    set_memory (λ w. set_token w.session.token w.memory)
    import_enc_key
    import_private_key
    set_memory (λ w. set_sso w.session.pending_sso w.memory)
