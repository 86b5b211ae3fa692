-- ===== src/Background/Login.antt =====
-- login of extension/background.js. srpLogin, the SRP client in the same file, is a parameter: a client
-- for an address, a password and what the random source gives.
pub mod Locked
use maspassword.Base.{Bool, not, if◌then◌else◌, Option, none, some, [], Text, codes}
use maspassword.Item.{truthy}
use maspassword.Background.{Key, Memory, World, Request, Env}
use maspassword.Background.Monad.{
  ok, Action, pure, gets, or_throw, ◌>>=◌, ◌>>◌, modify_memory, throw_if, continue,
}
use maspassword.Background.Session.{api, decrypt_private_key, save_session}
use maspassword.Background.Items.{refresh_all_items}

-- What `generate` returns.
pub record Proof : Type 0 where
  pub proof : Text
  pub verify : Text → Bool

-- What srpLogin returns; `generate` may throw.
pub record Client : Type 0 where
  pub credentials : Text
  pub generate : Text → Option Proof

pub record Challenge : Type 0 where
  pub session_id : Text
  pub server_public : Text

pub record Granting : Type 0 where
  pub server_proof : Text
  pub token : Option Text
  pub encrypted_private_key : Option Text

-- The SRP client and the two requests of a login.
pub record Srp (N : Type 0) : Type 0 where
  pub srp_login : N → Text → Text → Client
  pub step1 : Text → Text → Request N Challenge
  pub step2 : Text → Text → Request N Granting

abbrev set_login : Option Text → Key → Memory → Memory
set_login token key m = record m { token = token; enc_key = some key }

abbrev set_private : Key → Memory → Memory
set_private k m = record m { private_key = some k }

abbrev drop_vault_keys : Memory → Memory
drop_vault_keys m = record m { vault_keys = [] }

module _ {N : Type 0} (env : Env N) where
  abbrev open_private_key : Key → Option Text → Action N (Unit {0})
  open_private_key key none w = (ok tt, w)
  open_private_key key (some encrypted) w =
      if truthy (some encrypted)
      then continue (or_throw (decrypt_private_key env key encrypted) (codes "OperationError") w)
          (λ k. modify_memory (set_private k))
      else (ok tt, w)

  -- From the answer to the second request on.
  unfoldable pub take_login : Text → Text → Proof → Granting → Action N (Unit {0})
  take_login email password proof granted = do
    throw_if (not (proof.verify granted.server_proof)) (codes "Server verification failed")
    modify_memory (set_login granted.token (env.derive_key password email))
    open_private_key (env.derive_key password email) granted.encrypted_private_key
    modify_memory drop_vault_keys
    save_session env
    refresh_all_items env

  abbrev body_of : {A : Type 0} → Option A → Action N A
  body_of body = or_throw body (codes "TypeError")

  -- login.
  unfoldable pub login : Srp N → Text → Text → Action N (Unit {0})
  login srp email password = do
    client ← gets (λ w. srp.srp_login w.net email password)
    step1 ← body_of (← api (srp.step1 email client.credentials))
    proof ← or_throw (client.generate step1.server_public) (codes "Invalid B")
    step2 ← body_of (← api (srp.step2 step1.session_id proof.proof))
    take_login email password proof step2
