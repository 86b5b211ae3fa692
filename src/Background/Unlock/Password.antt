-- ===== src/Background/Unlock/Password.antt =====
-- ssoUnlock of extension/background.js: what a master password does to the worker, right or wrong.
use maspassword.Base.{[], ◌≡◌, refl, ap, Option, none, some, Text, codes}
use maspassword.Background.{Key, Sso, World, Env}
use maspassword.Background.Monad.{Result, ok, thrown, continue}
use maspassword.Background.Session.{decrypt_private_key, save_session}
use maspassword.Background.Items.{refresh_all_items}
use maspassword.Background.Unlock.{
  Identity, UnlockReply, unlocked, wrong_password, first_sso, unlock_with, unlock_sso, sso_unlock,
}

module _ {N : Type 0} (env : Env N) (identity : Identity N) where
  -- the worker with its pending SSO session.
  abbrev pub pending_in : Option Sso → World N → World N
  pending_in p w = record w { memory = record w.memory { pending_sso = p } }

  abbrev pub unlocked_in : Sso → Key → Key → World N → World N
  unlocked_in p key private_key w = record w {
    memory = record {
      token = some p.token;
      enc_key = some key;
      private_key = some private_key;
      vaults = w.memory.vaults;
      vault_keys = [];
      items = w.memory.items;
      cache_primed = w.memory.cache_primed;
      pending_sso = none;
    };
    session = record {
      token = some p.token;
      enc_key_b64 = some (env.export_key key);
      private_key_jwk = some (env.export_rsa private_key);
      pending_sso = none;
      pending_saves = w.session.pending_saves;
    };
  }

  abbrev pub Outcome : Text → World N → Option Sso → Result UnlockReply × World N → Type 0
  Outcome password w none r = r ≡ (thrown (codes "No pending SSO session"), pending_in none w)
  Outcome password w (some p) r =
      let key = env.derive_key password p.email in
      ((decrypt_private_key env key p.encrypted_private_key ≡ none)
        → r ≡ (ok wrong_password, pending_in (some p) w))
      × ((private_key : Key)
          → decrypt_private_key env key p.encrypted_private_key ≡ some private_key
          → r
            ≡ continue (refresh_all_items env (unlocked_in p key private_key w))
                (λ _ u. (ok unlocked, u)))

  unlock_with_right :
      (password : Text) (w : World N) (p : Sso) (o : Option Key) (private_key : Key)
      → o ≡ some private_key
      → unlock_with env identity p.token (env.derive_key password p.email) o (pending_in (some p) w)
        ≡ continue
            (refresh_all_items env (unlocked_in p (env.derive_key password p.email) private_key w))
            (λ _ u. (ok unlocked, u))
  unfolding continue save_session
  unlock_with_right password w p o private_key e = rw e refl

  unlock_sso-Outcome :
      (password : Text) (w : World N) (o : Option Sso)
      → Outcome password w o (unlock_sso env identity password o (pending_in o w))
  unlock_sso-Outcome password w none = refl
  unlock_sso-Outcome password w (some p) =
      let key = env.derive_key password p.email in
      let found = decrypt_private_key env key p.encrypted_private_key in
      (
        λ wrong. ap (λ o. unlock_with env identity p.token key o (pending_in (some p) w)) wrong,
        λ private_key right. unlock_with_right password w p found private_key right,
      )

  -- ssoUnlock throws without a pending session. A password whose key does not decrypt the private key changes nothing, but that the session that is stored is taken over. One whose key does sets token and keys, drops the keys of vaults and the pending session, saves the session, and refreshes the items.
  pub sso_unlock_lem :
      (password : Text) (w : World N)
      → Outcome password w
          (first_sso w.memory.pending_sso w.session.pending_sso)
          (sso_unlock env identity password w)
  unfolding sso_unlock continue
  sso_unlock_lem password w =
      unlock_sso-Outcome password w (first_sso w.memory.pending_sso w.session.pending_sso)
