-- ===== src/Background/Session/Restart.antt =====
-- saveSession and restoreSession of extension/background.js: what a worker finds again that was
-- stopped.
use maspassword.Base.{◌≡◌, refl, true, Option, none, some, ◌∷◌, ℕ, Text}
use maspassword.Item.{truthy}
use maspassword.Background.{Key, Memory, fresh, World, Env}
use maspassword.Background.Monad.{ok, continue}
use maspassword.Background.Session.{
  save_session, restore_session, import_enc_key, import_private_key, imported,
}

module _ {N : Type 0} (env : Env N) where
  -- Exported keys are not empty, and are imported as they were.
  abbrev pub Reads : Key → Key → Type 0
  Reads enc_key private_key =
      (truthy (some (env.export_key enc_key)) ≡ true)
      × (env.import_key (env.export_key enc_key) ≡ some enc_key)
      × (truthy (some (env.export_rsa private_key)) ≡ true)
      × (env.import_rsa (env.export_rsa private_key) ≡ some private_key)

  imported_same :
      (import : Text → Option Key) (t : Text) (k : Key)
      → truthy (some t) ≡ true
      → import t ≡ some k
      → imported import (some t) none ≡ ok (some k)
  imported_same import t k e f = rw e (rw f refl)

  -- the variables of an unlocked worker.
  abbrev pub holding : Text → Key → Key → Memory → Memory
  holding token enc_key private_key m = record m {
    token = some token;
    enc_key = some enc_key;
    private_key = some private_key;
  }

  -- a worker that saved its session and was stopped starts with the same token and keys, and with the pending SSO session of the storage, when exported keys are imported as they were. The items and the keys of the vaults are gone.
  pub restore_session-save_session :
      (c : ℕ) (token : Text) (enc_key private_key : Key) (w : World N)
      → Reads enc_key private_key
      → (s : World N) × (save_session env
            (record w { memory = holding (c ∷ token) enc_key private_key w.memory })
          ≡ (ok tt, s))
        × (restore_session env (record s { memory = fresh }) ≡ (
          ok tt,
          record s {
            memory = record (holding (c ∷ token) enc_key private_key fresh) {
              pending_sso = w.session.pending_sso;
            };
          },
        ))
  unfolding save_session restore_session import_enc_key import_private_key continue
  restore_session-save_session c token enc_key private_key w (e, i, f, j) = (
    _,
    refl,
    rw (imported_same env.import_key (env.export_key enc_key) enc_key e i)
        (rw (imported_same env.import_rsa (env.export_rsa private_key) private_key f j) refl),
  )
