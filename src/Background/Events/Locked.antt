-- ===== src/Background/Events/Locked.antt =====
-- What every event of the worker of extension/background.js keeps: a worker that is not unlocked holds
-- no decrypted item.
use maspassword.Base.{◌≡◌, refl, ◌⊎◌, inl, inr, Bool, true, false, List, [], arith}
use maspassword.Background.{World, Env}
use maspassword.Background.Monad.{Result, ok, continue}
use maspassword.Background.Session.{logged_in, logout_world, restore_session}
use maspassword.Background.Session.Locked.{
  Inv, Kept, Inv-Kept, Kept-Inv, continue-Kept, Safe-Inv, logout-Out,
}
use maspassword.Background.Session.Restored.{restore_session-Inv}
use maspassword.Background.Items.{ensure_items_cache, refresh_all_items}
use maspassword.Background.Items.Locked.{refresh_all_items-Inv, ensure_items_cache-Inv}
use maspassword.Background.Pending.{
  Sender, stage_pending_save, check_pending_save, dismiss_pending_save, commit_pending_save,
}
use maspassword.Background.Pending.Locked.{
  stage_pending_save-Kept, check_pending_save-Kept, dismiss_pending_save-Kept,
  commit_pending_save-Kept, tab_removed-Kept,
}
use maspassword.Background.Passkeys.{Signer, passkey_candidates, passkey_assert}
use maspassword.Background.Passkeys.Locked.{passkey_candidates-Kept, passkey_assert-Kept}
use maspassword.Background.Login.{Srp, login}
use maspassword.Background.Login.Locked.{GrantsToken, login-Kept}
use maspassword.Background.Vaults.{vaults_with_names, vaults_with_names-Kept}
use maspassword.Background.Registration.{Registrar, passkey_register}
use maspassword.Background.Registration.Locked.{passkey_register-Kept}
use maspassword.Background.Unlock.{Identity, sso_start, sso_unlock}
use maspassword.Background.Unlock.Locked.{DecodesText, sso_start-Kept, sso_unlock-Kept}
use maspassword.Background.Events.{
  Message, Reply, login_message, get_vaults, register_message, outside_message, logout_message,
  get_status, get_all_items, refresh_items, sso_start_message, sso_unlock_message,
  get_matching_items, stage_message, check_message, dismiss_message, commit_message,
  candidates_message, assert_message, unknown_message, dispatch, handle_message, restart, Step,
  message, tab_closed, restarted, waited, changed, Reach, installed, next,
}

module _ {N : Type 0} (env : Env N) (identity : Identity N) (signer : Signer) (srp : Srp N)
    (registrar : Registrar N) where
  after-Kept :
      {A : Type 0} (r : Result A × World N) (f : A → Reply)
      → Kept r
      → Kept (continue r (λ a w. (ok (f a), w)))
  after-Kept r f k = continue-Kept r _ (Kept-Inv r k) (λ a u i. Inv-Kept _ u i)

  dispatch-Kept :
      DecodesText identity
      → GrantsToken env srp
      → (msg : Message) (sender : Sender) (w : World N) → Inv w
      → Kept (dispatch env identity signer srp registrar msg sender w)
  unfolding dispatch continue
  dispatch-Kept d g (login_message email password) sender w i =
      after-Kept (login env srp email password w) _ (login-Kept env srp g email password w i)
  dispatch-Kept d g logout_message sender w i =
      Inv-Kept _ _ (Safe-Inv (logout_world w) (inr (logout-Out w)))
  dispatch-Kept d g get_status sender w i = Inv-Kept _ w i
  dispatch-Kept d g get_all_items sender w i =
      continue-Kept (ensure_items_cache env w) _ (ensure_items_cache-Inv env w i)
        (λ _ u i. Inv-Kept _ u i)
  dispatch-Kept d g get_vaults sender w i =
      after-Kept (vaults_with_names env w) _ (vaults_with_names-Kept env w i)
  dispatch-Kept d g refresh_items sender w i =
      continue-Kept (refresh_all_items env w) _ (refresh_all_items-Inv env w i)
        (λ _ u i. Inv-Kept _ u i)
  dispatch-Kept d g (sso_start_message provider) sender w i =
      after-Kept (sso_start env identity provider w) _ (sso_start-Kept env identity d provider w i)
  dispatch-Kept d g (sso_unlock_message password) sender w i =
      after-Kept (sso_unlock env identity password w) _ (sso_unlock-Kept env identity password w i)
  dispatch-Kept d g (get_matching_items url) sender w i =
      continue-Kept (ensure_items_cache env w) _ (ensure_items_cache-Inv env w i)
        (λ _ u i. Inv-Kept _ u i)
  dispatch-Kept d g (stage_message msg) sender w i =
      after-Kept (stage_pending_save env msg sender.tab_id w) _
        (stage_pending_save-Kept env msg sender.tab_id w i)
  dispatch-Kept d g check_message sender w i =
      after-Kept (check_pending_save env sender sender.tab_id w) _
        (check_pending_save-Kept env sender sender.tab_id w i)
  dispatch-Kept d g dismiss_message sender w i =
      continue-Kept (dismiss_pending_save env sender.tab_id w) _
        (Kept-Inv _ (dismiss_pending_save-Kept env sender.tab_id w i)) (λ _ u i. Inv-Kept _ u i)
  dispatch-Kept d g (commit_message vault_id) sender w i =
      after-Kept (commit_pending_save env vault_id sender.tab_id w) _
        (commit_pending_save-Kept env vault_id sender.tab_id w i)
  dispatch-Kept d g (candidates_message rp allow) sender w i =
      after-Kept (passkey_candidates env rp allow sender w) _
        (passkey_candidates-Kept env rp allow sender w i)
  dispatch-Kept d g (assert_message rp item_id challenge) sender w i =
      after-Kept (passkey_assert env signer rp item_id challenge sender w) _
        (passkey_assert-Kept env signer rp item_id challenge sender w i)
  dispatch-Kept d g (register_message msg) sender w i =
      after-Kept (passkey_register env signer registrar msg sender w) _
        (passkey_register-Kept env signer registrar msg sender w i)
  dispatch-Kept d g outside_message sender w i = Inv-Kept _ w i
  dispatch-Kept d g unknown_message sender w i = Inv-Kept _ w i

  handle_message-Inv :
      DecodesText identity
      → GrantsToken env srp
      → (msg : Message) (sender : Sender) (w : World N) → Inv w
      → Inv (handle_message env identity signer srp registrar msg sender w).1
  unfolding handle_message
  handle_message-Inv d g msg sender w i = Kept-Inv _ (
      continue-Kept (restore_session env w) _ (restore_session-Inv env w i)
        (λ _ u i. dispatch-Kept d g msg sender u i))

  Step-Inv :
      DecodesText identity
      → GrantsToken env srp
      → {v w : World N} → Step env identity signer srp registrar v w
      → Inv v
      → Inv w
  unfolding restart
  Step-Inv d g (message w msg sender) i = handle_message-Inv d g msg sender w i
  Step-Inv d g (tab_closed w tab) i = Kept-Inv _ (tab_removed-Kept env tab w i)
  Step-Inv d g (restarted w) i = restore_session-Inv env _ (inr refl, (tt, i.1.1))
  Step-Inv d g (waited w ms) i = i
  Step-Inv d g (changed w net) i = i

  Reach-Inv :
      DecodesText identity
      → GrantsToken env srp
      → {w : World N} → Reach env identity signer srp registrar w
      → Inv w
  Reach-Inv d g (installed net now) = (inr refl, (tt, tt))
  Reach-Inv d g (next r s) = Step-Inv d g s (Reach-Inv d g r)

  locked_empty :
      {A : Type 0} (l : Bool) (items : List A) → l ≡ false → (l ≡ true) ⊎ (items ≡ []) → items ≡ []
  locked_empty l items e (inl on) = absurd (ground arith)
  locked_empty l items e (inr n) = n

  -- A worker that is not logged in holds no decrypted item, whatever messages came before, each handled
  -- to its end before the next, and whatever tabs were closed, time passed, stops of the worker and
  -- changes behind the network there were in between. For this decodeURIComponent must give text for
  -- text, and the server must grant a login that succeeds a token that is not empty.
  pub Reach-locked_empty :
      DecodesText identity
      → GrantsToken env srp
      → (w : World N) → Reach env identity signer srp registrar w
      → logged_in w ≡ false
      → w.memory.items ≡ []
  Reach-locked_empty d g w r e = locked_empty (logged_in w) w.memory.items e (Reach-Inv d g r).0
