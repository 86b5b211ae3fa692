-- ===== src/Background/Events.antt =====
-- handleMessage of extension/background.js, and what happens to the worker: messages, closed tabs, the
-- clock, a stop and a new start, and changes behind the network.
pub mod Locked
use maspassword.Base.{ℕ, ◌+◌, Bool, if◌then◌else◌, Option, none, some, List, [], ◌∷◌, Text, codes}
use maspassword.Background.{Item, Memory, fresh, cleared, World, Env}
use maspassword.Background.Monad.{
  Result, ok, thrown, Action, pure, gets, ◌>>=◌, ◌>>◌, continue, modify_memory,
}
use maspassword.Background.Session.{is_some, logged_in, logout, restore_session}
use maspassword.Background.Items.{ensure_items_cache, refresh_all_items, match_items}
use maspassword.Background.Pending.{
  Sender, StageMessage, StageReply, Offer, CommitReply, stage_pending_save, check_pending_save,
  dismiss_pending_save, commit_pending_save, tab_removed,
}
use maspassword.Background.Passkeys.{
  Signer, CandidatesReply, AssertReply, passkey_candidates, passkey_assert,
}
use maspassword.Background.Login.{Srp, login}
use maspassword.Background.Vaults.{VaultName, vaults_with_names}
use maspassword.Background.Registration.{
  Registrar, RegisterMessage, RegisterReply, passkey_register,
}
use maspassword.Background.Unlock.{Identity, StartReply, UnlockReply, sso_start, sso_unlock}

pub data Message : Type 0 where
  login_message : Text → Text → Message
  logout_message get_status get_all_items get_vaults refresh_items : Message
  sso_start_message sso_unlock_message : Text → Message
  get_matching_items : Option Text → Message
  stage_message : StageMessage → Message
  check_message dismiss_message : Message
  commit_message : Option Text → Message
  candidates_message : Option Text → List Text → Message
  assert_message : Option Text → Text → Text → Message
  register_message : RegisterMessage → Message
  -- getMode, setServerUrl, openWeb, generatePassword, openPopup and fillCredentials: none touches what
  -- is modelled of the worker and its storage, and their replies are left out.
  outside_message : Message
  unknown_message : Message

pub data Reply : Type 0 where
  done : Reply
  status : Bool → Option Text → Reply
  item_list : List Item → Reply
  vault_list : List VaultName → Reply
  start_reply : StartReply → Reply
  unlock_reply : UnlockReply → Reply
  stage_reply : StageReply → Reply
  offer : Option Offer → Reply
  commit_reply : CommitReply → Reply
  candidates_reply : CandidatesReply → Reply
  assert_reply : AssertReply → Reply
  register_reply : RegisterReply → Reply
  outside : Reply
  error : Text → Reply

module _ {N : Type 0} (env : Env N) (identity : Identity N) (signer : Signer) (srp : Srp N)
    (registrar : Registrar N) where
  abbrev pending_email : World N → Option Text
  pending_email w =
      if logged_in w
      then none
      else elim w.memory.pending_sso [ none ↦ none | some p ↦ some p.email ]

  -- The cases of the switch.
  unfoldable pub dispatch : Message → Sender → Action N Reply
  dispatch (login_message email password) sender = login env srp email password >> pure done
  dispatch logout_message sender = logout >> pure done
  dispatch get_status sender = gets (λ w. status (logged_in w) (pending_email w))
  dispatch get_all_items sender = ensure_items_cache env >> gets (λ w. item_list w.memory.items)
  dispatch get_vaults sender = do pure (vault_list (← vaults_with_names env))
  dispatch refresh_items sender = refresh_all_items env >> pure done
  dispatch (sso_start_message provider) sender = do
    pure (start_reply (← sso_start env identity provider))
  dispatch (sso_unlock_message password) sender = do
    pure (unlock_reply (← sso_unlock env identity password))
  dispatch (get_matching_items url) sender =
      ensure_items_cache env >> gets (λ w. item_list (match_items env url w.memory.items))
  dispatch (stage_message msg) sender = do
    pure (stage_reply (← stage_pending_save env msg sender.tab_id))
  dispatch check_message sender = do pure (offer (← check_pending_save env sender sender.tab_id))
  dispatch dismiss_message sender = dismiss_pending_save env sender.tab_id >> pure done
  dispatch (commit_message vault_id) sender = do
    pure (commit_reply (← commit_pending_save env vault_id sender.tab_id))
  dispatch (candidates_message rp allow) sender = do
    pure (candidates_reply (← passkey_candidates env rp allow sender))
  dispatch (assert_message rp item_id challenge) sender = do
    pure (assert_reply (← passkey_assert env signer rp item_id challenge sender))
  dispatch (register_message msg) sender = do
    pure (register_reply (← passkey_register env signer registrar msg sender))
  dispatch outside_message sender = pure outside
  dispatch unknown_message sender = pure (error (codes "Unknown message type"))

  -- handleMessage, and the listener's catch.
  abbrev reply_of : Result Reply → Reply
  reply_of (ok r) = r
  reply_of (thrown m) = error m

  unfoldable pub handle_message : Message → Sender → World N → Reply × World N
  handle_message msg sender w =
      let (r, w') = continue (restore_session env w) (λ _. dispatch msg sender) in (reply_of r, w')

  -- The worker starts with fresh variables, and restores the session.
  unfoldable pub restart : World N → World N
  restart w = (restore_session env (record w { memory = fresh })).1

  pub data Step : World N → World N → Type 0 where
    message :
        (w : World N) (msg : Message) (sender : Sender) → Step w (handle_message msg sender w).1
    tab_closed : (w : World N) (tab : ℕ) → Step w (tab_removed env tab w).1
    restarted : (w : World N) → Step w (restart w)
    waited : (w : World N) (ms : ℕ) → Step w (record w { now = w.now + ms })
    changed : (w : World N) (net : N) → Step w (record w { net = net })

  -- What can be reached from a worker that was just installed.
  pub data Reach : World N → Type 0 where
    installed :
        (net : N) (now : ℕ)
        → Reach (record { memory = fresh; session = cleared; now = now; net = net })
    next : {v w : World N} → Reach v → Step v w → Reach w
