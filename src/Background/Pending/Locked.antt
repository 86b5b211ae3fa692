-- ===== src/Background/Pending/Locked.antt =====
-- The handlers of the staged credentials in extension/background.js keep a locked worker empty.
use maspassword.Base.{ℕ, ◌-◌, Bool, true, false, ◌||◌, not, ltb, Option, none, some, List, Text}
use maspassword.Item.{truthy}
use maspassword.Domain.{domains_match}
use maspassword.Background.{Item, PendingSave, World, Env}
use maspassword.Background.Monad.{Action, continue, or_throw, throw_if}
use maspassword.Background.Session.{logged_in, is_some}
use maspassword.Background.Session.Locked.{Inv, Kept, Inv-Kept, continue-Kept, if-Kept}
use maspassword.Background.Items.{ensure_items_cache, save_new_item, update_item_password}
use maspassword.Background.Items.Locked.{
  ensure_items_cache-Inv, save_new_item-Inv, update_item_password-Inv,
}
use maspassword.Background.Pending.{
  Pending, Sender, StageMessage, stage_in_tab, stage_among, stage_pending_save, check_entry,
  check_pending_save, dismiss_pending_save, create_login, save_entry, updates, commit_entry,
  commit_pending_save, tab_removed, staged_in, chosen_vault, new_login, pending_ttl, or_empty,
  find_first, is_exact,
}

module _ {N : Type 0} (env : Env N) where
  stage_among-Kept :
      (tab : ℕ) (username password : Text) (msg : StageMessage) (matches : List Item) (w : World N)
      → Inv w
      → Kept (stage_among env tab username password msg matches w)
  unfolding stage_among
  stage_among-Kept tab username password msg matches w i =
      if-Kept (is_some (find_first (is_exact username password) matches)) _ _ (Inv-Kept _ _ i)
        (Inv-Kept _ _ i)

  pub stage_pending_save-Kept :
      (msg : StageMessage) (tab : Option ℕ) (w : World N)
      → Inv w
      → Kept (stage_pending_save env msg tab w)
  unfolding stage_pending_save stage_in_tab continue
  stage_pending_save-Kept msg none w i = Inv-Kept _ w i
  stage_pending_save-Kept msg (some tab) w i =
      if-Kept (not (logged_in w) || not (truthy msg.password)) _ _ (Inv-Kept _ w i) (
        continue-Kept (ensure_items_cache env w) _ (ensure_items_cache-Inv env w i)
          (λ _ u i. stage_among-Kept tab _ _ msg _ u i))

  check_entry-Kept :
      (tab : ℕ) (url : Option Text) (p : Option PendingSave) (w : World N)
      → Inv w
      → Kept (check_entry env tab url p w)
  unfolding check_entry
  check_entry-Kept tab url none w i = Inv-Kept _ w i
  check_entry-Kept tab url (some p) w i =
      if-Kept (ltb pending_ttl (w.now - p.at) || not (logged_in w)) _ _ (Inv-Kept _ _ i) (
        if-Kept (not (domains_match env.lower env.host_of (or_empty url) p.url)) _ _
          (Inv-Kept _ w i) (Inv-Kept _ w i))

  pub check_pending_save-Kept :
      (sender : Sender) (tab : Option ℕ) (w : World N)
      → Inv w
      → Kept (check_pending_save env sender tab w)
  unfolding check_pending_save
  check_pending_save-Kept sender none w i = Inv-Kept _ w i
  check_pending_save-Kept sender (some tab) w i = check_entry-Kept tab sender.url _ w i

  pub dismiss_pending_save-Kept :
      (tab : Option ℕ) (w : World N) → Inv w → Kept (dismiss_pending_save env tab w)
  unfolding dismiss_pending_save
  dismiss_pending_save-Kept none w i = Inv-Kept _ w i
  dismiss_pending_save-Kept (some tab) w i = Inv-Kept _ _ i

  or_throw-Kept :
      {A B : Type 0} (o : Option A) (m : Text) (w : World N) (f : A → Action N B)
      → Inv w
      → ((a : A) → Kept (f a w))
      → Kept (continue (or_throw o m w) f)
  unfolding continue
  or_throw-Kept none m w f i h = Inv-Kept _ w i
  or_throw-Kept (some a) m w f i h = h a

  save_entry-Kept :
      (asked : Option Text) (p : PendingSave) (item : Option Text) (w : World N)
      → Inv w
      → Kept (save_entry env asked p item w)
  unfolding save_entry create_login continue
  save_entry-Kept asked p (some id) w i =
      continue-Kept (update_item_password env id p.password w) _
        (update_item_password-Inv env id p.password w i) (λ _ u i. Inv-Kept _ u i)
  save_entry-Kept asked p none w i =
      or_throw-Kept (chosen_vault env asked w.memory.vaults) _ w _ i (λ id.
        continue-Kept (save_new_item env id (new_login env p w.now) w) _
          (save_new_item-Inv env id (new_login env p w.now) w i) (λ _ u i. Inv-Kept _ u i))

  throw_if-Kept :
      {B : Type 0} (c : Bool) (m : Text) (w : World N) (k : Action N B)
      → Inv w
      → Kept (k w)
      → Kept (continue (throw_if c m w) (λ _. k))
  unfolding continue
  throw_if-Kept true m w k i h = Inv-Kept _ w i
  throw_if-Kept false m w k i h = h

  commit_entry-Kept :
      (asked : Option Text) (tab : ℕ) (pending : Pending) (p : Option PendingSave) (w : World N)
      → Inv w
      → Kept (commit_entry env asked tab pending p w)
  unfolding commit_entry continue
  commit_entry-Kept asked tab pending none w i = Inv-Kept _ w i
  commit_entry-Kept asked tab pending (some p) w i = throw_if-Kept (not (logged_in w)) _ w _ i (
      continue-Kept (ensure_items_cache env w) _ (ensure_items_cache-Inv env w i)
        (λ _ u i. save_entry-Kept asked p (updates env p) _ i))

  pub commit_pending_save-Kept :
      (asked : Option Text) (tab : Option ℕ) (w : World N)
      → Inv w
      → Kept (commit_pending_save env asked tab w)
  unfolding commit_pending_save
  commit_pending_save-Kept asked none w i = Inv-Kept _ w i
  commit_pending_save-Kept asked (some tab) w i =
      commit_entry-Kept asked tab w.session.pending_saves _ w i

  pub tab_removed-Kept : (tab : ℕ) (w : World N) → Inv w → Kept (tab_removed env tab w)
  unfolding tab_removed
  tab_removed-Kept tab w i =
      if-Kept (is_some (staged_in tab w.session.pending_saves)) _ _ (Inv-Kept _ _ i)
        (Inv-Kept _ w i)
