-- ===== src/Background/Pending.antt =====
-- extension/background.js: credentials that were captured at submit time, staged by tab, offered and
-- saved.
pub mod Locked
pub mod Offers
pub mod Commits
use maspassword.Base.{
  ℕ, ◌+◌, ◌-◌, Bool, true, false, ◌&&◌, ◌||◌, not, ◌==◌, ltb, leb, if◌then◌else◌, Option, none,
  some, List, [], ◌∷◌, Text, codes, same_text, trim,
}
use maspassword.Item.{truthy}
use maspassword.Domain.{domains_match}
use maspassword.Background.{Vault, ItemData, Item, PendingSave, Storage, World, Env}
use maspassword.Background.Monad.{
  Result, ok, thrown, Action, pure, throw, gets, or_throw, ◌>>=◌, ◌>>◌, modify_session, throw_if,
  continue,
}
use maspassword.Background.Session.{is_some, logged_in}
use maspassword.Background.Items.{
  find_vault, ensure_items_cache, match_items, save_new_item, update_item_password,
}

-- The sender of a message: its tab and page.
pub record Sender : Type 0 where
  pub tab_id : Option ℕ
  pub url : Option Text
  pub origin : Option Text

abbrev pub Pending : Type 0
Pending = List (ℕ × PendingSave)

unfoldable pub staged_in : ℕ → Pending → Option PendingSave
staged_in tab [] = none
staged_in tab ((t, p) ∷ pending) =
    let rest = staged_in tab pending in if t == tab then some p else rest

-- `delete pending[tabId]`.
unfoldable pub unstage : ℕ → Pending → Pending
unstage tab [] = []
unstage tab ((t, p) ∷ pending) =
    let rest = unstage tab pending in if t == tab then rest else (t, p) ∷ rest

-- `pending[tabId] = p`.
unfoldable pub stage : ℕ → PendingSave → Pending → Pending
stage tab p pending = (tab, p) ∷ unstage tab pending

abbrev pub pending_ttl : ℕ
pending_ttl = 60000

abbrev pub or_empty : Option Text → Text
or_empty none = []
or_empty (some t) = t

pub record StageMessage : Type 0 where
  pub username : Option Text
  pub password : Option Text
  pub url : Option Text
  pub site : Option Text

pub data StageReply : Type 0 where
  refused staged known : StageReply

-- What the page learns of a staged entry.
pub record Offer : Type 0 where
  pub is_update : Bool
  pub username : Text
  pub title : Text
  pub site : Text

pub data CommitReply : Type 0 where
  updated created : CommitReply

abbrev set_pending : Pending → Storage → Storage
set_pending p s = record s { pending_saves = p }

abbrev pub find_first : (Item → Bool) → List Item → Option Item
find_first test [] = none
find_first test (i ∷ items) = if test i then some i else find_first test items

abbrev same_option : Option Text → Text → Bool
same_option none t = false
same_option (some s) t = same_text s t

abbrev is_exact : Text → Text → Item → Bool
is_exact username password i =
    same_text (or_empty i.contents.username) username && same_option i.contents.password password

abbrev is_changed : Text → Text → Item → Bool
is_changed username password i =
    same_text (or_empty i.contents.username) username
    && not (same_option i.contents.password password)

abbrev entry_for : Text → Text → StageMessage → ℕ → Option Item → PendingSave
entry_for username password msg at none = record {
  username = username;
  password = password;
  url = or_empty msg.url;
  site = or_empty msg.site;
  at = at;
  is_update = false;
  item_id = none;
  title = [];
}
entry_for username password msg at (some i) = record {
  username = username;
  password = password;
  url = or_empty msg.url;
  site = or_empty msg.site;
  at = at;
  is_update = true;
  item_id = i.item_id;
  title = or_empty i.contents.title;
}

-- The item whose password changed, if the user name is not empty.
abbrev updatable : Text → Text → List Item → Option Item
updatable [] password matches = none
updatable (c ∷ username) password matches = find_first (is_changed (c ∷ username) password) matches

module _ {N : Type 0} (env : Env N) where
  unfoldable pub stage_among : ℕ → Text → Text → StageMessage → List Item → Action N StageReply
  stage_among tab username password msg matches w =
      let pending = w.session.pending_saves in
      if is_some (find_first (is_exact username password) matches)
      then (ok known, record w { session = set_pending (unstage tab pending) w.session })
      else (
        ok staged,
        record w {
          session =
              set_pending
                (stage tab
                  (entry_for username password msg w.now (updatable username password matches))
                  pending)
                w.session;
        },
      )

  unfoldable pub stage_in_tab : ℕ → StageMessage → Action N StageReply
  stage_in_tab tab msg w =
      if not (logged_in w) || not (truthy msg.password)
      then (ok refused, w)
      else (do
        ensure_items_cache env
        matches ← gets (λ w. match_items env msg.url w.memory.items)
        stage_among tab (trim (or_empty msg.username)) (or_empty msg.password) msg matches)
          w

  -- stagePendingSave.
  unfoldable pub stage_pending_save : StageMessage → Option ℕ → Action N StageReply
  stage_pending_save msg none = pure refused
  stage_pending_save msg (some tab) = stage_in_tab tab msg

  abbrev pub offer_of : PendingSave → Offer
  offer_of p = record {
    is_update = p.is_update;
    username = p.username;
    title = p.title;
    site = p.site;
  }

  unfoldable pub check_entry : ℕ → Option Text → Option PendingSave → Action N (Option Offer)
  check_entry tab url none w = (ok none, w)
  check_entry tab url (some p) w =
      if ltb pending_ttl (w.now - p.at) || not (logged_in w)
      then (
        ok none,
        record w { session = set_pending (unstage tab w.session.pending_saves) w.session },
      )
      else if not (domains_match env.lower env.host_of (or_empty url) p.url)
      then (ok none, w)
      else (ok (some (offer_of p)), w)

  -- checkPendingSave.
  unfoldable pub check_pending_save : Sender → Option ℕ → Action N (Option Offer)
  check_pending_save sender none w = (ok none, w)
  check_pending_save sender (some tab) w =
      check_entry tab sender.url (staged_in tab w.session.pending_saves) w

  -- dismissPendingSave.
  unfoldable pub dismiss_pending_save : Option ℕ → Action N (Unit {0})
  dismiss_pending_save none w = (ok tt, w)
  dismiss_pending_save (some tab) w =
      (ok tt, record w { session = set_pending (unstage tab w.session.pending_saves) w.session })

  abbrev first_private : List Vault → Option Vault
  first_private [] = none
  first_private (v ∷ vaults) = if truthy v.team_id then first_private vaults else some v

  abbrev first_of : List Vault → Option Vault
  first_of [] = none
  first_of (v ∷ vaults) = some v

  abbrev private_or_first : List Vault → Option Vault → Option Text
  private_or_first vaults (some v) = some v.id
  private_or_first [] none = none
  private_or_first (v ∷ vaults) none = some v.id

  -- `msg.vaultId || (…)?.id`.
  abbrev pub chosen_vault : Option Text → List Vault → Option Text
  chosen_vault asked vaults =
      if truthy asked then asked else private_or_first vaults (first_private vaults)

  abbrev or_url : Text → Option Text → Text
  or_url url none = url
  or_url url (some origin) = origin

  -- `p.site || urlOrigin`.
  abbrev or_site : Text → Text → Text
  or_site [] origin = origin
  or_site (c ∷ site) origin = c ∷ site

  abbrev pub new_login : PendingSave → ℕ → ItemData
  new_login p now =
      let origin = or_url p.url (env.origin_of p.url) in
      record {
        type = some (codes "login");
        title = some (or_site p.site origin);
        username = some p.username;
        password = some p.password;
        url = some origin;
        notes = some [];
        pw_changed_at = some now;
        passkey = none;
        others = [];
      }

  abbrev updates : PendingSave → Option Text
  updates p = if p.is_update && truthy p.item_id then p.item_id else none

  unfoldable pub create_login : Option Text → PendingSave → Action N CommitReply
  create_login asked p = do
    vault_id ←
        or_throw (chosen_vault asked (← gets (λ w. w.memory.vaults))) (codes "No vault available")
    contents ← gets (λ w. new_login p w.now)
    save_new_item env vault_id contents
    pure created

  unfoldable pub save_entry : Option Text → PendingSave → Option Text → Action N CommitReply
  save_entry asked p (some item_id) = do update_item_password env item_id p.password; pure updated
  save_entry asked p none = create_login asked p

  abbrev remove_staged : ℕ → Pending → Action N (Unit {0})
  remove_staged tab pending w =
      (ok tt, record w { session = set_pending (unstage tab pending) w.session })

  -- The entries are read before the cache is filled, and written back after that.
  unfoldable pub commit_entry :
      Option Text → ℕ → Pending → Option PendingSave → Action N CommitReply
  commit_entry asked tab pending none = throw (codes "Nothing to save")
  commit_entry asked tab pending (some p) = do
    throw_if (not (← gets logged_in)) (codes "Not logged in")
    ensure_items_cache env
    remove_staged tab pending
    save_entry asked p (updates p)

  -- commitPendingSave. The errors that it returns are messages, like those that it throws.
  unfoldable pub commit_pending_save : Option Text → Option ℕ → Action N CommitReply
  commit_pending_save asked none w = (thrown (codes "Nothing to save"), w)
  commit_pending_save asked (some tab) w =
      commit_entry asked tab w.session.pending_saves (staged_in tab w.session.pending_saves) w

  -- The listener of closed tabs.
  unfoldable pub tab_removed : ℕ → Action N (Unit {0})
  tab_removed tab w =
      if is_some (staged_in tab w.session.pending_saves)
      then remove_staged tab w.session.pending_saves w
      else (ok tt, w)
