-- ===== src/Background/Items.antt =====
-- extension/background.js: the keys of the vaults and the cache of the decrypted items.
pub mod Locked
pub mod Kept
pub mod Stored
pub mod Settled
use maspassword.Base.{
  ℕ, suc, ◌+◌, Bool, true, false, ◌&&◌, not, if◌then◌else◌, Option, none, some, List, [], ◌∷◌, ◌++◌,
  Text, codes, same_text,
}
use maspassword.Item.{truthy}
use maspassword.Domain.{domains_match}
use maspassword.Background.{
  Key, Vault, ItemData, Item, Memory, World, Answer, StoredItem, Saved, Env,
}
use maspassword.Background.Monad.{
  Result, ok, thrown, Action, pure, throw, gets, or_throw, ◌>>=◌, ◌>>◌, try, modify_memory,
  throw_if, continue, recover,
}
use maspassword.Background.Session.{is_some, logged_in, api, find_key}

abbrev pub find_vault : Text → List Vault → Option Vault
find_vault id [] = none
find_vault id (v ∷ vaults) = if same_text v.id id then some v else find_vault id vaults

-- `===` on ids that may be undefined, where an id is asked for.
abbrev pub has_id : Text → Option Text → Bool
has_id id none = false
has_id id (some i) = same_text i id

abbrev pub find_item : Text → List Item → Option Item
find_item id [] = none
find_item id (i ∷ items) = if has_id id i.item_id then some i else find_item id items

-- `item.data = …; item.version = …` on the item that `find` gave.
unfoldable pub change_item : Text → ItemData → Option ℕ → List Item → List Item
change_item id contents version [] = []
change_item id contents version (i ∷ items) =
    let others = change_item id contents version items in
    if has_id id i.item_id
    then record i { contents = contents; version = version } ∷ items
    else i ∷ others

abbrev pub or_nil : {A : Type 0} → Option (List A) → List A
or_nil none = []
or_nil (some l) = l

abbrev set_items : List Item → Memory → Memory
set_items l m = record m { items = l }

abbrev pub push_item : Item → Memory → Memory
push_item i m = record m { items = m.items ++ i ∷ [] }

abbrev set_vaults : List Vault → Memory → Memory
set_vaults l m = record m { vaults = l }

abbrev set_primed : Memory → Memory
set_primed m = record m { cache_primed = true }

abbrev cache_key : Text → Key → Memory → Memory
cache_key id k m = record m { vault_keys = (id, k) ∷ m.vault_keys }

abbrev opt_or : {A : Type 0} → Option A → Option A → Option A
opt_or none b = b
opt_or (some a) b = some a

-- `saved?.id` and `saved?.version`.
abbrev saved_id : Option Saved → Option Text
saved_id none = none
saved_id (some s) = s.id

abbrev saved_version : Option Saved → Option ℕ
saved_version none = none
saved_version (some s) = s.version

-- `item.version + 1`, which is NaN for an item without a version.
abbrev next_version : Option ℕ → Option ℕ
next_version none = none
next_version (some v) = some (suc v)

module _ {N : Type 0} (env : Env N) where
  -- The key of a shared vault from the answer to the request for it.
  unfoldable pub shared_key : Key → Option Text → Option Key
  shared_key private_key none = none
  shared_key private_key (some encrypted) = elim (env.rsa_decrypt private_key encrypted) [
    | none ↦ none
    | some b64 ↦ env.import_key b64
  ]

  unfoldable pub request_key : Text → Key → Action N (Option Key)
  request_key id private_key = do
    response ← api (env.get_vault_key id)
    key ← or_throw (shared_key private_key response) (codes "OperationError")
    modify_memory (cache_key id key)
    pure (some key)

  abbrev key_or_request : Text → Option Key → Option Key → Action N (Option Key)
  key_or_request id (some cached) private_key = pure (some cached)
  key_or_request id none none = pure none
  key_or_request id none (some private_key) = request_key id private_key

  -- getVaultDecryptionKey.
  unfoldable pub vault_key : Vault → Action N (Option Key)
  vault_key vault w =
      if not (truthy vault.team_id)
      then (ok w.memory.enc_key, w)
      else key_or_request vault.id (find_key vault.id w.memory.vault_keys) w.memory.private_key w

  unfoldable pub decrypt_item : Text → Key → StoredItem → Option Item
  decrypt_item vault_id key stored = elim (env.decrypt key stored.data_encrypted) [
    | none ↦ none
    | some json ↦ elim (env.parse json) [
      | none ↦ none
      | some contents ↦ some (record {
        vault_id = vault_id;
        item_id = some stored.id;
        version = some stored.version;
        contents = contents;
      })
    ]
  ]

  -- The inner loop: items that do not decrypt or parse are left out.
  unfoldable pub decrypt_items : Text → Key → List StoredItem → List Item
  decrypt_items vault_id key [] = []
  decrypt_items vault_id key (s ∷ stored) = elim (decrypt_item vault_id key s) [
    | none ↦ decrypt_items vault_id key stored
    | some i ↦ i ∷ decrypt_items vault_id key stored
  ]

  abbrev load_with : Vault → Option Key → Action N (Unit {0})
  load_with vault none = pure tt
  load_with vault (some key) = do
    stored ← api (env.get_items vault.id)
    modify_memory (λ m. record m { items = m.items ++ decrypt_items vault.id key (or_nil stored) })

  -- The loop over the vaults. A vault whose key throws is skipped.
  unfoldable pub load_vaults : List Vault → Action N (Unit {0})
  load_vaults [] = pure tt
  load_vaults (v ∷ vaults) = do
    key ← try (vault_key v) (pure none)
    load_with v key
    load_vaults vaults

  -- refreshAllItems, once it is known that somebody is logged in.
  unfoldable pub refresh_logged_in : Action N (Unit {0})
  refresh_logged_in = do
    modify_memory set_primed
    vaults ← api env.get_vaults
    modify_memory (set_vaults (or_nil vaults))
    modify_memory (set_items [])
    load_vaults (or_nil vaults)

  unfoldable pub refresh_all_items : Action N (Unit {0})
  refresh_all_items w = if logged_in w then refresh_logged_in w else (ok tt, w)

  unfoldable pub ensure_items_cache : Action N (Unit {0})
  ensure_items_cache w =
      if logged_in w && not w.memory.cache_primed then refresh_all_items w else (ok tt, w)

  -- matchItems.
  abbrev pub matches_url : Text → Option Text → Bool
  matches_url url none = false
  matches_url url (some item_url) =
      truthy (some item_url) && domains_match env.lower env.host_of url item_url

  unfoldable pub filter_items : (Item → Bool) → List Item → List Item
  filter_items test [] = []
  filter_items test (i ∷ items) =
      let rest = filter_items test items in if test i then i ∷ rest else rest

  unfoldable pub match_items : Option Text → List Item → List Item
  match_items none items = []
  match_items (some url) items =
      if truthy (some url) then filter_items (λ i. matches_url url i.contents.url) items else []

  -- saveNewItem.
  unfoldable pub save_new_item : Text → ItemData → Action N (Option Saved)
  save_new_item vault_id contents = do
    throw_if (not (← gets logged_in)) (codes "Not logged in")
    vault ← or_throw (find_vault vault_id (← gets (λ w. w.memory.vaults))) (codes "Vault not found")
    key ← or_throw (← vault_key vault) (codes "Cannot decrypt vault key")
    encrypted ← gets (λ w. env.encrypt w.net key (env.stringify contents))
    saved ← api (env.post_item vault_id encrypted)
    modify_memory (
        push_item (record {
          vault_id = vault_id;
          item_id = saved_id saved;
          version = saved_version saved;
          contents = contents;
        }))
    pure saved

  -- updateItemPassword. The errors that it returns are messages, like those that it throws.
  unfoldable pub update_item_password : Text → Text → Action N (Unit {0})
  update_item_password item_id password = do
    item ← or_throw (find_item item_id (← gets (λ w. w.memory.items))) (codes "Item not found")
    vault ←
        or_throw (find_vault item.vault_id (← gets (λ w. w.memory.vaults)))
          (codes "Vault not found")
    key ← or_throw (← vault_key vault) (codes "Cannot decrypt vault key")
    contents ←
        gets (λ w. record item.contents { password = some password; pw_changed_at = some w.now })
    encrypted ← gets (λ w. env.encrypt w.net key (env.stringify contents))
    saved ← api (env.put_item item.vault_id item_id encrypted item.version)
    modify_memory (λ m. record m {
      items =
          change_item item_id contents (opt_or (saved_version saved) (next_version item.version))
            m.items;
    })
