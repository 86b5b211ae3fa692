-- ===== src/Background/Vaults.antt =====
-- vaultsWithNames of extension/background.js.
use maspassword.Base.{if◌then◌else◌, Option, none, some, List, [], ◌∷◌, Text, codes}
use maspassword.Item.{truthy}
use maspassword.Background.{Key, Vault, World, Env}
use maspassword.Background.Monad.{ok, Action, pure, continue, recover}
use maspassword.Background.Session.Locked.{Inv, Kept, Inv-Kept}
use maspassword.Background.Items.{vault_key, ensure_items_cache}
use maspassword.Background.Items.Locked.{ensure_items_cache-Inv}
use maspassword.Background.Items.Kept.{then-Kept, recover-Kept, vault_key-Kept}
use maspassword.Background.Session.Locked.{continue-Kept}

pub record VaultName : Type 0 where
  pub id : Text
  pub name : Text
  pub team_id : Option Text

module _ {N : Type 0} (env : Env N) where
  -- `team_id || null`.
  abbrev or_null : Option Text → Option Text
  or_null id = if truthy id then id else none

  abbrev or_vault : Option Text → Text
  or_vault none = codes "Vault"
  or_vault (some name) = name

  -- A name that does not decrypt is 'Vault'.
  abbrev pub vault_name : Vault → Option Key → VaultName
  vault_name v none = record { id = v.id; name = codes "Vault"; team_id = or_null v.team_id }
  vault_name v (some key) = record {
    id = v.id;
    name = or_vault (env.decrypt key v.name_encrypted);
    team_id = or_null v.team_id;
  }

  unfoldable pub list_names : List Vault → Action N (List VaultName)
  list_names [] w = (ok [], w)
  list_names (v ∷ vaults) w =
      continue (recover (vault_key env v w) (pure none))
        (λ key u. continue (list_names vaults u) (λ names t. (ok (vault_name v key ∷ names), t)))

  -- vaultsWithNames.
  unfoldable pub vaults_with_names : Action N (List VaultName)
  vaults_with_names w = continue (ensure_items_cache env w) (λ _ u. list_names u.memory.vaults u)

  list_names-Kept : (vaults : List Vault) (w : World N) → Inv w → Kept (list_names vaults w)
  unfolding list_names
  list_names-Kept [] w i = Inv-Kept _ w i
  list_names-Kept (v ∷ vaults) w i =
      then-Kept _ _ (recover-Kept _ none (vault_key-Kept env v w i))
        (λ key u i. then-Kept _ _ (list_names-Kept vaults u i) (λ names t i. Inv-Kept _ t i))

  pub vaults_with_names-Kept : (w : World N) → Inv w → Kept (vaults_with_names w)
  unfolding vaults_with_names
  vaults_with_names-Kept w i =
      continue-Kept _ _ (ensure_items_cache-Inv env w i)
        (λ _ u i. list_names-Kept u.memory.vaults u i)
