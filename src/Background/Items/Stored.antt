-- ===== src/Background/Items/Stored.antt =====
-- What the requests of extension/background.js leave of chrome.storage.session: all of it, or nothing.
use maspassword.Base.{
  Bool, true, false, ◌&&◌, ◌==◌, leb, ltb, not, if◌then◌else◌, Option, none, some, Text,
}
use maspassword.Item.{truthy}
use maspassword.Background.{Key, ItemData, Vault, Storage, cleared, World, Answer, Request, Env}
use maspassword.Background.Monad.{Result, ok, thrown, Action, continue, or_throw, throw_if}
use maspassword.Background.Session.{logged_in, take_answer, api}
use maspassword.Background.Items.{
  find_item, find_vault, shared_key, request_key, key_or_request, vault_key, save_new_item,
  update_item_password,
}

-- A property of the storage that an empty one has.
module _ {N : Type 0} (P : Storage → Type 0) (empty : P cleared) where
  unfoldable pub Stored : {A : Type 0} → Result A × World N → Type 0
  Stored r = P r.1.session

  pub stored : {A : Type 0} → (r : Result A) (w : World N) → P w.session → Stored (r, w)
  unfolding Stored
  stored r w p = p

  pub of_stored : {A : Type 0} → (r : Result A × World N) → Stored r → P r.1.session
  unfolding Stored
  of_stored r p = p

  pub continue-Stored :
      {A B : Type 0} (r : Result A × World N) (f : A → Action N B)
      → Stored r
      → ((a : A) (w : World N) → P w.session → Stored (f a w))
      → Stored (continue r f)
  unfolding continue Stored
  continue-Stored (ok a, w) f p h = h a w p
  continue-Stored (thrown m, w) f p h = p

  pub if-Stored :
      {A : Type 0} (c : Bool) (r s : Result A × World N)
      → Stored r
      → Stored s
      → Stored (if c then r else s)
  if-Stored true r s p q = p
  if-Stored false r s p q = q

  pub or_throw-Stored :
      {A : Type 0} (o : Option A) (m : Text) (w : World N) → P w.session → Stored (or_throw o m w)
  or_throw-Stored none m w p = stored _ w p
  or_throw-Stored (some a) m w p = stored _ w p

  throw_if-Stored :
      {B : Type 0} (c : Bool) (m : Text) (w : World N) (k : Action N B)
      → P w.session
      → Stored (k w)
      → Stored (continue (throw_if c m w) (λ _. k))
  unfolding continue
  throw_if-Stored true m w k p h = stored _ w p
  throw_if-Stored false m w k p h = h

  take_answer-Stored :
      {A : Type 0} (had_token : Bool) (answer : Option (Answer A) × N) (w : World N)
      → P w.session
      → Stored (take_answer had_token answer w)
  unfolding take_answer
  take_answer-Stored had_token (none, net) w p = stored _ _ p
  take_answer-Stored had_token (some a, net) w p =
      if-Stored (a.status == 401 && had_token) _ _ (stored _ _ empty)
        (if-Stored (leb 200 a.status && ltb a.status 300) _ _ (stored _ _ p) (stored _ _ p))

  pub api-Stored :
      {A : Type 0} (request : Request N A) (w : World N) → P w.session → Stored (api request w)
  unfolding api
  api-Stored request w p = take_answer-Stored _ _ w p

  module _ (env : Env N) where
    key_or_request-Stored :
        (id : Text) (cached private_key : Option Key) (w : World N)
        → P w.session
        → Stored (key_or_request env id cached private_key w)
    unfolding request_key continue
    key_or_request-Stored id (some k) private_key w p = stored _ w p
    key_or_request-Stored id none none w p = stored _ w p
    key_or_request-Stored id none (some k) w p =
        continue-Stored _ _ (api-Stored (env.get_vault_key id) w p) (λ r u p.
          continue-Stored _ _ (or_throw-Stored (shared_key env k r) _ u p)
            (λ key t p. stored _ _ p))

    pub vault_key-Stored : (v : Vault) (w : World N) → P w.session → Stored (vault_key env v w)
    unfolding vault_key
    vault_key-Stored v w p =
        if-Stored (not (truthy v.team_id)) _ _ (stored _ w p) (key_or_request-Stored v.id _ _ w p)

    with_key-Stored :
        {B : Type 0} (v : Vault) (m : Text) (f : Key → Action N B) (w : World N)
        → P w.session
        → ((k : Key) (u : World N) → P u.session → Stored (f k u))
        → Stored (continue (vault_key env v w) (λ found u. continue (or_throw found m u) f))
    with_key-Stored v m f w p h =
        continue-Stored _ _ (vault_key-Stored v w p)
          (λ found u p. continue-Stored _ _ (or_throw-Stored found m u p) h)

    pub save_new_item-Stored :
        (id : Text) (contents : ItemData) (w : World N)
        → P w.session
        → Stored (save_new_item env id contents w)
    unfolding save_new_item continue
    save_new_item-Stored id contents w p = throw_if-Stored (not (logged_in w)) _ w _ p (
        continue-Stored _ _ (or_throw-Stored (find_vault id w.memory.vaults) _ w p) (λ vault t p.
          with_key-Stored vault _ _ t p
            (λ key s p. continue-Stored _ _ (api-Stored _ s p) (λ saved r p. stored _ _ p))))

    pub update_item_password-Stored :
        (id password : Text) (w : World N)
        → P w.session
        → Stored (update_item_password env id password w)
    unfolding update_item_password continue
    update_item_password-Stored id password w p =
        continue-Stored _ _ (or_throw-Stored (find_item id w.memory.items) _ w p) (λ item u p.
          continue-Stored _ _ (or_throw-Stored (find_vault item.vault_id u.memory.vaults) _ u p)
            (λ vault t p.
              with_key-Stored vault _ _ t p
                (λ key s p. continue-Stored _ _ (api-Stored _ s p) (λ saved r p. stored _ _ p))))
