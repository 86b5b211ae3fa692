-- ===== src/Background/Items/Locked.antt =====
-- The cache of extension/background.js stays with an unlocked worker: a handler that is thrown out by
-- the server leaves no item behind.
use mathlib.Core.Path.{subst}
use maspassword.Base.{
  ◌≡◌, sym, ap, inl, inr, Bool, true, false, Bool-cases, ◌&&◌, not, if◌then◌else◌, Option, none,
  some, List, [], ◌∷◌, Text,
}
use maspassword.Item.{truthy}
use maspassword.Background.{Key, ItemData, Vault, fresh, World, Env}
use maspassword.Background.Monad.{
  Result, ok, thrown, Action, ◌>>=◌, continue, recover, pure, or_throw,
}
use maspassword.Background.Session.{logged_in, find_key}
use maspassword.Background.Session.Locked.{
  On, Safe, Good, if-Good, Good-Safe, Inv, Safe-Inv, if-Inv, continue-Good, continue-Safe, api-Good,
}
use maspassword.Background.Items.{
  or_nil, find_item, find_vault, vault_key, key_or_request, request_key, shared_key, load_with,
  load_vaults, refresh_logged_in, refresh_all_items, ensure_items_cache, save_new_item,
  update_item_password,
}

module _ {N : Type 0} (env : Env N) where
  or_throw-Good :
      {A : Type 0} (o : Option A) (m : Text) (w : World N) → On w → Good (or_throw o m w)
  or_throw-Good none m w on = inl on
  or_throw-Good (some a) m w on = on

  request_key-Good : (id : Text) (k : Key) (w : World N) → On w → Good (request_key env id k w)
  unfolding request_key continue
  request_key-Good id k w on =
      continue-Good _ _ (api-Good _ w on)
        (λ r v on. continue-Good _ _ (or_throw-Good (shared_key env k r) _ v on) (λ key u on. on))

  key_or_request-Good :
      (id : Text) (cached private_key : Option Key) (w : World N)
      → On w
      → Good (key_or_request env id cached private_key w)
  key_or_request-Good id (some k) p w on = on
  key_or_request-Good id none none w on = on
  key_or_request-Good id none (some p) w on = request_key-Good id p w on

  vault_key-Good : (v : Vault) (w : World N) → On w → Good (vault_key env v w)
  unfolding vault_key
  vault_key-Good v w on =
      if-Good (not (truthy v.team_id)) _ _ on (key_or_request-Good v.id _ _ w on)

  -- Without keys there is none for a vault.
  vault_key-out : (v : Vault) (w : World N) → w.memory ≡ fresh → vault_key env v w ≡ (ok none, w)
  unfolding vault_key
  vault_key-out v w e = step (truthy v.team_id)
    where
      step :
          (b : Bool)
          → (if not b
              then (ok w.memory.enc_key, w)
              else key_or_request env v.id
                  (find_key v.id w.memory.vault_keys)
                  w.memory.private_key
                  w)
            ≡ (ok none, w)
      step false = ap (λ m. (ok m.enc_key, w)) e
      step true = ap (λ m. key_or_request env v.id (find_key v.id m.vault_keys) m.private_key w) e

  load_with-Good : (v : Vault) (k : Option Key) (w : World N) → On w → Good (load_with env v k w)
  load_with-Good v none w on = on
  load_with-Good v (some k) w on = continue-Good _ _ (api-Good _ w on) (λ r u on. on)

  -- What is known of the key of a vault: it was found unlocked.
  Mid : Result (Option Key) × World N → Type 0
  Mid (ok none, w) = Safe w
  Mid (ok (some k), w) = On w
  Mid (thrown m, w) = Safe w

  Good-Mid : (r : Result (Option Key) × World N) → Good r → Mid r
  unfolding Mid
  Good-Mid (ok none, w) g = inl g
  Good-Mid (ok (some k), w) g = g
  Good-Mid (thrown m, w) g = g

  vault_key-Mid : (v : Vault) (w : World N) → Safe w → Mid (vault_key env v w)
  unfolding Mid
  vault_key-Mid v w (inl on) = Good-Mid (vault_key env v w) (vault_key-Good v w on)
  vault_key-Mid v w (inr out) = subst Mid (sym (vault_key-out v w out.0)) (inr out)

  load_step-Safe :
      (v : Vault) (vaults : List Vault) (r : Result (Option Key) × World N)
      → Mid r
      → ((w : World N) → Safe w → Safe (load_vaults env vaults w).1)
      → Safe
          (continue
            (recover r (pure none))
            (λ k. load_with env v k >>= λ _. load_vaults env vaults)).1
  unfolding continue recover Mid
  load_step-Safe v vaults (ok none, u) g rest = rest u g
  load_step-Safe v vaults (ok (some k), u) g rest =
      continue-Safe _ _ (load_with-Good v (some k) u g) (λ _ t on. rest t (inl on))
  load_step-Safe v vaults (thrown m, u) g rest = rest u g

  load_vaults-Safe :
      (vaults : List Vault) (w : World N) → Safe w → Safe (load_vaults env vaults w).1
  unfolding load_vaults
  load_vaults-Safe [] w safe = safe
  load_vaults-Safe (v ∷ vaults) w safe =
      load_step-Safe v vaults (vault_key env v w) (vault_key-Mid v w safe)
        (λ t s. load_vaults-Safe vaults t s)

  refresh_logged_in-Safe : (w : World N) → On w → Safe (refresh_logged_in env w).1
  unfolding refresh_logged_in continue
  refresh_logged_in-Safe w on =
      continue-Safe _ _ (api-Good _ _ on) (λ r u on. load_vaults-Safe (or_nil r) _ (inl on))

  pub refresh_all_items-Inv : (w : World N) → Inv w → Inv (refresh_all_items env w).1
  unfolding refresh_all_items
  refresh_all_items-Inv w i =
      if-Inv (logged_in w) _ _
        (λ e. Safe-Inv (refresh_logged_in env w).1 (refresh_logged_in-Safe w (e, i.1))) (λ _. i)

  pub ensure_items_cache-Inv : (w : World N) → Inv w → Inv (ensure_items_cache env w).1
  unfolding ensure_items_cache
  ensure_items_cache-Inv w i =
      if-Inv (logged_in w && not w.memory.cache_primed) _ _ (λ _. refresh_all_items-Inv w i)
        (λ _. i)

  save_new_item-Good :
      (id : Text) (contents : ItemData) (w : World N)
      → On w
      → Good (save_new_item env id contents w)
  unfolding save_new_item continue
  save_new_item-Good id contents w on = rw on.0 (
      continue-Good _ _ (or_throw-Good (find_vault id w.memory.vaults) _ w on) (λ vault w1 on1.
        continue-Good _ _ (vault_key-Good vault w1 on1) (λ found w2 on2.
          continue-Good _ _ (or_throw-Good found _ w2 on2)
            (λ key w3 on3. continue-Good _ _ (api-Good _ w3 on3) (λ saved w4 on4. on4)))))

  save_new_item-locked :
      (id : Text) (contents : ItemData) (w : World N)
      → logged_in w ≡ false
      → Inv w
      → Inv (save_new_item env id contents w).1
  unfolding save_new_item continue
  save_new_item-locked id contents w e i = rw e i

  pub save_new_item-Inv :
      (id : Text) (contents : ItemData) (w : World N)
      → Inv w
      → Inv (save_new_item env id contents w).1
  save_new_item-Inv id contents w i = elim (Bool-cases (logged_in w)) [
    | inl e ↦
        Safe-Inv (save_new_item env id contents w).1
          (Good-Safe _ (save_new_item-Good id contents w (e, i.1)))
    | inr e ↦ save_new_item-locked id contents w e i
  ]

  update_item_password-Good :
      (id password : Text) (w : World N) → On w → Good (update_item_password env id password w)
  unfolding update_item_password continue
  update_item_password-Good id password w on =
      continue-Good _ _ (or_throw-Good (find_item id w.memory.items) _ w on) (λ item w1 on1.
        continue-Good _ _ (or_throw-Good (find_vault item.vault_id w1.memory.vaults) _ w1 on1)
          (λ vault w2 on2. continue-Good _ _ (vault_key-Good vault w2 on2) (λ found w3 on3.
            continue-Good _ _ (or_throw-Good found _ w3 on3)
              (λ key w4 on4. continue-Good _ _ (api-Good _ w4 on4) (λ saved w5 on5. on5)))))

  none_stops :
      {A B : Type 0} (o : Option A) (m : Text) (w : World N) (f : A → Action N B)
      → o ≡ none
      → Inv w
      → Inv (continue (or_throw o m w) f).1
  unfolding continue
  none_stops none m w f e i = i
  none_stops (some a) m w f e i = cc

  update_item_password-none :
      (id password : Text) (w : World N)
      → w.memory.items ≡ []
      → Inv w
      → Inv (update_item_password env id password w).1
  unfolding update_item_password continue
  update_item_password-none id password w e i =
      none_stops (find_item id w.memory.items) _ w _ (ap (find_item id) e) i

  pub update_item_password-Inv :
      (id password : Text) (w : World N) → Inv w → Inv (update_item_password env id password w).1
  update_item_password-Inv id password w (inl on, sso) =
      Safe-Inv (update_item_password env id password w).1
        (Good-Safe _ (update_item_password-Good id password w (on, sso)))
  update_item_password-Inv id password w (inr e, sso) =
      update_item_password-none id password w e (inr e, sso)
