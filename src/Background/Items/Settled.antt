-- ===== src/Background/Items/Settled.antt =====
-- refreshAllItems and ensureItemsCache of extension/background.js one after the other.
use maspassword.Base.{
  ◌≡◌, refl, ◌⊎◌, inl, inr, Bool, true, false, Bool-cases, ◌&&◌, ◌==◌, ltb, leb, not, if◌then◌else◌,
  Option, none, some, List, [], ◌∷◌, Text, arith,
}
use maspassword.Item.{truthy}
use maspassword.Background.{Key, Vault, World, Answer, Request, Env}
use maspassword.Background.Monad.{Result, ok, thrown, Action, continue, recover, pure, or_throw}
use maspassword.Background.Session.{logged_in, take_answer, api}
use maspassword.Background.Items.{
  or_nil, shared_key, request_key, key_or_request, vault_key, load_with, load_vaults,
  refresh_logged_in, refresh_all_items, ensure_items_cache,
}

module _ {N : Type 0} where
  -- The cache was read, or there is nobody logged in to read it for.
  unfoldable Settled : {A : Type 0} → Result A × World N → Type 0
  Settled r = (r.1.memory.cache_primed ≡ true) ⊎ (logged_in r.1 ≡ false)

  abbrev SettledWorld : World N → Type 0
  SettledWorld w = (w.memory.cache_primed ≡ true) ⊎ (logged_in w ≡ false)

  SettledWorld-Settled :
      {A : Type 0} → (r : Result A) (w : World N) → SettledWorld w → Settled (r, w)
  unfolding Settled
  SettledWorld-Settled r w s = s

  Settled-SettledWorld : {A : Type 0} → (r : Result A × World N) → Settled r → SettledWorld r.1
  unfolding Settled
  Settled-SettledWorld r s = s

  continue-Settled :
      {A B : Type 0} (r : Result A × World N) (f : A → Action N B)
      → Settled r
      → ((a : A) (w : World N) → SettledWorld w → Settled (f a w))
      → Settled (continue r f)
  unfolding continue Settled
  continue-Settled (ok a, w) f s h = h a w s
  continue-Settled (thrown m, w) f s h = s

  recover-Settled :
      {A : Type 0} (r : Result A × World N) (a : A) → Settled r → Settled (recover r (pure a))
  unfolding recover Settled
  recover-Settled (ok b, w) a s = s
  recover-Settled (thrown m, w) a s = s

  if-Settled :
      {A : Type 0} (c : Bool) (r s : Result A × World N)
      → Settled r
      → Settled s
      → Settled (if c then r else s)
  if-Settled true r s p q = p
  if-Settled false r s p q = q

  or_throw-Settled :
      {A : Type 0} (o : Option A) (m : Text) (w : World N)
      → SettledWorld w
      → Settled (or_throw o m w)
  or_throw-Settled none m w s = SettledWorld-Settled _ w s
  or_throw-Settled (some a) m w s = SettledWorld-Settled _ w s

  -- An answer leaves the worker as it was, or logs it out.
  take_answer-Settled :
      {A : Type 0} (had_token : Bool) (answer : Option (Answer A) × N) (w : World N)
      → SettledWorld w
      → Settled (take_answer had_token answer w)
  unfolding take_answer
  take_answer-Settled had_token (none, net) w s = SettledWorld-Settled _ _ s
  take_answer-Settled had_token (some a, net) w s =
      if-Settled (a.status == 401 && had_token) _ _ (SettledWorld-Settled _ _ (inr refl)) (
        if-Settled (leb 200 a.status && ltb a.status 300) _ _ (SettledWorld-Settled _ _ s)
          (SettledWorld-Settled _ _ s))

  api-Settled :
      {A : Type 0} (request : Request N A) (w : World N) → SettledWorld w → Settled (api request w)
  unfolding api
  api-Settled request w s = take_answer-Settled _ _ w s

  module _ (env : Env N) where
    key_or_request-Settled :
        (id : Text) (cached private_key : Option Key) (w : World N)
        → SettledWorld w
        → Settled (key_or_request env id cached private_key w)
    unfolding request_key continue
    key_or_request-Settled id (some k) private_key w s = SettledWorld-Settled _ w s
    key_or_request-Settled id none none w s = SettledWorld-Settled _ w s
    key_or_request-Settled id none (some k) w s =
        continue-Settled _ _ (api-Settled (env.get_vault_key id) w s) (λ r u s.
          continue-Settled _ _ (or_throw-Settled (shared_key env k r) _ u s)
            (λ key t s. SettledWorld-Settled _ _ s))

    vault_key-Settled : (v : Vault) (w : World N) → SettledWorld w → Settled (vault_key env v w)
    unfolding vault_key
    vault_key-Settled v w s =
        if-Settled (not (truthy v.team_id)) _ _ (SettledWorld-Settled _ w s)
          (key_or_request-Settled v.id _ _ w s)

    load_with-Settled :
        (v : Vault) (key : Option Key) (w : World N)
        → SettledWorld w
        → Settled (load_with env v key w)
    load_with-Settled v none w s = SettledWorld-Settled _ w s
    load_with-Settled v (some key) w s =
        continue-Settled _ _ (api-Settled (env.get_items v.id) w s)
          (λ r u s. SettledWorld-Settled _ _ s)

    load_vaults-Settled :
        (vaults : List Vault) (w : World N) → SettledWorld w → Settled (load_vaults env vaults w)
    unfolding load_vaults
    load_vaults-Settled [] w s = SettledWorld-Settled _ w s
    load_vaults-Settled (v ∷ vaults) w s =
        continue-Settled _ _ (recover-Settled _ none (vault_key-Settled v w s)) (λ key u s.
          continue-Settled _ _ (load_with-Settled v key u s)
            (λ _ t s. load_vaults-Settled vaults t s))

    refresh_logged_in-Settled : (w : World N) → Settled (refresh_logged_in env w)
    unfolding refresh_logged_in continue
    refresh_logged_in-Settled w =
        continue-Settled _ _ (api-Settled env.get_vaults _ (inl refl))
          (λ r u s. load_vaults-Settled (or_nil r) _ s)

    refresh_all_items-Settled : (w : World N) → Settled (refresh_all_items env w)
    unfolding refresh_all_items
    refresh_all_items-Settled w = elim (Bool-cases (logged_in w)) [
      | inl on ↦ rw on (refresh_logged_in-Settled w)
      | inr off ↦ rw off (SettledWorld-Settled _ w (inr off))
    ]

    ensure_items_cache-Settled :
        (w : World N) → SettledWorld w → ensure_items_cache env w ≡ (ok tt, w)
    unfolding ensure_items_cache
    ensure_items_cache-Settled w (inl primed) = idle (logged_in w) w.memory.cache_primed primed
      where
        idle :
            (on primed : Bool)
            → primed ≡ true
            → (if on && not primed then refresh_all_items env w else (ok tt, w)) ≡ (ok tt, w)
        idle on true e = stop (on && not true) (ground arith)
          where
            stop :
                (c : Bool)
                → c ≡ false
                → (if c then refresh_all_items env w else (ok tt, w)) ≡ (ok tt, w)
            stop c e = rw e refl
        idle on false e = absurd (ground arith)
    ensure_items_cache-Settled w (inr off) = rw off refl

    -- After refreshAllItems, whatever the requests in it answered and even when it threw or logged the
    -- worker out, ensureItemsCache makes no request and changes nothing.
    pub ensure_items_cache-refresh_all_items :
        (w : World N)
        → ensure_items_cache env (refresh_all_items env w).1 ≡ (ok tt, (refresh_all_items env w).1)
    ensure_items_cache-refresh_all_items w =
        ensure_items_cache-Settled (refresh_all_items env w).1
          (Settled-SettledWorld (refresh_all_items env w) (refresh_all_items-Settled w))
