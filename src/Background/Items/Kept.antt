-- ===== src/Background/Items/Kept.antt =====
-- What the requests of extension/background.js make of any worker: one that is locked stays empty.
use maspassword.Base.{inr, Bool, true, false, not, ◌&&◌, ◌==◌, leb, ltb, Option, none, some, Text}
use maspassword.Item.{truthy}
use maspassword.Background.{Key, Vault, World, Answer, Request, Env}
use maspassword.Background.Monad.{
  Result, ok, thrown, Action, continue, recover, pure, or_throw, throw_if,
}
use maspassword.Background.Session.{take_answer, api, logout_world}
use maspassword.Background.Session.Locked.{
  Inv, Kept, Inv-Kept, Kept-Inv, continue-Kept, if-Kept, Safe-Inv, logout-Out,
}
use maspassword.Background.Items.{shared_key, request_key, key_or_request, vault_key}

module _ {N : Type 0} where
  pub logout_world-Inv : (w : World N) → Inv (logout_world w)
  logout_world-Inv w = Safe-Inv (logout_world w) (inr (logout-Out w))

  take_answer-Kept :
      {A : Type 0} (had_token : Bool) (answer : Option (Answer A) × N) (w : World N)
      → Inv w
      → Kept (take_answer had_token answer w)
  unfolding take_answer
  take_answer-Kept had_token (none, net) w i = Inv-Kept _ _ i
  take_answer-Kept had_token (some a, net) w i =
      if-Kept (a.status == 401 && had_token) _ _
        (Inv-Kept _ _ (logout_world-Inv (record w { net = net })))
        (if-Kept (leb 200 a.status && ltb a.status 300) _ _ (Inv-Kept _ _ i) (Inv-Kept _ _ i))

  pub api-Kept : {A : Type 0} (request : Request N A) (w : World N) → Inv w → Kept (api request w)
  unfolding api
  api-Kept request w i = take_answer-Kept _ _ w i

  pub or_throw-Kept :
      {A : Type 0} (o : Option A) (m : Text) (w : World N) → Inv w → Kept (or_throw o m w)
  or_throw-Kept none m w i = Inv-Kept _ w i
  or_throw-Kept (some a) m w i = Inv-Kept _ w i

  pub throw_if-Kept :
      {B : Type 0} (c : Bool) (m : Text) (w : World N) (k : Action N B)
      → Inv w
      → Kept (k w)
      → Kept (continue (throw_if c m w) (λ _. k))
  unfolding continue
  throw_if-Kept true m w k i h = Inv-Kept _ w i
  throw_if-Kept false m w k i h = h

  pub recover-Kept :
      {A : Type 0} (r : Result A × World N) (a : A) → Kept r → Kept (recover r (pure a))
  unfolding recover
  recover-Kept (ok b, w) a k = k
  recover-Kept (thrown m, w) a k = Inv-Kept _ w (Kept-Inv (thrown m, w) k)

  -- What follows on a request or a lookup.
  pub then-Kept :
      {A B : Type 0} (r : Result A × World N) (f : A → Action N B)
      → Kept r
      → ((a : A) (w : World N) → Inv w → Kept (f a w))
      → Kept (continue r f)
  then-Kept r f k h = continue-Kept r f (Kept-Inv r k) h

  module _ (env : Env N) where
    key_or_request-Kept :
        (id : Text) (cached private_key : Option Key) (w : World N)
        → Inv w
        → Kept (key_or_request env id cached private_key w)
    unfolding request_key continue
    key_or_request-Kept id (some k) private_key w i = Inv-Kept _ w i
    key_or_request-Kept id none none w i = Inv-Kept _ w i
    key_or_request-Kept id none (some k) w i =
        then-Kept _ _ (api-Kept (env.get_vault_key id) w i) (λ r u i.
          then-Kept _ _ (or_throw-Kept (shared_key env k r) _ u i) (λ key t i. Inv-Kept _ _ i))

    pub vault_key-Kept : (v : Vault) (w : World N) → Inv w → Kept (vault_key env v w)
    unfolding vault_key
    vault_key-Kept v w i =
        if-Kept (not (truthy v.team_id)) _ _ (Inv-Kept _ w i) (key_or_request-Kept v.id _ _ w i)
