-- ===== src/Background/Passkeys/Locked.antt =====
-- The passkey handlers of extension/background.js keep a locked worker empty.
use maspassword.Base.{Option, none, some, List, Text}
use maspassword.Background.{World, Env}
use maspassword.Background.Monad.{ok, continue, or_throw}
use maspassword.Background.Session.{logged_in}
use maspassword.Background.Session.Locked.{Inv, Kept, Inv-Kept, Kept-Inv, continue-Kept, if-Kept}
use maspassword.Background.Items.{ensure_items_cache}
use maspassword.Background.Items.Locked.{ensure_items_cache-Inv}
use maspassword.Background.Pending.{Sender}
use maspassword.Background.Passkeys.{
  Signer, Gate, bad_origin, locked, security_error, open_for, sender_origin, resolve_rp_id,
  resolved, gate_of, enter, list_candidates, passkey_candidates, assert_item, passkey_assert,
}

module _ {N : Type 0} (env : Env N) where
  named-Kept :
      (origin : Text) (host requested : Option Text) (message : Text) (w : World N)
      → Inv w
      → Kept (
          continue
            (or_throw host message w)
            (λ h w. (ok (resolved env origin (resolve_rp_id env h requested)), w)))
  unfolding continue
  named-Kept origin none requested message w i = Inv-Kept _ w i
  named-Kept origin (some h) requested message w i = Inv-Kept _ w i

  gate_of-Kept :
      (origin requested : Option Text) (w : World N) → Inv w → Kept (gate_of env origin requested w)
  gate_of-Kept none requested w i = Inv-Kept _ w i
  gate_of-Kept (some origin) requested w i =
      if-Kept (logged_in w) _ _
        (continue-Kept (ensure_items_cache env w) _ (ensure_items_cache-Inv env w i)
          (λ _ u i. named-Kept origin (env.host_of origin) requested _ u i))
        (Inv-Kept _ w i)

  pub enter-Kept :
      (sender : Sender) (requested : Option Text) (w : World N)
      → Inv w
      → Kept (enter env sender requested w)
  unfolding enter
  enter-Kept sender requested w i =
      continue-Kept (sender_origin env sender, w) _ i
        (λ origin u i. gate_of-Kept origin requested u i)

  list_candidates-Kept :
      (allow : List Text) (gate : Gate) (w : World N)
      → Inv w
      → Kept (list_candidates env allow gate w)
  unfolding list_candidates
  list_candidates-Kept allow (open_for origin rp) w i = Inv-Kept _ w i
  list_candidates-Kept allow bad_origin w i = Inv-Kept _ w i
  list_candidates-Kept allow locked w i = Inv-Kept _ w i
  list_candidates-Kept allow security_error w i = Inv-Kept _ w i

  pub passkey_candidates-Kept :
      (requested : Option Text) (allow : List Text) (sender : Sender) (w : World N)
      → Inv w
      → Kept (passkey_candidates env requested allow sender w)
  unfolding passkey_candidates
  passkey_candidates-Kept requested allow sender w i =
      continue-Kept (enter env sender requested w) _ (Kept-Inv _ (enter-Kept sender requested w i))
        (λ gate u i. list_candidates-Kept allow gate u i)

  module _ (signer : Signer) where
    assert_item-Kept :
        (item_id challenge : Text) (gate : Gate) (w : World N)
        → Inv w
        → Kept (assert_item env signer item_id challenge gate w)
    unfolding assert_item
    assert_item-Kept item_id challenge (open_for origin rp) w i = Inv-Kept _ w i
    assert_item-Kept item_id challenge bad_origin w i = Inv-Kept _ w i
    assert_item-Kept item_id challenge locked w i = Inv-Kept _ w i
    assert_item-Kept item_id challenge security_error w i = Inv-Kept _ w i

    pub passkey_assert-Kept :
        (requested : Option Text) (item_id challenge : Text) (sender : Sender) (w : World N)
        → Inv w
        → Kept (passkey_assert env signer requested item_id challenge sender w)
    unfolding passkey_assert
    passkey_assert-Kept requested item_id challenge sender w i =
        continue-Kept (enter env sender requested w) _
          (Kept-Inv _ (enter-Kept sender requested w i))
          (λ gate u i. assert_item-Kept item_id challenge gate u i)
