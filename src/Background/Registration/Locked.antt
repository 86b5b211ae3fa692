-- ===== src/Background/Registration/Locked.antt =====
-- passkeyRegister of extension/background.js keeps a locked worker empty.
use maspassword.Base.{Option, none, some, Text}
use maspassword.Item.{truthy}
use maspassword.Background.{Passkey, Item, World, Env}
use maspassword.Background.Monad.{Result, continue}
use maspassword.Background.Session.Locked.{Inv, Kept, Inv-Kept, continue-Kept, if-Kept}
use maspassword.Background.Items.{find_vault}
use maspassword.Background.Items.Locked.{refresh_all_items-Inv, save_new_item-Inv}
use maspassword.Background.Items.Kept.{or_throw-Kept, then-Kept, api-Kept, vault_key-Kept}
use maspassword.Background.Pending.{Sender}
use maspassword.Background.Passkeys.{
  Signer, Gate, bad_origin, locked, security_error, open_for, passkey_items_for,
}
use maspassword.Background.Passkeys.Locked.{enter-Kept}
use maspassword.Background.Registration.{
  Registrar, RegisterMessage, RegisterReply, any_excluded, replace_passkey, store_passkey,
  register_for, register_at, passkey_register,
}

module _ {N : Type 0} (env : Env N) (signer : Signer) (registrar : Registrar N) where
  replace_passkey-Kept :
      (item : Item) (pk : Passkey) (w : World N)
      → Inv w
      → Kept (replace_passkey env signer registrar item pk w)
  unfolding replace_passkey continue
  replace_passkey-Kept item pk w i =
      then-Kept _ _ (or_throw-Kept (find_vault item.vault_id w.memory.vaults) _ w i) (λ vault u i.
        then-Kept _ _ (vault_key-Kept env vault u i) (λ found t i.
          then-Kept _ _ (or_throw-Kept found _ t i) (λ key s i.
            then-Kept _ _ (api-Kept _ s i)
              (λ _ r i. Inv-Kept _ _ (refresh_all_items-Inv env r i)))))

  store_passkey-Kept :
      (msg : RegisterMessage) (origin rp : Text) (pk : Passkey) (item : Option Item)
      (vault_id : Option Text) (reply : Result RegisterReply) (w : World N)
      → Inv w
      → Kept (store_passkey env signer registrar msg origin rp pk item vault_id reply w)
  store_passkey-Kept msg origin rp pk (some item) vault_id reply w i =
      then-Kept _ _ (replace_passkey-Kept item pk w i) (λ _ u i. Inv-Kept _ u i)
  store_passkey-Kept msg origin rp pk none none reply w i = Inv-Kept _ w i
  store_passkey-Kept msg origin rp pk none (some vault_id) reply w i =
      if-Kept (truthy (some vault_id)) _ _
        (continue-Kept _ _ (save_new_item-Inv env vault_id _ w i) (λ _ u i. Inv-Kept _ u i))
        (Inv-Kept _ w i)

  register_at-Kept :
      (msg : RegisterMessage) (gate : Gate) (w : World N)
      → Inv w
      → Kept (register_at env signer registrar msg gate w)
  unfolding register_at register_for
  register_at-Kept msg bad_origin w i = Inv-Kept _ w i
  register_at-Kept msg locked w i = Inv-Kept _ w i
  register_at-Kept msg security_error w i = Inv-Kept _ w i
  register_at-Kept msg (open_for origin rp) w i =
      if-Kept (any_excluded msg.exclude (passkey_items_for env rp w.memory.items)) _ _
        (Inv-Kept _ w i) (store_passkey-Kept msg origin rp _ _ _ _ w i)

  pub passkey_register-Kept :
      (msg : RegisterMessage) (sender : Sender) (w : World N)
      → Inv w
      → Kept (passkey_register env signer registrar msg sender w)
  unfolding passkey_register
  passkey_register-Kept msg sender w i =
      then-Kept _ _ (enter-Kept env sender msg.rp w i) (λ gate u i. register_at-Kept msg gate u i)
