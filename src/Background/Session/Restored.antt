-- ===== src/Background/Session/Restored.antt =====
-- restoreSession of extension/background.js: a worker that has nothing to restore, or more than it
-- has, stays as it must be.
use maspassword.Base.{
  ◌≡◌, refl, ◌⊎◌, inl, inr, Bool, true, false, ◌&&◌, if◌then◌else◌, Option, none, some, [], ◌∷◌,
  Text, codes, arith,
}
use maspassword.Background.{Key, World, Env}
use maspassword.Background.Monad.{Result, ok, thrown, continue, modify_memory}
use maspassword.Background.Session.{
  is_some, logged_in, restore_session, imported, import_enc_key, import_private_key, set_enc_key,
  set_private_key, set_token, set_sso,
}
use maspassword.Background.Session.Locked.{Inv, continue-Inv}

-- An import gives a key, or keeps the one that is there.
imported_some :
    (import : Text → Option Key) (o : Option Text) (old k : Option Key)
    → imported import o old ≡ ok k
    → is_some old ≡ true
    → is_some k ≡ true
imported_some import none old k e h = ground arith
imported_some import (some []) old k e h = ground arith
imported_some import (some (c ∷ t)) old k e h = by_key (import (c ∷ t)) e
  where
    by_key :
        (i : Option Key)
        → elim i [ none ↦ thrown (codes "DataError") | some k ↦ ok (some k) ] ≡ ok k
        → is_some k ≡ true
    by_key none e = cc
    by_key (some l) e = ground arith

first : (a b : Bool) → (a && b) ≡ true → a ≡ true
first a b e = ground arith

second : (a b : Bool) → (a && b) ≡ true → b ≡ true
second a b e = ground arith

both : (a b : Bool) → a ≡ true → b ≡ true → (a && b) ≡ true
both a b e f = ground arith

module _ {N : Type 0} where
  set_token-Inv :
      (t : Option Text) (w : World N) → Inv w → Inv (record w { memory = set_token t w.memory })
  set_token-Inv none w i = i
  set_token-Inv (some []) w i = i
  set_token-Inv (some (c ∷ t)) w (inl on, sso) = (inl (second _ _ on), sso)
  set_token-Inv (some (c ∷ t)) w (inr e, sso) = (inr e, sso)

  enc_key-Inv :
      (r : Result (Option Key)) (w : World N)
      → ((k : Option Key) → r ≡ ok k → is_some w.memory.enc_key ≡ true → is_some k ≡ true)
      → Inv w
      → Inv (continue (r, w) (λ k. modify_memory (set_enc_key k))).1
  unfolding continue
  enc_key-Inv (ok k) w h i = (kept i.0, i.1)
    where
      kept :
          (logged_in w ≡ true) ⊎ (w.memory.items ≡ [])
          → (logged_in (record w { memory = set_enc_key k w.memory }) ≡ true)
            ⊎ (w.memory.items ≡ [])
      kept (inl on) = inl (both _ _ (first _ _ on) (h k refl (second _ _ on)))
      kept (inr e) = inr e
  enc_key-Inv (thrown m) w h i = i

  private_key-Inv :
      (r : Result (Option Key)) (w : World N)
      → Inv w
      → Inv (continue (r, w) (λ k. modify_memory (set_private_key k))).1
  unfolding continue
  private_key-Inv (ok k) w i = i
  private_key-Inv (thrown m) w i = i

  set_sso-Inv :
      (w : World N) → Inv w → Inv (record w { memory = set_sso w.session.pending_sso w.memory })
  set_sso-Inv w i = chosen (is_some w.memory.pending_sso)
    where
      chosen :
          (b : Bool)
          → Inv (record w {
            memory =
                (if b then w.memory else record w.memory { pending_sso = w.session.pending_sso });
          })
      chosen true = i
      chosen false = (i.0, (i.1.1, i.1.1))

  import_enc_key-Inv : (env : Env N) (w : World N) → Inv w → Inv (import_enc_key env w).1
  unfolding import_enc_key
  import_enc_key-Inv env w i =
      enc_key-Inv (imported env.import_key w.session.enc_key_b64 w.memory.enc_key) w
        (imported_some env.import_key w.session.enc_key_b64 w.memory.enc_key) i

  import_private_key-Inv : (env : Env N) (w : World N) → Inv w → Inv (import_private_key env w).1
  unfolding import_private_key
  import_private_key-Inv env w i =
      private_key-Inv (imported env.import_rsa w.session.private_key_jwk w.memory.private_key) w i

  pub restore_session-Inv : (env : Env N) (w : World N) → Inv w → Inv (restore_session env w).1
  unfolding restore_session continue
  restore_session-Inv env w i =
      let v = record w { memory = set_token w.session.token w.memory } in
      continue-Inv (import_enc_key env v) _
        (import_enc_key-Inv env v (set_token-Inv w.session.token w i))
        (λ _ u i.
          continue-Inv (import_private_key env u) _ (import_private_key-Inv env u i)
            (λ _ t i. set_sso-Inv t i))
