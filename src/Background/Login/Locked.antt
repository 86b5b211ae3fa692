-- ===== src/Background/Login/Locked.antt =====
-- login of extension/background.js keeps a locked worker empty, where the server grants a token that
-- is not empty.
use maspassword.Base.{
  ◌≡◌, refl, inl, Bool, true, false, ◌&&◌, ◌==◌, not, leb, ltb, if◌then◌else◌, Option, none, some,
  Text, codes,
}
use maspassword.Item.{truthy}
use maspassword.Background.{Key, World, Answer, Env}
use maspassword.Background.Monad.{ok, thrown, Action, continue, or_throw}
use maspassword.Background.Session.{
  take_answer, api, logout_world, decrypt_private_key, save_session,
}
use maspassword.Background.Session.Locked.{Inv, On, Kept, Inv-Kept, Safe-Inv}
use maspassword.Background.Items.Locked.{refresh_all_items-Inv}
use maspassword.Background.Items.Kept.{logout_world-Inv, or_throw-Kept, throw_if-Kept, then-Kept}
use maspassword.Background.Login.{
  Proof, Granting, Srp, set_login, open_private_key, take_login, body_of, login,
}

module _ {N : Type 0} (env : Env N) where
  -- The server grants a token with the second answer.
  abbrev pub GrantsToken : Srp N → Type 0
  GrantsToken srp =
      (id proof : Text) (token : Option Text) (n m : N) (a : Answer Granting) (g : Granting)
      → srp.step2 id proof token n ≡ (some a, m)
      → a.body ≡ some g
      → truthy g.token ≡ true

  truthy_login : (b : Bool) → b ≡ true → (b && true) ≡ true
  truthy_login true e = refl
  truthy_login false e = e

  -- What is done with the body of an answer.
  with_body-Kept :
      {A B : Type 0} (had_token : Bool) (answer : Option (Answer A) × N) (w : World N)
      (f : A → Action N B)
      → Inv w
      → ((a : Answer A) (n : N) (x : A) (u : World N)
          → answer ≡ (some a, n)
          → a.body ≡ some x
          → Inv u
          → Kept (f x u))
      → Kept (continue (take_answer had_token answer w) (λ body u. continue (body_of env body u) f))
  unfolding take_answer continue
  with_body-Kept had_token (none, net) w f i h = Inv-Kept _ _ i
  with_body-Kept {A = A} had_token (some a, net) w f i h =
      go (a.status == 401 && had_token) (leb 200 a.status && ltb a.status 300) _
    where
      body :
          (b : Option A) → a.body ≡ b → Kept (continue (body_of env b (record w { net = net })) f)
      body none e = Inv-Kept _ (record w { net = net }) i
      body (some x) e = h a net x (record w { net = net }) refl e i

      go :
          (out fine : Bool) (m : Text)
          → Kept (
              continue
                (if out
                  then (thrown (codes "session expired"), logout_world (record w { net = net }))
                  else if fine
                  then (ok a.body, record w { net = net })
                  else (thrown m, record w { net = net }))
                (λ body u. continue (body_of env body u) f))
      go true fine m =
          Inv-Kept _ (logout_world (record w { net = net }))
            (logout_world-Inv (record w { net = net }))
      go false true m = body a.body refl
      go false false m = Inv-Kept _ (record w { net = net }) i

  -- A worker with both keys is unlocked, whatever becomes of the others.
  open_private_key-Kept :
      {B : Type 0} (key : Key) (encrypted : Option Text) (w : World N) (f : Unit {0} → Action N B)
      → On w
      → ((u : World N) → On u → Kept (f tt u))
      → Kept (continue (open_private_key env key encrypted w) f)
  unfolding continue
  open_private_key-Kept key none w f on h = h w on
  open_private_key-Kept {B = B} key (some encrypted) w f on h =
      opened (truthy (some encrypted)) (decrypt_private_key env key encrypted)
    where
      opened :
          (there : Bool) (private_key : Option Key)
          → Kept (
              continue
                (if there
                  then continue (or_throw private_key (codes "OperationError") w) (λ k u.
                    (ok tt, record u { memory = record u.memory { private_key = some k } }))
                  else (ok tt, w))
                f)
      opened true none = Inv-Kept _ w (Safe-Inv w (inl on))
      opened true (some k) = h _ on
      opened false private_key = h w on

  take_login-Kept :
      (email password : Text) (proof : Proof) (g : Granting) (w : World N)
      → truthy g.token ≡ true
      → Inv w
      → Kept (take_login env email password proof g w)
  unfolding take_login save_session continue
  take_login-Kept email password proof g w t i =
      throw_if-Kept (not (proof.verify g.server_proof)) _ w _ i (
        open_private_key-Kept (env.derive_key password email) g.encrypted_private_key unlocked _ on
          (λ u on. Inv-Kept _ _ (refresh_all_items-Inv env _ (inl on.0, on.1))))
    where
      unlocked : World N
      unlocked = record w { memory = set_login g.token (env.derive_key password email) w.memory }

      on : On unlocked
      on = (truthy_login (truthy g.token) t, i.1)

  pub login-Kept :
      (srp : Srp N)
      → GrantsToken srp
      → (email password : Text) (w : World N) → Inv w
      → Kept (login env srp email password w)
  unfolding login continue api
  login-Kept srp grants email password w i =
      let client = srp.srp_login w.net email password in
      with_body-Kept _ (srp.step1 email client.credentials w.memory.token w.net) w _ i
        (λ a n step1 u e b i.
          then-Kept _ _ (or_throw-Kept (client.generate step1.server_public) _ u i) (λ proof v i.
            with_body-Kept _ (srp.step2 step1.session_id proof.proof v.memory.token v.net) v _ i
              (λ a n step2 t e b i.
                take_login-Kept email password proof step2 t
                  (grants step1.session_id proof.proof v.memory.token v.net n a step2 e b) i)))
