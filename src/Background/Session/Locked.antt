-- ===== src/Background/Session/Locked.antt =====
-- The states of the worker of extension/background.js that its handlers keep: unlocked, or emptied by
-- `logout`.
use mathlib.Core.Path.{subst}
use maspassword.Base.{
  ◌≡◌, refl, sym, ap, ◌⊎◌, inl, inr, Bool, true, false, ◌&&◌, ◌==◌, ltb, leb, if◌then◌else◌, Option,
  none, some, [],
}
use maspassword.Item.{truthy}
use maspassword.Background.{Sso, fresh, cleared, World, Answer, Request}
use maspassword.Background.Monad.{Result, ok, thrown, Action, continue}
use maspassword.Background.Session.{logged_in, logout_world, take_answer, api}

-- A pending SSO session has a token, or there is none.
abbrev pub Usable : Option Sso → Type 0
Usable none = Unit {0}
Usable (some p) = truthy (some p.token) ≡ true

module _ {N : Type 0} where
  abbrev pub SsoOk : World N → Type 0
  SsoOk w = Usable w.memory.pending_sso × Usable w.session.pending_sso

  abbrev pub On : World N → Type 0
  On w = (logged_in w ≡ true) × SsoOk w

  abbrev pub Out : World N → Type 0
  Out w = (w.memory ≡ fresh) × (w.session ≡ cleared)

  abbrev pub Safe : World N → Type 0
  Safe w = On w ⊎ Out w

  -- A worker that is not unlocked holds no item.
  abbrev pub Inv : World N → Type 0
  Inv w = ((logged_in w ≡ true) ⊎ (w.memory.items ≡ [])) × SsoOk w

  -- What an action that starts unlocked ends with: unlocked, unless it throws.
  abbrev pub Good : {A : Type 0} → Result A × World N → Type 0
  Good (ok a, w) = On w
  Good (thrown m, w) = Safe w

  pub logout-Out : (w : World N) → Out (logout_world w)
  logout-Out w = (refl, refl)

  Out-SsoOk : (w : World N) → Out w → SsoOk w
  Out-SsoOk w out = (
    subst (λ m. Usable m.pending_sso) (sym out.0) tt,
    subst (λ s. Usable s.pending_sso) (sym out.1) tt,
  )

  pub Safe-Inv : (w : World N) → Safe w → Inv w
  Safe-Inv w (inl on) = (inl on.0, on.1)
  Safe-Inv w (inr out) = (inr (ap (λ m. m.items) out.0), Out-SsoOk w out)

  pub continue-Inv :
      {A B : Type 0} (r : Result A × World N) (f : A → Action N B)
      → Inv r.1
      → ((a : A) (w : World N) → Inv w → Inv (f a w).1)
      → Inv (continue r f).1
  unfolding continue
  continue-Inv (ok a, w) f i h = h a w i
  continue-Inv (thrown m, w) f i h = i

  pub if-Inv :
      {A : Type 0} (c : Bool) (r s : Result A × World N)
      → (c ≡ true → Inv r.1)
      → (c ≡ false → Inv s.1)
      → Inv (if c then r else s).1
  if-Inv true r s g h = g refl
  if-Inv false r s g h = h refl

  -- What an action leaves behind is as it must be.
  unfoldable pub Kept : {A : Type 0} → Result A × World N → Type 0
  Kept r = Inv r.1

  pub Inv-Kept : {A : Type 0} → (r : Result A) (w : World N) → Inv w → Kept (r, w)
  unfolding Kept
  Inv-Kept r w i = i

  pub Inv-to_Kept : {A : Type 0} → (r : Result A × World N) → Inv r.1 → Kept r
  unfolding Kept
  Inv-to_Kept r i = i

  pub Kept-Inv : {A : Type 0} → (r : Result A × World N) → Kept r → Inv r.1
  unfolding Kept
  Kept-Inv r k = k

  pub continue-Kept :
      {A B : Type 0} (r : Result A × World N) (f : A → Action N B)
      → Inv r.1
      → ((a : A) (w : World N) → Inv w → Kept (f a w))
      → Kept (continue r f)
  unfolding Kept
  continue-Kept r f i h = continue-Inv r f i h

  pub if-Kept :
      {A : Type 0} (c : Bool) (r s : Result A × World N)
      → Kept r
      → Kept s
      → Kept (if c then r else s)
  if-Kept true r s g h = g
  if-Kept false r s g h = h

  pub if-Good :
      {A : Type 0} (c : Bool) (r s : Result A × World N)
      → Good r
      → Good s
      → Good (if c then r else s)
  if-Good true r s g h = g
  if-Good false r s g h = h

  pub Good-Safe : {A : Type 0} → (r : Result A × World N) → Good r → Safe r.1
  Good-Safe (ok a, w) g = inl g
  Good-Safe (thrown m, w) g = g

  pub continue-Good :
      {A B : Type 0} (r : Result A × World N) (f : A → Action N B)
      → Good r
      → ((a : A) (w : World N) → On w → Good (f a w))
      → Good (continue r f)
  unfolding continue
  continue-Good (ok a, w) f g h = h a w g
  continue-Good (thrown m, w) f g h = g

  pub continue-Safe :
      {A B : Type 0} (r : Result A × World N) (f : A → Action N B)
      → Good r
      → ((a : A) (w : World N) → On w → Safe (f a w).1)
      → Safe (continue r f).1
  unfolding continue
  continue-Safe (ok a, w) f g h = h a w g
  continue-Safe (thrown m, w) f g h = g

  take_answer-Good :
      {A : Type 0} (had_token : Bool) (answer : Option (Answer A) × N) (w : World N)
      → On w
      → Good (take_answer had_token answer w)
  unfolding take_answer
  take_answer-Good had_token (none, net) w on = inl on
  take_answer-Good had_token (some a, net) w on =
      if-Good (a.status == 401 && had_token) _ _ (inr (refl, refl))
        (if-Good (leb 200 a.status && ltb a.status 300) _ _ on (inl on))

  pub api-Good : {A : Type 0} → (request : Request N A) (w : World N) → On w → Good (api request w)
  unfolding api
  api-Good request w on = take_answer-Good _ _ w on
