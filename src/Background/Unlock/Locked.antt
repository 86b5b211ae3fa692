-- ===== src/Background/Unlock/Locked.antt =====
-- The SSO login of extension/background.js keeps a locked worker empty: the token that it stores is
-- never empty.
use maspassword.Base.{
  ◌≡◌, refl, inl, Bool, true, false, ◌&&◌, not, leb, ltb, if◌then◌else◌, Option, none, some, [],
  ◌∷◌, Text, codes, starts_with, drop, arith,
}
use maspassword.Item.{truthy}
use maspassword.Background.{Key, Sso, World, Answer, Env}
use maspassword.Background.Monad.{ok, thrown, continue}
use maspassword.Background.Session.{save_session}
use maspassword.Background.Session.Locked.{Usable, Inv, Kept, Inv-Kept, continue-Kept, if-Kept}
use maspassword.Background.Items.{refresh_all_items}
use maspassword.Background.Items.Locked.{refresh_all_items-Inv}
use maspassword.Background.Unlock.{
  take_url, Identity, SessionInfo, or_token, sso_fragment, take_session, request_session,
  decoded_token, final_url, sso_start, unlock_with, unlock_sso, sso_unlock, first_sso, or_later,
  not_blank, before_amp, begin_sso,
}

-- decodeURIComponent gives text for text.
abbrev pub DecodesText : {N : Type 0} → Identity N → Type 0
DecodesText identity =
    (t d : Text) → identity.decode t ≡ some d → truthy (some t) ≡ true → truthy (some d) ≡ true

or_later-truthy :
    (b : Text) (later : Option Text) (t : Text)
    → (later ≡ some t → truthy (some t) ≡ true)
    → or_later (not_blank b) later ≡ some t
    → truthy (some t) ≡ true
or_later-truthy [] none t h e = cc
or_later-truthy [] (some l) t h e = h e
or_later-truthy (c ∷ b) later t h e = ground arith

chosen_truthy :
    (c : Bool) (o later : Option Text) (t : Text)
    → (o ≡ some t → truthy (some t) ≡ true)
    → (later ≡ some t → truthy (some t) ≡ true)
    → (if c then o else later) ≡ some t
    → truthy (some t) ≡ true
chosen_truthy true o later t h k e = h e
chosen_truthy false o later t h k e = k e

-- What the fragment of the final URL holds is not empty.
sso_fragment-truthy : (s t : Text) → sso_fragment s ≡ some t → truthy (some t) ≡ true
unfolding sso_fragment
sso_fragment-truthy [] t e = cc
sso_fragment-truthy (c ∷ s) t e =
    let rest = sso_fragment-truthy s t in
    chosen_truthy (starts_with (codes "#sso=") (c ∷ s)) _ _ t
      (or_later-truthy (before_amp (drop 5 (c ∷ s))) (sso_fragment s) t rest) rest e

or_token-truthy :
    (o : Option Text) (t : Text) → truthy (some t) ≡ true → truthy (some (or_token o t)) ≡ true
or_token-truthy none t e = e
or_token-truthy (some []) t e = e
or_token-truthy (some (c ∷ s)) t e = refl

and_true : (b : Bool) → b ≡ true → (b && true) ≡ true
and_true b e = ground arith

module _ {N : Type 0} (env : Env N) (identity : Identity N) where
  begin_sso-Kept :
      (token : Text) (s : Option SessionInfo) (w : World N)
      → truthy (some token) ≡ true
      → Inv w
      → Kept (begin_sso env identity token s w)
  unfolding begin_sso
  begin_sso-Kept token none w t i = Inv-Kept _ w i
  begin_sso-Kept token (some s) w t i =
      let usable = or_token-truthy s.token token t in
      if-Kept (not s.encryption_setup) _ _ (Inv-Kept _ w i) (Inv-Kept _ _ (i.0, (usable, usable)))

  take_session-Kept :
      (token : Text) (answer : Option (Answer SessionInfo) × N) (w : World N)
      → truthy (some token) ≡ true
      → Inv w
      → Kept (take_session env identity token answer w)
  unfolding take_session
  take_session-Kept token (none, net) w t i = Inv-Kept _ _ i
  take_session-Kept token (some a, net) w t i =
      if-Kept (not (leb 200 a.status && ltb a.status 300)) _ _ (Inv-Kept _ _ i)
        (begin_sso-Kept token a.body _ t i)

  request-Kept :
      (o : Option Text)
      → DecodesText identity
      → ((t : Text) → o ≡ some t → truthy (some t) ≡ true)
      → (w : World N) → Inv w
      → Kept (continue (decoded_token env identity o, w) (request_session env identity))
  unfolding continue
  request-Kept none d h w i = Inv-Kept _ w i
  request-Kept (some t) d h w i = by_decode (identity.decode t) (λ u e. d t u e (h t refl))
    where
      by_decode :
          (o : Option Text)
          → ((u : Text) → o ≡ some u → truthy (some u) ≡ true)
          → Kept (
              continue
                (elim o [ none ↦ thrown (codes "URIError") | some d ↦ ok (some d) ], w)
                (request_session env identity))
      by_decode none k = Inv-Kept _ w i
      by_decode (some u) k = take_session-Kept u _ w (k u refl) i

  take_url-Kept :
      DecodesText identity
      → (url : Option (Option Text)) (w : World N) → Inv w
      → Kept (take_url env identity url w)
  unfolding take_url
  take_url-Kept d none w i = Inv-Kept _ w i
  take_url-Kept d (some url) w i =
      let text = final_url env identity url in
      request-Kept (sso_fragment text) d (λ t. sso_fragment-truthy text t) w i

  pub sso_start-Kept :
      DecodesText identity
      → (provider : Text) (w : World N) → Inv w
      → Kept (sso_start env identity provider w)
  unfolding sso_start
  sso_start-Kept d provider w i = take_url-Kept d (identity.launch provider w.net).0 _ i

  unlock_with-Kept :
      (token : Text) (key : Key) (private_key : Option Key) (w : World N)
      → truthy (some token) ≡ true
      → Inv w
      → Kept (unlock_with env identity token key private_key w)
  unfolding continue save_session
  unlock_with-Kept token key none w t i = Inv-Kept _ w i
  unlock_with-Kept token key (some p) w t i =
      let on = and_true (truthy (some token)) t in
      continue-Kept (refresh_all_items env _) _ (refresh_all_items-Inv env _ (inl on, (tt, tt)))
        (λ _ u i. Inv-Kept _ u i)

  unlock_sso-Kept :
      (password : Text) (p : Option Sso) (w : World N)
      → Usable p
      → Inv w
      → Kept (unlock_sso env identity password p w)
  unlock_sso-Kept password none w u i = Inv-Kept _ w i
  unlock_sso-Kept password (some p) w u i = unlock_with-Kept p.token _ _ w u i

  first_sso-Usable :
      (p stored : Option Sso) → Usable p → Usable stored → Usable (first_sso p stored)
  first_sso-Usable none stored u v = v
  first_sso-Usable (some p) stored u v = u

  pub sso_unlock-Kept :
      (password : Text) (w : World N) → Inv w → Kept (sso_unlock env identity password w)
  unfolding sso_unlock continue
  sso_unlock-Kept password w i =
      let usable = first_sso-Usable w.memory.pending_sso w.session.pending_sso i.1.0 i.1.1 in
      unlock_sso-Kept password (first_sso w.memory.pending_sso w.session.pending_sso) _ usable
        (i.0, (usable, i.1.1))
