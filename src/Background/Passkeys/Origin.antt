-- ===== src/Background/Passkeys/Origin.antt =====
-- What the passkey handlers of extension/background.js establish before they serve an RP ID.
use maspassword.Base.{
  ◌≡◌, refl, ap, ◌∙◌, Bool, true, false, if◌then◌else◌, Option, none, some, Text,
}
use maspassword.WebAuthn.{rp_id_valid_for}
use maspassword.Background.{World, Env}
use maspassword.Background.Monad.{ok, continue, or_throw, continue-ok}
use maspassword.Background.Session.{logged_in}
use maspassword.Background.Items.{ensure_items_cache}
use maspassword.Background.Pending.{Sender}
use maspassword.Background.Passkeys.{
  locked, open_for, sender_origin, resolve_rp_id, resolved, gate_for, gate_of, enter, or_text,
}

module _ {N : Type 0} (env : Env N) where
  -- What must hold before an RP ID is served.
  abbrev pub Granted : Sender → World N → Text → Text → Type 0
  Granted sender w origin rp =
      (logged_in w ≡ true)
      × (sender_origin env sender ≡ ok (some origin))
      × (host : Text) × (env.host_of origin ≡ some host)
      × (rp_id_valid_for env.lower host rp ≡ true)

  resolved_valid :
      (origin host o rp : Text) (requested : Option Text)
      → resolved env origin (resolve_rp_id env host requested) ≡ open_for o rp
      → (rp_id_valid_for env.lower host rp ≡ true) × (origin ≡ o)
  unfolding resolve_rp_id
  resolved_valid origin host o rp requested e =
      by_test (or_text requested host) (rp_id_valid_for env.lower host (or_text requested host))
        refl e
    where
      by_test :
          (r : Text) (b : Bool)
          → rp_id_valid_for env.lower host r ≡ b
          → resolved env origin (if b then some r else none) ≡ open_for o rp
          → (rp_id_valid_for env.lower host rp ≡ true) × (origin ≡ o)
      by_test r true v e = (cc, cc)
      by_test r false v e = cc

  named_valid :
      (origin o rp : Text) (found requested : Option Text) (m : Text) (w v : World N)
      → env.host_of origin ≡ found
      → continue
          (or_throw found m w)
          (λ h w. (ok (resolved env origin (resolve_rp_id env h requested)), w))
        ≡ (ok (open_for o rp), v)
      → (origin ≡ o)
        × (host : Text) × (env.host_of o ≡ some host)
        × (rp_id_valid_for env.lower host rp ≡ true)
  unfolding continue
  named_valid origin o rp none requested m w v h e = cc
  named_valid origin o rp (some host) requested m w v h e =
      let (valid, same) = resolved_valid origin host o rp requested cc in (same, host, cc, valid)

  gate_of_valid :
      (origin requested : Option Text) (o rp : Text) (w v : World N)
      → gate_of env origin requested w ≡ (ok (open_for o rp), v)
      → (logged_in w ≡ true)
        × (origin ≡ some o)
        × (host : Text) × (env.host_of o ≡ some host)
        × (rp_id_valid_for env.lower host rp ≡ true)
  gate_of_valid none requested o rp w v e = cc
  gate_of_valid (some origin) requested o rp w v e = by_test (logged_in w) refl e
    where
      by_test :
          (b : Bool)
          → logged_in w ≡ b
          → (if b then gate_for env origin requested w else (ok locked, w))
            ≡ (ok (open_for o rp), v)
          → (logged_in w ≡ true)
            × (some origin ≡ some o)
            × (host : Text) × (env.host_of o ≡ some host)
            × (rp_id_valid_for env.lower host rp ≡ true)
      by_test false l e = cc
      by_test true l e =
          let (_, u, _, after) = continue-ok (ensure_items_cache env w) _ _ _ e in
          let (same, host, found, valid) =
            named_valid origin o rp (env.host_of origin) requested _ u v refl after in
          (l, ap some same, host, found, valid)

  pub enter-Granted :
      (sender : Sender) (requested : Option Text) (o rp : Text) (w v : World N)
      → enter env sender requested w ≡ (ok (open_for o rp), v)
      → Granted sender w o rp
  unfolding enter
  enter-Granted sender requested o rp w v e =
      let (origin, u, first, after) = continue-ok (sender_origin env sender, w) _ _ _ e in
      let (l, same, host, found, valid) = gate_of_valid origin requested o rp u v after in
      (ap logged_in (ap (λ p. p.1) first) ∙ l, ap (λ p. p.0) first ∙ ap ok same, host, found, valid)
