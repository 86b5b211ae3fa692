-- ===== src/Background/Pending/Offers.antt =====
-- What extension/background.js offers to save, and where.
use mathlib.Core.Path.{subst}
use maspassword.Base.{
  ℕ, ◌+◌, ◌-◌, ◌≤◌, ◌≡◌, refl, sym, ap, ◌∙◌, Bool, true, false, ◌||◌, not, ==_refl, ltb,
  if◌then◌else◌, Option, none, some, List, Text, trim, arith,
}
use maspassword.Item.{truthy}
use maspassword.Domain.{domains_match}
use maspassword.Background.{Item, PendingSave, World, Env}
use maspassword.Background.Monad.{Result, ok, continue, continue-ok}
use maspassword.Background.Session.{logged_in, is_some}
use maspassword.Background.Items.{ensure_items_cache, match_items}
use maspassword.Background.Pending.{
  Sender, StageMessage, StageReply, staged, known, refused, Offer, Pending, staged_in, unstage,
  stage, pending_ttl, or_empty, find_first, is_exact, entry_for, updatable, stage_among,
  stage_in_tab, stage_pending_save, offer_of, check_entry, check_pending_save,
}

offer_injective : (o p : Offer) → ok (some o) ≡ ok (some p) → o ≡ p
offer_injective o p e = cc

module _ {N : Type 0} (env : Env N) where
  -- An entry that may be offered on a page.
  abbrev pub Offerable : Option Text → World N → PendingSave → Type 0
  Offerable url w p =
      (logged_in w ≡ true)
      × (w.now ≤ p.at + pending_ttl)
      × (domains_match env.lower env.host_of (or_empty url) p.url ≡ true)

  abbrev with_pending : Pending → World N → World N
  with_pending p w = record w { session = record w.session { pending_saves = p } }

  check_entry_sound :
      (tab : ℕ) (url : Option Text) (e : Option PendingSave) (w v : World N) (o : Offer)
      → check_entry env tab url e w ≡ (ok (some o), v)
      → (p : PendingSave) × (e ≡ some p) × (o ≡ offer_of env p) × Offerable url w p × (v ≡ w)
  unfolding check_entry
  check_entry_sound tab url none w v o e = cc
  check_entry_sound tab url (some p) w v o e =
      by_tests (ltb pending_ttl (w.now - p.at)) (logged_in w)
        (domains_match env.lower env.host_of (or_empty url) p.url) refl refl refl e
    where
      by_tests :
          (late on same : Bool)
          → ltb pending_ttl (w.now - p.at) ≡ late
          → logged_in w ≡ on
          → domains_match env.lower env.host_of (or_empty url) p.url ≡ same
          → ◌≡◌ {A = Result (Option Offer) × World N}
              (if late || not on
                then (ok none, with_pending (unstage tab w.session.pending_saves) w)
                else if not same
                then (ok none, w)
                else (ok (some (offer_of env p)), w))
              (ok (some o), v)
          → (q : PendingSave) × (some p ≡ some q)
            × (o ≡ offer_of env q)
            × Offerable url w q
            × (v ≡ w)
      by_tests true on same a b c e = cc
      by_tests false false same a b c e = cc
      by_tests false true false a b c e = cc
      by_tests false true true a b c e = (
        p,
        refl,
        sym (offer_injective _ _ (ap (λ q. q.0) e)),
        (b, ground arith, c),
        sym (ap (λ q. q.1) e),
      )

  -- if checkPendingSave offers something then it is an entry that was staged for the tab of the sender, at most 60 seconds old, the worker is unlocked, the page of the sender has the registrable domain of the page where the entry was staged, and nothing is changed.
  pub check_pending_save_sound :
      (sender : Sender) (tab : Option ℕ) (w v : World N) (o : Offer)
      → check_pending_save env sender tab w ≡ (ok (some o), v)
      → (t : ℕ) × (p : PendingSave) × (tab ≡ some t)
        × (staged_in t w.session.pending_saves ≡ some p)
        × (o ≡ offer_of env p)
        × Offerable sender.url w p
        × (v ≡ w)
  unfolding check_pending_save
  check_pending_save_sound sender none w v o e = cc
  check_pending_save_sound sender (some t) w v o e =
      let (p, found, same, may, kept) =
        check_entry_sound t sender.url (staged_in t w.session.pending_saves) w v o e in
      (t, p, refl, found, same, may, kept)

  check_entry-Offerable :
      (tab : ℕ) (url : Option Text) (p : PendingSave) (w : World N)
      → Offerable url w p
      → check_entry env tab url (some p) w ≡ (ok (some (offer_of env p)), w)
  unfolding check_entry
  check_entry-Offerable tab url p w (on, young, same) = rw on (rw same (rw (not_late young) refl))
    where
      not_late : w.now ≤ p.at + pending_ttl → ltb pending_ttl (w.now - p.at) ≡ false
      not_late h = ground arith

  stage_among_entry :
      (tab : ℕ) (username password : Text) (msg : StageMessage) (matches : List Item)
      (w u : World N)
      → stage_among env tab username password msg matches w ≡ (ok staged, u)
      → (i : Option Item) × (staged_in tab u.session.pending_saves
          ≡ some (entry_for username password msg u.now i))
  unfolding stage_among stage staged_in
  stage_among_entry tab username password msg matches w u e =
      by_test (is_some (find_first (is_exact username password) matches)) e
    where
      item : Option Item
      item = updatable username password matches

      entry : ℕ → PendingSave
      entry at = entry_for username password msg at item

      by_test :
          (b : Bool)
          → ◌≡◌ {A = Result StageReply × World N}
              (if b
                then (ok known, with_pending (unstage tab w.session.pending_saves) w)
                else (ok staged, with_pending (stage tab (entry w.now) w.session.pending_saves) w))
              (ok staged, u)
          → (i : Option Item) × (staged_in tab u.session.pending_saves
              ≡ some (entry_for username password msg u.now i))
      by_test true e = cc
      by_test false e =
          let same = ap (λ q. q.1) e in
          (
            item,
            subst (λ v. staged_in tab v.session.pending_saves ≡ some (entry v.now)) same
                (rw (==_refl tab) refl),
          )

  stage_in_tab_entry :
      (tab : ℕ) (msg : StageMessage) (w u : World N)
      → stage_in_tab env tab msg w ≡ (ok staged, u)
      → (i : Option Item) × (staged_in tab u.session.pending_saves
          ≡ some (entry_for (trim (or_empty msg.username)) (or_empty msg.password) msg u.now i))
  unfolding stage_in_tab continue
  stage_in_tab_entry tab msg w u e = by_test (not (logged_in w) || not (truthy msg.password)) e
    where
      by_test :
          (b : Bool)
          → ◌≡◌ {A = Result StageReply × World N}
              (if b
                then (ok refused, w)
                else continue (ensure_items_cache env w) (λ _ v.
                  stage_among env tab
                    (trim (or_empty msg.username))
                    (or_empty msg.password)
                    msg
                    (match_items env msg.url v.memory.items)
                    v))
              (ok staged, u)
          → (i : Option Item) × (staged_in tab u.session.pending_saves
              ≡ some (entry_for (trim (or_empty msg.username)) (or_empty msg.password) msg u.now i))
      by_test true e = cc
      by_test false e =
          let (_, v, _, after) = continue-ok (ensure_items_cache env w) _ _ _ e in
          stage_among_entry tab _ _ msg _ v u after

  entry_for_fields :
      (username password : Text) (msg : StageMessage) (at : ℕ) (i : Option Item)
      → ((entry_for username password msg at i).at ≡ at)
        × ((entry_for username password msg at i).url ≡ or_empty msg.url)
        × ((entry_for username password msg at i).username ≡ username)
        × ((entry_for username password msg at i).site ≡ or_empty msg.site)
  entry_for_fields username password msg at none = (refl, refl, refl, refl)
  entry_for_fields username password msg at (some i) = (refl, refl, refl, refl)

  -- what stagePendingSave keeps for a tab is offered there for 60 seconds, on every page with the registrable domain of the URL of the message, with the trimmed user name and the site of the message, as long as the worker is unlocked.
  pub check_pending_save-stage :
      (msg : StageMessage) (tab ms : ℕ) (sender : Sender) (w u : World N)
      → stage_pending_save env msg (some tab) w ≡ (ok staged, u)
      → logged_in u ≡ true
      → ms ≤ pending_ttl
      → domains_match env.lower env.host_of (or_empty sender.url) (or_empty msg.url) ≡ true
      → (o : Offer) × (check_pending_save env sender (some tab) (record u { now = u.now + ms })
          ≡ (ok (some o), record u { now = u.now + ms }))
        × (o.username ≡ trim (or_empty msg.username))
        × (o.site ≡ or_empty msg.site)
  unfolding stage_pending_save check_pending_save
  check_pending_save-stage msg tab ms sender w u e on young same =
      let (i, found) = stage_in_tab_entry tab msg w u e in
      let p = entry_for (trim (or_empty msg.username)) (or_empty msg.password) msg u.now i in
      let later = record u { now = u.now + ms } in
      let (at, url, username, site) =
        entry_for_fields (trim (or_empty msg.username)) (or_empty msg.password) msg u.now i in
      (
        offer_of env p,
        ap (λ o. check_entry env tab sender.url o later) found
            ∙ check_entry-Offerable tab sender.url p later (
              on,
              rw at (omega (arith, young)),
              ap (domains_match env.lower env.host_of (or_empty sender.url)) url ∙ same,
            ),
        username,
        site,
      )
