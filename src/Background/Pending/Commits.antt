-- ===== src/Background/Pending/Commits.antt =====
-- A staged entry of extension/background.js is saved at most once.
use mathlib.Core.Path.{subst}
use maspassword.Base.{ℕ, ◌≡◌, refl, ap, not, Option, none, some, List, [], ◌∷◌, Text, codes, arith}
use maspassword.Background.{PendingSave, Storage, cleared, World, Env}
use maspassword.Background.Monad.{ok, thrown, continue, throw_if, continue-ok}
use maspassword.Background.Session.{logged_in}
use maspassword.Background.Items.{ensure_items_cache}
use maspassword.Background.Items.Stored.{
  Stored, stored, of_stored, continue-Stored, or_throw-Stored, save_new_item-Stored,
  update_item_password-Stored,
}
use maspassword.Background.Pending.{
  Pending, CommitReply, staged_in, unstage, updates, chosen_vault, create_login, save_entry,
  commit_entry, commit_pending_save,
}

staged_in-unstage :
    (tab : ℕ) (pending : List (ℕ × PendingSave)) → staged_in tab (unstage tab pending) ≡ none
unfolding staged_in unstage
staged_in-unstage tab [] = refl
staged_in-unstage tab ((t, p) ∷ pending) = ground (arith, staged_in-unstage tab pending)

-- The tab has no entry.
abbrev Gone : ℕ → Storage → Type 0
Gone tab s = staged_in tab s.pending_saves ≡ none

cleared-Gone : (tab : ℕ) → Gone tab cleared
unfolding staged_in
cleared-Gone tab = refl

module _ {N : Type 0} (env : Env N) where
  save_entry-Gone :
      (tab : ℕ) (asked : Option Text) (p : PendingSave) (item : Option Text) (w : World N)
      → Gone tab w.session
      → Stored (Gone tab) (cleared-Gone tab) (save_entry env asked p item w)
  unfolding save_entry create_login continue
  save_entry-Gone tab asked p (some id) w g =
      continue-Stored (Gone tab) (cleared-Gone tab) _ _
        (update_item_password-Stored (Gone tab) (cleared-Gone tab) env id p.password w g)
        (λ _ u g. stored (Gone tab) (cleared-Gone tab) _ u g)
  save_entry-Gone tab asked p none w g =
      continue-Stored (Gone tab) (cleared-Gone tab) _ _
        (or_throw-Stored (Gone tab) (cleared-Gone tab) (chosen_vault env asked w.memory.vaults) _ w
          g)
        (λ id u g.
          continue-Stored (Gone tab) (cleared-Gone tab) _ _
            (save_new_item-Stored (Gone tab) (cleared-Gone tab) env id _ u g)
            (λ _ t g. stored (Gone tab) (cleared-Gone tab) _ t g))

  commit_entry-Gone :
      (tab : ℕ) (asked : Option Text) (pending : Pending) (o : Option PendingSave) (w v : World N)
      (r : CommitReply)
      → commit_entry env asked tab pending o w ≡ (ok r, v)
      → Gone tab v.session
  unfolding commit_entry continue
  commit_entry-Gone tab asked pending none w v r e = cc
  commit_entry-Gone tab asked pending (some p) w v r e =
      let (_, w1, _, cached) = continue-ok (throw_if (not (logged_in w)) _ w) _ _ _ e in
      let (_, w2, _, removed) = continue-ok (ensure_items_cache env w1) _ _ _ cached in
      let u = record w2 { session = record w2.session { pending_saves = unstage tab pending } } in
      subst (λ q. Gone tab q.1.session) removed
        (of_stored (Gone tab) (cleared-Gone tab) (save_entry env asked p (updates env p) u)
          (save_entry-Gone tab asked p (updates env p) u (staged_in-unstage tab pending)))

  -- after a commit that succeeds, a second one from the same tab saves nothing: it has nothing to save.
  pub commit_pending_save_once :
      (tab : ℕ) (asked again : Option Text) (w v : World N) (r : CommitReply)
      → commit_pending_save env asked (some tab) w ≡ (ok r, v)
      → commit_pending_save env again (some tab) v ≡ (thrown (codes "Nothing to save"), v)
  unfolding commit_pending_save commit_entry
  commit_pending_save_once tab asked again w v r e =
      ap (λ o. commit_entry env again tab v.session.pending_saves o v)
        (commit_entry-Gone tab asked w.session.pending_saves (staged_in tab w.session.pending_saves)
          w v r e)
