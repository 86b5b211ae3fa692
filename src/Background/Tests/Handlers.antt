-- ===== src/Background/Tests/Handlers.antt =====
-- Runs of single handlers of extension/background.js on an unlocked worker.
use maspassword.Base.{
  ℕ, ◌+◌, All, trim, split, join, arith, ◌≡◌, refl, true, false, none, some, [], ◌∷◌, ◌++◌, Text,
  codes, replicate,
}
use maspassword.Domain.{multi_part_suffixes, domains_match, registrable_domain, registrable_of}
use maspassword.WebAuthn.{build_auth_data, normal_name, rp_id_valid_for, raw_sig_to_der}
use maspassword.Background.{Passkey, Item, Sso, PendingSave, Memory, fresh, cleared, World}
use maspassword.Background.Monad.{ok, thrown, continue}
use maspassword.Background.Session.{logged_in, take_answer, api, restore_session, save_session}
use maspassword.Background.Items.{
  vault_key, refresh_all_items, ensure_items_cache, filter_items, match_items, save_new_item,
}
use maspassword.Background.Pending.{
  StageMessage, staged, offer_of, created, Offer, stage_among, stage_in_tab, stage_pending_save,
  check_entry, check_pending_save, commit_entry, commit_pending_save, create_login, save_entry,
  staged_in, unstage, stage,
}
use maspassword.Background.Passkeys.{
  Candidate, Assertion, candidates, assertion, sender_origin, resolve_rp_id, enter,
  passkey_items_for, list_candidates, passkey_candidates, sign_with, assert_item, passkey_assert,
}
use maspassword.Background.Unlock.{sso_unlock}
use maspassword.Background.Session.Restart.{holding, restore_session-save_session}
use maspassword.Background.Items.Settled.{ensure_items_cache-refresh_all_items}
use maspassword.Background.Pending.Offers.{
  Offerable, check_pending_save_sound, check_pending_save-stage,
}
use maspassword.Background.Pending.Commits.{commit_pending_save_once}
use maspassword.Background.Passkeys.Origin.{Granted}
use maspassword.Background.Passkeys.Scope.{Held, passkey_candidates_scoped}
use maspassword.Background.Passkeys.Assertions.{Asserted, Chosen, passkey_assert_scoped}
use maspassword.Background.Unlock.Password.{Outcome, sso_unlock_lem}
use maspassword.Background.Tests.{
  Server, own_vault, login_data, env, identity, signer, page, installed_world,
}

abbrev own_item : Item
own_item = record {
  vault_id = codes "v";
  item_id = some (codes "i");
  version = some 1;
  contents = login_data (codes "secret");
}

abbrev unlocked_memory : Memory
unlocked_memory = record {
  token = some (codes "tok");
  enc_key = some (codes "pwe");
  private_key = some (codes "rsa");
  vaults = own_vault ∷ [];
  vault_keys = [];
  items = own_item ∷ [];
  cache_primed = true;
  pending_sso = none;
}

abbrev open_world : World Server
open_world = record installed_world { memory = unlocked_memory }

abbrev captured : StageMessage
captured = record {
  username = some (codes " bob ");
  password = some (codes "new");
  url = some (codes "https://a.org");
  site = some (codes "a");
}

abbrev after_capture : World Server
after_capture = (stage_pending_save env captured (some 7) open_world).1

captured_staged : stage_pending_save env captured (some 7) open_world ≡ (ok staged, after_capture)
unfolding stage_pending_save stage_in_tab stage_among ensure_items_cache continue match_items
    filter_items domains_match registrable_domain registrable_of stage unstage trim split
captured_staged = refl

captured_unlocked : logged_in after_capture ≡ true
unfolding stage_pending_save stage_in_tab stage_among ensure_items_cache continue match_items
    filter_items domains_match registrable_domain registrable_of stage unstage trim split
captured_unlocked = refl

same_site :
    domains_match env.lower env.host_of (codes "https://a.org") (codes "https://a.org") ≡ true
unfolding domains_match registrable_domain registrable_of trim split
same_site = refl

check_pending_save-stage_example :
    (o : Offer) × (check_pending_save env page
        (some 7)
        (record after_capture { now = after_capture.now + 60000 })
      ≡ (ok (some o), record after_capture { now = after_capture.now + 60000 }))
    × (o.username ≡ trim (codes " bob "))
    × (o.site ≡ codes "a")
check_pending_save-stage_example =
    check_pending_save-stage env captured 7 60000 page open_world after_capture captured_staged
      captured_unlocked (omega arith) same_site

abbrev bob : PendingSave
bob = record {
  username = codes "bob";
  password = codes "new";
  url = codes "https://a.org";
  site = codes "a";
  at = 1000;
  is_update = false;
  item_id = none;
  title = [];
}

abbrev with_bob : World Server
with_bob = record open_world { session = record cleared { pending_saves = (7, bob) ∷ [] } }

bob_offered :
    check_pending_save env page (some 7) with_bob ≡ (ok (some (offer_of env bob)), with_bob)
unfolding check_pending_save check_entry staged_in domains_match registrable_domain registrable_of
    trim split
bob_offered = refl

check_pending_save_sound_example :
    (t : ℕ) × (p : PendingSave) × (some 7 ≡ some t)
    × (staged_in t with_bob.session.pending_saves ≡ some p)
    × (offer_of env bob ≡ offer_of env p)
    × Offerable env page.url with_bob p
    × (with_bob ≡ with_bob)
check_pending_save_sound_example =
    check_pending_save_sound env page (some 7) with_bob with_bob (offer_of env bob) bob_offered

abbrev saved : World Server
saved = (commit_pending_save env none (some 7) with_bob).1

bob_created : commit_pending_save env none (some 7) with_bob ≡ (ok created, saved)
unfolding commit_pending_save commit_entry ensure_items_cache continue staged_in unstage save_entry
    create_login save_new_item vault_key api take_answer
bob_created = refl

commit_pending_save_once_example :
    commit_pending_save env (some (codes "v")) (some 7) saved
    ≡ (thrown (codes "Nothing to save"), saved)
commit_pending_save_once_example =
    commit_pending_save_once env 7 none (some (codes "v")) with_bob saved created bob_created

abbrev ann : Candidate
ann = record {
  item_id = some (codes "i");
  title = codes "A";
  user_name = codes "ann";
  credential_id = codes "id";
}

ann_listed :
    passkey_candidates env (some (codes "a.org")) [] page open_world
    ≡ (ok (candidates (codes "a.org") (ann ∷ [])), open_world)
unfolding passkey_candidates enter continue sender_origin ensure_items_cache resolve_rp_id
    rp_id_valid_for registrable_domain registrable_of passkey_items_for filter_items list_candidates
    normal_name trim split join multi_part_suffixes
ann_listed = refl

passkey_candidates_scoped_example :
    ((origin : Text) × Granted env page open_world origin (codes "a.org"))
    × All (Held [] (codes "a.org") open_world.memory.items) (ann ∷ [])
passkey_candidates_scoped_example =
    passkey_candidates_scoped env (some (codes "a.org")) [] page open_world open_world
      (codes "a.org") (ann ∷ []) ann_listed

abbrev ann_assertion : Assertion
ann_assertion = record {
  credential_id = codes "id";
  client_data_json = codes "chalhttps://login.a.org";
  authenticator_data = build_auth_data (codes "a.org") 0x1d none;
  signature = 0x30 ∷ 68 ∷ 2 ∷ 32 ∷ replicate 32 1 ++ 2 ∷ 32 ∷ replicate 32 1;
  user_handle = some (codes "u");
}

ann_asserts :
    passkey_assert env signer (some (codes "a.org")) (codes "i") (codes "chal") page open_world
    ≡ (ok (assertion ann_assertion), open_world)
unfolding passkey_assert enter continue sender_origin ensure_items_cache resolve_rp_id
    rp_id_valid_for registrable_domain registrable_of assert_item sign_with raw_sig_to_der
    normal_name trim split join multi_part_suffixes
ann_asserts = refl

passkey_assert_scoped_example :
    (origin : Text) × (rp : Text) × (pk : Passkey) × Granted env page open_world origin rp
    × Chosen env signer (codes "i") open_world.memory.items pk
    × Asserted env signer origin rp (codes "chal") pk ann_assertion
passkey_assert_scoped_example =
    passkey_assert_scoped env signer (some (codes "a.org")) (codes "i") (codes "chal") page
      open_world open_world ann_assertion ann_asserts

restore_session-save_session_example :
    (s : World Server) × (save_session env (record installed_world {
      memory = holding env (codes "tok") (codes "pwe") (codes "rsa") fresh;
    })
      ≡ (ok tt, s))
    × (restore_session env (record s { memory = fresh }) ≡ (
      ok tt,
      record s {
        memory = record (holding env (codes "tok") (codes "pwe") (codes "rsa") fresh) {
          pending_sso = none;
        };
      },
    ))
restore_session-save_session_example =
    restore_session-save_session env _ (codes "ok") (codes "pwe") (codes "rsa") installed_world
      (refl, refl, refl, refl)

abbrev asked : Sso
asked = record {
  token = codes "tok";
  email = codes "e";
  encrypted_private_key = codes "pwe" ++ 2 ∷ codes "rsa";
}

sso_unlock_lem_example :
    Outcome env identity
      (codes "no")
      (record installed_world { session = record cleared { pending_sso = some asked } })
      (some asked)
      (sso_unlock env identity
        (codes "no")
        (record installed_world { session = record cleared { pending_sso = some asked } }))
sso_unlock_lem_example =
    sso_unlock_lem env identity (codes "no")
      (record installed_world { session = record cleared { pending_sso = some asked } })

ensure_items_cache-refresh_all_items_example :
    ensure_items_cache env (refresh_all_items env (record open_world { net = none })).1
    ≡ (ok tt, (refresh_all_items env (record open_world { net = none })).1)
ensure_items_cache-refresh_all_items_example =
    ensure_items_cache-refresh_all_items env (record open_world { net = none })
