-- ===== src/Background/Tests.antt =====
-- Runs of the worker of extension/background.js, with a server that is up, unreachable, or has ended
-- the session.
mod Handlers
use maspassword.Base.{
  ℕ, suc, ◌+◌, All, trim, split, join, arith, ◌≡◌, refl, Bool, true, false, Option, none, some,
  List, [], ◌∷◌, ◌++◌, Text, codes, starts_with, drop, length, replicate, if◌then◌else◌, ◌==◌,
}
use maspassword.Domain.{
  multi_part_suffixes, domains_match, registrable_domain, registrable_of, normal_host,
}
use maspassword.WebAuthn.{normal_name, rp_id_valid_for, valid_suffix, raw_sig_to_der}
use maspassword.Background.{
  Key, Passkey, ItemData, Item, Vault, Sso, PendingSave, Memory, fresh, Storage, cleared, World,
  Answer, StoredItem, Saved, Env,
}
use maspassword.Background.Monad.{Result, ok, thrown, continue, recover}
use maspassword.Background.Session.{
  logged_in, take_answer, api, restore_session, import_enc_key, import_private_key, save_session,
  decrypt_private_key,
}
use maspassword.Background.Items.{
  vault_key, decrypt_item, decrypt_items, load_vaults, refresh_logged_in, refresh_all_items,
  ensure_items_cache, filter_items, match_items, save_new_item, change_item, update_item_password,
  shared_key, request_key,
}
use maspassword.Background.Pending.{
  Sender, StageMessage, staged, offer_of, created, Offer, stage_among, stage_in_tab,
  stage_pending_save, check_entry, check_pending_save, commit_entry, commit_pending_save,
  create_login, save_entry, staged_in, unstage, stage,
}
use maspassword.Background.Passkeys.{
  Signer, Candidate, Assertion, candidates, assertion, sender_origin, resolve_rp_id, enter,
  passkey_items_for, list_candidates, passkey_candidates, sign_with, assert_item, passkey_assert,
}
use maspassword.Background.Unlock.{
  Identity, SessionInfo, sso_fragment, begin_sso, take_session, take_url, sso_start, sso_unlock,
}
use maspassword.Background.Login.{Srp, take_login, login}
use maspassword.Background.Login.Locked.{GrantsToken}
use maspassword.Background.Registration.{
  Registrar, RegisterMessage, any_excluded, replaceable, replace_passkey, reply_with, register_for,
  register_at, passkey_register,
}
use maspassword.Background.Events.{
  Message, login_message, register_message, sso_start_message, sso_unlock_message, refresh_items,
  dispatch, handle_message, Reach, installed, next, message, changed,
}
use maspassword.Background.Events.Locked.{Reach-locked_empty}
use maspassword.Background.Session.Restart.{Reads, holding, restore_session-save_session}
use maspassword.Background.Pending.Offers.{
  Offerable, check_pending_save_sound, check_pending_save-stage,
}
use maspassword.Background.Pending.Commits.{commit_pending_save_once}
use maspassword.Background.Passkeys.Origin.{Granted}
use maspassword.Background.Passkeys.Scope.{Held, passkey_candidates_scoped}
use maspassword.Background.Passkeys.Assertions.{Asserted, passkey_assert_scoped}
use maspassword.Background.Unlock.Password.{Outcome, sso_unlock_lem}
use maspassword.Background.Unlock.Locked.{DecodesText}

-- A server that is up, has ended the session, or cannot be reached.
abbrev Server : Type 0
Server = Option Bool

abbrev answer : {A : Type 0} → A → Server → Option (Answer A) × Server
answer a none = (none, none)
answer a (some true) = (some (record { status = 200; body = some a; message = none }), some true)
answer a (some false) = (some (record { status = 401; body = none; message = none }), some false)

abbrev https_host : Text → Option Text
https_host t = if starts_with (codes "https://") t then some (drop 8 t) else none

-- What stands behind a key.
abbrev opened : Key → Text → Option Text
opened key t = if starts_with key t then some (drop (length key) t) else none

abbrev tagged : ℕ → Text → Option Key
tagged n [] = none
tagged n (c ∷ t) = if c == n then some t else none

abbrev passkey : Passkey
passkey = record {
  rp_id = codes "a.org";
  credential_id = codes "id";
  user_handle = codes "u";
  user_name = codes "ann";
  user_display_name = [];
  private_key = some (codes "k");
  created_at = 0;
}

abbrev login_data : Text → ItemData
login_data t = record {
  type = some (codes "login");
  title = some (codes "A");
  username = some (codes "ann");
  password = some t;
  url = some (codes "https://a.org");
  notes = none;
  pw_changed_at = none;
  passkey = some passkey;
  others = [];
}

abbrev own_vault : Vault
own_vault = record { id = codes "v"; team_id = none; name_encrypted = [] }

abbrev env : Env Server
env = record {
  lower = λ t. t;
  host_of = https_host;
  origin_of = some;
  derive_key = λ password email. password ++ email;
  export_key = λ k. 1 ∷ k;
  import_key = tagged 1;
  export_rsa = λ k. 2 ∷ k;
  import_rsa = tagged 2;
  encrypt = λ n key t. key ++ t;
  decrypt = opened;
  rsa_decrypt = opened;
  stringify = λ d. [];
  parse = λ t. some (login_data t);
  get_vaults = λ token. answer (own_vault ∷ []);
  get_vault_key = λ id token. answer [];
  get_items = λ id token.
      answer (
        record { id = codes "i"; version = 1; data_encrypted = codes "pwe" ++ codes "secret" }
        ∷ []);
  post_item = λ id contents token. answer (record { id = some (codes "j"); version = some 1 });
  put_item = λ id item contents version token. answer (record { id = none; version = some 2 });
}

abbrev identity : Identity Server
identity = record {
  launch = λ provider n. (some (some (codes "x#sso=tok&y")), n);
  decode = some;
  get_session = λ token. answer (record {
    token = none;
    email = codes "e";
    encryption_setup = true;
    encrypted_private_key = codes "pwe" ++ 2 ∷ codes "rsa";
  });
}

abbrev signer : Signer
signer = record {
  sha256 = λ b. b;
  sign = λ key bytes. some (replicate 64 1);
  utf8 = λ t. t;
  client_data = λ type challenge origin. challenge ++ origin;
}

-- The proof is the challenge of the server.
abbrev srp : Srp Server
srp = record {
  srp_login = λ n email password. record {
    credentials = email;
    generate = λ public. some (record { proof = public; verify = λ proof. true });
  };
  step1 = λ email credentials token.
      answer (record { session_id = codes "s"; server_public = codes "p" });
  step2 = λ id proof token. answer (record {
    server_proof = [];
    token = some (codes "tok");
    encrypted_private_key = some (codes "pwe" ++ 2 ∷ codes "rsa");
  });
}

abbrev registrar : Registrar Server
registrar = record {
  generate_passkey_keypair =
      λ n. record { private_key = codes "new"; x = replicate 32 3; y = replicate 32 4 };
  random_credential_id = λ n. replicate 16 5;
  b64url_encode = λ b. b;
  spki = λ key. key;
}

abbrev page : Sender
page = record {
  tab_id = some 7;
  url = some (codes "https://a.org");
  origin = some (codes "https://login.a.org");
}

abbrev installed_world : World Server
installed_world = record { memory = fresh; session = cleared; now = 1000; net = some true }

abbrev send : Message → World Server → World Server
send msg w = (handle_message env identity signer srp registrar msg page w).1

abbrev entered : World Server
entered =
    send (sso_unlock_message (codes "pw")) (send (sso_start_message (codes "g")) installed_world)

abbrev ended : World Server
ended = send refresh_items (record entered { net = some false })

-- The login fills the cache; the answer 401 locks the worker again.
session_runs :
    (logged_in entered ≡ true) × (length entered.memory.items ≡ 1) × (logged_in ended ≡ false)
unfolding handle_message dispatch continue recover restore_session import_enc_key import_private_key
    take_url sso_start sso_fragment take_session begin_sso sso_unlock decrypt_private_key
    save_session refresh_all_items refresh_logged_in api take_answer load_vaults vault_key
    decrypt_items decrypt_item
session_runs = (refl, refl, refl)

-- A login with a password fills the cache as well, and a registration replaces the passkey of the same
-- user.
abbrev by_password : World Server
by_password = send (login_message (codes "e") (codes "pw")) installed_world

abbrev registration : RegisterMessage
registration = record {
  rp = some (codes "a.org");
  rp_name = none;
  exclude = [];
  user_handle = some (codes "u");
  user_name = some (codes "ann");
  user_display_name = none;
  vault_id = none;
  challenge = codes "c";
}

login_runs : (logged_in by_password ≡ true) × (length by_password.memory.items ≡ 1)
unfolding handle_message dispatch continue recover restore_session import_enc_key import_private_key
    login take_login decrypt_private_key save_session refresh_all_items refresh_logged_in api
    take_answer load_vaults vault_key decrypt_items decrypt_item
login_runs = (refl, refl)

registration_runs : length (send (register_message registration) by_password).memory.items ≡ 1
unfolding handle_message dispatch continue recover restore_session import_enc_key import_private_key
    login take_login decrypt_private_key save_session refresh_all_items refresh_logged_in api
    take_answer load_vaults vault_key decrypt_items decrypt_item passkey_register register_at
    register_for replace_passkey any_excluded replaceable reply_with enter sender_origin
    resolve_rp_id passkey_items_for filter_items ensure_items_cache rp_id_valid_for normal_name
    registrable_domain trim split multi_part_suffixes join maspassword.WebAuthn.cose_ec2_key
    maspassword.WebAuthn.cbor_encode maspassword.WebAuthn.cbor_head
    maspassword.WebAuthn.build_attestation_object maspassword.WebAuthn.build_auth_data
    maspassword.WebAuthn.build_attested_credential_data
registration_runs = refl

grants : GrantsToken env srp
grants id proof token none m a g e b = cc
grants id proof token (some true) m a g e b = cc
grants id proof token (some false) m a g e b = cc

decodes : DecodesText identity
decodes t d e h = cc

ended_reached : Reach env identity signer srp registrar ended
ended_reached =
    next
      (next
        (next
          (next (installed (some true) 1000)
            (message installed_world (sso_start_message (codes "g")) page))
          (message (send (sso_start_message (codes "g")) installed_world)
            (sso_unlock_message (codes "pw")) page))
        (changed entered (some false)))
      (message (record entered { net = some false }) refresh_items page)

Reach-locked_empty_example : ended.memory.items ≡ []
Reach-locked_empty_example =
    Reach-locked_empty env identity signer srp registrar decodes grants ended ended_reached
      session_runs.2
