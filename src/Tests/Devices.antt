-- ===== src/Tests/Devices.antt =====
-- The browser's Olm state with a plain stand-in for Olm and for AES-GCM.
use vortex_reloaded.Base.{
  leb, ◌-◌, ◌+◌, arith, ℕ, String, ◌≡◌, refl, true, false, List, [], ◌∷◌, none, some, str_eq,
  if◌then◌else◌,
}
use vortex_reloaded.Base.Dict.{lookup, insert}
use vortex_reloaded.Web.OlmProtocol.{
  Olm, OlmTarget, OlmKeyBundle, OlmCiphertext, PinnedIdentity, decrypt_message, same_identity,
  target_key, verify_key_bundle_signature,
}
use vortex_reloaded.Web.OlmStore.{
  unwrap_pickle, wrap_pickle, Wrapping, Browser, Fresh, save_own_plaintext, get_or_create_wrap_key,
  load_account, load_session, save_account, save_session, check_and_pin_identity,
  get_pinned_identity, pin_identity, load_own_plaintext,
}
use vortex_reloaded.Web.OlmStore.Calls.{
  Request, identity, outbound, decrypt, save_text, run, ensure_olm_identity,
  ensure_outbound_session, decrypt_from,
}
use vortex_reloaded.Web.OlmStore.Owners.{ensure_olm_identity-foreign}
use vortex_reloaded.Web.OlmStore.Outbound.{ensure_outbound_session-untrusted}
use vortex_reloaded.Web.OlmStore.Pins.{run-pinned}
use vortex_reloaded.Web.OlmStore.Plaintexts.{load-run-save}

abbrev keys : String → PinnedIdentity
keys name = record { curve25519_identity_key = name; ed25519_identity_key = name }

-- A signature is the key that it is by.
abbrev olm : Olm
olm = record {
  Publish = PinnedIdentity;
  create_identity = λ seed user device. some (user, keys user);
  published_identity = λ p. p;
  identity_keys = λ account. some (keys account);
  one_time_keys = λ seed account user device count. some (account, []);
  ed25519_verify = λ key payload signature. str_eq key signature;
  stringify = λ object. "{}";
  create_outbound = λ seed account identity_key one_time_key. some identity_key;
  encrypt = λ seed session text. some (session, record { is_pre_key = false; body = text });
  matches_inbound = λ session body. true;
  matches_inbound_from = λ key session body. str_eq key session;
  create_inbound = λ account body. some (account, body);
  create_inbound_from = λ key account body. some (account, key);
  decrypt = λ session c. some (session, c.body);
}

-- Bytes are a key with a text.
abbrev boxes : Wrapping
boxes = record {
  Key = ℕ;
  Bytes = ℕ × String;
  encode = λ s. (0, s);
  decode = λ b. some b.1;
  aes_encrypt = λ k iv b. (k + b.0, b.1);
  aes_decrypt = λ k iv b. if leb k b.0 then some (b.0 - k, b.1) else none;
  decode-encode = λ s plain. refl;
  aes_decrypt-encrypt = λ k iv b. ground arith;
}

abbrev fresh : Fresh boxes
fresh = record { key = 7; device_id = "d1"; iv = 0; session_iv = 1; seed = 0 }

abbrev phone : OlmTarget
phone = record { user_id = "bob"; device_id = "phone" }

abbrev bundle_of : (name signature : String) → OlmKeyBundle
bundle_of name signature = record {
  curve25519_identity_key = name;
  ed25519_identity_key = name;
  key_id = "k";
  public_key = "p";
  signature = signature;
  is_fallback = false;
}

abbrev plain : String → OlmCiphertext
plain text = record { is_pre_key = false; body = text }

-- Ann's browser, which has pinned Bob's phone.
abbrev of_ann : Browser boxes
of_ann = record {
  device_id = some "d0";
  owner_user_id = some "ann";
  wrap_key = some 3;
  account = some (record { iv = 0; ciphertext = (3, "ann") });
  sessions = [];
  pinned = ("bob:phone", keys "bob") ∷ [];
  own_plaintext = [];
}

abbrev afternoon : List (Fresh boxes × Request)
afternoon =
    (fresh, identity "ann")
    ∷ (fresh, outbound phone (bundle_of "eve" "eve"))
    ∷ (fresh, outbound phone (bundle_of "bob" "bob"))
    ∷ (fresh, decrypt phone (plain "hi") (some (keys "eve")))
    ∷ (fresh, save_text "m2" "later")
    ∷ []

run-pinned_example : lookup "bob:phone" (run olm boxes afternoon of_ann).pinned ≡ some (keys "bob")
unfolding lookup
run-pinned_example =
    run-pinned olm boxes "ann" "bob:phone" (keys "bob") afternoon of_ann
      (refl, (refl, (refl, (refl, (refl, tt))))) refl refl

load-run-save_example :
    (load_own_plaintext boxes fresh "m1"
      (run olm boxes afternoon (save_own_plaintext boxes fresh "m1" "hello" of_ann).0)).1
    ≡ some (some "hello")
load-run-save_example =
    load-run-save olm boxes "ann" "m1" fresh fresh "hello" afternoon of_ann refl refl
      (refl, (refl, (refl, (refl, (refl, tt)))))

ensure_outbound_session-untrusted_example :
    ((ensure_outbound_session olm boxes fresh phone (bundle_of "eve" "eve") of_ann).1 ≡ none)
    × ((ensure_outbound_session olm boxes fresh phone (bundle_of "eve" "eve") of_ann).0.sessions
        ≡ [])
    × ((ensure_outbound_session olm boxes fresh phone (bundle_of "eve" "eve") of_ann).0.pinned
        ≡ ("bob:phone", keys "bob") ∷ [])
unfolding lookup target_key verify_key_bundle_signature same_identity
ensure_outbound_session-untrusted_example =
    ensure_outbound_session-untrusted olm boxes fresh phone (bundle_of "eve" "eve") of_ann refl refl

abbrev of_dan : Browser boxes
of_dan = record of_ann { owner_user_id = some "dan"; pinned = []; own_plaintext = [] }

ensure_olm_identity-foreign_example :
    let (s, r) = ensure_olm_identity olm boxes fresh "cat" of_ann in
    let (s', r') = ensure_olm_identity olm boxes fresh "cat" of_dan in
    (r ≡ r')
    × (run olm boxes [] s ≡ run olm boxes [] s')
    × (s.sessions ≡ [])
    × (s.pinned ≡ [])
    × (s.own_plaintext ≡ [])
ensure_olm_identity-foreign_example =
    ensure_olm_identity-foreign olm boxes fresh "cat" "ann" "dan" of_ann of_dan [] refl refl refl
      refl

-- A bundle of the pinned identity gives a session.
outbound_test :
    (ensure_outbound_session olm boxes fresh phone (bundle_of "bob" "bob") of_ann).0.sessions
    ≡ ("bob:phone", record { iv = 1; ciphertext = (3, "bob") }) ∷ []
unfolding lookup insert target_key verify_key_bundle_signature same_identity ensure_outbound_session
    get_or_create_wrap_key load_session check_and_pin_identity get_pinned_identity load_account
    unwrap_pickle wrap_pickle save_session
outbound_test = refl

-- With a session but no pin, a message that is no PreKey message pins the hint, which nothing has verified.
abbrev unpinned : Browser boxes
unpinned = record of_ann {
  sessions = ("bob:phone", record { iv = 1; ciphertext = (3, "bob") }) ∷ [];
  pinned = [];
}

hint_test :
    (decrypt_from olm boxes fresh phone (plain "hi") (some (keys "eve")) unpinned).0.pinned
    ≡ ("bob:phone", keys "eve") ∷ []
unfolding lookup insert target_key decrypt_from get_or_create_wrap_key load_account unwrap_pickle
    wrap_pickle load_session get_pinned_identity decrypt_message save_account save_session
    pin_identity
hint_test = refl
