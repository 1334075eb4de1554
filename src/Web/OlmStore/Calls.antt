-- ===== src/Web/OlmStore/Calls.antt =====
-- The exported calls of apps/web/lib/olm-protocol-store.ts.
use vortex_reloaded.Base.{
  ℕ, String, Bool, List, [], ◌∷◌, Option, none, some, if◌then◌else◌, str_eq, is_some,
}
use vortex_reloaded.Web.OlmProtocol.{
  Olm, OlmTarget, OlmKeyBundle, OlmCiphertext, PinnedIdentity, given, identity_of,
  verify_key_bundle_signature, decrypt_message,
}
use vortex_reloaded.Web.OlmStore.{
  Wrapping, Browser, Fresh, Act, ◌>>=◌, ◌>>◌, answer, expect, get_or_create_wrap_key, load_account,
  save_account, load_session, save_session, get_pinned_identity, pin_identity,
  check_and_pin_identity, save_own_plaintext, load_own_plaintext, reset_olm_identity,
}

pub data Request : Type 0 where
  identity : (user : String) → Request
  top_up : (user device : String) → (count : ℕ) → Request
  has_session : OlmTarget → Request
  outbound : OlmTarget → OlmKeyBundle → Request
  encrypt : OlmTarget → (plaintext : String) → Request
  decrypt : OlmTarget → OlmCiphertext → Option PinnedIdentity → Request
  save_text : (message plaintext : String) → Request
  load_text : (message : String) → Request
  reset : Request

module _ (o : Olm) (w : Wrapping) where
  abbrev pub device_or_new : Fresh w → (existing : Option String) → Act w String
  device_or_new fresh none b = (record b { device_id = some fresh.device_id }, some fresh.device_id)
  device_or_new fresh (some id) b = (b, some id)

  unfoldable pub get_or_create_olm_device_id : Fresh w → Act w String
  get_or_create_olm_device_id fresh b = device_or_new fresh (given b.device_id) b

  unfoldable pub set_owner : (user : String) → Act w (Unit {0})
  set_owner user b = (record b { owner_user_id = some user }, some tt)

  -- The state of a user that is not this one is wiped.
  abbrev pub wipe_of : (user : String) → (owner : Option String) → Act w (Unit {0})
  wipe_of user none = answer tt
  wipe_of user (some owner) = if str_eq owner user then answer tt else reset_olm_identity w

  unfoldable pub wipe_other : (user : String) → Act w (Unit {0})
  wipe_other user b = wipe_of user (given b.owner_user_id) b

  -- The device, its keys and what is to be published.
  abbrev pub OlmIdentity : Type 0
  OlmIdentity = String × PinnedIdentity × Option o.Publish

  abbrev pub store_identity :
      Fresh w → (user device : String) → w.Key → String × o.Publish → Act w OlmIdentity
  store_identity fresh user device k (account, publish) =
      save_account w fresh.iv k account
      >> (set_owner user >> answer (device, o.published_identity publish, some publish))

  abbrev pub create_account : Fresh w → (user device : String) → w.Key → Act w OlmIdentity
  create_account fresh user device k = do
    made ← expect (o.create_identity fresh.seed user device)
    store_identity fresh user device k made

  abbrev pub keep_account : (user device account : String) → Act w OlmIdentity
  keep_account user device account = do
    keys ← expect (o.identity_keys account)
    set_owner user
    answer (device, keys, none)

  abbrev pub resume_or_create :
      Fresh w → (user device : String) → w.Key → (existing : Option String) → Act w OlmIdentity
  resume_or_create fresh user device k none = create_account fresh user device k
  resume_or_create fresh user device k (some account) = keep_account user device account

  abbrev pub load_or_create : Fresh w → (user : String) → Act w OlmIdentity
  load_or_create fresh user = do
    device ← get_or_create_olm_device_id fresh
    k ← get_or_create_wrap_key w fresh
    existing ← load_account w k
    resume_or_create fresh user device k existing

  unfoldable pub ensure_olm_identity : Fresh w → (user : String) → Act w OlmIdentity
  ensure_olm_identity fresh user = wipe_other user >> load_or_create fresh user

  abbrev pub store_keys : (iv : ℕ) → w.Key → String × List String → Act w (List String)
  store_keys iv k (account, keys) = save_account w iv k account >> answer keys

  unfoldable pub top_up_one_time_keys :
      Fresh w → (user device : String) → (count : ℕ) → Act w (List String)
  top_up_one_time_keys fresh user device count = do
    k ← get_or_create_wrap_key w fresh
    account ← load_account w k
    a ← expect account
    batch ← expect (o.one_time_keys fresh.seed a user device count)
    store_keys fresh.iv k batch

  unfoldable pub has_session_with : Fresh w → OlmTarget → Act w Bool
  has_session_with fresh target = do
    k ← get_or_create_wrap_key w fresh
    session ← load_session w target k
    answer (is_some session)

  abbrev pub start_session : Fresh w → OlmTarget → OlmKeyBundle → w.Key → Act w (Unit {0})
  start_session fresh target bundle k = do
    account ← load_account w k
    a ← expect account
    session ←
        expect (o.create_outbound fresh.seed a bundle.curve25519_identity_key bundle.public_key)
    save_session w fresh.session_iv target k session

  -- Without a session: the bundle is verified and its identity is pinned, then the session is made.
  abbrev pub establish : Fresh w → OlmTarget → OlmKeyBundle → w.Key → Act w (Unit {0})
  establish fresh target bundle k = do
    expect (if verify_key_bundle_signature o target bundle then some tt else none)
    check_and_pin_identity w target (identity_of bundle)
    start_session fresh target bundle k

  abbrev pub establish_unless :
      (session : Option String) → Fresh w → OlmTarget → OlmKeyBundle → w.Key → Act w (Unit {0})
  establish_unless session fresh target bundle k =
      if is_some session then answer tt else establish fresh target bundle k

  unfoldable pub ensure_outbound_session : Fresh w → OlmTarget → OlmKeyBundle → Act w (Unit {0})
  ensure_outbound_session fresh target bundle = do
    k ← get_or_create_wrap_key w fresh
    session ← load_session w target k
    establish_unless session fresh target bundle k

  abbrev pub store_encrypted :
      Fresh w → OlmTarget → w.Key → String × OlmCiphertext → Act w OlmCiphertext
  store_encrypted fresh target k (session, c) =
      save_session w fresh.session_iv target k session >> answer c

  unfoldable pub encrypt_to : Fresh w → OlmTarget → (plaintext : String) → Act w OlmCiphertext
  encrypt_to fresh target plaintext = do
    k ← get_or_create_wrap_key w fresh
    session ← load_session w target k
    s ← expect session
    result ← expect (o.encrypt fresh.seed s plaintext)
    store_encrypted fresh target k result

  -- A pin wins over the hint.
  abbrev pub expected_identity : (pinned hint : Option PinnedIdentity) → Option PinnedIdentity
  expected_identity none hint = hint
  expected_identity (some p) hint = some p

  abbrev pub curve_key : Option PinnedIdentity → Option String
  curve_key none = none
  curve_key (some p) = some p.curve25519_identity_key

  abbrev pub pin_first : OlmTarget → (pinned hint : Option PinnedIdentity) → Act w (Unit {0})
  pin_first target none (some hint) = pin_identity w target hint
  pin_first target none none = answer tt
  pin_first target (some p) hint = answer tt

  abbrev pub store_decrypted :
      Fresh w
      → OlmTarget
      → w.Key
      → (pinned hint : Option PinnedIdentity) → String × String × String
      → Act w String
  store_decrypted fresh target k pinned hint (account, session, text) = do
    save_account w fresh.iv k account
    save_session w fresh.session_iv target k session
    pin_first target pinned hint
    answer text

  unfoldable pub decrypt_from :
      Fresh w → OlmTarget → OlmCiphertext → (hint : Option PinnedIdentity) → Act w String
  decrypt_from fresh target c hint = do
    k ← get_or_create_wrap_key w fresh
    account ← load_account w k
    a ← expect account
    session ← load_session w target k
    pinned ← get_pinned_identity w target
    result ← expect (decrypt_message o a session c (curve_key (expected_identity pinned hint)))
    store_decrypted fresh target k pinned hint result

  unfoldable pub handle : Fresh w → Request → Browser w → Browser w
  handle f (identity user) b = (ensure_olm_identity f user b).0
  handle f (top_up user device count) b = (top_up_one_time_keys f user device count b).0
  handle f (has_session target) b = (has_session_with f target b).0
  handle f (outbound target bundle) b = (ensure_outbound_session f target bundle b).0
  handle f (encrypt target text) b = (encrypt_to f target text b).0
  handle f (decrypt target c hint) b = (decrypt_from f target c hint b).0
  handle f (save_text message text) b = (save_own_plaintext w f message text b).0
  handle f (load_text message) b = (load_own_plaintext w f message b).0
  handle f reset b = (reset_olm_identity w b).0

  unfoldable pub run : List (Fresh w × Request) → Browser w → Browser w
  unfolding handle
  run [] b = b
  run ((f, request) ∷ requests) b = run requests (handle f request b)
