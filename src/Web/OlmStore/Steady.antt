-- ===== src/Web/OlmStore/Steady.antt =====
-- The calls of apps/web/lib/olm-protocol-store.ts, one after the other.
use vortex_reloaded.Base.{
  ℕ, ◌≡◌, refl, String, Option, none, some, List, [], ◌∷◌, All, if-holds, is_some, if◌then◌else◌,
}
use vortex_reloaded.Base.Dict.{lookup, insert}
use vortex_reloaded.Web.OlmProtocol.{
  Olm, OlmTarget, OlmKeyBundle, OlmCiphertext, PinnedIdentity, target_key, decrypt_message, given,
  verify_key_bundle_signature, identity_of,
}
use vortex_reloaded.Web.OlmStore.{
  wrap_pickle, Wrapping, Browser, Fresh, Act, save_account, save_session, get_pinned_identity,
  pin_identity, save_own_plaintext, put_text, load_own_plaintext, reset_olm_identity, unwrap_stored,
  expect, answer, ◌>>=◌, ◌>>◌,
}
use vortex_reloaded.Web.OlmStore.Calls.{
  Request, identity, top_up, has_session, outbound, encrypt, decrypt, save_text, load_text, reset,
  handle, run, ensure_olm_identity, wipe_other, get_or_create_olm_device_id, set_owner,
  top_up_one_time_keys, has_session_with, ensure_outbound_session, encrypt_to, decrypt_from,
  device_or_new, resume_or_create, store_identity, OlmIdentity, establish, store_decrypted,
  expected_identity, curve_key,
}
use vortex_reloaded.Web.OlmStore.Rules.{
  Does, After, Keeps, keep, keep-expect, after-both, Stable, With, narrow, with_key, done, step,
  load_account-keeps, load_session-keeps, save_account-keeps, save_session-keeps,
  check_and_pin_identity-keeps,
}

module _ (o : Olm) (w : Wrapping) (E : Browser w → Type 0) (stable : Stable w E) where
  pub top_up_one_time_keys-Keeps :
      (f : Fresh w) (user device : String) (count : ℕ)
      → Keeps E (top_up_one_time_keys o w f user device count)
  unfolding top_up_one_time_keys
  top_up_one_time_keys-Keeps f user device count = with_key o w E stable f _ (λ k.
      step o w E stable k _ _ (load_account-keeps o w E stable k) (λ a.
        step o w E stable k _ _ (narrow o w E stable k a) (λ a.
          step o w E stable k _ _
            (narrow o w E stable k (o.one_time_keys f.seed a user device count))
            (λ r.
              step o w E stable k _ (λ _. answer r.1) (save_account-keeps o w E stable f.iv k r.0)
                (λ _. done o w E stable k r.1)))))

  pub has_session_with-Keeps :
      (f : Fresh w) (target : OlmTarget) → Keeps E (has_session_with o w f target)
  unfolding has_session_with
  has_session_with-Keeps f target = with_key o w E stable f _ (λ k.
      step o w E stable k _ (λ s. answer (is_some s)) (load_session-keeps o w E stable target k)
        (λ s. done o w E stable k (is_some s)))

  saved-keeps :
      (f : Fresh w) (target : OlmTarget) (k : w.Key) (s : String)
      → Does E (With o w E stable k) (save_session w f.session_iv target k s) (λ _. E)
  unfolding save_session
  saved-keeps f target k s b h = stable.on_session b k f.session_iv (target_key target) s h.1 h.0

  establish-keeps :
      (f : Fresh w) (target : OlmTarget) (bundle : OlmKeyBundle) (k : w.Key)
      → Does E (With o w E stable k) (establish o w f target bundle k) (λ _. E)
  establish-keeps f target bundle k =
      step o w E stable k _ _
        (narrow o w E stable k
          (if verify_key_bundle_signature o target bundle then some tt else none))
        (λ _.
          step o w E stable k _ _
            (check_and_pin_identity-keeps o w E stable target k (identity_of bundle))
            (λ _. step o w E stable k _ _ (load_account-keeps o w E stable k) (λ a.
              step o w E stable k _ _ (narrow o w E stable k a) (λ a.
                step o w E stable k _ _
                  (narrow o w E stable k
                    (o.create_outbound f.seed a bundle.curve25519_identity_key bundle.public_key))
                  (λ s. saved-keeps f target k s)))))

  pub ensure_outbound_session-Keeps :
      (f : Fresh w) (target : OlmTarget) (bundle : OlmKeyBundle)
      → Keeps E (ensure_outbound_session o w f target bundle)
  unfolding ensure_outbound_session
  ensure_outbound_session-Keeps f target bundle = with_key o w E stable f _ (λ k.
      step o w E stable k _ _ (load_session-keeps o w E stable target k) (λ s.
        if-holds {A = Act w (Unit {0})} (λ call. Does E (With o w E stable k) call (λ _. E))
          (is_some s) (λ _. done o w E stable k tt) (λ _. establish-keeps f target bundle k)))

  pub encrypt_to-Keeps :
      (f : Fresh w) (target : OlmTarget) (text : String) → Keeps E (encrypt_to o w f target text)
  unfolding encrypt_to
  encrypt_to-Keeps f target text = with_key o w E stable f _ (λ k.
      step o w E stable k _ _ (load_session-keeps o w E stable target k) (λ s.
        step o w E stable k _ _ (narrow o w E stable k s) (λ s.
          step o w E stable k _ _ (narrow o w E stable k (o.encrypt f.seed s text)) (λ r.
            step o w E stable k _ (λ _. answer r.1)
              (save_session-keeps o w E stable f.session_iv target k r.0)
              (λ _. done o w E stable k r.1)))))

  store_decrypted-keeps :
      (f : Fresh w) (target : OlmTarget) (k : w.Key) (pinned hint : Option PinnedIdentity)
      (r : String × String × String) (b : Browser w)
      → lookup (target_key target) b.pinned ≡ pinned
      → With o w E stable k b
      → After E (λ _. E) (store_decrypted o w f target k pinned hint r b)
  unfolding save_account save_session pin_identity
  store_decrypted-keeps f target k none none (account, s, text) b q h =
      stable.on_session (record b { account = some (wrap_pickle w k f.iv account) }) k f.session_iv
        (target_key target) s h.1 (stable.on_account b k f.iv account h.1 h.0)
  store_decrypted-keeps f target k (some p) hint (account, s, text) b q h =
      stable.on_session (record b { account = some (wrap_pickle w k f.iv account) }) k f.session_iv
        (target_key target) s h.1 (stable.on_account b k f.iv account h.1 h.0)
  store_decrypted-keeps f target k none (some hint) (account, s, text) b q h =
      stable.on_pin _ (target_key target) hint q (
        stable.on_session (record b { account = some (wrap_pickle w k f.iv account) }) k
          f.session_iv (target_key target) s h.1 (stable.on_account b k f.iv account h.1 h.0))

  decrypted-keeps :
      (f : Fresh w) (target : OlmTarget) (k : w.Key) (pinned hint : Option PinnedIdentity)
      (r : Option (String × String × String)) (b : Browser w)
      → lookup (target_key target) b.pinned ≡ pinned
      → With o w E stable k b
      → After E (λ _. E) ((expect r >>= store_decrypted o w f target k pinned hint) b)
  decrypted-keeps f target k pinned hint none b q h = h.0
  decrypted-keeps f target k pinned hint (some r) b q h =
      store_decrypted-keeps f target k pinned hint r b q h

  pub decrypt_from-Keeps :
      (f : Fresh w) (target : OlmTarget) (c : OlmCiphertext) (hint : Option PinnedIdentity)
      → Keeps E (decrypt_from o w f target c hint)
  unfolding decrypt_from get_pinned_identity
  decrypt_from-Keeps f target c hint = with_key o w E stable f _ (λ k.
      step o w E stable k _ _ (load_account-keeps o w E stable k) (λ a.
        step o w E stable k _ _ (narrow o w E stable k a) (λ a.
          step o w E stable k _ _ (load_session-keeps o w E stable target k) (λ s b h.
            decrypted-keeps f target k (lookup (target_key target) b.pinned) hint
              (decrypt_message o a s c
                (curve_key o w (expected_identity o w (lookup (target_key target) b.pinned) hint)))
              b refl h))))

  pub load_own_plaintext-Keeps :
      (f : Fresh w) (message : String) → Keeps E (load_own_plaintext w f message)
  unfolding load_own_plaintext
  load_own_plaintext-Keeps f message =
      with_key o w E stable f _
        (λ k b h. keep-expect E (unwrap_stored w k (lookup message b.own_plaintext)) b h.0)

  pub save_own_plaintext-Keeps :
      (f : Fresh w) (message text : String)
      → ((k : w.Key) (b : Browser w)
          → With o w E stable k b
          → E (record b {
            own_plaintext = insert message (wrap_pickle w k f.iv text) b.own_plaintext;
          }))
      → Keeps E (save_own_plaintext w f message text)
  unfolding save_own_plaintext
  save_own_plaintext-Keeps f message text h = with_key o w E stable f (put_text w f message text) h

  device-Keeps : (f : Fresh w) (r : Option String) → Keeps E (device_or_new o w f r)
  device-Keeps f none b h = stable.on_device b f.device_id h
  device-Keeps f (some id) b h = h

  get_or_create_olm_device_id-Keeps : (f : Fresh w) → Keeps E (get_or_create_olm_device_id o w f)
  unfolding get_or_create_olm_device_id
  get_or_create_olm_device_id-Keeps f b h = device-Keeps f (given b.device_id) b h

  module _ (user : String)
      (owns : (b : Browser w) → E b → E (record b { owner_user_id = some user })) where
    named-keeps :
        (device : String) (r : Option PinnedIdentity) (b : Browser w)
        → E b
        → After {S = Browser w} E {A = OlmIdentity o w}
            (λ _. E)
            ((expect r >>= λ keys. set_owner o w user >> answer (device, keys, none)) b)
    unfolding set_owner
    named-keeps device none b h = h
    named-keeps device (some keys) b h = owns b h

    created-keeps :
        (f : Fresh w) (device : String) (k : w.Key) (made : Option (String × o.Publish))
        (b : Browser w)
        → With o w E stable k b
        → After {S = Browser w} E {A = OlmIdentity o w}
            (λ _. E)
            ((expect made >>= λ m. store_identity o w f user device k m) b)
    unfolding set_owner save_account
    created-keeps f device k none b h = h.0
    created-keeps f device k (some (account, publish)) b h =
        owns _ (stable.on_account b k f.iv account h.1 h.0)

    resume_or_create-keeps :
        (f : Fresh w) (device : String) (k : w.Key) (existing : Option String)
        → Does E (With o w E stable k) (resume_or_create o w f user device k existing) (λ _. E)
    resume_or_create-keeps f device k none b h =
        created-keeps f device k (o.create_identity f.seed user device) b h
    resume_or_create-keeps f device k (some account) b h =
        named-keeps device (o.identity_keys account) b h.0

    pub ensure_olm_identity-Keeps :
        (f : Fresh w) → Keeps E (wipe_other o w user) → Keeps E (ensure_olm_identity o w f user)
    unfolding ensure_olm_identity
    ensure_olm_identity-Keeps f wipes = keep E (wipe_other o w user) _ wipes (λ _.
        keep E (get_or_create_olm_device_id o w f) _ (get_or_create_olm_device_id-Keeps f)
          (λ device. with_key o w E stable f _ (λ k.
            step o w E stable k _ _ (load_account-keeps o w E stable k)
              (λ existing. resume_or_create-keeps f device k existing))))

  pub handle-keeps :
      (Fits : Request → Type 0)
      → ((f : Fresh w) (user : String) (b : Browser w)
          → Fits (identity user)
          → E b
          → E (ensure_olm_identity o w f user b).0)
      → ((f : Fresh w) (message text : String) (b : Browser w)
          → Fits (save_text message text)
          → E b
          → E (save_own_plaintext w f message text b).0)
      → ((b : Browser w) → Fits reset → E b → E (reset_olm_identity w b).0)
      → (f : Fresh w) (request : Request) (b : Browser w) → Fits request
      → E b
      → E (handle o w f request b)
  unfolding handle
  handle-keeps Fits i t r f (identity user) b fit h = i f user b fit h
  handle-keeps Fits i t r f (save_text message text) b fit h = t f message text b fit h
  handle-keeps Fits i t r f reset b fit h = r b fit h
  handle-keeps Fits i t r f (top_up user device count) b fit h =
      after-both E _ (top_up_one_time_keys-Keeps f user device count b h)
  handle-keeps Fits i t r f (has_session target) b fit h =
      after-both E _ (has_session_with-Keeps f target b h)
  handle-keeps Fits i t r f (outbound target bundle) b fit h =
      after-both E _ (ensure_outbound_session-Keeps f target bundle b h)
  handle-keeps Fits i t r f (encrypt target text) b fit h =
      after-both E _ (encrypt_to-Keeps f target text b h)
  handle-keeps Fits i t r f (decrypt target c hint) b fit h =
      after-both E _ (decrypt_from-Keeps f target c hint b h)
  handle-keeps Fits i t r f (load_text message) b fit h =
      after-both E _ (load_own_plaintext-Keeps f message b h)

  pub run-keeps :
      (Fits : Request → Type 0)
      → ((f : Fresh w) (request : Request) (b : Browser w)
          → Fits request
          → E b
          → E (handle o w f request b))
      → (requests : List (Fresh w × Request)) → All (λ r. Fits r.1) requests
      → (b : Browser w) → E b
      → E (run o w requests b)
  unfolding run
  run-keeps Fits h [] fits b e = e
  run-keeps Fits h ((f, request) ∷ requests) fits b e =
      run-keeps Fits h requests fits.1 (handle o w f request b) (h f request b fits.0 e)
