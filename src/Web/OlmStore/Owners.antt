-- ===== src/Web/OlmStore/Owners.antt =====
-- apps/web/lib/olm-protocol-store.ts: the user whose state it is, and what another user finds.
use vortex_reloaded.Base.{
  [], subst, ◌≡◌, refl, ap, String, Option, none, some, Bool, true, false, List, All, str_eq,
  if-holds, eq_iff, eq_refl, ◌∙◌, sym,
}
use vortex_reloaded.Web.OlmProtocol.{Olm, given}
use vortex_reloaded.Web.OlmStore.{
  ◌>>=◌, expect, Wrapping, Browser, Fresh, get_or_create_wrap_key, load_account, save_account,
  save_own_plaintext, reset_olm_identity, blank,
}
use vortex_reloaded.Web.OlmStore.Calls.{
  Request, identity, top_up, has_session, outbound, encrypt, decrypt, save_text, load_text, reset,
  run, ensure_olm_identity, wipe_other, wipe_of, get_or_create_olm_device_id, set_owner,
  load_or_create, OlmIdentity, store_identity,
}
use vortex_reloaded.Web.OlmStore.Rules.{Keeps, After, Stable, after-both}
use vortex_reloaded.Web.OlmStore.Steady.{ensure_olm_identity-Keeps, handle-keeps, run-keeps}

-- Whether the state is of nobody or of this user.
abbrev pub owned_by : (user : String) → (owner : Option String) → Bool
owned_by user none = true
owned_by user (some owner) = str_eq owner user

-- The requests of this user that do not reset the state.
abbrev pub is_of : (user : String) → Request → Bool
is_of user (identity other) = str_eq other user
is_of user reset = false
is_of user (top_up _ _ _) = true
is_of user (has_session _) = true
is_of user (outbound _ _) = true
is_of user (encrypt _ _) = true
is_of user (decrypt _ _ _) = true
is_of user (save_text _ _) = true
is_of user (load_text _) = true

module _ (o : Olm) (w : Wrapping) (user : String) where
  abbrev pub IsOwned : Browser w → Type 0
  IsOwned b = owned_by user (given b.owner_user_id) ≡ true

  pub wipe_other-owned : (b : Browser w) → IsOwned b → wipe_other o w user b ≡ (b, some tt)
  unfolding wipe_other
  wipe_other-owned b h = go (given b.owner_user_id) h
    where
      go : (r : Option String) → owned_by user r ≡ true → wipe_of o w user r b ≡ (b, some tt)
      go none h = refl
      go (some owner) h = rw h refl

  owned-given : owned_by user (given (some user)) ≡ true
  owned-given =
      if-holds (λ r. owned_by user r ≡ true) (str_eq user "") (λ _. refl) (λ _. eq_refl user)

  -- What the calls of this user keep, with the owner.
  module _ (F : Browser w → Type 0) where
    abbrev pub Owned : Browser w → Type 0
    Owned b = IsOwned b × F b

    wipe_other-Owned : Keeps Owned (wipe_other o w user)
    wipe_other-Owned b h = subst (λ r. After Owned (λ _. Owned) r) (sym (wipe_other-owned b h.0)) h

    module _ (stable : Stable w Owned)
        (owns : (b : Browser w) → F b → F (record b { owner_user_id = some user })) where
      identity-Owned :
          (f : Fresh w) (other : String) (b : Browser w)
          → str_eq other user ≡ true
          → Owned b
          → Owned (ensure_olm_identity o w f other b).0
      identity-Owned f other b q h =
          subst (λ u. Owned (ensure_olm_identity o w f u b).0) (sym ((eq_iff other user).0 q))
            (after-both Owned _ (
              ensure_olm_identity-Keeps o w Owned stable user (λ b h. (owned-given, owns b h.1)) f
                wipe_other-Owned b h))

      -- Where the saved texts of the requests keep it.
      pub run-Owned :
          (Fits : Request → Type 0)
          → ((request : Request) → Fits request → is_of user request ≡ true)
          → ((f : Fresh w) (message text : String) (b : Browser w)
              → Fits (save_text message text)
              → Owned b
              → Owned (save_own_plaintext w f message text b).0)
          → (requests : List (Fresh w × Request)) → All (λ r. Fits r.1) requests
          → (b : Browser w) → Owned b
          → Owned (run o w requests b)
      run-Owned Fits own text = run-keeps o w Owned stable Fits (
          handle-keeps o w Owned stable Fits
            (λ f other b fit h. identity-Owned f other b (own (identity other) fit) h) text
            (λ b fit h. cc (own reset fit)))

module _ (o : Olm) (w : Wrapping) (f : Fresh w) (user : String) where
  wiped : Browser w × Option (Unit {0}) → Browser w × Option (OlmIdentity o w)
  wiped (b, none) = (b, none)
  wiped (b, some _) = load_or_create o w f user b

  ensured : (b : Browser w) → ensure_olm_identity o w f user b ≡ wiped (wipe_other o w user b)
  unfolding ensure_olm_identity wiped
  ensured b = go (wipe_other o w user b)
    where
      go :
          (r : Browser w × Option (Unit {0}))
          → (let (s, a) = r in elim a [ none ↦ (s, none) | some x ↦ load_or_create o w f user s ])
            ≡ wiped r
      go (s, none) = refl
      go (s, some x) = refl

  wipe_other-foreign :
      (other : String) (b : Browser w)
      → given b.owner_user_id ≡ some other
      → str_eq other user ≡ false
      → wipe_other o w user b ≡ (blank w, some tt)
  unfolding wipe_other reset_olm_identity
  wipe_other-foreign other b q n = rw (q, n) refl

  -- What is left of the other user's sessions, pins and texts, whether a new account is made or that throws.
  store_identity-blank :
      (device : String) (k : w.Key) (b : Browser w) (made : Option (String × o.Publish))
      → let b' = ((expect made >>= λ m. store_identity o w f user device k m) b).0 in
        (b'.sessions ≡ b.sessions) × (b'.pinned ≡ b.pinned) × (b'.own_plaintext ≡ b.own_plaintext)
  unfolding save_account set_owner
  store_identity-blank device k b none = (refl, refl, refl)
  store_identity-blank device k b (some (account, publish)) = (refl, refl, refl)

  load_or_create-blank :
      let b = (load_or_create o w f user (blank w)).0 in
      (b.sessions ≡ []) × (b.pinned ≡ []) × (b.own_plaintext ≡ [])
  unfolding get_or_create_olm_device_id get_or_create_wrap_key load_account
  load_or_create-blank =
      store_identity-blank f.device_id f.key
        (record (blank w) { device_id = some f.device_id; wrap_key = some f.key })
        (o.create_identity f.seed user f.device_id)

  -- The state of another user has no bearing on what follows: on any two browsers whose states are of other
  -- users, the call answers or throws alike, all later calls leave the same, and right after it there are no
  -- sessions, pins and texts, even if the call throws.
  pub ensure_olm_identity-foreign :
      (other other' : String) (b b' : Browser w) (requests : List (Fresh w × Request))
      → given b.owner_user_id ≡ some other
      → str_eq other user ≡ false
      → given b'.owner_user_id ≡ some other'
      → str_eq other' user ≡ false
      → let (s, r) = ensure_olm_identity o w f user b in
        let (s', r') = ensure_olm_identity o w f user b' in
        (r ≡ r')
        × (run o w requests s ≡ run o w requests s')
        × (s.sessions ≡ [])
        × (s.pinned ≡ [])
        × (s.own_plaintext ≡ [])
  unfolding wiped
  ensure_olm_identity-foreign other other' b b' requests q n q' n' =
      let to_blank = ensured b ∙ ap wiped (wipe_other-foreign other b q n) in
      let same = to_blank ∙ sym (ensured b' ∙ ap wiped (wipe_other-foreign other' b' q' n')) in
      let (none_left, no_pins, no_texts) = load_or_create-blank in
      (
        ap (λ x. x.1) same,
        ap (λ x. run o w requests x.0) same,
        ap (λ x. x.0.sessions) to_blank ∙ none_left,
        ap (λ x. x.0.pinned) to_blank ∙ no_pins,
        ap (λ x. x.0.own_plaintext) to_blank ∙ no_texts,
      )
