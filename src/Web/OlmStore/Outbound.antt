-- ===== src/Web/OlmStore/Outbound.antt =====
-- apps/web/lib/olm-protocol-store.ts: what a new session with another device takes.
use vortex_reloaded.Base.{
  ◌≡◌, refl, sym, subst, ap, ◌∙◌, if-holds, String, Option, none, some, Bool, true, false, ◌&&◌,
  if◌then◌else◌,
}
use vortex_reloaded.Base.Dict.{lookup}
use vortex_reloaded.Web.OlmProtocol.{
  Olm, OlmTarget, OlmKeyBundle, PinnedIdentity, target_key, same_identity, identity_of,
  verify_key_bundle_signature,
}
use vortex_reloaded.Web.OlmStore.{
  WrappedBlob, Wrapping, Browser, Fresh, Act, expect, ◌>>=◌, ◌>>◌, get_or_create_wrap_key,
  load_session, check_and_pin_identity, check_pinned, get_pinned_identity, unwrap_stored,
}
use vortex_reloaded.Web.OlmStore.Rules.{After, Does, bind}
use vortex_reloaded.Web.OlmStore.Calls.{
  ensure_outbound_session, establish, establish_unless, start_session,
}

-- Whether the identity of a bundle is the pinned one, where one is pinned.
abbrev pub is_pinned_or_new : Option PinnedIdentity → PinnedIdentity → Bool
is_pinned_or_new none identity = true
is_pinned_or_new (some p) identity = same_identity p identity

-- Whether the bundle may start a session: its signature is its own device's, and its identity is not
-- another one than the pinned.
abbrev pub is_trusted : (o : Olm) (w : Wrapping) → OlmTarget → OlmKeyBundle → Browser w → Bool
is_trusted o w target bundle b =
    verify_key_bundle_signature o target bundle
    && is_pinned_or_new (lookup (target_key target) b.pinned) (identity_of bundle)

module _ (o : Olm) (w : Wrapping) (f : Fresh w) (target : OlmTarget) (bundle : OlmKeyBundle)
    (b₀ : Browser w) where
  -- The sessions and the pins are as before.
  abbrev IsSame : Browser w → Type 0
  IsSame b = (b.sessions ≡ b₀.sessions) × (b.pinned ≡ b₀.pinned)

  throws :
      {A : Type 0} (r : Browser w × Option A)
      → After IsSame (λ _ _. ⊥) r
      → (r.1 ≡ none) × (r.0.sessions ≡ b₀.sessions) × (r.0.pinned ≡ b₀.pinned)
  throws (b, none) h = (refl, h.0, h.1)
  throws (b, some a) h = absurd h

  wrap_key-same : Does IsSame IsSame (get_or_create_wrap_key w f) (λ _. IsSame)
  unfolding get_or_create_wrap_key
  wrap_key-same b h = go b.wrap_key
    where
      go :
          (r : Option w.Key)
          → After {S = Browser w} IsSame {A = w.Key}
              (λ _. IsSame)
              (elim r [
                | some k ↦ (b, some k)
                | none ↦ (record b { wrap_key = some f.key }, some f.key)
              ])
      go none = h
      go (some k) = h

  no_session :
      (k : w.Key)
      → lookup (target_key target) b₀.sessions ≡ none
      → Does IsSame IsSame (load_session w target k) (λ s b. (s ≡ none) × IsSame b)
  unfolding load_session
  no_session k q b h =
      go (lookup (target_key target) b.sessions) (ap (lookup (target_key target)) h.0 ∙ q)
    where
      go :
          (r : Option (WrappedBlob w))
          → r ≡ none
          → After {S = Browser w} IsSame {A = Option String}
              (λ s b. (s ≡ none) × IsSame b)
              (b, unwrap_stored w k r)
      go none e = (refl, h)
      go (some blob) e = cc

  verified :
      (v : Bool)
      → Does IsSame IsSame
          (expect (if v then some tt else none))
          (λ (_ : Unit {0}) b. (v ≡ true) × IsSame b)
  verified true b h = (refl, h)
  verified false b h = h

  unpinned :
      (p : Option PinnedIdentity) (b : Browser w)
      → is_pinned_or_new p (identity_of bundle) ≡ false
      → IsSame b
      → After IsSame (λ _ _. ⊥) (check_pinned w target (identity_of bundle) p b)
  unpinned none b h e = cc
  unpinned (some p) b h e =
      if-holds {A = Act w (Unit {0})} (λ call. After IsSame (λ _ _. ⊥) (call b))
        (same_identity p (identity_of bundle)) (λ q. cc) (λ _. e)

  establish-throws :
      (k : w.Key)
      → is_trusted o w target bundle b₀ ≡ false
      → Does IsSame IsSame (establish o w f target bundle k) (λ _ _. ⊥)
  unfolding check_and_pin_identity get_pinned_identity
  establish-throws k h =
      let v = verify_key_bundle_signature o target bundle in
      bind IsSame IsSame (λ _ b. (v ≡ true) × IsSame b) (λ _ _. ⊥) _
        (λ _.
          check_and_pin_identity w target (identity_of bundle)
          >> start_session o w f target bundle k)
        (verified v)
        (λ _.
          bind IsSame (λ b. (v ≡ true) × IsSame b) (λ _ _. ⊥) (λ _ _. ⊥)
            (check_and_pin_identity w target (identity_of bundle))
            (λ _. start_session o w f target bundle k)
            (λ b e.
              unpinned (lookup (target_key target) b.pinned) b (rw (e.1.1, ← h, e.0) refl) e.1)
            (λ _ _ e. absurd e))

  -- Without a session with a device, a bundle whose signature is not the device's, or whose identity is not
  -- the one that is pinned for it, throws, and leaves the sessions and the pins as they were.
  pub ensure_outbound_session-untrusted :
      lookup (target_key target) b₀.sessions ≡ none
      → is_trusted o w target bundle b₀ ≡ false
      → let (b, r) = ensure_outbound_session o w f target bundle b₀ in
        (r ≡ none) × (b.sessions ≡ b₀.sessions) × (b.pinned ≡ b₀.pinned)
  unfolding ensure_outbound_session
  ensure_outbound_session-untrusted q h = throws (ensure_outbound_session o w f target bundle b₀) (
      bind IsSame IsSame (λ _. IsSame) (λ _ _. ⊥) (get_or_create_wrap_key w f)
        (λ k. load_session w target k >>= λ s. establish_unless o w s f target bundle k)
        wrap_key-same
        (λ k.
          bind IsSame IsSame (λ s b. (s ≡ none) × IsSame b) (λ _ _. ⊥) (load_session w target k)
            (λ s. establish_unless o w s f target bundle k) (no_session k q)
            (λ s b e.
              subst (λ s. After IsSame (λ _ _. ⊥) (establish_unless o w s f target bundle k b))
                (sym e.0) (establish-throws k h b e.1)))
        b₀ (refl, refl))
