-- ===== src/Web/OlmKeys/Pinned.antt =====
-- What holds of the identities and signatures that the server keeps.
use vortex_reloaded.Base.{
  String, refl, ◌≡◌, Bool, true, false, ◌&&◌, List, [], ◌∷◌, ◌++◌, Option, none, some, find,
  find-append, Bool-cases, Option-cases, inl, inr, str_eq,
}
use vortex_reloaded.Web.OlmKeys.{Patterns, DeviceIdentity, KeyStore, identity_of}
use vortex_reloaded.Web.OlmKeys.Publish.{
  Identity, Payload, Publication, admit, admitted, Admitted, refresh_fallback, is_device,
}
use vortex_reloaded.Web.OlmKeys.Once.{
  KeyCall, publishes, claims, serve_keys, post_device-cases, post_claim-cases,
}
use vortex_reloaded.Web.OlmKeys.Admission.{admit-cases}

-- Whether an identity has these two keys.
abbrev pub has_keys : (curve ed : String) → Option DeviceIdentity → Bool
has_keys c x none = false
has_keys c x (some e) = str_eq e.curve25519_identity_key c && str_eq e.ed25519_identity_key x

module _ (verify : (identity : String) → Payload → (signature : String) → Bool) where
  refresh-has_keys :
      (v w u d c x : String) (i : Identity) (es : List DeviceIdentity)
      → has_keys c x (find (is_device verify u d) (refresh_fallback verify v w i es))
        ≡ has_keys c x (find (is_device verify u d) es)
  refresh-has_keys v w u d c x i [] = refl
  refresh-has_keys v w u d c x i (e ∷ es) = elim (Bool-cases (is_device verify v w e)) [
    | inl m ↦ rw m (elim (Bool-cases (is_device verify u d e)) [
      | inl f ↦ rw f refl
      | inr f ↦ rw f (refresh-has_keys v w u d c x i es)
    ])
    | inr m ↦ rw m (elim (Bool-cases (is_device verify u d e)) [
      | inl f ↦ rw f refl
      | inr f ↦ rw f (refresh-has_keys v w u d c x i es)
    ])
  ]

  append-has_keys :
      (u d c x : String) (es new : List DeviceIdentity)
      → has_keys c x (find (is_device verify u d) es) ≡ true
      → has_keys c x (find (is_device verify u d) (es ++ new)) ≡ true
  append-has_keys u d c x es new h = elim (Option-cases (find (is_device verify u d) es)) [
    | inl n ↦ cc (rw n at h)
    | inr (e, f) ↦ rw (find-append (is_device verify u d) es new, f) (rw f at h)
  ]

  admit-has_keys :
      (u d c x v : String) (p : Publication) (s : KeyStore) (is : List DeviceIdentity)
      → has_keys c x (identity_of u d s) ≡ true
      → admit verify v p s ≡ admitted is
      → has_keys c x (find (is_device verify u d) is) ≡ true
  admit-has_keys u d c x v p s is h =
      admit-cases verify Kept v p s (λ status e. cc e) (λ e own g a. rw (same _ _ a) h)
        (λ i e own m g a. rw (same _ _ a, refresh-has_keys v p.device_id u d c x i s.identities) h)
        (λ i own g a. rw (same _ _ a) (append-has_keys u d c x s.identities _ h))
    where
      Kept : Admitted verify → Type 0
      Kept a = a ≡ admitted is → has_keys c x (find (is_device verify u d) is) ≡ true

      same :
          (a b : List DeviceIdentity) → ◌≡◌ {A = Admitted verify} (admitted a) (admitted b) → b ≡ a
      same a b e = cc e

  -- The identity keys that a device has once registered stay the same under all publications and claims.
  pub serve_keys-has_keys :
      (re : Patterns) (cs : List KeyCall) (s : KeyStore) (u d c x : String)
      → has_keys c x (identity_of u d s) ≡ true
      → has_keys c x (identity_of u d (serve_keys re verify cs s).0) ≡ true
  unfolding serve_keys
  serve_keys-has_keys re [] s u d c x h = h
  serve_keys-has_keys re (publishes q ∷ cs) s u d c x h = serve_keys-has_keys re cs _ u d c x (
      post_device-cases re verify (λ t. has_keys c x (identity_of u d t) ≡ true) q s h
        (λ v p is e. admit-has_keys u d c x v p s is h e))
  serve_keys-has_keys re (claims q ∷ cs) s u d c x h = serve_keys-has_keys re cs _ u d c x (
      post_claim-cases re verify (λ r. has_keys c x (identity_of u d r.0) ≡ true) q s (λ a e. h)
        (λ v w e k own f. h))
