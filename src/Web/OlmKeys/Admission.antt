-- ===== src/Web/OlmKeys/Admission.antt =====
-- apps/web/app/api/dm/olm/keys/device/route.ts: what the transaction of POST admits.
use vortex_reloaded.Base.{
  not-eq-false, ℕ, String, refl, ◌≡◌, Bool, true, false, not, [], ◌∷◌, ◌++◌, Option, none, some,
  all, filter, length, Option-cases, inl, inr, if◌then◌else◌, str_eq, if-holds, leb,
}
use vortex_reloaded.Web.OlmKeys.{DeviceIdentity, KeyStore, identity_of}
use vortex_reloaded.Web.OlmKeys.Publish.{
  Identity, Payload, Publication, admit, admit_identity, admitted, rolled_back, Admitted,
  refresh_fallback, identity_row, is_same_identity, mismatches, verify_one_time_key_signature,
  verify_fallback_key_signature, device_limit,
}

module _ (verify : (identity : String) → Payload → (signature : String) → Bool) where
  -- The keys of a publication are signed by an identity.
  abbrev pub are_signed : (identity user : String) → Publication → Bool
  are_signed e u p = all (verify_one_time_key_signature verify e u p.device_id) p.one_time_keys

  module _ {ℓ} (P : Admitted verify → Type ℓ) (u : String) (p : Publication) (s : KeyStore) where
    pub admit-cases :
        ((status : ℕ) → P (rolled_back status))
        → ((e : DeviceIdentity)
            → identity_of u p.device_id s ≡ some e
            → are_signed e.ed25519_identity_key u p ≡ true
            → P (admitted s.identities))
        → ((i : Identity) (e : DeviceIdentity)
            → identity_of u p.device_id s ≡ some e
            → is_same_identity verify i e ≡ true
            → are_signed i.ed25519_identity_key u p ≡ true
            → P (admitted (refresh_fallback verify u p.device_id i s.identities)))
        → ((i : Identity)
            → identity_of u p.device_id s ≡ none
            → are_signed i.ed25519_identity_key u p ≡ true
            → P (admitted (s.identities ++ identity_row verify u p.device_id i ∷ [])))
        → P (admit verify u p s)
    unfolding admit
    admit-cases stop top old new = elim (Option-cases p.identity) [
      | inl n ↦ simp (n, admit) (topped (identity_of u p.device_id s) refl)
      | inr (i, n) ↦
          simp (n, admit)
            (unfold admit_identity in
              if-holds P (mismatches verify i (identity_of u p.device_id s)) (λ _. stop 409)
                (λ m.
                  if-holds P
                    (not (
                      verify_fallback_key_signature verify i.ed25519_identity_key u p.device_id
                        i.fallback))
                    (λ _. stop 400)
                    (λ _.
                      if-holds P (not (are_signed i.ed25519_identity_key u p)) (λ _. stop 400)
                        (λ g. upsert i (not-eq-false _ g) (identity_of u p.device_id s) refl m))))
    ]
      where
        topped :
            (o : Option DeviceIdentity)
            → identity_of u p.device_id s ≡ o
            → P (elim o [
              | none ↦ rolled_back 409
              | some e ↦
                  if all
                    (verify_one_time_key_signature verify e.ed25519_identity_key u p.device_id)
                    p.one_time_keys
                  then admitted s.identities
                  else rolled_back 400
            ])
        topped none e = stop 409
        topped (some x) e =
            if-holds P (are_signed x.ed25519_identity_key u p) (λ g. top x e g) (λ _. stop 400)

        upsert :
            (i : Identity)
            → are_signed i.ed25519_identity_key u p ≡ true
            → (o : Option DeviceIdentity) → identity_of u p.device_id s ≡ o
            → mismatches verify i o ≡ false
            → P (elim o [
              | some e ↦ admitted (refresh_fallback verify u p.device_id i s.identities)
              | none ↦
                  if leb device_limit (length (filter (λ e. str_eq e.user_id u) s.identities))
                  then rolled_back 409
                  else admitted (s.identities ++ identity_row verify u p.device_id i ∷ [])
            ])
        upsert i g none e m =
            if-holds P (leb device_limit (length (filter (λ e. str_eq e.user_id u) s.identities)))
              (λ _. stop 409) (λ _. new i e g)
        upsert i g (some x) e m = old i x e (not-eq-false _ m) g
