-- ===== src/Web/OlmKeys/Once.antt =====
-- The requests of all clients, one after the other, and the one-time keys that they are handed.
use vortex_reloaded.Base.{
  ℕ, String, refl, ◌≡◌, Bool, List, [], ◌∷◌, ◌++◌, Option, none, some, find, Option-cases, inl, inr,
  if-holds,
}
use vortex_reloaded.Signal.Value.{Value}
use vortex_reloaded.Web.OlmKeys.{
  Patterns, OneTimeKey, DeviceIdentity, StoredKey, KeyStore, is_unclaimed, identity_of,
}
use vortex_reloaded.Web.OlmKeys.Publish.{
  DeviceRequest, Payload, Publication, post_device, post_body, commit, publish_keys, validate_body,
  admit, admitted, rolled_back, Admitted, insert_keys, prune,
}
use vortex_reloaded.Web.OlmKeys.Claim.{
  ClaimRequest, Claimed, failed, handed, fell_back, post_claim, claim_key, claim_of, take_key,
  target_of, consume,
}

pub data KeyCall : Type 0 where
  publishes : DeviceRequest → KeyCall
  claims : ClaimRequest → KeyCall

-- The one-time key that an answer holds, with the device it belongs to.
abbrev pub given : Claimed → List (DeviceIdentity × OneTimeKey)
given (failed s) = []
given (handed e k) = (e, k) ∷ []
given (fell_back e) = []

module _ (re : Patterns)
    (verify : (identity : String) → Payload → (signature : String) → Bool) where
  unfoldable pub serve_key : KeyCall → KeyStore → KeyStore × List (DeviceIdentity × OneTimeKey)
  unfolding post_device post_claim
  serve_key (publishes q) s = let (s', status) = post_device re verify q s in (s', [])
  serve_key (claims q) s = let (s', answer) = post_claim re q s in (s', given answer)

  unfoldable pub serve_keys :
      List KeyCall → KeyStore → KeyStore × List (DeviceIdentity × OneTimeKey)
  unfolding serve_key
  serve_keys [] s = (s, [])
  serve_keys (c ∷ cs) s =
      let (s', now) = serve_key c s in let (s'', later) = serve_keys cs s' in (s'', now ++ later)

  module _ {ℓ} (P : KeyStore → Type ℓ) (q : DeviceRequest) (s : KeyStore) where
    -- What the endpoint does to the store: nothing, or what was admitted.
    pub post_device-cases :
        P s
        → ((user : String) (p : Publication) (is : List DeviceIdentity)
            → admit verify user p s ≡ admitted is
            → P (record {
              identities = is;
              keys = prune user p.device_id (insert_keys user p.device_id p.one_time_keys s.keys);
            }))
        → P (post_device re verify q s).0
    unfolding post_device
    post_device-cases h new = elim (Option-cases q.user) [
      | inl n ↦ simp (n, post_device) h
      | inr (u, e) ↦
          simp (e, post_device)
            (if-holds (λ (r : KeyStore × Option ℕ). P r.0) q.limited (λ _. h) (λ _. body u q.body))
    ]
      where
        admission :
            (u : String) (p : Publication) (a : Admitted verify)
            → admit verify u p s ≡ a
            → P (commit verify q.throws u p a s).0
        admission u p (rolled_back status) e = unfold commit in h
        admission u p (admitted is) e =
            unfold commit in
            if-holds (λ (r : KeyStore × Option ℕ). P r.0) q.throws (λ _. h) (λ _. new u p is e)

        valid : (u : String) (o : Option Publication) → P (publish_keys verify q.throws u o s).0
        valid u none = unfold publish_keys in h
        valid u (some p) = unfold publish_keys in admission u p (admit verify u p s) refl

        body : (u : String) (o : Option Value) → P (post_body re verify q.throws u o s).0
        body u none = unfold post_body in h
        body u (some b) = unfold post_body in valid u (validate_body re b)

  module _ {ℓ} (P : KeyStore × Claimed → Type ℓ) (q : ClaimRequest) (s : KeyStore) where
    -- What a claim comes to: no change, or a key that nobody has claimed.
    pub post_claim-cases :
        ((a : Claimed) → given a ≡ [] → P (s, a))
        → ((u d : String) (e : DeviceIdentity) (k : StoredKey)
            → identity_of u d s ≡ some e
            → find (is_unclaimed u d) s.keys ≡ some k
            → P (record s { keys = consume u d k.key.key_id s.keys }, handed e k.key))
        → P (post_claim re q s)
    unfolding post_claim
    post_claim-cases same new = elim (Option-cases q.user) [
      | inl n ↦ simp (n, post_claim) (same (failed 401) refl)
      | inr (c, e) ↦ elim (Option-cases q.body) [
        | inl n ↦
            simp (e, n, post_claim)
              (if-holds P q.limited (λ _. same (failed 429) refl) (λ _. same (failed 400) refl))
        | inr (b, n) ↦
            simp (e, n, post_claim)
              (if-holds P q.limited (λ _. same (failed 429) refl) (λ _. target (target_of re b)))
      ]
    ]
      where
        taken :
            (u d : String) (e : DeviceIdentity)
            → identity_of u d s ≡ some e
            → (o : Option StoredKey) → find (is_unclaimed u d) s.keys ≡ o
            → P (take_key u d e o s)
        taken u d e i none f = unfold take_key in same (fell_back e) refl
        taken u d e i (some k) f = unfold take_key in new u d e k i f

        owner :
            (u d : String) (o : Option DeviceIdentity)
            → identity_of u d s ≡ o
            → P (claim_of q.writes u d o s)
        owner u d none i = unfold claim_of in same (failed 404) refl
        owner u d (some e) i =
            unfold claim_of in
            if-holds P q.writes (λ _. taken u d e i (find (is_unclaimed u d) s.keys) refl)
              (λ _. same (failed 500) refl)

        target : (o : Option (String × String)) → P (claim_key q.reads q.writes o s)
        target none = unfold claim_key in same (failed 400) refl
        target (some (u, d)) =
            unfold claim_key in
            if-holds P q.reads (λ _. owner u d (identity_of u d s) refl)
              (λ _. same (failed 500) refl)
