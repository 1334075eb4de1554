-- ===== src/Web/OlmKeys/Tombstones.antt =====
-- packages/db/src/schema/dm.ts: a consumed one-time key is never deleted, so that it cannot be handed out again.
use mathlib.Core.List.{append-nil}
use vortex_reloaded.Base.{
  ◌≤◌, String, refl, sym, ◌∙◌, ◌≡◌, ◌⊎◌, Bool, true, ◌&&◌, List, [], ◌∷◌, some, find, find-holds,
  filter, length, Bool-cases, inl, inr, arith, str_eq, eq_iff, filter-append,
}
use vortex_reloaded.Web.OlmKeys.{
  Patterns, OneTimeKey, DeviceIdentity, StoredKey, KeyStore, is_unclaimed, identity_of,
}
use vortex_reloaded.Web.OlmKeys.Publish.{Payload}
use vortex_reloaded.Web.OlmKeys.Claim.{Claimed, consume, ClaimRequest, post_claim}
use vortex_reloaded.Web.OlmKeys.Spent.{
  is_spent, insert_keys-is_spent, prune-is_spent, consume-is_spent, handed-is_spent, is_spent-find,
}
use vortex_reloaded.Web.OlmKeys.Once.{
  KeyCall, publishes, claims, given, serve_keys, post_device-cases, post_claim-cases,
}

-- The key `i` of a device.
abbrev pub is_key : (user device key_id : String) → DeviceIdentity × OneTimeKey → Bool
is_key u d i (e, k) = (str_eq e.user_id u && str_eq e.device_id d) && str_eq k.key_id i

identity-names :
    (u d : String) (s : KeyStore) (e : DeviceIdentity)
    → identity_of u d s ≡ some e
    → (e.user_id ≡ u) × (e.device_id ≡ d)
identity-names u d s e h =
    let found = find-holds (λ i. str_eq i.user_id u && str_eq i.device_id d) s.identities e h in
    (ground (arith, found, eq_iff e.user_id u), ground (arith, found, eq_iff e.device_id d))

module _ (u d i : String) where
  -- An answer has nothing of the key; or it has it once, and the key is spent.
  abbrev Fits : KeyStore × Claimed → Type 0
  Fits r =
      (filter (is_key u d i) (given r.1) ≡ [])
      ⊎ ((length (filter (is_key u d i) (given r.1)) ≤ 1) × (is_spent u d i r.0.keys ≡ true))

  claim-Fits :
      (re : Patterns) (verify : (identity : String) → Payload → (signature : String) → Bool)
      (q : ClaimRequest) (s : KeyStore)
      → Fits (post_claim re q s)
  claim-Fits re verify q s =
      post_claim-cases re verify Fits q s (λ a e. inl (rw e refl))
        (λ v w e k own found. elim (Bool-cases (is_key u d i (e, k.key))) [
          | inr other ↦ inl (rw other refl)
          | inl same ↦
              let (name, device) = identity-names v w s e own in
              inr (
                rw same (omega arith),
                taken v w k found (sym name ∙ (eq_iff e.user_id u).0 (ground (arith, same)))
                    (sym device ∙ (eq_iff e.device_id d).0 (ground (arith, same)))
                    ((eq_iff k.key.key_id i).0 (ground (arith, same))),
              )
        ])
    where
      taken :
          (v w : String) (k : StoredKey)
          → find (is_unclaimed v w) s.keys ≡ some k
          → v ≡ u
          → w ≡ d
          → k.key.key_id ≡ i
          → is_spent u d i (consume v w k.key.key_id s.keys) ≡ true
      taken v w k found a b c = rw (a, b, c) (handed-is_spent u d i s.keys k (rw (a, b) at found) c)

  -- Once it is spent, an answer has nothing of it, and it stays spent.
  abbrev StaysSpent : KeyStore × Claimed → Type 0
  StaysSpent r = (filter (is_key u d i) (given r.1) ≡ []) × (is_spent u d i r.0.keys ≡ true)

  claim-StaysSpent :
      (re : Patterns) (verify : (identity : String) → Payload → (signature : String) → Bool)
      (q : ClaimRequest) (s : KeyStore)
      → is_spent u d i s.keys ≡ true
      → StaysSpent (post_claim re q s)
  claim-StaysSpent re verify q s h =
      post_claim-cases re verify StaysSpent q s (λ a e. (rw e refl, h))
        (λ v w e k own found.
          (not_given v w e k own found, consume-is_spent u d i v w k.key.key_id s.keys h))
    where
      not_given :
          (v w : String) (e : DeviceIdentity) (k : StoredKey)
          → identity_of v w s ≡ some e
          → find (is_unclaimed v w) s.keys ≡ some k
          → filter (is_key u d i) ((e, k.key) ∷ []) ≡ []
      not_given v w e k own found = elim (Bool-cases (is_key u d i (e, k.key))) [
        | inr other ↦ rw other refl
        | inl same ↦
            let (name, device) = identity-names v w s e own in
            let a : v ≡ u = sym name ∙ (eq_iff e.user_id u).0 (ground (arith, same)) in
            let b : w ≡ d = sym device ∙ (eq_iff e.device_id d).0 (ground (arith, same)) in
            absurd (
              is_spent-find u d i s.keys k (ground (arith, h)) (rw (a, b) at found)
                ((eq_iff k.key.key_id i).0 (ground (arith, same))))
      ]

  module _ (re : Patterns)
      (verify : (identity : String) → Payload → (signature : String) → Bool) where
    spent-serve_keys :
        (cs : List KeyCall) (s : KeyStore)
        → is_spent u d i s.keys ≡ true
        → filter (is_key u d i) (serve_keys re verify cs s).1 ≡ []
    unfolding serve_keys
    spent-serve_keys [] s h = refl
    spent-serve_keys (publishes q ∷ cs) s h = spent-serve_keys cs _ (
        post_device-cases re verify (λ s. is_spent u d i s.keys ≡ true) q s h
          (λ v p is e.
            prune-is_spent u d i v p.device_id _
              (insert_keys-is_spent u d i v p.device_id p.one_time_keys s.keys h)))
    spent-serve_keys (claims q ∷ cs) s h =
        let (nothing, still) = claim-StaysSpent re verify q s h in
        filter-append (is_key u d i) (given (post_claim re q s).1) _
        ∙ rw nothing (spent-serve_keys cs _ still)

    -- Over any sequence of publications and claims by whichever clients, repeated or replayed, from any
    -- content of the tables, a one-time key of a device is handed out at most once.
    pub serve_keys-once :
        (cs : List KeyCall) (s : KeyStore)
        → length (filter (is_key u d i) (serve_keys re verify cs s).1) ≤ 1
    unfolding serve_keys
    serve_keys-once [] s = omega arith
    serve_keys-once (publishes q ∷ cs) s = serve_keys-once cs _
    serve_keys-once (claims q ∷ cs) s =
        rw
          (filter-append (is_key u d i) (given (post_claim re q s).1)
            (serve_keys re verify cs (post_claim re q s).0).1)
          (elim (claim-Fits re verify q s) [
            | inl nothing ↦ rw nothing (serve_keys-once cs (post_claim re q s).0)
            | inr (once, spent) ↦
                rw (spent-serve_keys cs (post_claim re q s).0 spent, append-nil _) once
          ])
