-- ===== src/Web/OlmKeys/Claim.antt =====
-- apps/web/app/api/dm/olm/keys/claim/route.ts: a key of another's device is handed out.
use vortex_reloaded.Base.{
  ℕ, String, Bool, true, not, ◌&&◌, List, Option, none, some, find, map, if◌then◌else◌,
}
use vortex_reloaded.Signal.Value.{Value, get, as_nonempty}
use vortex_reloaded.Web.OlmKeys.{
  Patterns, valid_device_id, OneTimeKey, DeviceIdentity, StoredKey, KeyStore, is_slot, is_unclaimed,
  identity_of,
}

-- What the caller gets: an error, a one-time key, or the fallback key of a device without any left.
pub data Claimed : Type 0 where
  failed : (status : ℕ) → Claimed
  handed : DeviceIdentity → OneTimeKey → Claimed
  fell_back : DeviceIdentity → Claimed

abbrev pub consume : (user device key_id : String) → List StoredKey → List StoredKey
consume u d i =
    map (λ k. if is_slot u d i k && not k.consumed then record k { consumed = true } else k)

-- The oldest unclaimed key, if there is one.
unfoldable pub take_key :
    (user device : String) → DeviceIdentity → Option StoredKey → KeyStore → KeyStore × Claimed
take_key u d e none s = (s, fell_back e)
take_key u d e (some k) s = (record s { keys = consume u d k.key.key_id s.keys }, handed e k.key)

-- `writes`: the transaction does not throw.
unfoldable pub claim_of :
    (writes : Bool) → (user device : String) → Option DeviceIdentity → KeyStore → KeyStore × Claimed
unfolding take_key
claim_of writes u d none s = (s, failed 404)
claim_of writes u d (some e) s =
    if writes then take_key u d e (find (is_unclaimed u d) s.keys) s else (s, failed 500)

-- The target of the body, if that is valid. `reads`: the query for the identity does not throw.
unfoldable pub claim_key :
    (reads writes : Bool) → Option (String × String) → KeyStore → KeyStore × Claimed
unfolding claim_of
claim_key reads writes none s = (s, failed 400)
claim_key reads writes (some (u, d)) s =
    if reads then claim_of writes u d (identity_of u d s) s else (s, failed 500)

pub record ClaimRequest : Type 0 where
  pub user : Option String
  pub limited : Bool
  pub body : Option Value
  pub reads : Bool
  pub writes : Bool

-- The user and the device whose key is wanted.
unfoldable pub target_of : Patterns → Value → Option (String × String)
unfolding get
target_of re body = elim (as_nonempty (get "targetUserId" body)) [
  | none ↦ none
  | some u ↦ elim (valid_device_id re (get "targetDeviceId" body)) [
    | none ↦ none
    | some d ↦ some (u, d)
  ]
]

unfoldable pub post_claim : Patterns → ClaimRequest → KeyStore → KeyStore × Claimed
unfolding target_of claim_key
post_claim re q s = elim q.user [
  | none ↦ (s, failed 401)
  | some caller ↦ if q.limited then (s, failed 429) else (elim q.body [
    | none ↦ (s, failed 400)
    | some body ↦ claim_key q.reads q.writes (target_of re body) s
  ])
]
