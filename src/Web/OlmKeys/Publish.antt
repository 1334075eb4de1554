-- ===== src/Web/OlmKeys/Publish.antt =====
-- apps/web/app/api/dm/olm/keys/device/route.ts: POST, which registers a device or adds one-time keys.
use vortex_reloaded.Base.{
  ℕ, ◌-◌, String, Bool, true, false, not, ◌&&◌, List, [], ◌∷◌, ◌++◌, Option, none, some, leb, ltb,
  length, filter, any, all, take, map, if◌then◌else◌, str_eq,
}
use vortex_reloaded.Base.Sets.{has}
use vortex_reloaded.Signal.Value.{Value, undefined, get, as_array}
use vortex_reloaded.Web.OlmKeys.{
  Patterns, OneTimeKey, DeviceIdentity, StoredKey, KeyStore, is_slot, is_unclaimed, identity_of,
  key_from, valid_device_id, valid_olm_public_key, valid_olm_signature, valid_olm_key_id,
  validate_one_time_key_entry,
}

abbrev pub device_limit : ℕ
device_limit = 20

abbrev pub max_one_time_keys_per_request : ℕ
max_one_time_keys_per_request = 100

abbrev pub max_stored_one_time_keys : ℕ
max_stored_one_time_keys = 200

-- What the server makes of a valid body; without identity keys it is a top-up.
pub record Identity : Type 0 where
  pub curve25519_identity_key : String
  pub ed25519_identity_key : String
  pub fallback : OneTimeKey

pub record Publication : Type 0 where
  pub device_id : String
  pub identity : Option Identity
  pub one_time_keys : List OneTimeKey

-- The text that is signed, before `JSON.stringify`.
pub data Payload : Type 0 where
  one_time fallback_key : (user device key_id public_key : String) → Payload

abbrev pub is_undefined : Value → Bool
is_undefined undefined = true
is_undefined _ = false

module _ (re : Patterns) where
  unfoldable pub valid_entries : List Value → Option (List OneTimeKey)
  unfolding validate_one_time_key_entry
  valid_entries [] = some []
  valid_entries (v ∷ vs) =
      let rest = valid_entries vs in
      elim (validate_one_time_key_entry re v) [
        | none ↦ none
        | some k ↦ elim rest [ none ↦ none | some ks ↦ some (k ∷ ks) ]
      ]

  unfoldable pub validate_one_time_keys : Value → Option (List OneTimeKey)
  unfolding valid_entries get
  validate_one_time_keys body = elim (as_array (get "oneTimeKeys" body)) [
    | none ↦ none
    | some [] ↦ none
    | some (v ∷ vs) ↦
        if ltb max_one_time_keys_per_request (length (v ∷ vs)) then none else valid_entries (v ∷ vs)
  ]

  abbrev pub identity_from :
      (curve ed : Option String) → (fallback : Option OneTimeKey) → Option Identity
  identity_from (some c) (some e) (some f) =
      some (record { curve25519_identity_key = c; ed25519_identity_key = e; fallback = f })
  identity_from _ _ _ = none

  -- `none` if the identity part of the body is not valid, `some none` if it has none.
  unfoldable pub validate_identity : Value → Option (Option Identity)
  unfolding get
  validate_identity body =
      if is_undefined (get "curve25519IdentityKey" body)
        && is_undefined (get "ed25519IdentityKey" body)
      then some none
      else (elim (identity_from (valid_olm_public_key re (get "curve25519IdentityKey" body))
          (valid_olm_public_key re (get "ed25519IdentityKey" body))
          (key_from re (valid_olm_key_id re (get "fallbackKeyId" body))
            (valid_olm_public_key re (get "fallbackPublicKey" body))
            (valid_olm_signature re (get "fallbackSignature" body)))) [
              | none ↦ none
              | some i ↦ some (some i)
            ])

  unfoldable pub validate_body : Value → Option Publication
  unfolding validate_one_time_keys validate_identity get
  validate_body body = elim (valid_device_id re (get "deviceId" body)) [
    | none ↦ none
    | some d ↦ elim (validate_identity body) [
      | none ↦ none
      | some i ↦ elim (validate_one_time_keys body) [
        | none ↦ none
        | some ks ↦ some (record { device_id = d; identity = i; one_time_keys = ks })
      ]
    ]
  ]

-- A conflict with the primary key does nothing.
abbrev pub insert_key : (user device : String) → OneTimeKey → List StoredKey → List StoredKey
insert_key u d k ks =
    if any (is_slot u d k.key_id) ks
    then ks
    else ks ++ record { user_id = u; device_id = d; key = k; consumed = false } ∷ []

unfoldable pub insert_keys :
    (user device : String) → List OneTimeKey → List StoredKey → List StoredKey
insert_keys u d [] ks = ks
insert_keys u d (k ∷ more) ks = insert_keys u d more (insert_key u d k ks)

-- The oldest unclaimed keys beyond the limit.
abbrev pub stale_ids : (user device : String) → List StoredKey → List String
stale_ids u d ks =
    let unclaimed = filter (is_unclaimed u d) ks in
    map (λ k. k.key.key_id) (take (length unclaimed - max_stored_one_time_keys) unclaimed)

unfoldable pub prune : (user device : String) → List StoredKey → List StoredKey
prune u d ks =
    let stale = stale_ids u d ks in
    filter (λ k. not (is_unclaimed u d k && has k.key.key_id stale)) ks

-- `verify` is the Ed25519 check of a signature by an identity key.
module _ (verify : (identity : String) → Payload → (signature : String) → Bool) where
  abbrev pub verify_one_time_key_signature : (identity user device : String) → OneTimeKey → Bool
  verify_one_time_key_signature e u d k = verify e (one_time u d k.key_id k.public_key) k.signature

  abbrev pub verify_fallback_key_signature : (identity user device : String) → OneTimeKey → Bool
  verify_fallback_key_signature e u d k =
      verify e (fallback_key u d k.key_id k.public_key) k.signature

  -- The status with which the transaction rolls back, or the identities it leaves.
  pub data Admitted : Type 0 where
    rolled_back : ℕ → Admitted
    admitted : List DeviceIdentity → Admitted

  abbrev pub is_same_identity : Identity → DeviceIdentity → Bool
  is_same_identity i e =
      str_eq e.curve25519_identity_key i.curve25519_identity_key
      && str_eq e.ed25519_identity_key i.ed25519_identity_key

  abbrev pub identity_row : (user device : String) → Identity → DeviceIdentity
  identity_row u d i = record {
    user_id = u;
    device_id = d;
    curve25519_identity_key = i.curve25519_identity_key;
    ed25519_identity_key = i.ed25519_identity_key;
    fallback = i.fallback;
  }

  abbrev pub is_device : (user device : String) → DeviceIdentity → Bool
  is_device u d i = str_eq i.user_id u && str_eq i.device_id d

  -- The conflict on the primary key replaces the fallback key alone.
  abbrev pub refresh_fallback :
      (user device : String) → Identity → List DeviceIdentity → List DeviceIdentity
  refresh_fallback u d i =
      map (λ e. if is_device u d e then record e { fallback = i.fallback } else e)

  unfoldable pub admit_top_up : (user : String) → Publication → KeyStore → Admitted
  admit_top_up u p s = elim (identity_of u p.device_id s) [
    | none ↦ rolled_back 409
    | some e ↦
        if all (verify_one_time_key_signature e.ed25519_identity_key u p.device_id) p.one_time_keys
        then admitted s.identities
        else rolled_back 400
  ]

  abbrev pub upserted : (user : String) → Publication → Identity → KeyStore → Admitted
  upserted u p i s = elim (identity_of u p.device_id s) [
    | some e ↦ admitted (refresh_fallback u p.device_id i s.identities)
    | none ↦
        if leb device_limit (length (filter (λ e. str_eq e.user_id u) s.identities))
        then rolled_back 409
        else admitted (s.identities ++ identity_row u p.device_id i ∷ [])
  ]

  abbrev pub mismatches : Identity → Option DeviceIdentity → Bool
  mismatches i none = false
  mismatches i (some e) = not (is_same_identity i e)

  unfoldable pub admit_identity : (user : String) → Publication → Identity → KeyStore → Admitted
  admit_identity u p i s =
      if mismatches i (identity_of u p.device_id s)
      then rolled_back 409
      else if not (verify_fallback_key_signature i.ed25519_identity_key u p.device_id i.fallback)
      then rolled_back 400
      else if not
          (all (verify_one_time_key_signature i.ed25519_identity_key u p.device_id) p.one_time_keys)
      then rolled_back 400
      else upserted u p i s

  unfoldable pub admit : (user : String) → Publication → KeyStore → Admitted
  unfolding admit_top_up admit_identity
  admit u p s = elim p.identity [ none ↦ admit_top_up u p s | some i ↦ admit_identity u p i s ]

  -- `throws`: the transaction fails for another reason.
  unfoldable pub commit :
      (throws : Bool) → (user : String) → Publication → Admitted → KeyStore → KeyStore × Option ℕ
  unfolding insert_keys prune
  commit throws u p (rolled_back status) s = (s, some status)
  commit throws u p (admitted is) s = if throws then (s, some 500) else (
    record {
      identities = is;
      keys = prune u p.device_id (insert_keys u p.device_id p.one_time_keys s.keys);
    },
    none,
  )

  unfoldable pub publish_keys :
      (throws : Bool) → (user : String) → Option Publication → KeyStore → KeyStore × Option ℕ
  unfolding admit commit
  publish_keys throws u none s = (s, some 400)
  publish_keys throws u (some p) s = commit throws u p (admit u p s) s

-- `body` is `none` if it is no JSON.
pub record DeviceRequest : Type 0 where
  pub user : Option String
  pub limited : Bool
  pub body : Option Value
  pub throws : Bool

module _ (re : Patterns)
    (verify : (identity : String) → Payload → (signature : String) → Bool) where
  unfoldable pub post_body :
      (throws : Bool) → (user : String) → Option Value → KeyStore → KeyStore × Option ℕ
  unfolding validate_body publish_keys
  post_body throws u none s = (s, some 400)
  post_body throws u (some body) s = publish_keys verify throws u (validate_body re body) s

  -- The status of the error, if there is one.
  unfoldable pub post_device : DeviceRequest → KeyStore → KeyStore × Option ℕ
  unfolding post_body
  post_device q s = elim q.user [
    | none ↦ (s, some 401)
    | some u ↦ if q.limited then (s, some 429) else post_body q.throws u q.body s
  ]
