-- ===== src/Web/OlmKeys.antt =====
-- apps/web/lib/olm-key-validation.ts and packages/db/src/schema/dm.ts: the public keys that devices publish for
-- others to open sessions with. The check of an Ed25519 signature is a parameter.
pub mod Publish
pub mod Claim
pub mod Spent
pub mod Once
pub mod Tombstones
pub mod Admission
pub mod Pinned
use vortex_reloaded.Base.{
  ℕ, String, Bool, true, false, not, ◌&&◌, ◌||◌, List, [], ◌∷◌, Option, none, some, leb, ltb,
  length, filter, find, if◌then◌else◌, str_eq,
}
use vortex_reloaded.Signal.Value.{Value, as_string, get, is_object, as_array}

-- The tests of a text by the regular expressions of the source, BASE64_RE and /^[0-9]+$/, and its length
-- in UTF-16 units.
pub record Patterns : Type 0 where
  pub is_base64 : String → Bool
  pub is_digits : String → Bool
  pub units : String → ℕ

pub record OneTimeKey : Type 0 where
  pub key_id : String
  pub public_key : String
  pub signature : String

-- A row of `olmDeviceIdentities`.
pub record DeviceIdentity : Type 0 where
  pub user_id : String
  pub device_id : String
  pub curve25519_identity_key : String
  pub ed25519_identity_key : String
  pub fallback : OneTimeKey

-- A row of `olmOneTimeKeys`, in the order of `createdAt`; `consumed` says that `consumedAt` is set.
pub record StoredKey : Type 0 where
  pub user_id : String
  pub device_id : String
  pub key : OneTimeKey
  pub consumed : Bool

pub record KeyStore : Type 0 where
  pub identities : List DeviceIdentity
  pub keys : List StoredKey

abbrev pub is_of : (user device : String) → StoredKey → Bool
is_of u d k = str_eq k.user_id u && str_eq k.device_id d

-- The primary key of a row.
abbrev pub is_slot : (user device key_id : String) → StoredKey → Bool
is_slot u d i k = is_of u d k && str_eq k.key.key_id i

abbrev pub is_unclaimed : (user device : String) → StoredKey → Bool
is_unclaimed u d k = is_of u d k && not k.consumed

abbrev pub identity_of : (user device : String) → KeyStore → Option DeviceIdentity
identity_of u d s = find (λ i. str_eq i.user_id u && str_eq i.device_id d) s.identities

module _ (re : Patterns) where
  abbrev pub text_within : (low high : ℕ) → (String → Bool) → Value → Option String
  text_within low high test v = elim (as_string v) [
    | none ↦ none
    | some s ↦ if (leb low (re.units s) && leb (re.units s) high) && test s then some s else none
  ]

  abbrev pub valid_olm_public_key : Value → Option String
  valid_olm_public_key = text_within 32 64 re.is_base64

  abbrev pub valid_olm_signature : Value → Option String
  valid_olm_signature = text_within 40 128 re.is_base64

  abbrev pub valid_olm_key_id : Value → Option String
  valid_olm_key_id = text_within 1 32 re.is_digits

  abbrev pub valid_device_id : Value → Option String
  valid_device_id = text_within 1 128 (λ s. true)

  -- A key from its three parts, if all are valid.
  abbrev pub key_from : (id public signature : Option String) → Option OneTimeKey
  key_from (some i) (some p) (some s) = some (record { key_id = i; public_key = p; signature = s })
  key_from _ _ _ = none

  unfoldable pub validate_one_time_key_entry : Value → Option OneTimeKey
  unfolding get
  validate_one_time_key_entry v =
      if is_object v
      then key_from (valid_olm_key_id (get "keyId" v)) (valid_olm_public_key (get "publicKey" v))
          (valid_olm_signature (get "signature" v))
      else none
