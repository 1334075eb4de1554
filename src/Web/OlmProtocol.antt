-- ===== src/Web/OlmProtocol.antt =====
-- apps/web/lib/olm-protocol.ts: what a bundle's signature is over, and which session a message is read in.
-- Olm is a parameter.
use Prim.Native.String
use vortex_reloaded.Base.{
  ℕ, String, Bool, not, ◌&&◌, ◌||◌, List, [], ◌∷◌, Option, none, some, if◌then◌else◌, str_eq,
}

pub record OlmCiphertext : Type 0 where
  pub is_pre_key : Bool
  pub body : String

pub record OlmKeyBundle : Type 0 where
  pub curve25519_identity_key : String
  pub ed25519_identity_key : String
  pub key_id : String
  pub public_key : String
  pub signature : String
  pub is_fallback : Bool

pub record OlmTarget : Type 0 where
  pub user_id : String
  pub device_id : String

pub record PinnedIdentity : Type 0 where
  pub curve25519_identity_key : String
  pub ed25519_identity_key : String

-- What is used of Olm, on pickles, and `JSON.stringify` on an object of texts; `none` where a call throws. A new session from a message comes with the
-- account whose one-time key is removed.
pub record Olm : Type 1 where
  pub Publish : Type 0
  pub create_identity : (seed : ℕ) → (user device : String) → Option (String × Publish)
  pub published_identity : Publish → PinnedIdentity
  pub identity_keys : (account : String) → Option PinnedIdentity
  pub one_time_keys :
      (seed : ℕ) → (account user device : String) → (count : ℕ) → Option (String × List String)
  pub ed25519_verify : (key payload signature : String) → Bool
  pub stringify : (object : List (String × String)) → String
  pub create_outbound : (seed : ℕ) → (account identity_key one_time_key : String) → Option String
  pub encrypt : (seed : ℕ) → (session plaintext : String) → Option (String × OlmCiphertext)
  pub matches_inbound : (session body : String) → Bool
  pub matches_inbound_from : (identity_key session body : String) → Bool
  pub create_inbound : (account body : String) → Option (String × String)
  pub create_inbound_from : (identity_key account body : String) → Option (String × String)
  pub decrypt : (session : String) → OlmCiphertext → Option (String × String)

unfoldable pub target_key : OlmTarget → String
target_key target = String.◌++◌ target.user_id (String.◌++◌ ":" target.device_id)

unfoldable pub same_identity : PinnedIdentity → PinnedIdentity → Bool
same_identity a b =
    str_eq a.curve25519_identity_key b.curve25519_identity_key
    && str_eq a.ed25519_identity_key b.ed25519_identity_key

abbrev pub identity_of : OlmKeyBundle → PinnedIdentity
identity_of b = record {
  curve25519_identity_key = b.curve25519_identity_key;
  ed25519_identity_key = b.ed25519_identity_key;
}

-- A text counts as given if it is there and not empty.
abbrev pub given : Option String → Option String
given none = none
given (some s) = if str_eq s "" then none else some s

module _ (o : Olm) where
  unfoldable pub canonical_one_time_key_payload : (user device key_id public_key : String) → String
  canonical_one_time_key_payload user device key_id public_key =
      o.stringify (
        ("userId", user)
        ∷ ("deviceId", device)
        ∷ ("keyId", key_id)
        ∷ ("publicKey", public_key)
        ∷ [])

  unfoldable pub canonical_fallback_key_payload : (user device key_id public_key : String) → String
  canonical_fallback_key_payload user device key_id public_key = o.stringify (
      ("userId", user)
      ∷ ("deviceId", device)
      ∷ ("keyId", key_id)
      ∷ ("publicKey", public_key)
      ∷ ("kind", "fallback")
      ∷ [])

  abbrev payload_of : OlmTarget → OlmKeyBundle → String
  payload_of target b =
      if b.is_fallback
      then canonical_fallback_key_payload target.user_id target.device_id b.key_id b.public_key
      else canonical_one_time_key_payload target.user_id target.device_id b.key_id b.public_key

  unfoldable pub verify_key_bundle_signature : OlmTarget → OlmKeyBundle → Bool
  verify_key_bundle_signature target b =
      o.ed25519_verify b.ed25519_identity_key (payload_of target b) b.signature

  -- With the session that the message is read in: the account, the session and the text.
  abbrev read_in : (account session : String) → OlmCiphertext → Option (String × String × String)
  read_in account session c = elim (o.decrypt session c) [
    | none ↦ none
    | some (session', text) ↦ some (account, session', text)
  ]

  abbrev create_inbound_session :
      (account : String) → OlmCiphertext → (expected : Option String) → Option (String × String)
  create_inbound_session account c none = o.create_inbound account c.body
  create_inbound_session account c (some key) = o.create_inbound_from key account c.body

  -- `decryptMessage` without a session.
  unfoldable pub decrypt_new :
      (account : String)
      → OlmCiphertext
      → (expected : Option String) → Option (String × String × String)
  decrypt_new account c expected =
      if not c.is_pre_key then none else (elim (create_inbound_session account c (given expected)) [
        | none ↦ none
        | some (account', session) ↦ read_in account' session c
      ])

  abbrev pub matches_existing :
      (session : String) → OlmCiphertext → (expected : Option String) → Bool
  matches_existing session c expected = not c.is_pre_key || (elim (given expected) [
    | some key ↦ o.matches_inbound_from key session c.body
    | none ↦ o.matches_inbound session c.body
  ])

  unfoldable pub decrypt_message :
      (account : String)
      → (session : Option String) → OlmCiphertext
      → (expected : Option String) → Option (String × String × String)
  unfolding decrypt_new
  decrypt_message account none c expected = decrypt_new account c expected
  decrypt_message account (some session) c expected =
      if matches_existing session c expected
      then read_in account session c
      else decrypt_new account c expected
