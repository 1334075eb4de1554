-- ===== src/Tests/Keys.antt =====
-- The one-time keys of a device at concrete inputs.
use vortex_reloaded.Base.{
  ◌≤◌, String, ◌≡◌, refl, true, false, List, [], ◌∷◌, some, length, filter, if◌then◌else◌, str_eq,
}
use vortex_reloaded.Base.Sets.{has}
use vortex_reloaded.Signal.Value.{Value, obj, arr, str, property, no_property, element, no_element}
use vortex_reloaded.Web.OlmKeys.{Patterns, DeviceIdentity, KeyStore, identity_of}
use vortex_reloaded.Web.OlmKeys.Once.{KeyCall, publishes, claims, serve_keys}
use vortex_reloaded.Web.OlmKeys.Tombstones.{is_key, serve_keys-once}
use vortex_reloaded.Web.OlmKeys.Pinned.{has_keys, serve_keys-has_keys}

-- "P" stands for a public key, "S" for a signature; any other text has one unit.
abbrev any_text : Patterns
any_text = record {
  is_base64 = λ s. true;
  is_digits = λ s. true;
  units = λ s. if str_eq s "P" then 43 else if str_eq s "S" then 86 else 1;
}

abbrev laptop : DeviceIdentity
laptop = record {
  user_id = "ann";
  device_id = "d1";
  curve25519_identity_key = "C";
  ed25519_identity_key = "E";
  fallback = record { key_id = "0"; public_key = "F"; signature = "S" };
}

abbrev entry : String → Value
entry i = obj (
    property "keyId" (str i)
      (property "publicKey" (str "P") (property "signature" (str "S") no_property)))

abbrev top_up : KeyCall
top_up = publishes (record {
  user = some "ann";
  limited = false;
  throws = false;
  body = some (
      obj (
        property "deviceId" (str "d1")
          (property "oneTimeKeys" (arr (element (entry "7") no_element)) no_property)));
})

abbrev claim : KeyCall
claim = claims (record {
  user = some "bob";
  limited = false;
  reads = true;
  writes = true;
  body = some (
      obj (property "targetUserId" (str "ann") (property "targetDeviceId" (str "d1") no_property)));
})

abbrev one_device : KeyStore
one_device = record { identities = laptop ∷ []; keys = [] }

-- The key is published, claimed, published again, and claimed again.
abbrev replayed : List KeyCall
replayed = top_up ∷ claim ∷ top_up ∷ claim ∷ []

serve_keys-once_example :
    length
      (filter (is_key "ann" "d1" "7") (serve_keys any_text (λ e p s. true) replayed one_device).1)
    ≤ 1
serve_keys-once_example =
    serve_keys-once "ann" "d1" "7" any_text (λ e p s. true) replayed one_device

serve_keys-has_keys_example :
    has_keys "C" "E"
      (identity_of "ann" "d1" (serve_keys any_text (λ e p s. true) replayed one_device).0)
    ≡ true
serve_keys-has_keys_example =
    serve_keys-has_keys (λ e p s. true) any_text replayed one_device "ann" "d1" "C" "E" refl

-- It is handed out indeed.
handed_once :
    length
      (filter (is_key "ann" "d1" "7") (serve_keys any_text (λ e p s. true) replayed one_device).1)
    ≡ 1
unfolding serve_keys has
handed_once = refl
