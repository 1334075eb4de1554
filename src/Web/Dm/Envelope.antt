-- ===== src/Web/Dm/Envelope.antt =====
-- apps/web/app/api/dm/channels/[channelId]/messages/route.ts: the shapes of encrypted content.
use text.Mathlib.Text.{find?}
use vortex_reloaded.Base.{
  ℕ, String, Bool, true, false, not, ◌&&◌, ◌||◌, [], ◌∷◌, Option, none, some, all, is_some,
  if◌then◌else◌, str_eq, ◌==◌,
}
use vortex_reloaded.Signal.Value.{Value, str, num, is_object, get, entries, as_nonempty, as_array}
use vortex_reloaded.Web.Dm.{DmChannel, olm, legacy_ecdh}

-- `v === s` for a text `s`, and `v === n` for a number `n`.
abbrev pub is_str : String → Value → Bool
is_str s (str t) = str_eq t s
is_str s _ = false

abbrev pub is_num : ℕ → Value → Bool
is_num n (num m) = m == n
is_num n _ = false

-- `Number.isInteger(v) && v >= 0`
abbrev pub is_nat : Value → Bool
is_nat (num n) = true
is_nat _ = false

unfoldable pub is_valid_dm_e2ee_envelope : Value → Bool
unfolding get
is_valid_dm_e2ee_envelope v =
    is_object v
    && (is_str "dm-e2ee" (get "kind" v)
        && (is_num 1 (get "version" v)
            && (is_str "AES-GCM" (get "algorithm" v)
                && (is_some (as_nonempty (get "iv" v))
                    && (is_some (as_nonempty (get "ciphertext" v))
                        && is_nat (get "keyVersion" v))))))

unfoldable pub is_valid_olm_ciphertext_shape : Value → Bool
unfolding get
is_valid_olm_ciphertext_shape v =
    is_object v
    && ((is_num 0 (get "type" v) || is_num 1 (get "type" v))
        && is_some (as_nonempty (get "body" v)))

abbrev pub is_device_entry : String × Value → Bool
is_device_entry (key, ct) = is_some (find? key ":") && is_valid_olm_ciphertext_shape ct

-- The entries of an object that is no array, of which there must be one at least.
unfoldable pub are_ciphertexts : Value → Bool
unfolding entries
are_ciphertexts v =
    is_object v
    && (not (is_some (as_array v))
        && (elim (entries v) [ [] ↦ false | e ∷ es ↦ all is_device_entry (e ∷ es) ]))

unfoldable pub is_valid_dm_olm_envelope : Value → Bool
unfolding get are_ciphertexts
is_valid_dm_olm_envelope v =
    is_object v
    && (is_str "dm-olm" (get "kind" v)
        && (is_num 1 (get "v" v)
            && (is_some (as_nonempty (get "senderDeviceId" v))
                && are_ciphertexts (get "ciphertexts" v))))

-- `none`: the content is no JSON. The channel may hold plain text; or its scheme's envelope, a legacy one
-- with the current version of the key.
unfoldable pub is_acceptable : DmChannel → Option Value → Bool
unfolding is_valid_dm_olm_envelope is_valid_dm_e2ee_envelope get
is_acceptable ch parsed =
    if ch.is_encrypted
    then (elim parsed [
      | none ↦ false
      | some v ↦ elim ch.encryption_scheme [
        | olm ↦ is_valid_dm_olm_envelope v
        | legacy_ecdh ↦
            is_valid_dm_e2ee_envelope v && is_num ch.encryption_key_version (get "keyVersion" v)
      ]
    ])
    else true
