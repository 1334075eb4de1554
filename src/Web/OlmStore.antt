-- ===== src/Web/OlmStore.antt =====
-- apps/web/lib/olm-protocol-store.ts: the state of one browser profile, its pinned identities and its
-- sessions, where all pickles and texts are wrapped. AES-GCM is a parameter, and so are the random values
-- that a call draws. Calls run one after the other, and the browser's storage does not fail.
pub mod Calls
pub mod Rules
pub mod Steady
pub mod Pins
pub mod Outbound
pub mod Owners
pub mod Plaintexts
use Prim.Native.String
use Prim.Native.Char.{code}
use vortex_reloaded.Base.{
  Bool, false, ◌==◌, ℕ, String, ◌≡◌, Bool, true, false, not, ◌&&◌, ◌||◌, List, [], ◌∷◌, Option,
  none, some, if◌then◌else◌, str_eq, is_some,
}
use vortex_reloaded.Base.Dict.{Dict, lookup, insert}
use vortex_reloaded.Web.OlmProtocol.{OlmTarget, PinnedIdentity, target_key, same_identity}

-- A call on a state, which keeps what it wrote where it throws.
abbrev pub Call : Type 0 → Type 0 → Type 0
Call S A = S → S × Option A

infixl 5 ◌>>=◌ ◌>>◌
abbrev pub ◌>>=◌ : {S A B : Type 0} → Call S A → (A → Call S B) → Call S B
◌>>=◌ call next b = let (b', r) = call b in elim r [ none ↦ (b', none) | some a ↦ next a b' ]

abbrev pub ◌>>◌ : {S B : Type 0} → Call S (Unit {0}) → Call S B → Call S B
call >> next = call >>= λ _. next

abbrev pub answer : {S A : Type 0} → A → Call S A
answer a b = (b, some a)

-- What is not there, or cannot be unwrapped, throws.
abbrev pub expect : {S A : Type 0} → Option A → Call S A
expect r b = (b, r)

-- Whether a text begins with the byte order mark U+FEFF.
abbrev pub has_mark : String → Bool
has_mark String.[] = false
has_mark (String.◌∷◌ c s) = code c == 65279

-- AES-GCM and the coding of texts as UTF-8. What is encrypted under a key is decrypted under it, and a
-- text is decoded as it was encoded, unless it begins with the byte order mark, which the decoder drops.
pub record Wrapping : Type 1 where
  pub Key : Type 0
  pub Bytes : Type 0
  pub encode : String → Bytes
  pub decode : Bytes → Option String
  pub aes_encrypt : Key → (iv : ℕ) → Bytes → Bytes
  pub aes_decrypt : Key → (iv : ℕ) → Bytes → Option Bytes
  pub decode-encode : (s : String) → has_mark s ≡ false → decode (encode s) ≡ some s
  pub aes_decrypt-encrypt :
      (k : Key) (iv : ℕ) (bytes : Bytes) → aes_decrypt k iv (aes_encrypt k iv bytes) ≡ some bytes

module _ (w : Wrapping) where
  pub record WrappedBlob : Type 0 where
    pub iv : ℕ
    pub ciphertext : w.Bytes

  unfoldable pub wrap_pickle : w.Key → (iv : ℕ) → String → WrappedBlob
  wrap_pickle k iv pickle = record { iv = iv; ciphertext = w.aes_encrypt k iv (w.encode pickle) }

  unfoldable pub unwrap_pickle : w.Key → WrappedBlob → Option String
  unwrap_pickle k blob = elim (w.aes_decrypt k blob.iv blob.ciphertext) [
    | none ↦ none
    | some bytes ↦ w.decode bytes
  ]

  pub unwrap_pickle-wrap_pickle :
      (k : w.Key) (iv : ℕ) (s : String)
      → has_mark s ≡ false
      → unwrap_pickle k (wrap_pickle k iv s) ≡ some s
  unfolding wrap_pickle unwrap_pickle
  unwrap_pickle-wrap_pickle k iv s h =
      rw (wrap_pickle, unwrap_pickle, w.aes_decrypt-encrypt k iv (w.encode s)) (w.decode-encode s h)

  -- The local storage and the database of the browser, where pickles and texts are wrapped.
  pub record Browser : Type 0 where
    pub device_id : Option String
    pub owner_user_id : Option String
    pub wrap_key : Option w.Key
    pub account : Option WrappedBlob
    pub sessions : Dict WrappedBlob
    pub pinned : Dict PinnedIdentity
    pub own_plaintext : Dict WrappedBlob

  -- What a call draws at random.
  pub record Fresh : Type 0 where
    pub key : w.Key
    pub device_id : String
    pub iv : ℕ
    pub session_iv : ℕ
    pub seed : ℕ

  abbrev pub blank : Browser
  blank = record {
    device_id = none;
    owner_user_id = none;
    wrap_key = none;
    account = none;
    sessions = [];
    pinned = [];
    own_plaintext = [];
  }

  abbrev pub Act : Type 0 → Type 0
  Act = Call Browser

  unfoldable pub get_or_create_wrap_key : Fresh → Act w.Key
  get_or_create_wrap_key fresh b = elim b.wrap_key [
    | some k ↦ (b, some k)
    | none ↦ (record b { wrap_key = some fresh.key }, some fresh.key)
  ]

  -- `none` where nothing is stored, and a throw where it cannot be unwrapped.
  abbrev pub unwrap_stored : w.Key → Option WrappedBlob → Option (Option String)
  unwrap_stored k none = some none
  unwrap_stored k (some blob) = elim (unwrap_pickle k blob) [
    | none ↦ none
    | some text ↦ some (some text)
  ]

  unfoldable pub load_account : w.Key → Act (Option String)
  load_account k b = (b, unwrap_stored k b.account)

  unfoldable pub save_account : (iv : ℕ) → w.Key → String → Act (Unit {0})
  save_account iv k pickle b = (record b { account = some (wrap_pickle k iv pickle) }, some tt)

  unfoldable pub load_session : OlmTarget → w.Key → Act (Option String)
  load_session target k b = (b, unwrap_stored k (lookup (target_key target) b.sessions))

  unfoldable pub save_session : (iv : ℕ) → OlmTarget → w.Key → String → Act (Unit {0})
  save_session iv target k pickle b = (
    record b { sessions = insert (target_key target) (wrap_pickle k iv pickle) b.sessions },
    some tt,
  )

  unfoldable pub get_pinned_identity : OlmTarget → Act (Option PinnedIdentity)
  get_pinned_identity target b = (b, some (lookup (target_key target) b.pinned))

  unfoldable pub pin_identity : OlmTarget → PinnedIdentity → Act (Unit {0})
  pin_identity target identity b =
      (record b { pinned = insert (target_key target) identity b.pinned }, some tt)

  -- A throw is the mismatch with an earlier pin.
  abbrev pub check_pinned : OlmTarget → PinnedIdentity → Option PinnedIdentity → Act (Unit {0})
  check_pinned target identity none = pin_identity target identity
  check_pinned target identity (some pinned) =
      if same_identity pinned identity then answer tt else expect none

  unfoldable pub check_and_pin_identity : OlmTarget → PinnedIdentity → Act (Unit {0})
  check_and_pin_identity target identity = do
    pinned ← get_pinned_identity target
    check_pinned target identity pinned

  abbrev pub put_text : Fresh → (message text : String) → w.Key → Act (Unit {0})
  put_text fresh message text k b = (
    record b { own_plaintext = insert message (wrap_pickle k fresh.iv text) b.own_plaintext },
    some tt,
  )

  unfoldable pub save_own_plaintext : Fresh → (message text : String) → Act (Unit {0})
  save_own_plaintext fresh message text = do
    k ← get_or_create_wrap_key fresh
    put_text fresh message text k

  unfoldable pub load_own_plaintext : Fresh → (message : String) → Act (Option String)
  load_own_plaintext fresh message = do
    k ← get_or_create_wrap_key fresh
    λ b. (b, unwrap_stored k (lookup message b.own_plaintext))

  unfoldable pub reset_olm_identity : Act (Unit {0})
  reset_olm_identity b = (blank, some tt)
