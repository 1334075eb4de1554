-- ===== src/Web/StepUp.antt =====
-- apps/web/lib/auth/step-up.ts: the signed cookie that says that a user has just proven a credential.
pub mod Split
pub mod Laws
use Prim.Native.String
use vortex_reloaded.Web.StepUp.Split.{split, has_colon}
use vortex_reloaded.Base.{
  ℕ, ◌+◌, ◌-◌, ◌*◌, ◌≡◌, ◌≤◌, String, Bool, true, false, not, ◌&&◌, List, [], ◌∷◌, Option, none,
  some, any, leb, if◌then◌else◌, str_eq,
}

abbrev pub step_up_ttl_ms : ℕ
step_up_ttl_ms = 10 * 60 * 1000

-- HMAC-SHA256 in hexadecimal, the test for 64 such digits, and the texts of numbers, with what the code
-- relies on. `number` is `none` for a text of no natural number.
pub record TokenText : Type 0 where
  pub hmac : (secret payload : String) → String
  pub is_hex_64 : String → Bool
  pub show : ℕ → String
  pub number : String → Option ℕ
  pub hmac_is_hex_64 : (secret payload : String) → is_hex_64 (hmac secret payload) ≡ true
  pub hex_nonempty : is_hex_64 "" ≡ false
  pub hex_no_colon : (s : String) → is_hex_64 s ≡ true → has_colon s ≡ false
  pub show_nonempty : (n : ℕ) → str_eq (show n) "" ≡ false
  pub show_no_colon : (n : ℕ) → has_colon (show n) ≡ false
  pub number_show : (n : ℕ) → number (show n) ≡ some n

-- The variables of the environment; `none` where one is not set.
pub record Environment : Type 0 where
  pub step_up_secret : Option String
  pub step_up_secret_prev : Option String
  pub is_production : Bool

abbrev pub current_secret : Option String → Option String
current_secret none = none
current_secret (some s) = if str_eq s "" then none else some s

-- The secret for new signatures and those that are accepted; `none` where the function throws.
unfoldable pub step_up_secrets : Environment → Option (String × List String)
step_up_secrets e = elim (current_secret e.step_up_secret) [
  | none ↦
      if e.is_production then none else some ("local-step-up-secret", "local-step-up-secret" ∷ [])
  | some current ↦ elim (current_secret e.step_up_secret_prev) [
    | none ↦ some (current, current ∷ [])
    | some prev ↦ some (current, current ∷ prev ∷ [])
  ]
]

abbrev pub payload_of : (user issued : String) → String
payload_of user issued = String.◌++◌ (String.◌++◌ user ":") issued

abbrev pub cookie_of : (payload signature : String) → String
cookie_of payload signature = String.◌++◌ (String.◌++◌ payload ":") signature

module _ (t : TokenText) where
  unfoldable pub verify_signature : List String → (payload signature : String) → Bool
  verify_signature secrets payload signature =
      t.is_hex_64 signature && any (λ s. str_eq signature (t.hmac s payload)) secrets

  -- The value of the cookie, and the time at which the browser drops it.
  unfoldable pub issue_step_up_token :
      Environment → (now : ℕ) → (user : String) → Option (String × ℕ)
  unfolding step_up_secrets
  issue_step_up_token e now user = elim (step_up_secrets e) [
    | none ↦ none
    | some (current, accepted) ↦
        let payload = payload_of user (t.show now) in
        some (cookie_of payload (t.hmac current payload), now + step_up_ttl_ms)
  ]

  -- A time in the future counts as fresh, as `Date.now() - issuedAt` is then negative.
  abbrev pub is_fresh : (now : ℕ) → Option ℕ → Bool
  is_fresh now none = false
  is_fresh now (some issued) = leb (now - issued) step_up_ttl_ms

  unfoldable pub has_valid_parts : Environment → (now : ℕ) → (user : String) → List String → Bool
  unfolding step_up_secrets verify_signature
  has_valid_parts e now user (cookie_user ∷ issued ∷ signature ∷ more) =
      if str_eq cookie_user ""
      then false
      else if str_eq issued ""
      then false
      else if str_eq signature ""
      then false
      else if not (str_eq cookie_user user)
      then false
      else (elim (step_up_secrets e) [
        | none ↦ false
        | some (current, accepted) ↦
            verify_signature accepted (payload_of cookie_user issued) signature
            && is_fresh now (t.number issued)
      ])
  has_valid_parts e now user _ = false

  -- What is thrown counts as no valid token.
  unfoldable pub has_valid_step_up_token :
      Environment → (now : ℕ) → (user : String) → (cookie : Option String) → Bool
  unfolding has_valid_parts split
  has_valid_step_up_token e now user none = false
  has_valid_step_up_token e now user (some raw) =
      if str_eq raw "" then false else has_valid_parts e now user (split raw)

-- The value and the time of expiry that overwrite the cookie.
abbrev pub clear_step_up_token : String × ℕ
clear_step_up_token = ("", 0)
