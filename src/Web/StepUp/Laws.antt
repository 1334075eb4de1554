-- ===== src/Web/StepUp/Laws.antt =====
-- Who passes with which cookie.
use vortex_reloaded.Base.{
  ℕ, ◌+◌, ◌≤◌, ◌≡◌, ◌≢◌, refl, ap, String, true, false, ◌&&◌, List, [], ◌∷◌, Option, none, some,
  any, leb, str_eq, eq_iff, eq_refl, arith, Bool-cases, inl, inr,
}
use vortex_reloaded.Base.Sets.{has}
use vortex_reloaded.Web.StepUp.Split.{split, has_colon, split-joined}
use vortex_reloaded.Web.StepUp.{
  TokenText, Environment, step_up_secrets, step_up_ttl_ms, payload_of, cookie_of, verify_signature,
  issue_step_up_token, has_valid_parts, has_valid_step_up_token, is_fresh, clear_step_up_token,
}

signed-any :
    (t : TokenText) (secret payload : String) (accepted : List String)
    → has secret accepted ≡ true
    → any (λ s. str_eq (t.hmac secret payload) (t.hmac s payload)) accepted ≡ true
unfolding has
signed-any t secret payload [] h = cc
signed-any t secret payload (s ∷ ss) h = elim (Bool-cases (str_eq s secret)) [
  | inl e ↦ rw ((eq_iff s secret).0 e, eq_refl (t.hmac secret payload)) refl
  | inr e ↦ ground (arith, signed-any t secret payload ss, h, e)
]

hmac-nonempty :
    (t : TokenText) (secret payload : String) → str_eq (t.hmac secret payload) "" ≡ false
hmac-nonempty t secret payload = elim (Bool-cases (str_eq (t.hmac secret payload) "")) [
  | inr e ↦ e
  | inl e ↦
      cc (t.hmac_is_hex_64 secret payload, t.hex_nonempty, (eq_iff (t.hmac secret payload) "").0 e)
]

module _ (t : TokenText) (e e' : Environment) (now later : ℕ) (user other current new : String)
    (accepted old : List String) where
  abbrev token : String
  token = cookie_of (payload_of user (t.show now)) (t.hmac current (payload_of user (t.show now)))

  split-token :
      has_colon user ≡ false
      → split token ≡ user ∷ t.show now ∷ t.hmac current (payload_of user (t.show now)) ∷ []
  split-token h =
      split-joined user (t.show now) (t.hmac current (payload_of user (t.show now))) h
        (t.show_no_colon now)
        (t.hex_no_colon _ (t.hmac_is_hex_64 current (payload_of user (t.show now))))

  token_nonempty : has_colon user ≡ false → str_eq token "" ≡ false
  unfolding split
  token_nonempty h = elim (Bool-cases (str_eq token "")) [
    | inr apart ↦ apart
    | inl same ↦ cc (split-token h, ap split ((eq_iff token "").0 same))
  ]

  -- A token that was issued is accepted, up to the end of its time and not after it, for its own user
  -- and for no other, also when the secret that signed it has meanwhile become the previous one. The user's
  -- id is not empty and has no colon, and the secret is among those that are accepted.
  pub has_valid_step_up_token-issue :
      (cookie : String) (expires : ℕ)
      → issue_step_up_token t e now user ≡ some (cookie, expires)
      → step_up_secrets e ≡ some (current, old)
      → step_up_secrets e' ≡ some (new, accepted)
      → has current accepted ≡ true
      → user ≢ ""
      → has_colon user ≡ false
      → now ≤ later
      → has_valid_step_up_token t e' later other (some cookie)
        ≡ (str_eq user other && leb later expires)
  unfolding issue_step_up_token has_valid_step_up_token verify_signature
  has_valid_step_up_token-issue cookie expires i s s' a n c l =
      let named : str_eq user "" ≡ false = ground (arith, eq_iff user "", n) in
      let signed = signed-any t current (payload_of user (t.show now)) accepted a in
      let verified : verify_signature t accepted (payload_of user (t.show now))
            (t.hmac current (payload_of user (t.show now)))
          ≡ true =
        rw (t.hmac_is_hex_64 current (payload_of user (t.show now))) signed in
      let made = rw (s, issue_step_up_token) at i in
      let text : cookie ≡ token = cc made in
      let until : expires ≡ now + step_up_ttl_ms = cc made in
      rw (text, until, has_valid_step_up_token)
        (rw (token_nonempty c, split-token c, has_valid_step_up_token)
          (rw
            (
              named,
              t.show_nonempty now,
              hmac-nonempty t current (payload_of user (t.show now)),
              s',
              has_valid_parts,
            )
            (rw (verified, t.number_show now) (ground arith))))

-- What a cookie that is accepted has: the user's own id, and, under one of the accepted secrets, the
-- signature of that id with a time no more than ten minutes ago.
abbrev pub IsProof : TokenText → List String → (now : ℕ) → (user : String) → List String → Type 0
IsProof t accepted now user parts =
    (issued : String) × (signature : String) × (more : List String) × (n : ℕ) × (parts
      ≡ user ∷ issued ∷ signature ∷ more)
    × (t.number issued ≡ some n)
    × (now ≤ n + step_up_ttl_ms)
    × (any (λ s. str_eq signature (t.hmac s (payload_of user issued))) accepted ≡ true)

fresh-le :
    (now : ℕ) (o : Option ℕ) (t : TokenText)
    → is_fresh t now o ≡ true
    → (n : ℕ) × (o ≡ some n) × (now ≤ n + step_up_ttl_ms)
fresh-le now none t h = cc
fresh-le now (some n) t h = (n, refl, ground (arith, h))

parts-IsProof :
    (t : TokenText) (e : Environment) (now : ℕ) (user current : String)
    (accepted parts : List String)
    → step_up_secrets e ≡ some (current, accepted)
    → has_valid_parts t e now user parts ≡ true
    → IsProof t accepted now user parts
unfolding has_valid_parts verify_signature
parts-IsProof t e now user current accepted [] s h = cc
parts-IsProof t e now user current accepted (a ∷ []) s h = cc
parts-IsProof t e now user current accepted (a ∷ b ∷ []) s h = cc
parts-IsProof t e now user current accepted (a ∷ b ∷ c ∷ more) s h =
    let checked = rw (s, has_valid_parts) at h in
    let same : a ≡ user = (eq_iff a user).0 (ground (arith, checked)) in
    let (n, number, young) = fresh-le now (t.number b) t (ground (arith, checked)) in
    let signed : any (λ s. str_eq c (t.hmac s (payload_of a b))) accepted ≡ true =
      ground (arith, checked) in
    (b, c, more, n, ap (λ x. x ∷ b ∷ c ∷ more) same, number, young, rw same at signed)

-- No cookie passes but with the user's own id, signed under one of the accepted secrets with a time that is
-- no more than ten minutes ago.
pub has_valid_step_up_token-IsProof :
    (t : TokenText) (e : Environment) (now : ℕ) (user raw current : String) (accepted : List String)
    → step_up_secrets e ≡ some (current, accepted)
    → has_valid_step_up_token t e now user (some raw) ≡ true
    → IsProof t accepted now user (split raw)
unfolding has_valid_step_up_token
has_valid_step_up_token-IsProof t e now user raw current accepted s h =
    parts-IsProof t e now user current accepted (split raw) s (ground (arith, h))

-- Once the cookie is cleared, nobody passes with it.
pub has_valid_step_up_token-clear :
    (t : TokenText) (e : Environment) (now : ℕ) (user : String)
    → has_valid_step_up_token t e now user (some clear_step_up_token.0) ≡ false
unfolding has_valid_step_up_token
has_valid_step_up_token-clear t e now user = refl
