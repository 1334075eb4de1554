-- ===== src/Tests/Reauthentication.antt =====
-- Step-up tokens with one signature for everything and times in strokes.
use Prim.Native.String.count
use Prim.Native.String.{◌∷◌ as ◌∷ˢ◌, count}
use text.Mathlib.TextLemmas.{cons≢nil}
use vortex_reloaded.Base.{
  Bool-cases, inl, inr, ℕ, zero, suc, ◌-◌, String, ◌≡◌, refl, ap, ◌∙◌, true, false, ◌&&◌, [], ◌∷◌,
  some, none, arith, str_eq, eq_iff, leb,
}
use vortex_reloaded.Base.Sets.{has}
use vortex_reloaded.Web.StepUp.{
  TokenText, Environment, issue_step_up_token, has_valid_step_up_token, step_up_secrets, cookie_of,
  payload_of,
}
use vortex_reloaded.Web.StepUp.Split.{split, has_colon}
use vortex_reloaded.Web.StepUp.Laws.{
  IsProof, has_valid_step_up_token-issue, has_valid_step_up_token-IsProof,
}

strokes : ℕ → String
strokes zero = "x"
strokes (suc n) = "x" ∷ˢ strokes n

count-strokes : (n : ℕ) → count (strokes n) ≡ suc n
unfolding strokes
count-strokes zero = refl
count-strokes (suc n) = count.cons "x" (strokes n) ∙ ap suc (count-strokes n)

strokes-nonempty : (n : ℕ) → str_eq (strokes n) "" ≡ false
unfolding strokes
strokes-nonempty zero = refl
strokes-nonempty (suc n) = elim (Bool-cases (str_eq (strokes (suc n)) "")) [
  | inr e ↦ e
  | inl e ↦ absurd (cons≢nil ((eq_iff (strokes (suc n)) "").0 e))
]

strokes-colon : (n : ℕ) → has_colon (strokes n) ≡ false
unfolding strokes has_colon
strokes-colon zero = refl
strokes-colon (suc n) = strokes-colon n

abbrev unsigned : TokenText
unsigned = record {
  hmac = λ secret payload. "h";
  is_hex_64 = λ s. str_eq s "h";
  show = strokes;
  number = λ s. some (count s - 1);
  hmac_is_hex_64 = λ secret payload. refl;
  hex_nonempty = refl;
  hex_no_colon = λ s h. rw ((eq_iff s "h").0 h) (unfold has_colon in refl);
  show_nonempty = strokes-nonempty;
  show_no_colon = strokes-colon;
  number_show = λ n. rw (count-strokes n) (ap some (omega arith));
}

abbrev before_rotation : Environment
before_rotation = record {
  step_up_secret = some "k1";
  step_up_secret_prev = none;
  is_production = true;
}

abbrev after_rotation : Environment
after_rotation = record {
  step_up_secret = some "k2";
  step_up_secret_prev = some "k1";
  is_production = true;
}

abbrev cookie : String
cookie = cookie_of (payload_of "ann" (strokes 3)) "h"

has_valid_step_up_token-issue_example :
    has_valid_step_up_token unsigned after_rotation 5 "ann" (some cookie)
    ≡ (str_eq "ann" "ann" && leb 5 600003)
has_valid_step_up_token-issue_example =
    has_valid_step_up_token-issue unsigned before_rotation after_rotation 3 5 "ann" "ann" "k1" "k2"
      ("k2" ∷ "k1" ∷ []) ("k1" ∷ []) cookie 600003 (unfold issue_step_up_token in refl)
      (unfold step_up_secrets in refl) (unfold step_up_secrets in refl) (unfold has in refl)
      (λ e. cc e) (unfold has_colon in refl) (omega arith)

has_valid_step_up_token-IsProof_example : IsProof unsigned ("k1" ∷ []) 5 "ann" (split cookie)
has_valid_step_up_token-IsProof_example =
    has_valid_step_up_token-IsProof unsigned before_rotation 5 "ann" cookie "k1" ("k1" ∷ [])
      (unfold step_up_secrets in refl)
      (has_valid_step_up_token-issue unsigned before_rotation before_rotation 3 5 "ann" "ann" "k1"
        "k1" ("k1" ∷ []) ("k1" ∷ []) cookie 600003 (unfold issue_step_up_token in refl)
        (unfold step_up_secrets in refl) (unfold step_up_secrets in refl) (unfold has in refl)
        (λ e. cc e) (unfold has_colon in refl) (omega arith))
