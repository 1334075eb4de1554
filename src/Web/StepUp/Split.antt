-- ===== src/Web/StepUp/Split.antt =====
-- `split(":")` on the texts of apps/web/lib/auth/step-up.ts.
use Prim.Native.Char.{Char}
use Prim.Native.String.append
use Prim.Native.String
use Prim.Native.String.{[] as []ˢ, ◌∷◌ as ◌∷ˢ◌}
use text.Mathlib.TextLemmas.{append_assoc}
use vortex_reloaded.Base.{
  String, ◌≡◌, refl, ap, ◌∙◌, Bool, false, ◌||◌, List, [], ◌∷◌, if◌then◌else◌, str_eq, Bool-cases,
  inl, inr, arith,
}

abbrev pub is_colon : Char → Bool
is_colon c = str_eq (c ∷ˢ []ˢ) ":"

unfoldable pub has_colon : String → Bool
has_colon []ˢ = false
has_colon (c ∷ˢ s) = is_colon c || has_colon s

abbrev pub onto_first : Char → List String → List String
onto_first c [] = (c ∷ˢ []ˢ) ∷ []
onto_first c (s ∷ ss) = (c ∷ˢ s) ∷ ss

unfoldable pub split : String → List String
split []ˢ = []ˢ ∷ []
split (c ∷ˢ s) = let rest = split s in if is_colon c then []ˢ ∷ rest else onto_first c rest

split-last : (s : String) → has_colon s ≡ false → split s ≡ s ∷ []
unfolding split has_colon
split-last []ˢ h = refl
split-last (c ∷ˢ s) h = elim (Bool-cases (is_colon c)) [
  | inl e ↦ ground (arith, h, e)
  | inr e ↦ rw (e, split-last s (ground (arith, h, e))) refl
]

pub split-first :
    (s rest : String)
    → has_colon s ≡ false
    → split (String.◌++◌ s (String.◌++◌ ":" rest)) ≡ s ∷ split rest
unfolding split has_colon
split-first []ˢ rest h = ap split (
    append.nil (String.◌++◌ ":" rest)
    ∙ append.cons ":" []ˢ rest
    ∙ ap (λ s. ":" ∷ˢ s) (append.nil rest))
split-first (c ∷ˢ s) rest h = elim (Bool-cases (is_colon c)) [
  | inl e ↦ ground (arith, h, e)
  | inr e ↦
      rw
        (
          append.cons c s (String.◌++◌ ":" rest),
          split,
          e,
          split-first s rest (ground (arith, h, e)),
        )
        refl
]

-- Three parts without colons, joined by colons, are what comes out.
pub split-joined :
    (a b c : String)
    → has_colon a ≡ false
    → has_colon b ≡ false
    → has_colon c ≡ false
    → split (String.◌++◌ (String.◌++◌ (String.◌++◌ (String.◌++◌ a ":") b) ":") c) ≡ a ∷ b ∷ c ∷ []
split-joined a b c h k l =
    ap split (regroup a b c)
    ∙ split-first a (String.◌++◌ b (String.◌++◌ ":" c)) h
    ∙ ap (λ ss. a ∷ ss) (split-first b c k ∙ ap (λ ss. b ∷ ss) (split-last c l))
  where
    regroup :
        (a b c : String)
        → String.◌++◌ (String.◌++◌ (String.◌++◌ (String.◌++◌ a ":") b) ":") c
          ≡ String.◌++◌ a (String.◌++◌ ":" (String.◌++◌ b (String.◌++◌ ":" c)))
    regroup a b c = simp (append_assoc) refl
