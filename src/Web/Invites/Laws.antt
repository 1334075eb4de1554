-- ===== src/Web/Invites/Laws.antt =====
-- A code is redeemed exactly when the check calls it valid, and never more often than it may be.
use vortex_reloaded.Base.{
  ℕ, ◌+◌, ◌≤◌, String, ◌≡◌, ◌≢◌, refl, ◌↔◌, Bool, true, false, not, ◌&&◌, List, [], ◌∷◌, Option,
  none, some, arith, any, if◌then◌else◌, str_eq, eq_iff, is_some, Bool-cases, inl, inr, subst, ap,
}
use vortex_reloaded.Web.Invites.{
  Invite, valid, text_gt, is_set, has_expired, find_code, check_invite_code, is_usable,
  use_matching, consume_invite_code,
}

abbrev pub has_code : String → List Invite → Bool
has_code code = any (λ i. str_eq i.code code)

-- The table has each code once.
abbrev pub IsUnique : List Invite → Type 0
IsUnique [] = Unit
IsUnique (i ∷ is) = (has_code i.code is ≡ false) × IsUnique is

-- A date that is there is no empty text.
abbrev pub IsDated : Invite → Type 0
IsDated i = (i.revoked_at ≢ some "") × (i.expires_at ≢ some "")

abbrev used : (now : String) → Invite → Invite
used now i = record i { use_count = if is_usable now i then i.use_count + 1 else i.use_count }

absent-any :
    (now code : String) (is : List Invite)
    → has_code code is ≡ false
    → any (λ i. str_eq i.code code && is_usable now i) is ≡ false
absent-any now code [] h = refl
absent-any now code (i ∷ is) h = ground (arith, absent-any now code is)

-- What a redemption answers.
any-usable :
    (now code : String) (i : Invite) (is : List Invite)
    → IsUnique is
    → find_code code is ≡ some i
    → any (λ j. str_eq j.code code && is_usable now j) is ≡ is_usable now i
unfolding find_code
any-usable now code i [] u h = cc
any-usable now code i (j ∷ is) u h = elim (Bool-cases (str_eq j.code code)) [
  | inl e ↦
      let same : j ≡ i = ground arith in
      let gone : has_code code is ≡ false =
        subst (λ c. has_code c is ≡ false) ((eq_iff j.code code).0 e) u.0 in
      ground (arith, absent-any now code is gone)
  | inr e ↦ ground (arith, any-usable now code i is u.1 (rw (e, find_code) at h))
]

use_matching-find :
    (now code : String) (i : Invite) (is : List Invite)
    → find_code code is ≡ some i
    → find_code code (use_matching now code is) ≡ some (used now i)
unfolding find_code use_matching
use_matching-find now code i [] h = cc
use_matching-find now code i (j ∷ is) h = elim (Bool-cases (str_eq j.code code)) [
  | inl e ↦ let same : j ≡ i = ground arith in ground arith
  | inr e ↦ ground (arith, use_matching-find now code i is (rw (e, find_code) at h))
]

use_matching-has_code :
    (now code c : String) (is : List Invite) → has_code c (use_matching now code is) ≡ has_code c is
unfolding use_matching
use_matching-has_code now code c [] = refl
use_matching-has_code now code c (i ∷ is) = ground (arith, use_matching-has_code now code c is)

use_matching-IsUnique :
    (now code : String) (is : List Invite) → IsUnique is → IsUnique (use_matching now code is)
unfolding use_matching
use_matching-IsUnique now code [] h = tt
use_matching-IsUnique now code (i ∷ is) h =
    ground (arith, use_matching-IsUnique now code is h.1, use_matching-has_code now code i.code is)

-- `null` and the empty text are the same where there is no empty text.
is_set-is_some : (o : Option String) → o ≢ some "" → is_set o ≡ is_some o
is_set-is_some none h = refl
is_set-is_some (some s) h = elim (Bool-cases (str_eq s "")) [
  | inl e ↦ absurd (h (ap some ((eq_iff s "").0 e)))
  | inr e ↦ rw e
]

has_expired-dated :
    (now : String) (o : Option String)
    → o ≢ some ""
    → (elim o [ none ↦ true | some s ↦ text_gt s now ]) ≡ not (has_expired now o)
has_expired-dated now none h = refl
has_expired-dated now (some s) h = elim (Bool-cases (str_eq s "")) [
  | inl e ↦ absurd (h (ap some ((eq_iff s "").0 e)))
  | inr e ↦ ground arith
]

-- The check before the form is sent and the redemption agree: at one time, a code that is in the table
-- is redeemed exactly if the check calls it valid. Codes are distinct, and dates are no empty texts.
pub consume_invite_code-check_invite_code :
    (now code : String) (i : Invite) (is : List Invite)
    → IsUnique is
    → find_code code is ≡ some i
    → IsDated i
    → ((consume_invite_code now code is).1 ≡ true) ↔ (check_invite_code now code is ≡ valid)
unfolding consume_invite_code check_invite_code is_usable
consume_invite_code-check_invite_code now code i is u h d = ground (
  arith,
  any-usable now code i is u h,
  is_set-is_some i.revoked_at d.0,
  has_expired-dated now i.expires_at d.1,
)

-- Redemptions of one code, one after the other: the table in the end, and how many succeeded.
unfoldable pub consume_all : (code : String) → (times : List String) → List Invite → List Invite × ℕ
consume_all code [] is = (is, 0)
consume_all code (now ∷ times) is =
    let (is', done) = consume_invite_code now code is in
    let (is'', n) = consume_all code times is' in (is'', if done then n + 1 else n)

used-le :
    (now : String) (i : Invite) → i.use_count ≤ i.max_uses → (used now i).use_count ≤ i.max_uses
unfolding is_usable
used-le now i h = ground arith

-- However many redemptions of a code are tried, at whatever times: those that succeed, with those
-- before, are never more than the code allows. Codes are distinct, and at the start the count is within
-- the limit.
pub consume_all-le :
    (code : String) (times : List String) (i : Invite) (is : List Invite)
    → IsUnique is
    → find_code code is ≡ some i
    → i.use_count ≤ i.max_uses
    → i.use_count + (consume_all code times is).1 ≤ i.max_uses
unfolding consume_all consume_invite_code
consume_all-le code [] i is u h l = omega arith
consume_all-le code (now ∷ times) i is u h l = elim (Bool-cases (str_eq code "")) [
  | inl e ↦ rw e (consume_all-le code times i is u h l)
  | inr e ↦
      let rest =
        consume_all-le code times (used now i) (use_matching now code is)
          (use_matching-IsUnique now code is u) (use_matching-find now code i is h)
          (used-le now i l) in
      rw (e, any-usable now code i is u h) (ground (arith, rest))
]
