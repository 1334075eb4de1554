-- ===== src/Web/Invites.antt =====
-- apps/web/lib/auth/invites.ts: the check and the redemption of an invite code, over the table of
-- invites. A code is given as `normalizeInviteCode` leaves it; times are ISO texts.
pub mod Laws
use Prim.Native.String.{compare}
use Prim.Native.Nat.{Ordering}
use vortex_reloaded.Base.{
  ℕ, ◌+◌, String, Bool, true, false, not, ◌&&◌, ◌||◌, List, [], ◌∷◌, Option, none, some, ltb, leb,
  find, any, map, if◌then◌else◌, str_eq, is_some,
}

pub record Invite : Type 0 where
  pub code : String
  pub revoked_at : Option String
  pub expires_at : Option String
  pub max_uses : ℕ
  pub use_count : ℕ

pub data Validation : Type 0 where
  valid not_found revoked expired exhausted : Validation

-- `a > b` on texts.
unfoldable pub text_gt : String → String → Bool
text_gt a b = elim (compare a b) [ Ordering.gt ↦ true | _ ↦ false ]

-- A column counts as set if it is neither null nor empty.
abbrev pub is_set : Option String → Bool
is_set none = false
is_set (some s) = not (str_eq s "")

abbrev pub has_expired : (now : String) → Option String → Bool
has_expired now none = false
has_expired now (some s) = not (str_eq s "") && not (text_gt s now)

unfoldable pub find_code : String → List Invite → Option Invite
find_code code invites = find (λ i. str_eq i.code code) invites

unfoldable pub check_invite_code : (now code : String) → List Invite → Validation
unfolding find_code
check_invite_code now code invites =
    if str_eq code "" then not_found else (elim (find_code code invites) [
      | none ↦ not_found
      | some i ↦
          if is_set i.revoked_at
          then revoked
          else if has_expired now i.expires_at
          then expired
          else if leb i.max_uses i.use_count
          then exhausted
          else valid
    ])

-- The conditions of the update.
unfoldable pub is_usable : (now : String) → Invite → Bool
is_usable now i =
    not (is_some i.revoked_at)
    && (ltb i.use_count i.max_uses && (elim i.expires_at [ none ↦ true | some s ↦ text_gt s now ]))

unfoldable pub use_matching : (now code : String) → List Invite → List Invite
unfolding is_usable
use_matching now code [] = []
use_matching now code (i ∷ is) =
    let rest = use_matching now code is in
    if str_eq i.code code && is_usable now i
    then record i { use_count = i.use_count + 1 } ∷ rest
    else i ∷ rest

unfoldable pub consume_invite_code : (now code : String) → List Invite → List Invite × Bool
unfolding use_matching is_usable
consume_invite_code now code invites =
    if str_eq code ""
    then (invites, false)
    else (use_matching now code invites, any (λ i. str_eq i.code code && is_usable now i) invites)
