-- ===== src/Web/Blocking.antt =====
-- apps/web/lib/social-block-policy.ts and apps/web/lib/blocking.ts: who is blocked for whom.
pub mod Laws
use vortex_reloaded.Base.{
  String, Bool, true, false, not, ◌&&◌, ◌||◌, List, [], ◌∷◌, Option, none, some, filter,
  if◌then◌else◌, str_eq,
}
use vortex_reloaded.Base.Sets.{has, add}
use vortex_reloaded.Web.Friends.{Friendship, Rows, is_blocked}

-- One round of the loop: `a && b` of the source also wants the other id not to be empty.
add_other : (user mine other : String) → List String → List String
add_other user mine other s = if str_eq mine user && not (str_eq other "") then add other s else s

derive_from : (user : String) → List String → Rows → List String
derive_from user s [] = s
derive_from user s (r ∷ rows) =
    derive_from user
      (if is_blocked r.status
        then add_other user r.addressee_id r.requester_id
            (add_other user r.requester_id r.addressee_id s)
        else s)
      rows

unfoldable pub derive_blocked_user_ids : (user : String) → Rows → List String
unfolding derive_from add_other
derive_blocked_user_ids user rows = derive_from user [] rows

-- The rows that the queries select.
abbrev pub blocked_rows_of : String → Rows → Rows
blocked_rows_of user rows =
    filter (λ r. is_blocked r.status && (str_eq r.requester_id user || str_eq r.addressee_id user))
      rows

unfoldable pub is_blocked_between_users : (left right : String) → Rows → Bool
is_blocked_between_users left right rows =
    if str_eq left "" || str_eq right "" || str_eq left right
    then false
    else has right (derive_blocked_user_ids left (blocked_rows_of left rows))

unfoldable pub filter_blocked_user_ids {ℓ} :
    {T : Type ℓ} → List T → (T → Option String) → (blocked : List String) → List T
filter_blocked_user_ids items get_user_id [] = items
filter_blocked_user_ids items get_user_id (b ∷ bs) =
    filter
      (λ item. elim (get_user_id item) [
        | none ↦ true
        | some id ↦ str_eq id "" || not (has id (b ∷ bs))
      ])
      items

unfoldable pub distinct_candidates : (user : String) → List String → List String → List String
distinct_candidates user s [] = s
distinct_candidates user s (c ∷ cs) =
    distinct_candidates user (if str_eq c "" || str_eq c user then s else add c s) cs

-- `none` where the query throws.
unfoldable pub get_blocked_user_ids_for_viewer :
    (user : String) → (candidates : List String) → Option Rows → Option (List String)
unfolding distinct_candidates
get_blocked_user_ids_for_viewer user candidates table =
    if str_eq user "" then some [] else (elim table [
      | none ↦ none
      | some rows ↦
          let blocked = derive_blocked_user_ids user (blocked_rows_of user rows) in
          elim (distinct_candidates user [] candidates) [
            | [] ↦ some blocked
            | c ∷ cs ↦ some (filter (λ id. has id blocked) (c ∷ cs))
          ]
    ])
