-- ===== src/Web/Friends/Change.antt =====
-- apps/web/app/api/friends/route.ts: PATCH, an answer to a request or a block, and DELETE.
use vortex_reloaded.Base.{String, Bool, ◌&&◌, ◌||◌, [], ◌∷◌, none, some, if◌then◌else◌, str_eq}
use vortex_reloaded.Web.Friends.{
  Friendship, Rows, accepted, blocked, is_pending, Request, fail, request_accepted, Outcome,
  unchanged, written, by_id, update_row, delete_row,
}
use vortex_reloaded.Web.Friends.Post.{accepted_message}

abbrev pub is_involved : String → Friendship → Bool
is_involved user r = str_eq r.requester_id user || str_eq r.addressee_id user

-- A pending row that was sent to the user.
abbrev pub may_answer : String → Friendship → Bool
may_answer user r = str_eq r.addressee_id user && is_pending r.status

unfoldable pub accept : Request → String → Friendship → Rows → Outcome
accept q user r rows =
    if may_answer user r
    then written q.writes (update_row (record r { status = accepted }) rows) rows accepted_message
        (request_accepted r.requester_id ∷ [])
    else unchanged (fail 400) rows

unfoldable pub decline : Request → String → Friendship → Rows → Outcome
decline q user r rows =
    if may_answer user r
    then written q.writes (some (delete_row r.id rows)) rows "Friend request declined" []
    else unchanged (fail 400) rows

-- The one who blocks becomes the requester.
abbrev pub blocked_row : String → Friendship → Friendship
blocked_row user r =
    if str_eq r.requester_id user
    then record r { status = blocked }
    else record r { status = blocked; requester_id = user; addressee_id = r.requester_id }

unfoldable pub block : Request → String → Friendship → Rows → Outcome
block q user r rows = written q.writes (update_row (blocked_row user r) rows) rows "User blocked" []

unfoldable pub act_on : Request → String → (action : String) → Friendship → Rows → Outcome
unfolding accept decline block
act_on q user action r rows =
    if str_eq action "accept"
    then accept q user r rows
    else if str_eq action "decline"
    then decline q user r rows
    else if str_eq action "block"
    then block q user r rows
    else unchanged (fail 400) rows

-- The empty text stands for a missing id or action.
unfoldable pub patch : Request → (id action : String) → Rows → Outcome
unfolding act_on
patch q id action rows = elim q.user [
  | none ↦ unchanged (fail 401) rows
  | some user ↦
      if str_eq id "" || str_eq action ""
      then unchanged (fail 400) rows
      else if q.reads
      then (elim (by_id id rows) [
        | none ↦ unchanged (fail 404) rows
        | some r ↦
            if is_involved user r then act_on q user action r rows else unchanged (fail 403) rows
      ])
      else unchanged (fail 500) rows
]

unfoldable pub remove_friend : Request → (id : String) → Rows → Outcome
remove_friend q id rows = elim q.user [
  | none ↦ unchanged (fail 401) rows
  | some user ↦
      if str_eq id ""
      then unchanged (fail 400) rows
      else if q.reads
      then (elim (by_id id rows) [
        | none ↦ unchanged (fail 404) rows
        | some r ↦
            if is_involved user r
            then written q.writes (some (delete_row id rows)) rows "Removed" []
            else unchanged (fail 403) rows
      ])
      else unchanged (fail 500) rows
]
