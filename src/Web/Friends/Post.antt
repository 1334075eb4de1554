-- ===== src/Web/Friends/Post.antt =====
-- apps/web/app/api/friends/route.ts: POST, a friend request by user name.
use vortex_reloaded.Base.{String, Bool, [], ◌∷◌, Option, none, some, if◌then◌else◌, str_eq}
use vortex_reloaded.Web.Friends.{
  Friendship, Rows, pending, accepted, blocked, Request, ok, fail, request_sent, request_accepted,
  Outcome, unchanged, written, between, by_id, insert_row, update_row,
}

abbrev pub generic_success : String
generic_success = "Friend request sent (if user exists)"

abbrev pub accepted_message : String
accepted_message = "Friend request accepted"

-- The answer of the lookup in `users`: it threw, or it found a user or none.
pub data Lookup : Type 0 where
  threw : Lookup
  found : Option String → Lookup

-- `canonical` is `trim().toLowerCase()`; `username` is `none` if the body has none. `limited` is the
-- answer of the rate limiter, and `fresh` the id of a new row.
pub record PostRequest : Type 0 where
  pub base : Request
  pub limited : Bool
  pub username : Option String
  pub fresh : String

-- The update of one row, as it is when the statement runs; a row that is gone is no error.
abbrev pub set_accepted : (id : String) → Rows → Option Rows
set_accepted id rows = elim (by_id id rows) [
  | none ↦ some rows
  | some r ↦ update_row (record r { status = accepted }) rows
]

module _ (canonical : String → String) (users : String → Lookup) where
  -- An existing row decides, as it was read; `rows` is the table when it is written.
  unfoldable pub post_existing : PostRequest → (target : String) → Friendship → Rows → Outcome
  post_existing q target r rows = elim r.status [
    | accepted ↦ unchanged (ok generic_success) rows
    | blocked ↦ unchanged (ok generic_success) rows
    | pending ↦
        if str_eq r.requester_id target
        then written q.base.writes (set_accepted r.id rows) rows accepted_message
            (request_accepted target ∷ [])
        else unchanged (ok generic_success) rows
  ]

  -- The select and the write are two statements: `meanwhile` is what other requests do in between.
  unfoldable pub post_target :
      PostRequest → (meanwhile : Rows → Rows) → (user target : String) → Rows → Outcome
  unfolding post_existing
  post_target q meanwhile user target rows =
      if str_eq target user
      then unchanged (fail 400) rows
      else if q.base.reads
      then (elim (between user target rows) [
        | some r ↦ post_existing q target r (meanwhile rows)
        | none ↦
            written q.base.writes
              (insert_row
                (record {
                  id = q.fresh;
                  requester_id = user;
                  addressee_id = target;
                  status = pending;
                })
                (meanwhile rows))
              (meanwhile rows) generic_success (request_sent target ∷ [])
      ])
      else unchanged (fail 500) rows

  unfoldable pub post_lookup :
      PostRequest → (meanwhile : Rows → Rows) → (user : String) → Lookup → Rows → Outcome
  post_lookup q meanwhile user threw rows = unchanged (ok generic_success) rows
  post_lookup q meanwhile user (found none) rows = unchanged (ok generic_success) rows
  post_lookup q meanwhile user (found (some target)) rows = post_target q meanwhile user target rows

  post_username :
      PostRequest → (meanwhile : Rows → Rows) → (user : String) → Option String → Rows → Outcome
  post_username q meanwhile user none rows = unchanged (fail 400) rows
  post_username q meanwhile user (some name) rows =
      if str_eq (canonical name) ""
      then unchanged (fail 400) rows
      else post_lookup q meanwhile user (users (canonical name)) rows

  unfoldable pub post : PostRequest → (meanwhile : Rows → Rows) → Rows → Outcome
  unfolding post_username post_lookup post_target
  post q meanwhile rows = elim q.base.user [
    | none ↦ unchanged (fail 401) rows
    | some user ↦
        if q.limited
        then unchanged (fail 429) rows
        else post_username q meanwhile user q.username rows
  ]
