-- ===== src/Web/Friends.antt =====
-- packages/db/src/schema/social.ts and the queries of apps/web/app/api/friends/route.ts: the table of
-- friendships, with its constraints. A statement that SQLite refuses is `none`.
pub mod Post
pub mod Change
pub mod Table
pub mod Laws
pub mod Rights
pub mod Removal
pub mod Listing
use vortex_reloaded.Base.{
  String, Bool, true, false, not, ◌&&◌, ◌||◌, List, [], ◌∷◌, Option, none, some, find, filter, any,
  if◌then◌else◌, str_eq, map, ℕ,
}

pub data FriendshipStatus : Type 0 where
  pending accepted blocked : FriendshipStatus

pub record Friendship : Type 0 where
  pub id : String
  pub requester_id : String
  pub addressee_id : String
  pub status : FriendshipStatus

abbrev pub Rows : Type 0
Rows = List Friendship

abbrev pub is_blocked : FriendshipStatus → Bool
is_blocked blocked = true
is_blocked _ = false

abbrev pub is_pending : FriendshipStatus → Bool
is_pending pending = true
is_pending _ = false

abbrev pub is_from_to : (requester addressee : String) → Friendship → Bool
is_from_to a b r = str_eq r.requester_id a && str_eq r.addressee_id b

-- A row in either direction.
abbrev pub joins : String → String → Friendship → Bool
joins a b r = is_from_to a b r || is_from_to b a r

unfoldable pub by_id : String → Rows → Option Friendship
by_id id rows = find (λ r. str_eq r.id id) rows

unfoldable pub between : (a b : String) → Rows → Option Friendship
between a b rows = find (joins a b) rows

-- The constraints `friendships_no_self` and `friendships_unique` on a row beside the others.
unfoldable pub fits : Friendship → Rows → Bool
fits r others =
    not (str_eq r.requester_id r.addressee_id)
    && not (any (is_from_to r.requester_id r.addressee_id) others)

unfoldable pub insert_row : Friendship → Rows → Option Rows
unfolding fits
insert_row r rows = if fits r rows then some (r ∷ rows) else none

-- The row of an id is replaced.
unfoldable pub replace : Friendship → Rows → Rows
replace new [] = []
replace new (r ∷ rows) =
    let rest = replace new rows in if str_eq r.id new.id then new ∷ rest else r ∷ rest

unfoldable pub update_row : Friendship → Rows → Option Rows
unfolding fits replace
update_row new rows =
    if fits new (filter (λ r. not (str_eq r.id new.id)) rows) then some (replace new rows) else none

unfoldable pub delete_row : String → Rows → Rows
delete_row id rows = filter (λ r. not (str_eq r.id id)) rows

-- What a request meets in its surroundings: `none` as a user is a failed authentication, and
-- `reads` and `writes` say whether the database answers at all.
pub record Request : Type 0 where
  pub user : Option String
  pub reads : Bool
  pub writes : Bool

pub data Reply : Type 0 where
  ok : (message : String) → Reply
  fail : (status : ℕ) → Reply

-- The notifications that are sent without waiting for them.
pub data Notice : Type 0 where
  request_sent request_accepted : (to : String) → Notice

pub record Outcome : Type 0 where
  pub reply : Reply
  pub rows : Rows
  pub notices : List Notice

abbrev pub unchanged : Reply → Rows → Outcome
unchanged reply rows = record { reply = reply; rows = rows; notices = [] }

-- A write that may fail: `none` and a dead database are both answered with 500.
abbrev pub written : Bool → Option Rows → Rows → (message : String) → List Notice → Outcome
written true (some rows') rows message notices = record {
  reply = ok message;
  rows = rows';
  notices = notices;
}
written true none rows message notices = unchanged (fail 500) rows
written false result rows message notices = unchanged (fail 500) rows
