-- ===== src/Web/Friends/Listing.antt =====
-- apps/web/app/api/friends/route.ts: GET, the pages of the list of friends, requests and blocks.
use Prim.Native.String.{compare}
use Prim.Native.Nat.{Ordering}
use vortex_reloaded.Base.{
  ℕ, ◌+◌, ◌≤◌, min, max, String, ◌≡◌, refl, Bool, true, false, ◌&&◌, ◌||◌, List, [], ◌∷◌, Option,
  none, some, arith, ltb, length, filter, if◌then◌else◌, str_eq, zero, suc, All, eq_iff,
}
use vortex_reloaded.Web.Friends.{Friendship, Rows, FriendshipStatus, pending, accepted, blocked}
use vortex_reloaded.Web.Friends.Change.{is_involved}

-- A row with the id of the other user.
pub record FriendEntry : Type 0 where
  pub row : Friendship
  pub friend : String

pub record Page : Type 0 where
  pub accepted : List FriendEntry
  pub pending_received : List FriendEntry
  pub pending_sent : List FriendEntry
  pub blocked : List FriendEntry
  pub next_cursor : Option String

-- `id > after` of the query; the empty cursor counts as none.
abbrev is_after : Option String → Friendship → Bool
is_after none r = true
is_after (some c) r = str_eq c "" || (elim (compare r.id c) [ Ordering.gt ↦ true | _ ↦ false ])

-- `orderBy(asc(id))`
unfoldable pub insert_by_id : Friendship → Rows → Rows
insert_by_id r [] = r ∷ []
insert_by_id r (q ∷ rows) =
    let rest = insert_by_id r rows in
    elim (compare r.id q.id) [ Ordering.gt ↦ q ∷ rest | _ ↦ r ∷ q ∷ rows ]

unfoldable pub sort_by_id : Rows → Rows
sort_by_id [] = []
sort_by_id (r ∷ rows) = insert_by_id r (sort_by_id rows)

unfoldable pub take_rows : ℕ → Rows → Rows
take_rows zero rows = []
take_rows (suc n) [] = []
take_rows (suc n) (r ∷ rows) = r ∷ take_rows n rows

abbrev pub clamp : ℕ → ℕ
clamp limit = min (max limit 1) 500

unfoldable pub select_rows : (user : String) → (after : Option String) → (limit : ℕ) → Rows → Rows
unfolding sort_by_id take_rows insert_by_id
select_rows user after limit rows =
    take_rows (limit + 1) (sort_by_id (filter (λ r. is_involved user r && is_after after r) rows))

abbrev entry : Bool → Friendship → FriendEntry
entry true r = record { row = r; friend = r.addressee_id }
entry false r = record { row = r; friend = r.requester_id }

-- One round of the loop.
unfoldable pub file_row : (is_requester : Bool) → FriendshipStatus → FriendEntry → Page → Page
file_row b accepted e p = record p { accepted = e ∷ p.accepted }
file_row true pending e p = record p { pending_sent = e ∷ p.pending_sent }
file_row false pending e p = record p { pending_received = e ∷ p.pending_received }
file_row true blocked e p = record p { blocked = e ∷ p.blocked }
file_row false blocked e p = p

-- The lists keep the order of the rows.
unfoldable pub file_rows : (user : String) → (next : Option String) → Rows → Page
unfolding file_row
file_rows user next [] = record {
  accepted = [];
  pending_received = [];
  pending_sent = [];
  blocked = [];
  next_cursor = next;
}
file_rows user next (r ∷ rows) =
    let own = str_eq r.requester_id user in
    file_row own r.status (entry own r) (file_rows user next rows)

unfoldable pub last_id : Rows → Option String
last_id [] = none
last_id (r ∷ []) = some r.id
last_id (r ∷ q ∷ rows) = last_id (q ∷ rows)

unfoldable pub list_friends : (user : String) → (after : Option String) → (limit : ℕ) → Rows → Page
unfolding select_rows file_rows last_id take_rows
list_friends user after limit rows =
    let all_rows = select_rows user after (clamp limit) rows in
    let page_rows = take_rows (clamp limit) all_rows in
    file_rows user (if ltb (clamp limit) (length all_rows) then last_id page_rows else none)
      page_rows

-- How many rows a page shows.
abbrev pub size : Page → ℕ
size p = length p.accepted + length p.pending_received + length p.pending_sent + length p.blocked

abbrev pub IsOwnBlock : String → FriendEntry → Type 0
IsOwnBlock user e =
    (e.row.status ≡ blocked) × (e.row.requester_id ≡ user) × (e.friend ≡ e.row.addressee_id)

file_row-size :
    (b : Bool) (st : FriendshipStatus) (e : FriendEntry) (p : Page)
    → size (file_row b st e p) ≤ size p + 1
unfolding file_row
file_row-size b accepted e p = omega arith
file_row-size true pending e p = omega arith
file_row-size false pending e p = omega arith
file_row-size true blocked e p = omega arith
file_row-size false blocked e p = omega arith

file_rows-size :
    (user : String) (next : Option String) (rows : Rows)
    → size (file_rows user next rows) ≤ length rows
unfolding file_rows
file_rows-size user next [] = omega arith
file_rows-size user next (r ∷ rows) =
    let own = str_eq r.requester_id user in
    omega (
      arith,
      file_row-size own r.status (entry own r) (file_rows user next rows),
      file_rows-size user next rows,
    )

take_rows-le : (n : ℕ) (rows : Rows) → length (take_rows n rows) ≤ n
unfolding take_rows
take_rows-le zero rows = omega arith
take_rows-le (suc n) [] = omega arith
take_rows-le (suc n) (r ∷ rows) = omega (arith, take_rows-le n rows)

file_row-blocked :
    (user : String) (r : Friendship) (p : Page)
    → All (IsOwnBlock user) p.blocked
    → All
        (IsOwnBlock user)
        (file_row
          (str_eq r.requester_id user)
          r.status
          (entry (str_eq r.requester_id user) r)
          p).blocked
unfolding file_row
file_row-blocked user r p h = go (str_eq r.requester_id user) r.status refl refl
  where
    go :
        (b : Bool) (st : FriendshipStatus)
        → str_eq r.requester_id user ≡ b
        → r.status ≡ st
        → All (IsOwnBlock user) (file_row b st (entry b r) p).blocked
    go b accepted e s = h
    go true pending e s = h
    go false pending e s = h
    go true blocked e s = ((s, (eq_iff r.requester_id user).0 e, refl), h)
    go false blocked e s = h

file_rows-blocked :
    (user : String) (next : Option String) (rows : Rows)
    → All (IsOwnBlock user) (file_rows user next rows).blocked
unfolding file_rows
file_rows-blocked user next [] = tt
file_rows-blocked user next (r ∷ rows) =
    file_row-blocked user r (file_rows user next rows) (file_rows-blocked user next rows)

-- A page shows at most as many rows as were asked for, never more than 500, and the blocks that it shows
-- are those that the user himself has made.
pub list_friends-page :
    (user : String) (after : Option String) (limit : ℕ) (rows : Rows)
    → (size (list_friends user after limit rows) ≤ clamp limit)
      × (size (list_friends user after limit rows) ≤ 500)
      × All (IsOwnBlock user) (list_friends user after limit rows).blocked
unfolding list_friends
list_friends-page user after limit rows =
    let rows' = take_rows (clamp limit) (select_rows user after (clamp limit) rows) in
    let next =
      if ltb (clamp limit) (length (select_rows user after (clamp limit) rows))
      then last_id rows'
      else none in
    let few = take_rows-le (clamp limit) (select_rows user after (clamp limit) rows) in
    let shown = file_rows-size user next rows' in
    (omega arith, omega arith, file_rows-blocked user next rows')
