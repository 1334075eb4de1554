-- ===== src/Tests/Friendships.antt =====
-- Friend requests and blocks at concrete inputs.
use vortex_reloaded.Base.{
  map, String, ◌≡◌, refl, true, false, not, ◌&&◌, [], ◌∷◌, none, some, any, ◌⊎◌, str_eq, eq_iff,
}
use vortex_reloaded.Web.Friends.{
  insert_row, Friendship, Rows, pending, accepted, blocked, Request, ok, fail, by_id, between,
  update_row,
}
use vortex_reloaded.Web.Friends.Post.{Lookup, found, PostRequest, post, generic_success}
use vortex_reloaded.Web.Friends.Change.{patch, is_involved}
use vortex_reloaded.Web.Friends.Table.{IsTable}
use vortex_reloaded.Web.Friends.Laws.{post-IsTable, patch-IsTable}
use vortex_reloaded.Web.Friends.Rights.{patch-rights, post-generic}
use vortex_reloaded.Web.Blocking.{is_blocked_between_users}
use vortex_reloaded.Web.Blocking.Laws.{blocks, is_blocked_between_users_lem}

abbrev asked : Friendship
asked = record { id = "f1"; requester_id = "ann"; addressee_id = "bob"; status = pending }

abbrev barred : Friendship
barred = record { id = "f2"; requester_id = "ann"; addressee_id = "cid"; status = blocked }

abbrev table : Rows
table = asked ∷ barred ∷ []

table-IsTable : IsTable table
table-IsTable = (refl, refl, refl, (refl, refl, refl, tt))

abbrev as_is : String → String
as_is s = s

abbrev everybody : String → Lookup
everybody name = found (some name)

abbrev by : String → Request
by user = record { user = some user; reads = true; writes = true }

abbrev asks : (user target : String) → PostRequest
asks user target = record { base = by user; limited = false; username = some target; fresh = "f3" }

abbrev undisturbed : Rows → Rows
undisturbed rows = rows

post-IsTable_example : IsTable (post as_is everybody (asks "bob" "ann") undisturbed table).rows
post-IsTable_example = post-IsTable as_is everybody (asks "bob" "ann") table refl table-IsTable

-- A crossing request is the acceptance of the pending one.
crossing :
    (post as_is everybody (asks "bob" "ann") undisturbed table).rows
    ≡ record asked { status = accepted } ∷ barred ∷ []
unfolding post between update_row by_id
crossing = refl

-- The other's request, which comes between the select and the insertion: two rows for two users.
abbrev overtaken : Rows → Rows
overtaken rows =
    record { id = "f4"; requester_id = "ann"; addressee_id = "bob"; status = pending } ∷ rows

crossing_race :
    map (λ r. r.id) (post as_is everybody (asks "bob" "ann") overtaken []).rows ≡ "f3" ∷ "f4" ∷ []
unfolding post between insert_row
crossing_race = refl

-- A block that is set between the select and the update is gone after it.
abbrev blocked_meanwhile : Rows → Rows
blocked_meanwhile rows = record asked { status = blocked } ∷ barred ∷ []

block_race :
    (post as_is everybody (asks "bob" "ann") blocked_meanwhile table).rows
    ≡ record asked { status = accepted } ∷ barred ∷ []
unfolding post between update_row by_id
block_race = refl

patch-IsTable_example : IsTable (patch (by "bob") "f1" "block" table).rows
patch-IsTable_example = patch-IsTable (by "bob") "f1" "block" table table-IsTable

patch_accepts : (patch (by "bob") "f1" "accept" table).reply ≡ ok "Friend request accepted"
unfolding patch by_id update_row
patch_accepts = refl

patch-rights_example :
    (user : String) × (r : Friendship) × (some "bob" ≡ some user)
    × (by_id "f1" table ≡ some r)
    × (is_involved user r ≡ true)
    × ((◌≡◌ {A = String} "accept" "block") ⊎ ((r.addressee_id ≡ user) × (r.status ≡ pending)))
patch-rights_example =
    patch-rights (by "bob") "f1" "accept" "Friend request accepted" table patch_accepts

patch_refuses : (patch (by "ann") "f1" "accept" table).reply ≡ fail 400
unfolding patch by_id
patch_refuses = refl

found_asked : by_id "f1" table ≡ some asked
unfolding by_id
found_asked = refl

patch_bars : (patch (by "bob") "f1" "block" table).reply ≡ ok "User blocked"
unfolding patch by_id update_row
patch_bars = refl

nobody_yet : between "bob" "cid" table ≡ none
unfolding between
nobody_yet = refl

post-generic_example :
    ((post as_is everybody (asks "bob" "cid") undisturbed table).reply ≡ ok generic_success)
    × ((post as_is (λ n. found none) (asks "bob" "cid") undisturbed table).reply
        ≡ ok generic_success)
post-generic_example =
    post-generic as_is everybody (asks "bob" "cid") undisturbed "bob" "cid" "cid" table refl refl
      refl refl refl (λ e. cc e) refl (λ e. cc ((eq_iff "cid" "bob").1 e)) refl
      (λ r e. cc (e, nobody_yet))

is_blocked_between_users_lem_example : is_blocked_between_users "cid" "ann" table ≡ (
    not (str_eq "cid" "")
    && (not (str_eq "ann" "") && (not (str_eq "cid" "ann") && any (blocks "cid" "ann") table)))
is_blocked_between_users_lem_example = is_blocked_between_users_lem "cid" "ann" table
