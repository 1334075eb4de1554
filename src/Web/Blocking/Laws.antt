-- ===== src/Web/Blocking/Laws.antt =====
-- Blocking is symmetric, and is exactly a blocked row between two different users.
use vortex_reloaded.Base.{
  String, ◌≡◌, refl, ◌∙◌, ◌≢◌, Bool, true, false, not, ◌&&◌, ◌||◌, List, [], ◌∷◌, arith, any,
  if◌then◌else◌, str_eq, eq_iff, ap,
}
use mathlib.Core.Path.{ap₂}
use vortex_reloaded.Base.Sets.{has, has-add}
use vortex_reloaded.Web.Friends.{Friendship, Rows, is_blocked, joins}
use vortex_reloaded.Web.Blocking.{
  add_other, derive_from, derive_blocked_user_ids, blocked_rows_of, is_blocked_between_users,
}

-- A blocked row between two users, in either direction.
abbrev pub blocks : String → String → Friendship → Bool
blocks a b r = is_blocked r.status && joins a b r

add_other-has :
    (user mine other x : String) (s : List String)
    → str_eq x "" ≡ false
    → has x (add_other user mine other s) ≡ (has x s || (str_eq mine user && str_eq other x))
unfolding add_other
add_other-has user mine other x s h =
    ground (arith, has-add other x s, eq_iff other x, eq_iff other "")

-- What one row adds.
row_added : (user : String) → Friendship → List String → List String
row_added user r s =
    if is_blocked r.status
    then add_other user r.addressee_id r.requester_id
        (add_other user r.requester_id r.addressee_id s)
    else s

row_added-has :
    (user x : String) (r : Friendship) (s : List String)
    → str_eq x "" ≡ false
    → has x (row_added user r s) ≡ (has x s || blocks user x r)
unfolding row_added
row_added-has user x r s h = ground (
  arith,
  add_other-has user r.requester_id r.addressee_id x s h,
  add_other-has user r.addressee_id r.requester_id x
      (add_other user r.requester_id r.addressee_id s) h,
)

||_assoc : (a b c : Bool) → ((a || b) || c) ≡ (a || (b || c))
||_assoc true b c = refl
||_assoc false b c = refl

derive_from-has :
    (user x : String) (s : List String) (rows : Rows)
    → str_eq x "" ≡ false
    → has x (derive_from user s rows) ≡ (has x s || any (blocks user x) rows)
unfolding derive_from row_added
derive_from-has user x s [] h = ground arith
derive_from-has user x s (r ∷ rows) h =
    derive_from-has user x (row_added user r s) rows h
    ∙ ap (λ b. b || any (blocks user x) rows) (row_added-has user x r s h)
    ∙ ||_assoc (has x s) (blocks user x r) (any (blocks user x) rows)

-- The filter of the query drops no row that counts.
any-blocked_rows_of :
    (user x : String) (rows : Rows)
    → any (blocks user x) (blocked_rows_of user rows) ≡ any (blocks user x) rows
any-blocked_rows_of user x [] = refl
any-blocked_rows_of user x (r ∷ rows) = ground (arith, any-blocked_rows_of user x rows)

-- The derived set holds exactly the users with a blocked row to or from `user`; the empty id, which no
-- user has, is left out.
pub has-derive_blocked_user_ids :
    (user x : String) (rows : Rows)
    → x ≢ ""
    → has x (derive_blocked_user_ids user rows) ≡ any (blocks user x) rows
unfolding derive_blocked_user_ids has
has-derive_blocked_user_ids user x rows h =
    derive_from-has user x [] rows (ground (arith, eq_iff x ""))

-- Two users with different ids, neither empty, are blocked from one another exactly if the table has
-- a blocked row between them, whoever made it; the empty id, and a user and himself, are never.
pub is_blocked_between_users_lem :
    (a b : String) (rows : Rows)
    → is_blocked_between_users a b rows
      ≡ (not (str_eq a "") && (not (str_eq b "") && (not (str_eq a b) && any (blocks a b) rows)))
unfolding is_blocked_between_users
is_blocked_between_users_lem a b rows = ground (
  arith,
  has-derive_blocked_user_ids a b (blocked_rows_of a rows),
  any-blocked_rows_of a b rows,
  eq_iff b "",
)

||_comm : (a b : Bool) → (a || b) ≡ (b || a)
||_comm true true = refl
||_comm true false = refl
||_comm false true = refl
||_comm false false = refl

blocks_comm : (a b : String) (rows : Rows) → any (blocks a b) rows ≡ any (blocks b a) rows
blocks_comm a b [] = refl
blocks_comm a b (r ∷ rows) =
    ap₂ ◌||◌
      (ap (λ x. is_blocked r.status && x)
        (||_comm (str_eq r.requester_id a && str_eq r.addressee_id b)
          (str_eq r.requester_id b && str_eq r.addressee_id a)))
      (blocks_comm a b rows)

eq_comm : (a b : String) → str_eq a b ≡ str_eq b a
eq_comm a b = ground (arith, eq_iff a b, eq_iff b a)

-- Whether two users are blocked from one another does not depend on which of them asks.
pub is_blocked_between_users_comm :
    (a b : String) (rows : Rows)
    → is_blocked_between_users a b rows ≡ is_blocked_between_users b a rows
is_blocked_between_users_comm a b rows = ground (
  arith,
  is_blocked_between_users_lem a b rows,
  is_blocked_between_users_lem b a rows,
  blocks_comm a b rows,
  eq_comm a b,
)
