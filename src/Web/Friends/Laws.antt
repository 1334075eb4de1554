-- ===== src/Web/Friends/Laws.antt =====
-- The requests keep the table, and act only for those who may.
use vortex_reloaded.Base.{
  String, ◌≡◌, refl, Bool, true, false, ◌||◌, List, [], ◌∷◌, Option, none, some, arith, str_eq,
  eq_iff, inl, inr, Bool-cases, Option-cases, subst, sym,
}
use mathlib.Core.Option.{some-injective}
use vortex_reloaded.Web.Friends.{
  Friendship, Rows, Notice, Request, FriendshipStatus, pending, accepted, blocked, request_sent,
  request_accepted, written, by_id, between, update_row, delete_row,
}
use vortex_reloaded.Web.Friends.Post.{
  PostRequest, Lookup, threw, found, post, post_target, post_existing, post_lookup, generic_success,
  accepted_message, set_accepted,
}
use vortex_reloaded.Web.Friends.Change.{is_involved, may_answer, blocked_row, act_on, patch}
use vortex_reloaded.Web.Friends.Table.{
  IsTable, SamePair, has_id, delete_row-IsTable, insert_row-IsTable, update_row-IsTable,
  between-by_id, by_id-id,
}

written-IsTable :
    (w : Bool) (result : Option Rows) (rows : Rows) (message : String) (notices : List Notice)
    → IsTable rows
    → ((rows' : Rows) → result ≡ some rows' → IsTable rows')
    → IsTable (written w result rows message notices).rows
written-IsTable true (some rows') rows message notices h f = f rows' refl
written-IsTable true none rows message notices h f = h
written-IsTable false result rows message notices h f = h

module _ (canonical : String → String) (users : String → Lookup) where
  post_existing-IsTable :
      (q : PostRequest) (target : String) (r : Friendship) (rows : Rows)
      → by_id r.id rows ≡ some r
      → IsTable rows
      → IsTable (post_existing canonical users q target r rows).rows
  unfolding post_existing
  post_existing-IsTable q target r rows here h = go r.status refl
    where
      upgraded : Friendship
      upgraded = record r { status = accepted }

      kept :
          IsTable
            (written q.base.writes
              (set_accepted r.id rows)
              rows
              accepted_message
              (request_accepted target ∷ [])).rows
      kept =
          rw (set_accepted, here)
            (written-IsTable q.base.writes (update_row upgraded rows) rows accepted_message
              (request_accepted target ∷ []) h
              (λ rows' e. update_row-IsTable r upgraded rows rows' here (inl (refl, refl)) h e))

      go :
          (st : FriendshipStatus)
          → r.status ≡ st
          → IsTable (post_existing canonical users q target r rows).rows
      go accepted e = rw (e, post_existing) h
      go blocked e = rw (e, post_existing) h
      go pending e = elim (Bool-cases (str_eq r.requester_id target)) [
        | inl theirs ↦ simp (e, post_existing, theirs) kept
        | inr mine ↦ rw (e, post_existing, mine) h
      ]

  post_target-IsTable :
      (q : PostRequest) (user target : String) (rows : Rows)
      → has_id q.fresh rows ≡ false
      → IsTable rows
      → IsTable (post_target canonical users q (λ rows. rows) user target rows).rows
  unfolding post_target
  post_target-IsTable q user target rows new h = elim (Bool-cases (str_eq target user)) [
    | inl self ↦ rw (self, post_target) h
    | inr other ↦ elim (Bool-cases q.base.reads) [
      | inr dead ↦ simp (other, dead, post_target) h
      | inl alive ↦ elim (Option-cases (between user target rows)) [
        | inr (r, there) ↦
            simp (other, alive, there, post_target)
              (post_existing-IsTable q target r rows (between-by_id user target r rows there h) h)
        | inl nobody ↦
            simp (other, alive, nobody, post_target)
              (written-IsTable q.base.writes _ rows generic_success (request_sent target ∷ []) h
                (λ rows' e. insert_row-IsTable _ rows rows' nobody new h e))
      ]
    ]
  ]

  -- A friend request with no other request between its select and its write keeps the table: distinct ids,
  -- no row from a user to himself, and at most one row for two users, in either direction. The id of a new
  -- row is fresh.
  pub post-IsTable :
      (q : PostRequest) (rows : Rows)
      → has_id q.fresh rows ≡ false
      → IsTable rows
      → IsTable (post canonical users q (λ rows. rows) rows).rows
  unfolding post
  post-IsTable q rows new h = elim (Option-cases q.base.user) [
    | inl e ↦ simp (e, post) h
    | inr (user, e) ↦ elim (Bool-cases q.limited) [
      | inl l ↦ simp (e, l, post) h
      | inr l ↦ elim (Option-cases q.username) [
        | inl n ↦ simp (e, l, n, post) h
        | inr (name, n) ↦ elim (Bool-cases (str_eq (canonical name) "")) [
          | inl b ↦ simp (e, l, n, b, post) h
          | inr b ↦ simp (e, l, n, b, post) (looked_up user (users (canonical name)))
        ]
      ]
    ]
  ]
    where
      looked_up :
          (user : String) (found_user : Lookup)
          → IsTable (post_lookup canonical users q (λ rows. rows) user found_user rows).rows
      looked_up user threw = h
      looked_up user (found none) = h
      looked_up user (found (some target)) = post_target-IsTable q user target rows new h

blocked_row-SamePair :
    (user : String) (r : Friendship) → is_involved user r ≡ true → SamePair r (blocked_row user r)
blocked_row-SamePair user r h = elim (Bool-cases (str_eq r.requester_id user)) [
  | inl e ↦ rw e (inl (refl, refl))
  | inr e ↦ rw e (inr (ground (arith, eq_iff r.addressee_id user), refl))
]

blocked_row-id : (user : String) (r : Friendship) → (blocked_row user r).id ≡ r.id
blocked_row-id user r = ground arith

act_on-IsTable :
    (q : Request) (user action : String) (r : Friendship) (rows : Rows)
    → by_id r.id rows ≡ some r
    → is_involved user r ≡ true
    → IsTable rows
    → IsTable (act_on q user action r rows).rows
unfolding act_on
act_on-IsTable q user action r rows here inv h = elim (Bool-cases (str_eq action "accept")) [
  | inl a ↦ elim (Bool-cases (may_answer user r)) [
    | inl m ↦
        simp (a, m, act_on)
          (written-IsTable q.writes (update_row (record r { status = accepted }) rows) rows
            accepted_message (request_accepted r.requester_id ∷ []) h
            (λ rows' e.
              update_row-IsTable r (record r { status = accepted }) rows rows' here
                (inl (refl, refl)) h e))
    | inr m ↦ simp (a, m, act_on) h
  ]
  | inr a ↦ elim (Bool-cases (str_eq action "decline")) [
    | inl d ↦ elim (Bool-cases (may_answer user r)) [
      | inl m ↦
          simp (a, d, m, act_on)
            (written-IsTable q.writes (some (delete_row r.id rows)) rows "Friend request declined"
              [] h
              (λ rows' e. subst IsTable (some-injective _ _ e) (delete_row-IsTable r.id rows h)))
      | inr m ↦ simp (a, d, m, act_on) h
    ]
    | inr d ↦ elim (Bool-cases (str_eq action "block")) [
      | inl b ↦
          simp (a, d, b, act_on)
            (written-IsTable q.writes (update_row (blocked_row user r) rows) rows "User blocked" []
              h
              (λ rows' e.
                update_row-IsTable r (blocked_row user r) rows rows'
                  (rw (blocked_row-id user r) here) (blocked_row-SamePair user r inv) h e))
      | inr b ↦ simp (a, d, b, act_on) h
    ]
  ]
]

-- An answer to a request, and a block by either side, keep the table: distinct ids, no row from a user
-- to himself, and at most one row for two users, in either direction.
pub patch-IsTable :
    (q : Request) (id action : String) (rows : Rows)
    → IsTable rows
    → IsTable (patch q id action rows).rows
unfolding patch
patch-IsTable q id action rows h = elim (Option-cases q.user) [
  | inl e ↦ simp (e, patch) h
  | inr (user, e) ↦ elim (Bool-cases (str_eq id "" || str_eq action "")) [
    | inl b ↦ simp (e, b, patch) h
    | inr b ↦ elim (Bool-cases q.reads) [
      | inr dead ↦ simp (e, b, dead, patch) h
      | inl alive ↦ elim (Option-cases (by_id id rows)) [
        | inl f ↦ simp (e, b, alive, f, patch) h
        | inr (r, f) ↦ elim (Bool-cases (is_involved user r)) [
          | inr out ↦ simp (e, b, alive, f, out, patch) h
          | inl inv ↦
              simp (e, b, alive, f, inv, patch)
                (act_on-IsTable q user action r rows
                  (subst (λ x. by_id x rows ≡ some r) (sym (by_id-id id r rows f)) f) inv h)
        ]
      ]
    ]
  ]
]
