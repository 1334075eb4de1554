-- ===== src/Web/Friends/Rights.antt =====
-- Who may do what: the answers to a request, the blocks, and what a sender learns.
use vortex_reloaded.Base.{
  String, ℕ, ◌≡◌, ◌≢◌, refl, Bool, true, false, [], ◌∷◌, Option, none, some, arith, any, str_eq,
  eq_iff, eq_refl, ◌⊎◌, inl, inr, Bool-cases, Option-cases, subst, sym,
}
use vortex_reloaded.Web.Friends.{
  Friendship, Rows, Request, pending, ok, fail, by_id, between, written, update_row, insert_row,
  replace, is_from_to,
}
use vortex_reloaded.Web.Friends.Post.{PostRequest, Lookup, found, post, generic_success}
use vortex_reloaded.Web.Friends.Change.{is_involved, patch, blocked_row}
use vortex_reloaded.Web.Friends.Table.{by_id-id}
use vortex_reloaded.Web.Blocking.Laws.{blocks}

-- A PATCH that reports success was sent by a user, on a row of that user; to accept and to decline
-- succeed only for the one whom a pending request was sent to.
pub patch-rights :
    (q : Request) (id action message : String) (rows : Rows)
    → (patch q id action rows).reply ≡ ok message
    → (user : String) × (r : Friendship) × (q.user ≡ some user)
      × (by_id id rows ≡ some r)
      × (is_involved user r ≡ true)
      × ((action ≡ "block") ⊎ ((r.addressee_id ≡ user) × (r.status ≡ pending)))
unfolding patch
patch-rights q id action message rows h = elim (Option-cases q.user) [
  | inl e ↦ cc (simp (e, patch) at h)
  | inr (user, e) ↦ elim (Option-cases (by_id id rows)) [
    | inl f ↦ absurd (ground arith)
    | inr (r, f) ↦ (
      user,
      r,
      e,
      f,
      ground arith,
      elim (Bool-cases (str_eq action "block")) [
        | inl b ↦ inl ((eq_iff action "block").0 b)
        | inr b ↦ inr (ground (arith, eq_iff r.addressee_id user), ground arith)
      ],
    )
  ]
]

-- A request that fails leaves the table as it was, and notifies nobody.
pub patch-fail :
    (q : Request) (id action : String) (n : ℕ) (rows : Rows)
    → (patch q id action rows).reply ≡ fail n
    → ((patch q id action rows).rows ≡ rows) × ((patch q id action rows).notices ≡ [])
unfolding patch
patch-fail q id action n rows h = ground arith

blocked_row-id : (user : String) (r : Friendship) → (blocked_row user r).id ≡ r.id
blocked_row-id user r = ground arith

blocked_row-blocks :
    (user : String) (r : Friendship)
    → is_involved user r ≡ true
    → blocks r.requester_id r.addressee_id (blocked_row user r) ≡ true
blocked_row-blocks user r h = ground (
  arith,
  eq_iff r.requester_id user,
  eq_iff r.addressee_id user,
  eq_refl r.requester_id,
  eq_refl r.addressee_id,
)

-- Where the row was, there is the new one.
replace-any :
    (p : Friendship → Bool) (new old : Friendship) (rows : Rows)
    → by_id new.id rows ≡ some old
    → p new ≡ true
    → any p (replace new rows) ≡ true
unfolding replace by_id
replace-any p new old [] h k = cc
replace-any p new old (r ∷ rows) h k = ground (arith, replace-any p new old rows)

written-ok :
    (w : Bool) (result : Option Rows) (rows : Rows) (message message' : String)
    → (written w result rows message []).reply ≡ ok message'
    → result ≡ some (written w result rows message []).rows
written-ok true (some rows') rows message message' h = refl
written-ok true none rows message message' h = cc
written-ok false result rows message message' h = cc

-- A PATCH that reports a block has come to the update.
patch-block :
    (q : Request) (id message : String) (r : Friendship) (rows : Rows)
    → by_id id rows ≡ some r
    → (patch q id "block" rows).reply ≡ ok message
    → (user : String) × (is_involved user r ≡ true)
      × (patch q id "block" rows
          ≡ written q.writes (update_row (blocked_row user r) rows) rows "User blocked" [])
unfolding patch
patch-block q id message r rows f h = elim (Option-cases q.user) [
  | inl e ↦ cc (simp (e, patch) at h)
  | inr (user, e) ↦ elim (Bool-cases (str_eq id "")) [
    | inl b ↦ cc (simp (e, b, patch) at h)
    | inr b ↦ elim (Bool-cases q.reads) [
      | inr dead ↦ cc (simp (e, b, dead, patch) at h)
      | inl alive ↦ elim (Bool-cases (is_involved user r)) [
        | inr out ↦ cc (simp (e, b, alive, f, out, patch) at h)
        | inl inv ↦ (user, inv, simp (e, b, alive, f, inv, patch))
      ]
    ]
  ]
]

update_row-replace :
    (new : Friendship) (rows rows' : Rows)
    → update_row new rows ≡ some rows'
    → replace new rows ≡ rows'
unfolding update_row
update_row-replace new rows rows' h = ground arith

-- After a PATCH that reports a block, the two users of the row are blocked from one another, whichever
-- of them sent it and whatever their row was before.
pub patch-blocks :
    (q : Request) (id message : String) (r : Friendship) (rows : Rows)
    → by_id id rows ≡ some r
    → (patch q id "block" rows).reply ≡ ok message
    → any (blocks r.requester_id r.addressee_id) (patch q id "block" rows).rows ≡ true
patch-blocks q id message r rows f h =
    let (user, inv, e) = patch-block q id message r rows f h in
    let new = blocked_row user r in
    let stored =
      written-ok q.writes (update_row new rows) rows "User blocked" message (rw e at h) in
    rw (e, ← update_row-replace new rows _ stored)
      (replace-any (blocks r.requester_id r.addressee_id) new r rows
        (rw (blocked_row-id user r)
          (subst (λ x. by_id x rows ≡ some r) (sym (by_id-id id r rows f)) f))
        (blocked_row-blocks user r inv))

insert_row_fits :
    (user target fresh : String) (rows : Rows)
    → target ≢ user
    → any (is_from_to user target) rows ≡ false
    → let r : Friendship = record {
      id = fresh;
      requester_id = user;
      addressee_id = target;
      status = pending;
    } in
      insert_row r rows ≡ some (r ∷ rows)
unfolding insert_row
insert_row_fits user target fresh rows o uni = ground (arith, eq_iff user target)

-- The answer to a friend request tells nothing of whether the name belongs to anybody: unless the name
-- is the sender's own, or its owner has a pending request to the sender, an existing user is answered as
-- a missing one. The database answers, and its constraints accept the new row.
-- Other requests may do anything between the select and the write.
pub post-generic :
    (canonical : String → String) (users : String → Lookup) (q : PostRequest)
    (meanwhile : Rows → Rows) (user name target : String) (rows : Rows)
    → q.base.user ≡ some user
    → q.base.reads ≡ true
    → q.base.writes ≡ true
    → q.limited ≡ false
    → q.username ≡ some name
    → canonical name ≢ ""
    → users (canonical name) ≡ found (some target)
    → target ≢ user
    → any (is_from_to user target) (meanwhile rows) ≡ false
    → ((r : Friendship)
        → between user target rows ≡ some r
        → r.status ≡ pending
        → r.requester_id ≢ target)
    → ((post canonical users q meanwhile rows).reply ≡ ok generic_success)
      × ((post canonical (λ n. found none) q meanwhile rows).reply ≡ ok generic_success)
unfolding post
post-generic canonical users q meanwhile user name target rows u reads writes l n c t o uni k =
    elim (Option-cases (between user target rows)) [
      | inl nobody ↦ ground (
        arith,
        eq_iff (canonical name) "",
        eq_iff target user,
        eq_iff user target,
        insert_row_fits user target q.fresh (meanwhile rows) o uni,
      )
      | inr (r, there) ↦ ground (
        arith,
        eq_iff (canonical name) "",
        eq_iff target user,
        eq_iff r.requester_id target,
        k r there,
      )
    ]
