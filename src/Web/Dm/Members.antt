-- ===== src/Web/Dm/Members.antt =====
-- apps/web/app/api/dm/channels/[channelId]/members/route.ts: who is added to a channel, and who leaves.
use vortex_reloaded.Base.{
  String, Bool, false, not, ◌||◌, [], ◌∷◌, ◌++◌, Option, none, some, filter, map, length,
  if◌then◌else◌, str_eq, or_else,
}
use vortex_reloaded.Web.Dm.{
  DmChannel, Database, Caller, Outcome, refuse, done, publish, log_membership, nudge, revoke,
  members_query, channel_query, write_query, is_row, is_member, channel_row, user_channel, rotate,
}

-- `user_id` is the empty text if the body has none.
pub record AddRequest : Type 0 where
  pub caller : Caller
  pub channel_id : String
  pub is_json : Bool
  pub user_id : String

abbrev pub member_inserted : AddRequest → (user : String) → Database → Outcome
member_inserted q user db = record {
  database = record db {
    channels = map (rotate q.channel_id 1) db.channels;
    members = db.members ++ record { dm_channel_id = q.channel_id; user_id = q.user_id } ∷ [];
  };
  reply = done;
  effects =
      log_membership "member_added" q.channel_id user q.user_id
      ∷ nudge q.channel_id user q.user_id
      ∷ publish "member.joined" q.channel_id
      ∷ publish "member.joined" (user_channel q.user_id)
      ∷ [];
}

-- The primary key refuses a second row of one user; the other errors of the insertion are a missing user.
unfoldable pub insert_member : AddRequest → (user : String) → Database → Outcome
insert_member q user db =
    if is_member q.channel_id q.user_id db
    then refuse 409 db
    else if q.caller.fails write_query
    then refuse 500 db
    else member_inserted q user db

abbrev pub is_group_row : Option DmChannel → Bool
is_group_row none = false
is_group_row (some ch) = ch.is_group

unfoldable pub add_member : AddRequest → Database → Outcome
unfolding insert_member
add_member q db = elim q.caller.user [
  | none ↦ refuse 401 db
  | some user ↦
      if q.caller.fails members_query || q.caller.fails channel_query
      then refuse 500 db
      else if not (is_member q.channel_id user db)
      then refuse 403 db
      else if not (is_group_row (channel_row q.channel_id db))
      then refuse 400 db
      else if not q.is_json
      then refuse 500 db
      else if str_eq q.user_id ""
      then refuse 400 db
      else insert_member q user db
]

-- `user_id` is `none` if the query string has none.
pub record RemoveRequest : Type 0 where
  pub caller : Caller
  pub channel_id : String
  pub user_id : Option String

abbrev pub is_owner : (user : String) → Option DmChannel → Bool
is_owner user none = false
is_owner user (some ch) = elim ch.owner_id [ none ↦ false | some o ↦ str_eq o user ]

abbrev pub member_deleted : RemoveRequest → (user target : String) → Database → Outcome
member_deleted q user target db = record {
  database = record db {
    channels =
        map (rotate q.channel_id (length (filter (is_row q.channel_id target) db.members)))
          db.channels;
    members = filter (λ m. not (is_row q.channel_id target m)) db.members;
  };
  reply = done;
  effects =
      revoke target q.channel_id
      ∷ log_membership (if str_eq target user then "member_left" else "member_removed") q.channel_id
          user target
      ∷ publish "member.left" q.channel_id
      ∷ publish "member.left" (user_channel target)
      ∷ [];
}

unfoldable pub delete_member : RemoveRequest → (user target : String) → Database → Outcome
delete_member q user target db =
    if q.caller.fails write_query then refuse 500 db else member_deleted q user target db

unfoldable pub remove_member : RemoveRequest → Database → Outcome
unfolding delete_member
remove_member q db = elim q.caller.user [
  | none ↦ refuse 401 db
  | some user ↦
      let target = or_else q.user_id user in
      if str_eq target user
      then delete_member q user target db
      else if q.caller.fails channel_query
      then refuse 500 db
      else if is_owner user (channel_row q.channel_id db)
      then delete_member q user target db
      else refuse 403 db
]
