-- ===== src/Web/Dm/Messages.antt =====
-- apps/web/app/api/dm/channels/[channelId]/messages/route.ts: how a message is sent.
use vortex_reloaded.Base.{
  ℕ, String, Bool, true, false, not, ◌&&◌, ◌||◌, List, [], ◌∷◌, ◌++◌, Option, none, some, find, any,
  if◌then◌else◌, str_eq, ◌==◌,
}
use vortex_reloaded.Signal.Value.{
  Value, undefined, null, bool, str, num, other_num, obj, arr, get, as_string,
}
use vortex_reloaded.Web.Friends.{Rows}
use vortex_reloaded.Web.Blocking.{is_blocked_between_users}
use vortex_reloaded.Web.Dm.{
  DmChannel, DirectMessage, Database, Caller, Outcome, refuse, created, publish, push,
  members_query, blocks_query, channel_query, message_query, profile_query, write_query, members_of,
  channel_row,
}
use vortex_reloaded.Web.Dm.Channels.{others}
use vortex_reloaded.Web.Dm.Envelope.{is_acceptable}
use vortex_reloaded.Base.Sets.{has}

-- `body` is `none` if it is no JSON. `fresh` is the id of a new row, and `friendships` the table that the
-- block check reads.
pub record SendRequest : Type 0 where
  pub caller : Caller
  pub channel_id : String
  pub body : Option Value
  pub fresh : String
  pub friendships : Rows

abbrev pub is_falsy : Value → Bool
is_falsy undefined = true
is_falsy null = true
is_falsy (bool b) = not b
is_falsy (str s) = str_eq s ""
is_falsy (num n) = n == 0
is_falsy _ = false

-- The empty text counts as absent.
unfoldable pub reply_to_of : Value → Option String
unfolding get
reply_to_of body = elim (as_string (get "reply_to_id" body)) [
  | none ↦ none
  | some id ↦ if str_eq id "" then none else some id
]

-- A `reply_to_id` that is neither absent nor a text goes into the query all the same. The driver binds a
-- number, which is no message's id, and throws on anything else; 0 and `false` count as absent.
abbrev pub odd_reply_status : Value → Option ℕ
odd_reply_status (bool b) = if b then some 500 else none
odd_reply_status (num n) = if n == 0 then none else some 400
odd_reply_status other_num = some 400
odd_reply_status (obj fields) = some 500
odd_reply_status (arr elements) = some 500
odd_reply_status _ = none

abbrev pub is_blocked_by_any : (user : String) → List String → Rows → Bool
is_blocked_by_any user members table =
    any (λ m. is_blocked_between_users user m table) (others user members)

-- One who is alone in the channel asks for no blocks.
abbrev pub blocks_throw : Caller → (user : String) → List String → Bool
blocks_throw caller user members = elim (others user members) [
  | [] ↦ false
  | m ∷ ms ↦ caller.fails blocks_query
]

-- The message replied to exists, is not deleted, and stands in the channel.
abbrev pub is_replyable : (channel : String) → Option String → Database → Bool
is_replyable c none db = true
is_replyable c (some id) db = elim (find (λ m. str_eq m.id id && not m.deleted) db.messages) [
  | none ↦ false
  | some m ↦ str_eq m.dm_channel_id c
]

-- A test without a reply reads nothing.
abbrev pub reply_throws : Caller → Option String → Bool
reply_throws caller none = false
reply_throws caller (some id) = caller.fails message_query

abbrev pub sent_row :
    SendRequest → (user text : String) → (reply_to : Option String) → DirectMessage
sent_row q user text reply_to = record {
  id = q.fresh;
  dm_channel_id = q.channel_id;
  sender_id = user;
  content = some text;
  reply_to_id = reply_to;
  edited = false;
  deleted = false;
}

abbrev pub with_row : DirectMessage → Database → Database
with_row m db = record db { messages = db.messages ++ m ∷ [] }

abbrev pub message_inserted :
    SendRequest → (user text : String) → (reply_to : Option String) → Database → Outcome
message_inserted q user text reply_to db = record {
  database = with_row (sent_row q user text reply_to) db;
  reply = created q.fresh;
  effects = push q.channel_id user ∷ publish "message.created" q.channel_id ∷ [];
}

-- The primary key refuses a known id. If the query for the sender's name throws, the row stays but
-- nobody is told.
unfoldable pub insert_message :
    SendRequest → (user text : String) → (reply_to : Option String) → Database → Outcome
insert_message q user text reply_to db =
    if q.caller.fails write_query || any (λ m. str_eq m.id q.fresh) db.messages
    then refuse 500 db
    else if q.caller.fails profile_query
    then refuse 500 (with_row (sent_row q user text reply_to) db)
    else message_inserted q user text reply_to db

-- The text of a body, trimmed, if there is any.
unfoldable pub text_of : (trim : String → String) → Value → Option String
unfolding get
text_of trim body = elim (as_string (get "content" body)) [
  | none ↦ none
  | some s ↦ if str_eq (trim s) "" then none else some (trim s)
]

abbrev pub found_channel : SendRequest → Database → Option DmChannel
found_channel q db = if q.caller.fails channel_query then none else channel_row q.channel_id db

module _ (trim : String → String) (json_parse : String → Option Value) where
  unfoldable pub send_reply :
      SendRequest → (user text : String) → (reply_to : Option String) → Database → Outcome
  unfolding insert_message
  send_reply q user text reply_to db =
      if reply_throws q.caller reply_to
      then refuse 500 db
      else if not (is_replyable q.channel_id reply_to db)
      then refuse 400 db
      else insert_message q user text reply_to db

  unfoldable pub send_text :
      SendRequest → (user text : String) → (body : Value) → DmChannel → Database → Outcome
  unfolding send_reply is_acceptable reply_to_of
  send_text q user text body ch db =
      if not (is_acceptable ch (json_parse text))
      then refuse 400 db
      else (elim (odd_reply_status (get "reply_to_id" body)) [
        | some status ↦ refuse status db
        | none ↦ send_reply q user text (reply_to_of body) db
      ])

  unfoldable pub send_body : SendRequest → (user : String) → Value → Database → Outcome
  unfolding send_text text_of
  send_body q user body db = elim (found_channel q db) [
    | none ↦ refuse 500 db
    | some ch ↦ elim (text_of trim body) [
      | none ↦ refuse 400 db
      | some text ↦ send_text q user text body ch db
    ]
  ]

  unfoldable pub send_message : SendRequest → Database → Outcome
  unfolding send_body is_blocked_between_users
  send_message q db = elim q.caller.user [
    | none ↦ refuse 401 db
    | some user ↦
        if q.caller.limited
        then refuse 429 db
        else if q.caller.fails members_query
        then refuse 500 db
        else if not (has user (members_of q.channel_id db))
        then refuse 403 db
        else if blocks_throw q.caller user (members_of q.channel_id db)
        then refuse 500 db
        else if is_blocked_by_any user (members_of q.channel_id db) q.friendships
        then refuse 403 db
        else (elim q.body [
          | none ↦ refuse 400 db
          | some body ↦ if is_falsy body then refuse 400 db else send_body q user body db
        ])
  ]
