-- ===== src/Web/Dm/Edits.antt =====
-- apps/web/app/api/dm/channels/[channelId]/messages/[messageId]/route.ts: how a message is edited and
-- deleted.
use vortex_reloaded.Base.{
  String, Bool, true, ◌&&◌, List, [], Option, none, some, any, map, if◌then◌else◌, str_eq,
}
use vortex_reloaded.Signal.Value.{Value}
use vortex_reloaded.Web.Dm.{DirectMessage, Database, Caller, Outcome, refuse, done, write_query}
use vortex_reloaded.Web.Dm.Messages.{text_of}

-- `body` is `none` if it is no JSON, which throws.
pub record EditRequest : Type 0 where
  pub caller : Caller
  pub channel_id : String
  pub message_id : String
  pub body : Option Value

abbrev pub is_own_row : (channel message user : String) → DirectMessage → Bool
is_own_row c id u m = str_eq m.id id && (str_eq m.sender_id u && str_eq m.dm_channel_id c)

abbrev pub update_where :
    (DirectMessage → Bool)
    → (DirectMessage → DirectMessage)
    → List DirectMessage
    → List DirectMessage
update_where p f = map (λ m. if p m then f m else m)

abbrev pub edited_to : String → DirectMessage → DirectMessage
edited_to text m = record m { content = some text; edited = true }

abbrev pub as_deleted : DirectMessage → DirectMessage
as_deleted m = record m { content = none; deleted = true }

abbrev pub rewritten : (DirectMessage → Bool) → (DirectMessage → DirectMessage) → Database → Outcome
rewritten p f db = record {
  database = record db { messages = update_where p f db.messages };
  reply = done;
  effects = [];
}

unfoldable pub edit_to : EditRequest → (user : String) → (text : Option String) → Database → Outcome
edit_to q user none db = refuse 400 db
edit_to q user (some text) db =
    if q.caller.fails write_query
    then refuse 500 db
    else if any (is_own_row q.channel_id q.message_id user) db.messages
    then rewritten (is_own_row q.channel_id q.message_id user) (edited_to text) db
    else refuse 404 db

unfoldable pub edit_by :
    (trim : String → String) → EditRequest → (user : String) → Option Value → Database → Outcome
unfolding edit_to text_of
edit_by trim q user none db = refuse 500 db
edit_by trim q user (some body) db = edit_to q user (text_of trim body) db

unfoldable pub edit_message : (trim : String → String) → EditRequest → Database → Outcome
unfolding edit_by
edit_message trim q db = elim q.caller.user [
  | none ↦ refuse 401 db
  | some user ↦ if q.caller.limited then refuse 429 db else edit_by trim q user q.body db
]

unfoldable pub delete_message : EditRequest → Database → Outcome
delete_message q db = elim q.caller.user [
  | none ↦ refuse 401 db
  | some user ↦
      if q.caller.limited
      then refuse 429 db
      else if q.caller.fails write_query
      then refuse 500 db
      else if any (is_own_row q.channel_id q.message_id user) db.messages
      then rewritten (is_own_row q.channel_id q.message_id user) as_deleted db
      else refuse 404 db
]
