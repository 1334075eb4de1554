-- ===== src/Web/Dm/Reactions.antt =====
-- apps/web/app/api/dm/channels/[channelId]/messages/[messageId]/reactions/route.ts: reactions to messages.
use vortex_reloaded.Base.{
  String, Bool, not, ◌&&◌, List, [], ◌∷◌, ◌++◌, Option, none, some, find, filter, any,
  if◌then◌else◌, str_eq, ℕ,
}
use vortex_reloaded.Web.Friends.{Rows}
use vortex_reloaded.Web.Blocking.{is_blocked_between_users}
use vortex_reloaded.Web.Dm.{
  DirectMessage, DmReaction, Database, Caller, Outcome, refuse, done, publish, members_query,
  blocks_query, message_query, write_query, is_member,
}

-- `emoji` is `none` if the body has none, or is no JSON.
pub record ReactionRequest : Type 0 where
  pub caller : Caller
  pub channel_id : String
  pub message_id : String
  pub emoji : Option String
  pub friendships : Rows

-- `prefix` is the first 64 UTF-16 units of a text.
abbrev pub normalize_emoji : (trim prefix : String → String) → Option String → Option String
normalize_emoji trim prefix none = none
normalize_emoji trim prefix (some raw) =
    if str_eq (trim raw) "" then none else some (prefix (trim raw))

-- The message, or the status of the refusal.
pub data Verified : Type 0 where
  unverified : ℕ → Verified
  verified : DirectMessage → Verified

abbrev pub is_live_row : (channel message : String) → DirectMessage → Bool
is_live_row c id m = str_eq m.id id && (str_eq m.dm_channel_id c && not m.deleted)

abbrev pub verify_membership_and_message : ReactionRequest → (user : String) → Database → Verified
verify_membership_and_message q user db =
    if q.caller.fails members_query
    then unverified 500
    else if not (is_member q.channel_id user db)
    then unverified 403
    else if q.caller.fails message_query
    then unverified 500
    else (elim (find (is_live_row q.channel_id q.message_id) db.messages) [
      | none ↦ unverified 404
      | some m ↦ verified m
    ])

abbrev pub is_reaction : (message user emoji : String) → DmReaction → Bool
is_reaction id u e r = str_eq r.dm_id id && (str_eq r.user_id u && str_eq r.emoji e)

-- A conflict with the primary key does nothing.
abbrev pub insert_reaction : (message user emoji : String) → List DmReaction → List DmReaction
insert_reaction id u e rs =
    if any (is_reaction id u e) rs
    then rs
    else rs ++ record { dm_id = id; user_id = u; emoji = e } ∷ []

abbrev pub reacted : (kind channel : String) → List DmReaction → Database → Outcome
reacted kind channel rs db = record {
  database = record db { reactions = rs };
  reply = done;
  effects = publish kind channel ∷ [];
}

-- The block check of a user with himself reads nothing.
unfoldable pub react_to : ReactionRequest → (user emoji : String) → Verified → Database → Outcome
unfolding is_blocked_between_users
react_to q user emoji (unverified status) db = refuse status db
react_to q user emoji (verified m) db =
    if q.caller.fails blocks_query && not (str_eq user m.sender_id)
    then refuse 500 db
    else if is_blocked_between_users user m.sender_id q.friendships
    then refuse 403 db
    else if q.caller.fails write_query
    then refuse 500 db
    else reacted "reaction.added" q.channel_id
        (insert_reaction q.message_id user emoji db.reactions) db

unfoldable pub unreact_to : ReactionRequest → (user emoji : String) → Verified → Database → Outcome
unreact_to q user emoji (unverified status) db = refuse status db
unreact_to q user emoji (verified m) db =
    if q.caller.fails write_query
    then refuse 500 db
    else reacted "reaction.removed" q.channel_id
        (filter (λ r. not (is_reaction q.message_id user emoji r)) db.reactions) db

-- What the two handlers have in common, with their last step.
unfoldable pub with_message :
    (trim prefix : String → String)
    → ((user emoji : String) → Verified → Database → Outcome)
    → ReactionRequest
    → Database
    → Outcome
with_message trim prefix step q db = elim q.caller.user [
  | none ↦ refuse 401 db
  | some user ↦
      if q.caller.limited then refuse 429 db else (elim (normalize_emoji trim prefix q.emoji) [
        | none ↦ refuse 400 db
        | some emoji ↦ step user emoji (verify_membership_and_message q user db) db
      ])
]

module _ (trim prefix : String → String) where
  unfoldable pub add_reaction : ReactionRequest → Database → Outcome
  unfolding with_message react_to
  add_reaction q = with_message trim prefix (react_to q) q

  unfoldable pub remove_reaction : ReactionRequest → Database → Outcome
  unfolding with_message unreact_to
  remove_reaction q = with_message trim prefix (unreact_to q) q
