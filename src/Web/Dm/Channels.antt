-- ===== src/Web/Dm/Channels.antt =====
-- apps/web/app/api/dm/channels/route.ts: POST, which opens a channel.
use vortex_reloaded.Base.{
  ◌+◌, String, Bool, true, false, not, ◌&&◌, ◌||◌, is_some, List, [], ◌∷◌, ◌++◌, Option, none, some,
  find, filter, map, ltb, length, if◌then◌else◌, str_eq,
}
use vortex_reloaded.Base.Sets.{has, add_all}
use vortex_reloaded.Web.Dm.{
  DmChannel, DmChannelMember, Database, Caller, Outcome, refuse, opened, Effect, publish,
  log_membership, nudge, olm, legacy_ecdh, members_query, channel_query, write_query, channels_of,
  channel_row, user_channel,
}

-- `user_ids` is empty if the body has none. `fresh` is the id of a new row.
pub record CreateRequest : Type 0 where
  pub caller : Caller
  pub is_json : Bool
  pub user_ids : List String
  pub encrypted : Bool
  pub fresh : String

abbrev pub all_members : (user : String) → List String → List String
all_members user ids = add_all [] (user ∷ ids)

abbrev pub is_group_of : (user : String) → List String → Bool
is_group_of user ids = ltb 2 (length (all_members user ids))

-- The first channel of two that both users are in, encrypted as wanted.
abbrev pub existing_channel :
    (encrypted : Bool) (user partner : String) → Database → Option DmChannel
existing_channel encrypted user partner db =
    let shared = filter (λ id. has id (channels_of user db)) (channels_of partner db) in
    find
      (λ ch.
        has ch.id shared
        && (not ch.is_group && (if encrypted then ch.is_encrypted else not ch.is_encrypted)))
      db.channels

abbrev pub others : (user : String) → List String → List String
others user = filter (λ m. not (str_eq m user))

abbrev pub creation_effects :
    (channel user : String) → (is_group : Bool) → List String → List Effect
creation_effects channel user is_group ms =
    map (λ m. publish "member.joined" (user_channel m)) (others user ms)
    ++ (if is_group
        then map (λ m. log_membership "member_added" channel user m) (others user ms)
          ++ map (λ m. nudge channel user m) (others user ms)
        else [])

-- The row as the transaction leaves it: it starts with version 1 of its key, which a trigger raises for each
-- member that is added.
abbrev pub new_channel : CreateRequest → (user : String) → DmChannel
new_channel q user = record {
  id = q.fresh;
  is_group = is_group_of user q.user_ids;
  owner_id = some user;
  is_encrypted = q.encrypted;
  encryption_scheme = if q.encrypted then olm else legacy_ecdh;
  encryption_key_version = if q.encrypted then 1 + length (all_members user q.user_ids) else 1;
}

abbrev pub new_members : CreateRequest → (user : String) → List DmChannelMember
new_members q user =
    map (λ m. record { dm_channel_id = q.fresh; user_id = m }) (all_members user q.user_ids)

abbrev pub channel_inserted : CreateRequest → (user : String) → Database → Outcome
channel_inserted q user db = record {
  database = record db {
    channels = db.channels ++ new_channel q user ∷ [];
    members = db.members ++ new_members q user;
  };
  reply = opened q.fresh false;
  effects =
      creation_effects q.fresh user (is_group_of user q.user_ids) (all_members user q.user_ids);
}

-- The transaction adds the channel and its members, or neither. The primary key refuses a known id.
unfoldable pub insert_channel : CreateRequest → (user : String) → Database → Outcome
insert_channel q user db =
    if q.caller.fails write_query || is_some (channel_row q.fresh db)
    then refuse 500 db
    else channel_inserted q user db

unfoldable pub open_channel : CreateRequest → (user partner : String) → Database → Outcome
unfolding insert_channel
open_channel q user partner db =
    if is_group_of user q.user_ids
    then insert_channel q user db
    else if q.caller.fails members_query
    then refuse 500 db
    else if q.caller.fails channel_query
    then refuse 500 db
    else (elim (existing_channel q.encrypted user partner db) [
      | some ch ↦ record { database = db; reply = opened ch.id true; effects = [] }
      | none ↦ insert_channel q user db
    ])

-- The partner is the first of the ids, even if that is the caller.
unfoldable pub create_channel : CreateRequest → Database → Outcome
unfolding open_channel
create_channel q db = elim q.caller.user [
  | none ↦ refuse 401 db
  | some user ↦
      if q.caller.limited
      then refuse 429 db
      else if q.is_json
      then (elim q.user_ids [ [] ↦ refuse 400 db | partner ∷ ids ↦ open_channel q user partner db ])
      else refuse 400 db
]
