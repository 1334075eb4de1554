-- ===== src/Web/Dm.antt =====
-- packages/db/src/schema/dm.ts and the queries of apps/web/app/api/dm: the tables of direct messages,
-- with the keys that SQLite enforces. Rows come in the order of their insertion.
pub mod Channels
pub mod Members
pub mod Envelope
pub mod Messages
pub mod Edits
pub mod Reactions
pub mod Rooms
pub mod Service
pub mod Cases
pub mod Changes
pub mod Send
pub mod Sending
pub mod Pairs
pub mod Access
pub mod Removal
pub mod Opening
use vortex_reloaded.Base.{
  ℕ, ◌+◌, String, Bool, true, false, not, ◌&&◌, ◌||◌, List, [], ◌∷◌, ◌++◌, Option, none, some, find,
  filter, any, map, if◌then◌else◌, str_eq,
}
use Prim.Native.String

pub data EncryptionScheme : Type 0 where
  legacy_ecdh olm : EncryptionScheme

pub record DmChannel : Type 0 where
  pub id : String
  pub is_group : Bool
  pub owner_id : Option String
  pub is_encrypted : Bool
  pub encryption_scheme : EncryptionScheme
  pub encryption_key_version : ℕ

pub record DmChannelMember : Type 0 where
  pub dm_channel_id : String
  pub user_id : String

-- `edited` and `deleted` say that `editedAt` and `deletedAt` are set.
pub record DirectMessage : Type 0 where
  pub id : String
  pub dm_channel_id : String
  pub sender_id : String
  pub content : Option String
  pub reply_to_id : Option String
  pub edited : Bool
  pub deleted : Bool

pub record DmReaction : Type 0 where
  pub dm_id : String
  pub user_id : String
  pub emoji : String

pub record Database : Type 0 where
  pub channels : List DmChannel
  pub members : List DmChannelMember
  pub messages : List DirectMessage
  pub reactions : List DmReaction

-- The statements of a handler, each of which may throw.
pub data Query : Type 0 where
  members_query blocks_query channel_query message_query profile_query write_query : Query

-- What a handler does besides: events for the gateway, entries of the membership log, the nudge to
-- compare safety numbers, the removal of live sockets from a room, and push notifications.
pub data Effect : Type 0 where
  publish : (kind channel : String) → Effect
  log_membership : (action channel actor target : String) → Effect
  nudge : (channel actor target : String) → Effect
  revoke : (user channel : String) → Effect
  push : (channel excluded : String) → Effect

pub data Reply : Type 0 where
  refused : (status : ℕ) → Reply
  done : Reply
  opened : (channel : String) → (existing : Bool) → Reply
  created : (message : String) → Reply

pub record Outcome : Type 0 where
  pub database : Database
  pub reply : Reply
  pub effects : List Effect

abbrev pub refuse : ℕ → Database → Outcome
refuse status db = record { database = db; reply = refused status; effects = [] }

-- Who asks, if the session is valid; what the rate limiter says; and which statements throw.
pub record Caller : Type 0 where
  pub user : Option String
  pub limited : Bool
  pub fails : Query → Bool

abbrev pub is_row : (channel user : String) → DmChannelMember → Bool
is_row c u m = str_eq m.dm_channel_id c && str_eq m.user_id u

abbrev pub rows_of : String → List DmChannelMember → List DmChannelMember
rows_of c = filter (λ m. str_eq m.dm_channel_id c)

abbrev pub members_of : String → Database → List String
members_of c db = map (λ m. m.user_id) (rows_of c db.members)

abbrev pub is_member : (channel user : String) → Database → Bool
is_member c u db = any (is_row c u) db.members

abbrev pub channels_of : String → Database → List String
channels_of u db = map (λ m. m.dm_channel_id) (filter (λ m. str_eq m.user_id u) db.members)

abbrev pub channel_row : String → Database → Option DmChannel
channel_row c db = find (λ ch. str_eq ch.id c) db.channels

-- The triggers `dm_rotate_on_member_insert` and `dm_rotate_on_member_delete`, for `n` rows of a channel: an
-- encrypted channel goes on to another version of its key with each.
abbrev pub rotate : (channel : String) (n : ℕ) → DmChannel → DmChannel
rotate c n ch =
    if str_eq ch.id c && ch.is_encrypted
    then record ch { encryption_key_version = ch.encryption_key_version + n }
    else ch

-- The synthetic channel of one user.
abbrev pub user_channel : String → String
user_channel u = String.◌++◌ "user:" u
