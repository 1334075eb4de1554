-- ===== src/Signal/EventBus.antt =====
-- apps/signal/src/event-bus.ts: events kept in Redis streams, and their replay. Fan-out over pub/sub is
-- the list of calls that `publish` makes; the subscriptions of a replica are a list in the order of the Map.
pub mod Search
pub mod Laws
use vortex_reloaded.Base.{
  ℕ, zero, suc, ◌-◌, String, Bool, true, false, not, ◌&&◌, ◌||◌, List, [], ◌∷◌, Option, none, some,
  ltb, ◌==◌, filter, if◌then◌else◌, ◌++◌, str_eq, any, take, ◌≡◌, ◌≤◌, ◌+◌,
}
use Prim.Native.String
use mathlib.Core.List.{reverse}
use vortex_reloaded.Signal.Gateway.{VortexEvent}

-- The id `ms-seq` of an entry of a stream.
pub record StreamId : Type 0 where
  pub ms : ℕ
  pub seq : ℕ

abbrev pub id_lt : StreamId → StreamId → Bool
id_lt a b = ltb a.ms b.ms || (a.ms == b.ms && ltb a.seq b.seq)

-- An entry with what `JSON.parse` makes of its second field; `none` if that is missing or malformed.
pub record StreamEntry : Type 0 where
  pub id : StreamId
  pub event : Option VortexEvent

abbrev pub is_within : Option StreamId → StreamEntry → Bool
is_within none e = true
is_within (some end) e = not (id_lt end e.id)

abbrev pub is_beyond : Option StreamId → StreamEntry → Bool
is_beyond none e = true
is_beyond (some start) e = id_lt start e.id

-- The stream commands; `none` is a call that throws. `newest` is the content of a stream, its newest
-- entry first. XRANGE reads the entries beyond an id and XREVRANGE those up to one, as many as COUNT; XADD
-- puts an entry with a later id before the others, and may trim the stream to no fewer than MAXLEN.
pub record StreamRedis : Type 1 where
  pub State : Type 0
  pub newest : String → State → List StreamEntry
  pub xadd : String → (max_length : ℕ) → VortexEvent → State → Option State
  pub xrange : String → (after : Option StreamId) → (count : ℕ) → State → Option (List StreamEntry)
  pub xrevrange : String → (end : Option StreamId) → (count : ℕ) → State → Option (List StreamEntry)
  pub xrange_reads :
      (key : String) (after : Option StreamId) (count : ℕ) (r : State) (es : List StreamEntry)
      → xrange key after count r ≡ some es
      → es ≡ take count (filter (is_beyond after) (reverse (newest key r)))
  pub xrevrange_reads :
      (key : String) (end : Option StreamId) (count : ℕ) (r : State) (es : List StreamEntry)
      → xrevrange key end count r ≡ some es
      → es ≡ take count (filter (is_within end) (newest key r))
  pub xadd_stores :
      (key : String) (max_length : ℕ) (event : VortexEvent) (r r' : State)
      → xadd key max_length event r ≡ some r'
      → (id : StreamId) × (kept : ℕ) × (max_length ≤ kept + 1)
        × (newest key r' ≡ record { id = id; event = some event } ∷ take kept (newest key r))

pub record SubscribeOptions : Type 0 where
  pub channel_id : Option String
  pub kinds : List String

-- The empty channel id and the empty list of kinds count as no filter.
unfoldable pub matches_filter : VortexEvent → SubscribeOptions → Bool
matches_filter event options =
    (elim options.channel_id [ none ↦ true | some c ↦ str_eq c "" || str_eq event.channel_id c ])
    && (elim options.kinds [ [] ↦ true | k ∷ ks ↦ any (λ x. str_eq x event.kind) (k ∷ ks) ])

pub record Subscription : Type 0 where
  pub id : String
  pub options : SubscribeOptions

-- The subscriptions whose callback an event reaches.
abbrev pub dispatch_to_subscribers : VortexEvent → List Subscription → List Subscription
dispatch_to_subscribers event = filter (λ s. matches_filter event s.options)

abbrev pub persisted_event_types : List String
persisted_event_types =
    "message.created" ∷ "message.updated" ∷ "message.deleted" ∷ "reaction.added"
    ∷ "reaction.removed" ∷ "thread.created" ∷ "thread.updated" ∷ "member.joined" ∷ "member.left"
    ∷ "channel.updated" ∷ []

abbrev pub event_stream_max_length : ℕ
event_stream_max_length = 1000

abbrev pub stream_key : String → String
stream_key channel = String.◌++◌ "vortex:stream:" channel

abbrev pub batch_size : ℕ
batch_size = 200

abbrev pub max_attempts : ℕ
max_attempts = 5

-- The events of entries that can be read.
unfoldable pub events_of : List StreamEntry → List VortexEvent
events_of [] = []
events_of (e ∷ es) = elim e.event [ none ↦ events_of es | some v ↦ v ∷ events_of es ]

-- The first entry with the event of an id.
unfoldable pub find_in : String → List StreamEntry → Option StreamId
find_in id [] = none
find_in id (e ∷ es) = elim e.event [
  | none ↦ find_in id es
  | some v ↦ if str_eq v.id id then some e.id else find_in id es
]

abbrev pub last_id : StreamEntry → List StreamEntry → StreamId
last_id e [] = e.id
last_id e (f ∷ es) = last_id f es

-- The id just before; Redis refuses the time -1, which the call throws on.
unfoldable pub before : StreamId → Option StreamId
before i =
    if ltb 0 i.seq
    then some (record i { seq = i.seq - 1 })
    else if ltb 0 i.ms
    then some (record { ms = i.ms - 1; seq = 99999 })
    else none

module _ (c : StreamRedis) where
  pub record Bus : Type 0 where
    pub redis : c.State
    pub subscriptions : List Subscription
    pub destroyed : Bool

  -- The subscription's id is a new UUID.
  unfoldable pub subscribe : (id : String) → SubscribeOptions → Bus → Bus
  subscribe id options b = record b {
    subscriptions = b.subscriptions ++ record { id = id; options = options } ∷ [];
  }

  unfoldable pub unsubscribe : (id : String) → Bus → Bus
  unsubscribe id b = record b { subscriptions = filter (λ s. not (str_eq s.id id)) b.subscriptions }

  unfoldable pub destroy : Bus → Bus
  destroy b = if b.destroyed then b else record b { subscriptions = []; destroyed = true }

  -- `none`: a call threw.
  unfoldable pub find_stream_entry_id :
      (attempts batch : ℕ) (key id : String) (end : Option StreamId)
      → c.State
      → Option (Option StreamId)
  unfolding find_in before
  find_stream_entry_id zero batch key id end r = some none
  find_stream_entry_id (suc n) batch key id end r = elim (c.xrevrange key end batch r) [
    | none ↦ none
    | some es ↦ elim es [
      | [] ↦ some none
      | e ∷ rest ↦ elim (find_in id (e ∷ rest)) [
        | some found ↦ some (some found)
        | none ↦ elim (before (last_id e rest)) [
          | none ↦ none
          | some end' ↦ find_stream_entry_id n batch key id (some end') r
        ]
      ]
    ]
  ]

  -- A call that throws is caught, and counts as no events.
  unfoldable pub replay : (channel after_event : String) (limit : ℕ) → Bus → List VortexEvent
  unfolding find_stream_entry_id events_of
  replay channel after_event limit b =
      if b.destroyed
      then []
      else (elim (find_stream_entry_id max_attempts batch_size (stream_key channel) after_event none
          b.redis) [
            | none ↦ []
            | some start ↦ elim (c.xrange (stream_key channel) start limit b.redis) [
              | none ↦ []
              | some es ↦ events_of es
            ]
          ])

  -- The bus, whether the call returns, and what it fans out. A persisted event is added to its stream
  -- first, and stays there if the call of pub/sub fails, which is `fan_out`.
  unfoldable pub publish : (fan_out : Bool) → VortexEvent → Bus → Bus × Bool × List VortexEvent
  publish fan_out event b =
      if b.destroyed
      then (b, false, [])
      else if any (λ k. str_eq k event.kind) persisted_event_types
      then (elim (c.xadd (stream_key event.channel_id) event_stream_max_length event b.redis) [
        | none ↦ (b, false, [])
        | some r ↦
            if fan_out
            then (record b { redis = r }, true, event ∷ [])
            else (record b { redis = r }, false, [])
      ])
      else (if fan_out then (b, true, event ∷ []) else (b, false, []))
