-- ===== src/Signal/Endpoints.antt =====
-- apps/signal/src/index.ts: the HTTP endpoints that the web app calls. A body comes in chunks, and the
-- parse of its text is a parameter; the sockets are those that Socket.IO lists, `none` where it throws.
pub mod Laws
use Prim.Native.String
use vortex_reloaded.Base.{
  ℕ, ◌+◌, length, String, Bool, true, false, not, ◌&&◌, List, [], ◌∷◌, Option, none, some, inl, inr,
  ltb, if◌then◌else◌, str_eq, or_else, ◌⊎◌,
}
use vortex_reloaded.Signal.Value.{Value, undefined, null, is_object, get, as_string, as_nonempty}
use vortex_reloaded.Signal.Revocation.{RevocationRedis, revoke}
use vortex_reloaded.Signal.Sessions.{Server, forget}
use vortex_reloaded.Signal.Gateway.{Gateway, Effect, VortexEvent}
use vortex_reloaded.Signal.Gateway.Disconnect.{revoke_channel_access}
use vortex_reloaded.Signal.EventBus.{StreamRedis, Bus}
use vortex_reloaded.Signal.EventBus

pub record Chunk : Type 0 where
  pub bytes : ℕ
  pub text : String

pub record HttpRequest : Type 0 where
  pub authorization : Option String
  pub chunks : List Chunk
  pub stream_fails : Bool

pub data Reply : Type 0 where
  healthy not_found : Reply
  refused : (status : ℕ) → (error : String) → Reply
  revoked : (disconnected : ℕ) → Reply
  closed : Reply
  published : (event_id : String) → Reply

abbrev pub max_body_bytes : ℕ
max_body_bytes = 4096

-- `none`: the body is too large.
unfoldable pub read_body : (total : ℕ) → List Chunk → Option String
read_body total [] = some ""
read_body total (k ∷ ks) =
    let rest = read_body (total + k.bytes) ks in
    if ltb max_body_bytes (total + k.bytes)
    then none
    else (elim rest [ none ↦ none | some text ↦ some (String.◌++◌ k.text text) ])

abbrev server_error : Reply
server_error = refused 500 "Internal server error"

abbrev is_authorized : (secret : String) → Option String → Bool
is_authorized secret header = str_eq (or_else header "") (String.◌++◌ "Bearer " secret)

-- The body that is parsed.
unfoldable pub parse_body : (json_parse : String → Option Value) → HttpRequest → Reply ⊎ Value
unfolding read_body
parse_body json_parse q = elim (read_body 0 q.chunks) [
  | none ↦ inl (refused 413 "Payload too large")
  | some text ↦ if q.stream_fails then inl server_error else (elim (json_parse text) [
    | none ↦ inl server_error
    | some v ↦ if is_object v then inr v else inl (refused 400 "Invalid JSON body")
  ])
]

-- The secret of the server, which is empty where none is set, and what else must be there. Each endpoint has
-- its own word for a server without a secret.
unfoldable pub admit_request :
    (json_parse : String → Option Value) (unset secret : String) (is_ready : Bool)
    → HttpRequest
    → Reply ⊎ Value
unfolding parse_body
admit_request json_parse unset secret is_ready q =
    if str_eq secret ""
    then inl (refused 503 unset)
    else if not (is_authorized secret q.authorization)
    then inl (refused 401 "Unauthorized")
    else if not is_ready
    then inl (refused 503 "Event bus not available")
    else parse_body json_parse q

module _ (c : RevocationRedis) where
  -- The sockets of the user, each told and disconnected.
  unfoldable pub disconnect_all :
      (user : String) → List (String × Option String) → Server c → Server c × List String
  unfolding forget
  disconnect_all user [] s = (s, [])
  disconnect_all user ((id, owner) ∷ sockets) s =
      let mine = str_eq (or_else owner "") user in
      let (s', ids) = disconnect_all user sockets (if mine then forget c id s else s) in
      (s', if mine then id ∷ ids else ids)

  unfoldable pub revoke_user :
      (now : ℕ) (sockets : Option (List (String × Option String))) (user : String)
      → Server c
      → Server c × Reply × List String
  unfolding disconnect_all
  revoke_user now sockets user s =
      let (store, persisted) = revoke c now user s.store in
      if not persisted
      then (record s { store = store }, refused 503 "Failed to persist revocation", [])
      else (elim sockets [
        | none ↦ (record s { store = store }, server_error, [])
        | some ss ↦
            let (s', ids) = disconnect_all user ss (record s { store = store }) in
            (s', revoked (length ids), ids)
      ])

  -- The new state, the answer, and the sockets that are disconnected.
  unfoldable pub revoke_sessions :
      (json_parse : String → Option Value) (secret : String) (now : ℕ)
      (sockets : Option (List (String × Option String)))
      → HttpRequest
      → Server c
      → Server c × Reply × List String
  unfolding revoke_user
  revoke_sessions json_parse secret now sockets q s =
      elim (admit_request json_parse "Revocation endpoint not configured" secret true q) [
        | inl reply ↦ (s, reply, [])
        | inr body ↦ elim (as_nonempty (get "userId" body)) [
          | none ↦ (s, refused 400 "Missing or invalid 'userId' field", [])
          | some user ↦ revoke_user now sockets user s
        ]
      ]

unfoldable pub close_channel :
    (json_parse : String → Option Value) (secret : String)
    (sockets : Option (List (String × Option String)))
    → HttpRequest
    → Gateway
    → Gateway × Reply × List Effect
close_channel json_parse secret sockets q g =
    elim (admit_request json_parse "Endpoint not configured" secret true q) [
      | inl reply ↦ (g, reply, [])
      | inr body ↦ elim (as_nonempty (get "userId" body)) [
        | none ↦ (g, refused 400 "Missing or invalid 'userId' and/or 'channelId' fields", [])
        | some user ↦ elim (as_nonempty (get "channelId" body)) [
          | none ↦ (g, refused 400 "Missing or invalid 'userId' and/or 'channelId' fields", [])
          | some channel ↦
              let (g', effects) = revoke_channel_access user channel sockets g in
              (g', closed, effects)
        ]
      ]
    ]

abbrev pub or_null : Value → Value
or_null undefined = null
or_null v = v

-- The event that a body describes, under the id and the time that the bus gives it.
unfoldable pub event_of : (id timestamp : String) → Value → Option VortexEvent
event_of id timestamp body = elim (as_string (get "type" body)) [
  | none ↦ none
  | some kind ↦ elim (as_string (get "channelId" body)) [
    | none ↦ none
    | some channel ↦ elim (as_string (get "actorId" body)) [
      | none ↦ none
      | some actor ↦ some (record {
        id = id;
        kind = kind;
        channel_id = channel;
        server_id = as_string (get "serverId" body);
        actor_id = actor;
        timestamp = timestamp;
        content = or_null (get "data" body);
      })
    ]
  ]
]

module _ (r : StreamRedis) where
  -- The event of a body goes to the bus, and what it fans out is given with the answer.
  unfoldable pub publish_body :
      (fan_out : Bool) (id timestamp : String) → Value → Bus r → Bus r × Reply × List VortexEvent
  unfolding event_of EventBus.publish
  publish_body fan_out id timestamp body b = elim (event_of id timestamp body) [
    | none ↦ (b, refused 400 "Missing required fields: type, channelId, actorId", [])
    | some event ↦
        let (b', returns, out) = EventBus.publish r fan_out event b in
        (b', if returns then published id else server_error, out)
  ]

  unfoldable pub publish_event :
      (json_parse : String → Option Value) (secret : String) (fan_out : Bool)
      (id timestamp : String)
      → HttpRequest
      → Option (Bus r)
      → Option (Bus r) × Reply × List VortexEvent
  unfolding publish_body
  publish_event json_parse secret fan_out id timestamp q none =
      elim (admit_request json_parse "Endpoint not configured" secret false q) [
        | inl reply ↦ (none, reply, [])
        | inr body ↦ (none, server_error, [])
      ]
  publish_event json_parse secret fan_out id timestamp q (some b) =
      elim (admit_request json_parse "Endpoint not configured" secret true q) [
        | inl reply ↦ (some b, reply, [])
        | inr body ↦
            let (b', reply, out) = publish_body fan_out id timestamp body b in (some b', reply, out)
      ]
