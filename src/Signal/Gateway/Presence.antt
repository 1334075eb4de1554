-- ===== src/Signal/Gateway/Presence.antt =====
-- gateway.ts: `gateway:presence` and `gateway:init`. The presence manager catches its own errors.
-- A handler is in two pieces, around its await of that manager.
use vortex_reloaded.Base.{
  ℕ, String, true, ◌&&◌, List, [], ◌∷◌, ◌++◌, Option, none, some, if◌then◌else◌, str_eq, or_else,
}
use vortex_reloaded.Base.Dict.{lookup}
use vortex_reloaded.Signal.Value.{Value, is_object, get, as_string}
use vortex_reloaded.Signal.Gateway.{
  Gateway, UserStatus, online, Effect, GatewaySocketState, own_socket, set_online, update_status,
  parse_status, get_or_create_state, put, broadcast_presence,
}
use vortex_reloaded.Signal.Gateway.Access.{Session, valid, throttle}
use vortex_reloaded.Signal.Gateway.Typing.{is_valid}

abbrev pub presence_rate_limit : ℕ
presence_rate_limit = 12

-- The status of a payload, if it has one of the five names.
unfoldable pub payload_status : Value → Option UserStatus
unfolding get parse_status
payload_status data' =
    if is_object data'
    then (elim (as_string (get "status" data')) [ none ↦ none | some s ↦ parse_status s ])
    else none

-- The state object that a handler holds across an await: that of the table, or as it was where a disconnect
-- has taken it from there.
abbrev pub held_state : (socket : String) → GatewaySocketState → Gateway → GatewaySocketState
held_state socket held g = or_else (lookup socket g.socket_states) held

-- After the await: the channels that are subscribed by then are told.
unfoldable pub announce_held :
    (now : ℕ) (socket : String) → GatewaySocketState → Gateway → List Effect
announce_held now socket held g =
    let st = held_state socket held g in broadcast_presence now st st.subscribed_channels

abbrev pub with_status : UserStatus → GatewaySocketState → GatewaySocketState
with_status status st = record st { status = status; status_known = true }

-- Up to the await of the presence manager.
unfoldable pub presence_set :
    (socket : String) → UserStatus → GatewaySocketState → Gateway → Gateway × List Effect
presence_set socket status st g =
    (put socket (with_status status st) g, update_status st.user_id status ∷ [])

-- `between` is what other handlers do during the await.
unfoldable pub presence_commit :
    (between : Gateway → Gateway) (now : ℕ) (socket : String)
    → UserStatus
    → Gateway
    → Gateway × List Effect
presence_commit between now socket status g = elim (lookup socket g.socket_states) [
  | none ↦ (g, [])
  | some st ↦
      let (g', es) = presence_set socket status st g in
      let g'' = between g' in (g'', es ++ announce_held now socket (with_status status st) g'')
]

unfoldable pub presence_handler :
    (between : Gateway → Gateway) (now : ℕ) (socket : String)
    → Session
    → Value
    → Gateway
    → Gateway × List Effect
unfolding presence_commit throttle payload_status
presence_handler between now socket session data' g = elim (payload_status data') [
  | none ↦ (g, [])
  | some status ↦
      let (g', passed) = throttle now socket "presence" presence_rate_limit g in
      if passed && is_valid session then presence_commit between now socket status g' else (g', [])
]

-- Up to the await of the presence manager.
unfoldable pub init_set : (socket user : String) → UserStatus → Gateway → Gateway × List Effect
init_set socket user status g = (
  put socket (with_status status (get_or_create_state socket user g)) g,
  own_socket user ∷ set_online user socket status ∷ [],
)

unfoldable pub init_commit :
    (between : Gateway → Gateway) (now : ℕ) (socket user : String)
    → UserStatus
    → Gateway
    → Gateway × List Effect
init_commit between now socket user status g =
    let (g', es) = init_set socket user status g in
    let g'' = between g' in
    (
      g'',
      es ++ announce_held now socket (with_status status (get_or_create_state socket user g)) g'',
    )

abbrev init_user : Session → Option String
init_user (valid (some user)) = if str_eq user "" then none else some user
init_user _ = none

-- A payload with no known status counts as "online".
unfoldable pub init_handler :
    (between : Gateway → Gateway) (now : ℕ) (socket : String)
    → Session
    → Value
    → Gateway
    → Gateway × List Effect
unfolding init_commit payload_status
init_handler between now socket session data' g = elim (init_user session) [
  | none ↦ (g, [])
  | some user ↦ init_commit between now socket user (or_else (payload_status data') online) g
]
