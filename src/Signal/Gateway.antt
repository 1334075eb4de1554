-- ===== src/Signal/Gateway.antt =====
-- apps/signal/src/gateway.ts: the state of the gateway's sockets and what the handlers send.
-- Socket.IO and Redis are not modelled: a handler answers with the list of its calls of them.
pub mod Access
pub mod Subscribe
pub mod Typing
pub mod Presence
pub mod Resume
pub mod Disconnect
pub mod Pieces
pub mod Rooms
pub mod Mirror
pub mod Leaving
pub mod Handlers
use Prim.Native.String
use vortex_reloaded.Base.{
  ℕ, String, Bool, true, false, List, [], ◌∷◌, Option, none, some, map, if◌then◌else◌, str_eq,
}
use vortex_reloaded.Base.Dict.{Dict, lookup, insert}
use vortex_reloaded.Signal.RateLimiter.{Windows}
use vortex_reloaded.Signal.Value.{Value}

pub data UserStatus : Type 0 where
  online idle dnd invisible offline : UserStatus

-- `validStatuses.includes(status)`
unfoldable pub parse_status : String → Option UserStatus
parse_status s =
    if str_eq s "online"
    then some online
    else if str_eq s "idle"
    then some idle
    else if str_eq s "dnd"
    then some dnd
    else if str_eq s "invisible"
    then some invisible
    else if str_eq s "offline"
    then some offline
    else none

pub record VortexEvent : Type 0 where
  pub id : String
  pub kind : String
  pub channel_id : String
  pub server_id : Option String
  pub actor_id : String
  pub timestamp : String
  pub content : Value

pub record GatewaySocketState : Type 0 where
  pub user_id : String
  pub subscribed_channels : List String
  pub status : UserStatus
  pub status_known : Bool

pub record TypingEntry : Type 0 where
  pub user_id : String
  pub channel_id : String
  pub timer : ℕ

-- A call of `setTimeout` that has neither fired nor been cleared.
pub record Timer : Type 0 where
  pub id : ℕ
  pub key : String
  pub user_id : String
  pub channel_id : String
  pub due : ℕ

-- The module's variables, with the pending timers of the runtime.
pub record Gateway : Type 0 where
  pub socket_states : Dict GatewaySocketState
  pub active_typing : Dict TypingEntry
  pub limiter : Windows
  pub timers : List Timer
  pub next_timer : ℕ

pub data Message : Type 0 where
  error : String → Message
  subscribed : (channel_ids denied : List String) → Message
  presence : (user_id : String) → UserStatus → (updated_at : ℕ) → Message
  typing : (channel_id user_id : String) → (is_typing : Bool) → Message
  call_signal :
      (channel_id kind user_id : String)
      → (with_video : Option Bool) → (caller_name : Option String)
      → (caller_avatar : Option (Option String)) → Message
  replay : (channel_id : String) → List VortexEvent → (has_more : Bool) → Message
  resume_complete : (channels gap_too_large : List String) → Message
  event : VortexEvent → Message

-- The calls that leave the module.
pub data Effect : Type 0 where
  -- `socket.emit`
  emit : Message → Effect
  -- `socket.to(rooms).emit`: all sockets in the rooms but this one
  to_others : (rooms : List String) → Message → Effect
  -- `io.to(rooms).emit`
  to_rooms : (rooms : List String) → Message → Effect
  -- `socket.join` and `socket.leave`
  join leave : (room : String) → Effect
  -- `RemoteSocket.leave`
  leave_remote : (socket room : String) → Effect
  -- `socket.data.userId = …`
  own_socket : (user_id : String) → Effect
  -- the presence manager
  set_online : (user_id socket : String) → UserStatus → Effect
  update_status : (user_id : String) → UserStatus → Effect
  set_offline : (user_id : String) → Effect

unfoldable pub room : String → String
room channel = String.◌++◌ "gateway:" channel

unfoldable pub typing_key : (user channel : String) → String
typing_key user channel = String.◌++◌ user (String.◌++◌ ":" channel)

abbrev pub new_state : String → GatewaySocketState
new_state user = record {
  user_id = user;
  subscribed_channels = [];
  status = online;
  status_known = false;
}

-- The state that `getOrCreateState` returns; `put` stores it, as the changes to it are.
unfoldable pub get_or_create_state : (socket user : String) → Gateway → GatewaySocketState
get_or_create_state socket user g = elim (lookup socket g.socket_states) [
  | none ↦ new_state user
  | some st ↦ record st { user_id = user }
]

unfoldable pub put : (socket : String) → GatewaySocketState → Gateway → Gateway
put socket st g = record g { socket_states = insert socket st g.socket_states }

abbrev pub mask : UserStatus → UserStatus
mask invisible = offline
mask online = online
mask idle = idle
mask dnd = dnd
mask offline = offline

-- Nothing is sent while the status is not known, or where no room would hear it.
unfoldable pub broadcast_presence :
    (now : ℕ) → GatewaySocketState → (channels : List String) → List Effect
broadcast_presence now st channels =
    if st.status_known
    then (elim channels [
      | [] ↦ []
      | c ∷ cs ↦ to_others (map room (c ∷ cs)) (presence st.user_id (mask st.status) now) ∷ []
    ])
    else []
