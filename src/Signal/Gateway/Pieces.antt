-- ===== src/Signal/Gateway/Pieces.antt =====
-- The gateway as a system of undisturbed pieces of handlers, which the awaits let interleave. A piece is of
-- a connected socket: disconnects and the revocation of a channel are not among them, so the state that
-- `opens` makes is there when its handler rejoins.
use vortex_reloaded.Base.{ℕ, String, Bool, List, [], ◌∷◌, Option, none, some, if◌then◌else◌, str_eq}
use vortex_reloaded.Base.Dict.{lookup}
use vortex_reloaded.Base.Sets.{has, add, remove}
use vortex_reloaded.Signal.Value.{Value}
use vortex_reloaded.Signal.Gateway.{
  Gateway, UserStatus, Timer, GatewaySocketState, VortexEvent, Effect, join, leave,
}
use vortex_reloaded.Signal.Gateway.Access.{throttle}
use vortex_reloaded.Signal.Gateway.Subscribe.{subscribe_commit, unsubscribe_commit}
use vortex_reloaded.Signal.Gateway.Typing.{typing_commit, typing_expired, call_signal_commit}
use vortex_reloaded.Signal.Gateway.Presence.{presence_set, init_set, announce_held}
use vortex_reloaded.Signal.Gateway.Resume.{
  resume_open, resume_rejoin, resume_finish, replayed, tracked,
}

pub data Piece : Type 0 where
  charges : (action : String) (limit : ℕ) → Piece
  subscribes : (user : String) (requested granted : List String) → Piece
  unsubscribes : (channels : List String) → Piece
  types : (channel : String) → Bool → Piece
  calls : (channel kind : String) → Value → Piece
  sets : UserStatus → Piece
  inits : (user : String) → UserStatus → Piece
  announces : (held : GatewaySocketState) → Piece
  opens : (user : String) → Piece
  rejoins : (granted : List String) (channel : String) → Piece
  replays : (channel : String) → Option (List VortexEvent) → Piece
  finishes : (held : GatewaySocketState) → (rejoined success gap_too_large : List String) → Piece
  expires : Timer → Piece

unfoldable pub act : (now : ℕ) (socket : String) → Piece → Gateway → Gateway × List Effect
act now s (charges action limit) g = ((throttle now s action limit g).0, [])
act now s (subscribes user requested granted) g = subscribe_commit now s user requested granted g
act now s (unsubscribes channels) g = unsubscribe_commit s channels g
act now s (types channel b) g = typing_commit now s channel b g
act now s (calls channel kind data') g = call_signal_commit s channel kind data' g
act now s (sets status) g = elim (lookup s g.socket_states) [
  | none ↦ (g, [])
  | some st ↦ presence_set s status st g
]
act now s (inits user status) g = init_set s user status g
act now s (announces held) g = (g, announce_held now s held g)
act now s (opens user) g = resume_open s user g
act now s (rejoins granted channel) g = elim (lookup s g.socket_states) [
  | none ↦ (g, [])
  | some st ↦ if has channel granted then resume_rejoin s channel g else (g, [])
]
act now s (replays channel found) g = (g, replayed channel found)
act now s (finishes held rejoined success gaps) g =
    (g, resume_finish now s held rejoined success gaps g)
act now s (expires t) g = typing_expired t g

-- The channels that the gateway holds a socket to be subscribed to.
unfoldable pub channels_of : String → Gateway → List String
channels_of s g = tracked (lookup s g.socket_states)

-- The rooms that a socket is in after its handler's calls.
unfoldable pub enter : List Effect → List String → List String
enter [] rooms = rooms
enter (join r ∷ es) rooms = enter es (add r rooms)
enter (leave r ∷ es) rooms = enter es (remove r rooms)
enter (_ ∷ es) rooms = enter es rooms

-- The rooms of every socket.
abbrev pub Rooms : Type 0
Rooms = String → List String

abbrev pub enter_as : String → List Effect → Rooms → Rooms
enter_as s es rooms s' = if str_eq s s' then enter es (rooms s') else rooms s'

pub record Turn : Type 0 where
  pub now : ℕ
  pub socket : String
  pub piece : Piece

-- Any interleaving of pieces of any sockets.
unfoldable pub run : List Turn → Gateway × Rooms → Gateway × Rooms
run [] (g, rooms) = (g, rooms)
run (t ∷ ts) (g, rooms) =
    let (g', es) = act t.now t.socket t.piece g in run ts (g', enter_as t.socket es rooms)
