-- ===== src/Signal/Gateway/Resume.antt =====
-- gateway.ts: `gateway:resume`, which waits for the replay of every channel. What other handlers do during
-- these awaits is the argument `between` of its definitions.
use vortex_reloaded.Base.{
  ℕ, String, Bool, true, false, List, [], ◌∷◌, ◌++◌, Option, none, some, map, ltb, leb, length,
  if◌then◌else◌, str_eq,
}
use vortex_reloaded.Base.Dict.{lookup}
use vortex_reloaded.Base.Sets.{has, add}
use vortex_reloaded.Signal.Value.{Value, is_object, get, entries, string_entries}
use vortex_reloaded.Signal.Gateway.{
  Gateway, GatewaySocketState, VortexEvent, Effect, emit, join, own_socket, replay, resume_complete,
  room, get_or_create_state, put, broadcast_presence,
}
use vortex_reloaded.Signal.Gateway.Access.{
  ChannelAccess, Session, threw, invalid, valid, Verdict, stop, go, Replay, throttle,
}
use vortex_reloaded.Signal.Gateway.Presence.{held_state}
use vortex_reloaded.Signal.Gateway.Subscribe.{refuse, subscribe_rate_limit}

abbrev pub max_replay_events : ℕ
max_replay_events = 500

unfoldable pub resume_admit :
    (now : ℕ) (socket : String) → Value → Gateway → Gateway × Verdict Value
unfolding throttle
resume_admit now socket data' g =
    if is_object data'
    then (let (g', passed) = throttle now socket "resume" subscribe_rate_limit g in
        if passed
        then (g', go data')
        else (g', stop (refuse "Rate limit exceeded for gateway:resume")))
    else (g, stop (refuse "Invalid gateway:resume payload"))

unfoldable pub resume_entries : (user : String) → Value → Verdict (String × List (String × String))
unfolding entries string_entries
resume_entries user channels =
    if is_object channels
    then (if ltb 100 (length (entries channels))
        then stop (refuse "Cannot resume more than 100 channels at once")
        else go (user, string_entries (entries channels)))
    else stop (refuse "channels must be a Record<channelId, lastEventId>")

-- After the session check: who resumes which channels, each with the last event that was seen.
unfoldable pub resume_request : Session → Value → Verdict (String × List (String × String))
unfolding resume_entries get
resume_request threw data' = stop (refuse "Internal server error")
resume_request invalid data' = stop []
resume_request (valid none) data' = stop []
resume_request (valid (some user)) data' =
    if str_eq user "" then stop [] else resume_entries user (get "channels" data')

pub record Resumed : Type 0 where
  pub gateway : Gateway
  pub rejoined : List String
  pub success : List String
  pub gap_too_large : List String
  pub effects : List Effect

-- What one channel's replay sends.
abbrev pub replayed : (channel : String) → Option (List VortexEvent) → List Effect
replayed channel none = []
replayed channel (some []) = []
replayed channel (some (e ∷ es)) =
    emit (replay channel (e ∷ es) (leb max_replay_events (length (e ∷ es)))) ∷ []

abbrev pub is_replayed : Option (List VortexEvent) → Bool
is_replayed none = false
is_replayed (some es) = true

abbrev pub keep_if : Bool → String → List String → List String
keep_if true c cs = c ∷ cs
keep_if false c cs = cs

abbrev pub tracked : Option GatewaySocketState → List String
tracked none = []
tracked (some st) = st.subscribed_channels

-- A rejoin up to the await of its replay. The state that a disconnect has taken is no longer in the table.
unfoldable pub resume_rejoin : (socket channel : String) → Gateway → Gateway × List Effect
resume_rejoin socket channel g = elim (lookup socket g.socket_states) [
  | none ↦ (g, join (room channel) ∷ [])
  | some st ↦
      let st' = record st { subscribed_channels = add channel st.subscribed_channels } in
      (put socket st' g, join (room channel) ∷ [])
]

-- The loop over the entries; a channel that is not allowed is skipped. During the replay of a channel,
-- with the entries `es` still to come, the other handlers do `between es`.
unfoldable pub resume_all :
    Replay
    → (between : List (String × String) → Gateway → Gateway) → (socket : String)
    → (allowed : List String) → List (String × String)
    → Gateway
    → Resumed
unfolding resume_rejoin
resume_all events between socket allowed [] g = record {
  gateway = g;
  rejoined = [];
  success = [];
  gap_too_large = [];
  effects = [];
}
resume_all events between socket allowed ((c, last) ∷ es) g =
    let found = events c last in
    let (g', joins) = resume_rejoin socket c g in
    let rest = resume_all events between socket allowed es (between es g') in
    let skipped = resume_all events between socket allowed es g in
    if has c allowed
    then record {
      gateway = rest.gateway;
      rejoined =
          if has c (tracked (lookup socket g.socket_states))
          then rest.rejoined
          else c ∷ rest.rejoined;
      success = keep_if (is_replayed found) c rest.success;
      gap_too_large = if is_replayed found then rest.gap_too_large else c ∷ rest.gap_too_large;
      effects = joins ++ (replayed c found ++ rest.effects);
    }
    else skipped

-- Before the loop.
unfoldable pub resume_open : (socket user : String) → Gateway → Gateway × List Effect
resume_open socket user g = (put socket (get_or_create_state socket user g) g, own_socket user ∷ [])

-- After the loop, with the state object that was held all along.
unfoldable pub resume_finish :
    (now : ℕ) (socket : String)
    → GatewaySocketState
    → (rejoined success gap_too_large : List String) → Gateway
    → List Effect
resume_finish now socket held rejoined success gap_too_large g =
    broadcast_presence now (held_state socket held g) rejoined
    ++ emit (resume_complete success gap_too_large) ∷ []

unfoldable pub resume_commit :
    Replay
    → (between : List (String × String) → Gateway → Gateway)
    → (now : ℕ) (socket user : String) (wanted : List (String × String)) → (granted : List String)
    → Gateway
    → Gateway × List Effect
unfolding resume_all
resume_commit events between now socket user wanted granted g =
    let (g', es) = resume_open socket user g in
    let r = resume_all events between socket granted wanted g' in
    let held = get_or_create_state socket user g in
    (
      r.gateway,
      es
          ++ (r.effects
              ++ resume_finish now socket held r.rejoined r.success r.gap_too_large r.gateway),
    )

-- With the channels that the membership check grants at this point.
unfoldable pub resume_joined :
    ChannelAccess
    → Replay
    → (between : List (String × String) → Gateway → Gateway) → (now : ℕ) (socket : String)
    → Verdict (String × List (String × String))
    → Gateway
    → Gateway × List Effect
unfolding resume_commit
resume_joined access events between now socket (stop es) g = (g, es)
resume_joined access events between now socket (go who) g =
    resume_commit events between now socket who.0 who.1
      (access.check_access who.0 (map (λ e. e.0) who.1)) g

unfoldable pub resume_admitted :
    ChannelAccess
    → Replay
    → (between : List (String × String) → Gateway → Gateway) → (now : ℕ) (socket : String) → Session
    → Verdict Value
    → Gateway
    → Gateway × List Effect
unfolding resume_joined resume_request
resume_admitted access events between now socket session (stop es) g = (g, es)
resume_admitted access events between now socket session (go d) g =
    resume_joined access events between now socket (resume_request session d) g

unfoldable pub resume :
    ChannelAccess
    → Replay
    → (between : List (String × String) → Gateway → Gateway) → (now : ℕ) (socket : String) → Session
    → Value
    → Gateway
    → Gateway × List Effect
unfolding resume_admit resume_admitted
resume access events between now socket session data' g =
    let (g', verdict) = resume_admit now socket data' g in
    resume_admitted access events between now socket session verdict g'
