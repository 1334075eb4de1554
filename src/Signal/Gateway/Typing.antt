-- ===== src/Signal/Gateway/Typing.antt =====
-- gateway.ts: `gateway:typing` with its timer, and `gateway:call-signal`.
use vortex_reloaded.Base.{
  ℕ, suc, ◌+◌, String, Bool, true, false, not, ◌&&◌, ◌||◌, List, [], ◌∷◌, Option, none, some,
  filter, ◌==◌, if◌then◌else◌, str_eq,
}
use vortex_reloaded.Base.Dict.{lookup, insert, delete}
use vortex_reloaded.Base.Sets.{has}
use vortex_reloaded.Signal.Value.{Value, is_object, get, as_string, as_bool, as_nonempty, null, str}
use vortex_reloaded.Signal.Gateway.{
  Gateway, TypingEntry, Timer, Effect, to_others, to_rooms, typing, call_signal, room, typing_key,
}
use vortex_reloaded.Signal.Gateway.Access.{Session, valid, throttle}

abbrev pub typing_rate_limit : ℕ
typing_rate_limit = 30

abbrev pub call_signal_rate_limit : ℕ
call_signal_rate_limit = 20

abbrev pub typing_timeout_ms : ℕ
typing_timeout_ms = 5000

unfoldable pub clear_timer : Option TypingEntry → List Timer → List Timer
clear_timer none ts = ts
clear_timer (some e) ts = filter (λ t. not (t.id == e.timer)) ts

unfoldable pub stop_typing : (key : String) → Gateway → Gateway
unfolding clear_timer
stop_typing key g = record g {
  timers = clear_timer (lookup key g.active_typing) g.timers;
  active_typing = delete key g.active_typing;
}

unfoldable pub start_typing : (now : ℕ) (user channel : String) → Gateway → Gateway
unfolding clear_timer
start_typing now user channel g =
    let key = typing_key user channel in
    record g {
      timers =
          record {
            id = g.next_timer;
            key = key;
            user_id = user;
            channel_id = channel;
            due = now + typing_timeout_ms;
          }
          ∷ clear_timer (lookup key g.active_typing) g.timers;
      active_typing =
          insert key (record { user_id = user; channel_id = channel; timer = g.next_timer })
            g.active_typing;
      next_timer = suc g.next_timer;
    }

-- After the session check.
unfoldable pub typing_commit :
    (now : ℕ) (socket channel : String) → (is_typing : Bool) → Gateway → Gateway × List Effect
unfolding start_typing stop_typing
typing_commit now socket channel is_typing g = elim (lookup socket g.socket_states) [
  | none ↦ (g, [])
  | some st ↦
      if has channel st.subscribed_channels
      then (
        (if is_typing
            then start_typing now st.user_id channel g
            else stop_typing (typing_key st.user_id channel) g),
        to_others (room channel ∷ []) (typing channel st.user_id is_typing) ∷ [],
      )
      else (g, [])
]

abbrev pub typing_payload : Value → Option (String × Bool)
typing_payload data' =
    if is_object data'
    then (elim (as_nonempty (get "channelId" data')) [
      | none ↦ none
      | some c ↦ elim (as_bool (get "isTyping" data')) [ none ↦ none | some b ↦ some (c, b) ]
    ])
    else none

abbrev pub is_valid : Session → Bool
is_valid (valid user) = true
is_valid _ = false

unfoldable pub typing_handler :
    (now : ℕ) (socket : String) → Session → Value → Gateway → Gateway × List Effect
unfolding typing_commit throttle get
typing_handler now socket session data' g = elim (typing_payload data') [
  | none ↦ (g, [])
  | some (c, b) ↦
      let (g', passed) = throttle now socket "typing" typing_rate_limit g in
      if passed && is_valid session then typing_commit now socket c b g' else (g', [])
]

-- The callback of a timer that fires.
unfoldable pub typing_expired : Timer → Gateway → Gateway × List Effect
typing_expired t g = (
  record g {
    timers = filter (λ u. not (u.id == t.id)) g.timers;
    active_typing = delete t.key g.active_typing;
  },
  to_rooms (room t.channel_id ∷ []) (typing t.channel_id t.user_id false) ∷ [],
)

abbrev pub is_call_type : String → Bool
is_call_type s = str_eq s "invite" || str_eq s "cancel" || str_eq s "accept" || str_eq s "decline"

-- `callerAvatar` is passed on if it is a text or null.
abbrev pub avatar : Value → Option (Option String)
avatar (str s) = some (some s)
avatar null = some none
avatar _ = none

unfoldable pub call_signal_commit :
    (socket channel kind : String) → Value → Gateway → Gateway × List Effect
unfolding get
call_signal_commit socket channel kind data' g = elim (lookup socket g.socket_states) [
  | none ↦ (g, [])
  | some st ↦
      if has channel st.subscribed_channels
      then (
        g,
        to_others (room channel ∷ []) (
              call_signal channel kind st.user_id (as_bool (get "withVideo" data'))
                (as_string (get "callerName" data')) (avatar (get "callerAvatar" data')))
            ∷ [],
      )
      else (g, [])
]

abbrev pub call_payload : Value → Option (String × String)
call_payload data' =
    if is_object data'
    then (elim (as_nonempty (get "channelId" data')) [
      | none ↦ none
      | some c ↦ elim (as_string (get "type" data')) [
        | none ↦ none
        | some k ↦ if is_call_type k then some (c, k) else none
      ]
    ])
    else none

unfoldable pub call_signal_handler :
    (now : ℕ) (socket : String) → Session → Value → Gateway → Gateway × List Effect
unfolding call_signal_commit throttle
call_signal_handler now socket session data' g = elim (call_payload data') [
  | none ↦ (g, [])
  | some (c, k) ↦
      let (g', passed) = throttle now socket "call-signal" call_signal_rate_limit g in
      if passed && is_valid session then call_signal_commit socket c k data' g' else (g', [])
]
