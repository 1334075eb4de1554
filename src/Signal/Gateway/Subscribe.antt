-- ===== src/Signal/Gateway/Subscribe.antt =====
-- gateway.ts: `gateway:subscribe` and `gateway:unsubscribe`. A handler runs undisturbed between two
-- awaits, so each is given in the pieces that its awaits leave, and then whole.
use vortex_reloaded.Base.{
  ℕ, String, not, List, [], ◌∷◌, ◌++◌, Option, none, some, ltb, length, filter, if◌then◌else◌,
  str_eq,
}
use vortex_reloaded.Base.Dict.{lookup}
use vortex_reloaded.Base.Sets.{has, add, remove}
use vortex_reloaded.Signal.Value.{Value, is_object, get, as_array, all_nonempty, strings}
use vortex_reloaded.Signal.Gateway.{
  Gateway, Effect, emit, join, leave, own_socket, error, subscribed, room, get_or_create_state, put,
  broadcast_presence,
}
use vortex_reloaded.Signal.Gateway.Access.{
  ChannelAccess, Session, threw, invalid, valid, Verdict, stop, go, throttle,
}

abbrev pub subscribe_rate_limit : ℕ
subscribe_rate_limit = 30

abbrev pub refuse : String → List Effect
refuse why = emit (error why) ∷ []

unfoldable pub subscribe_admit :
    (now : ℕ) (socket : String) → Value → Gateway → Gateway × Verdict Value
unfolding throttle
subscribe_admit now socket data' g =
    if is_object data'
    then (let (g', passed) = throttle now socket "subscribe" subscribe_rate_limit g in
        if passed
        then (g', go data')
        else (g', stop (refuse "Rate limit exceeded for gateway:subscribe")))
    else (g, stop (refuse "Invalid gateway:subscribe payload"))

unfoldable pub request_channels :
    (user : String) → Option (List Value) → Verdict (String × List String)
request_channels user none = stop (refuse "channelIds must be a non-empty array")
request_channels user (some []) = stop (refuse "channelIds must be a non-empty array")
request_channels user (some (v ∷ vs)) =
    if ltb 100 (length (v ∷ vs))
    then stop (refuse "Cannot subscribe to more than 100 channels at once")
    else (elim (all_nonempty (v ∷ vs)) [
      | none ↦ stop (refuse "Each channelId must be a non-empty string")
      | some ids ↦ go (user, ids)
    ])

-- After the session check: who asks for which channels. The empty user id counts as none.
unfoldable pub subscribe_request : Session → Value → Verdict (String × List String)
unfolding request_channels get all_nonempty
subscribe_request threw data' = stop (refuse "Internal server error")
subscribe_request invalid data' = stop []
subscribe_request (valid none) data' = stop (refuse "Authentication required")
subscribe_request (valid (some user)) data' =
    if str_eq user ""
    then stop (refuse "Authentication required")
    else request_channels user (as_array (get "channelIds" data'))

-- The loop over the granted channels: the subscribed ones, the new ones among them, the joins.
unfoldable pub join_all :
    (subscribed granted : List String) → List String × List String × List Effect
join_all subs [] = (subs, [], [])
join_all subs (c ∷ cs) =
    let (subs', newly, joins) = join_all (add c subs) cs in
    (subs', if has c subs then newly else c ∷ newly, join (room c) ∷ joins)

-- After the membership check has granted `granted` of `requested`.
unfoldable pub subscribe_commit :
    (now : ℕ) (socket user : String) (requested granted : List String)
    → Gateway
    → Gateway × List Effect
unfolding join_all get_or_create_state put broadcast_presence
subscribe_commit now socket user requested granted g =
    let st = get_or_create_state socket user g in
    let (subs, newly, joins) = join_all st.subscribed_channels granted in
    let st' = record st { subscribed_channels = subs } in
    let denied = filter (λ id. not (has id granted)) requested in
    (
      put socket st' g,
      own_socket user
          ∷ (joins ++ (broadcast_presence now st' newly ++ emit (subscribed granted denied) ∷ [])),
    )

-- With the channels that the membership check grants at this point.
unfoldable pub subscribe_joined :
    ChannelAccess
    → (now : ℕ) (socket : String) → Verdict (String × List String)
    → Gateway
    → Gateway × List Effect
unfolding subscribe_commit
subscribe_joined access now socket (stop es) g = (g, es)
subscribe_joined access now socket (go who) g =
    subscribe_commit now socket who.0 who.1 (access.check_access who.0 who.1) g

unfoldable pub subscribe_admitted :
    ChannelAccess
    → (now : ℕ) (socket : String) → Session
    → Verdict Value
    → Gateway
    → Gateway × List Effect
unfolding subscribe_joined subscribe_request
subscribe_admitted access now socket session (stop es) g = (g, es)
subscribe_admitted access now socket session (go d) g =
    subscribe_joined access now socket (subscribe_request session d) g

unfoldable pub subscribe :
    ChannelAccess → (now : ℕ) (socket : String) → Session → Value → Gateway → Gateway × List Effect
unfolding subscribe_admit subscribe_admitted
subscribe access now socket session data' g =
    let (g', verdict) = subscribe_admit now socket data' g in
    subscribe_admitted access now socket session verdict g'

unfoldable pub remove_all : List String → List String → List String
remove_all subs [] = subs
remove_all subs (c ∷ cs) = remove_all (remove c subs) cs

unfoldable pub leaves : List String → List Effect
leaves [] = []
leaves (c ∷ cs) = leave (room c) ∷ leaves cs

unfoldable pub unsubscribe_commit :
    (socket : String) (channels : List String) → Gateway → Gateway × List Effect
unfolding put remove_all leaves
unsubscribe_commit socket channels g = elim (lookup socket g.socket_states) [
  | none ↦ (g, [])
  | some st ↦ (
    put socket (record st { subscribed_channels = remove_all st.subscribed_channels channels }) g,
    leaves channels,
  )
]

-- The elements that are no texts are skipped.
unfoldable pub unsubscribe : (socket : String) → Value → Gateway → Gateway × List Effect
unfolding unsubscribe_commit get strings
unsubscribe socket data' g =
    if is_object data'
    then (elim (as_array (get "channelIds" data')) [
      | none ↦ (g, [])
      | some vs ↦ unsubscribe_commit socket (strings vs) g
    ])
    else (g, [])
