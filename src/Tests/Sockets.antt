-- ===== src/Tests/Sockets.antt =====
-- The gateway at concrete inputs.
use vortex_reloaded.Base.{
  String, ◌≡◌, refl, true, List, [], ◌∷◌, none, some, arith, any, All, Option, sym, or_else, eq_iff,
  if◌then◌else◌, is_some, not, ◌&&◌, false, str_eq,
}
use vortex_reloaded.Base.Dict.{lookup, insert}
use vortex_reloaded.Base.Sets.{has, add}
use vortex_reloaded.Signal.RateLimiter.{entry_of}
use vortex_reloaded.Signal.Gateway.{
  Gateway, GatewaySocketState, online, invisible, typing_key, room,
}
use vortex_reloaded.Signal.Gateway.Access.{ChannelAccess}
use vortex_reloaded.Signal.Gateway.Subscribe.{subscribe_commit}
use vortex_reloaded.Signal.Value.{Value, obj, arr, str, element, no_element, property, no_property}
use vortex_reloaded.Signal.ChannelAccess.{
  ChannelAccessConfig, Fetch, answered, check_channel_access, texts,
}
use vortex_reloaded.Signal.ChannelAccess.Backed.{backed_access}
use vortex_reloaded.Signal.Gateway.Access.{valid, Replay}
use vortex_reloaded.Signal.Gateway.Subscribe.{subscribe}
use vortex_reloaded.Signal.Gateway.Resume.{resume}
use vortex_reloaded.Signal.Gateway.Handlers.{subscribe-IsAuthorized, resume-IsAuthorized}
use vortex_reloaded.Signal.Gateway.Typing.{typing_commit}
use vortex_reloaded.Signal.Gateway.Presence.{init_set}
use vortex_reloaded.Signal.Gateway.Disconnect.{disconnect, revoke_channel_access}
use vortex_reloaded.Signal.Gateway.Pieces.{
  subscribes, unsubscribes, inits, types, act, channels_of, enter, Rooms, Turn, run,
}
use vortex_reloaded.Signal.Gateway.Mirror
use vortex_reloaded.Signal.Gateway.Mirror.{Mirrors, run-rooms_authorized, act-IsAuthorized}
use vortex_reloaded.Signal.Gateway.Leaving.{
  is_offline_call, has_left, disconnect-clears, disconnect-offline, revoke_channel_access-channels,
  subscribe_commit-disconnect,
}

abbrev empty : Gateway
empty = record { socket_states = []; active_typing = []; limiter = []; timers = []; next_timer = 0 }

abbrev ann : GatewaySocketState
ann = record {
  user_id = "ann";
  subscribed_channels = "c1" ∷ [];
  status = online;
  status_known = true;
}

abbrev running : Gateway
running = record empty { socket_states = ("s1", ann) ∷ [] }

abbrev no_rooms : Rooms
no_rooms s = []

abbrev turns : List Turn
turns =
    record { now = 1; socket = "s1"; piece = subscribes "ann" ("c1" ∷ "c2" ∷ []) ("c1" ∷ []) }
    ∷ record { now = 2; socket = "s2"; piece = inits "bob" invisible }
    ∷ record { now = 3; socket = "s1"; piece = types "c1" true }
    ∷ []

empty-Mirrors : Mirrors empty no_rooms
unfolding has channels_of lookup
empty-Mirrors s c = refl

check_c1 :
    (user : String) (channels : List String) (channel : String)
    → has channel (if has "c1" channels then "c1" ∷ [] else []) ≡ true
    → (has channel channels ≡ true) × (channel ≡ "c1")
unfolding has
check_c1 user channels channel h = ground (arith, eq_iff "c1" channel)

-- Everybody may join the one channel `c1`.
abbrev access : ChannelAccess
access = record {
  MayJoin = λ user channel. channel ≡ "c1";
  check_access = λ user channels. if has "c1" channels then "c1" ∷ [] else [];
  check_access_sound = check_c1;
}

abbrev owner : String → String
owner s = "ann"

running-has : has (room "c1") ((run turns (empty, no_rooms)).1 "s1") ≡ true
unfolding run act subscribe_commit enter has add typing_commit lookup init_set insert room
running-has = refl

c1_granted : has "c1" ("c1" ∷ []) ≡ true
unfolding has
c1_granted = refl

s1_held : lookup "s1" running.socket_states ≡ some ann
unfolding lookup
s1_held = refl

s1_new : lookup "s1" empty.socket_states ≡ none
unfolding lookup
s1_new = refl

turns-IsChecked : All (Mirror.IsChecked access owner) turns
unfolding has
turns-IsChecked = ((λ c h. ground (arith, eq_iff "c1" c)), ((λ c h. cc h), ((λ c h. cc h), tt)))

empty-IsAuthorized : Mirror.IsAuthorized access owner empty
unfolding has channels_of lookup
empty-IsAuthorized s c h = cc h

run-rooms_authorized_example : ◌≡◌ {A = String} "c1" "c1"
run-rooms_authorized_example =
    run-rooms_authorized access owner turns empty no_rooms "s1" "c1" turns-IsChecked empty-Mirrors
      empty-IsAuthorized running-has

disconnect-clears_example :
    let g' = (disconnect 9 (some []) "s1" running).0 in
    (lookup "s1" g'.socket_states ≡ none)
    × ((has "c1" ann.subscribed_channels
          && is_some (lookup (typing_key "ann" "c1") g'.active_typing))
        ≡ false)
    × (entry_of "s1" "typing" g'.limiter ≡ [])
    × (lookup "s2" g'.socket_states ≡ lookup "s2" running.socket_states)
disconnect-clears_example =
    disconnect-clears 9 (some []) "s1" "s2" "c1" "typing" running ann s1_held refl

disconnect-offline_example :
    any is_offline_call (disconnect 9 (some (some "bob" ∷ [])) "s1" running).1
    ≡ has_left "ann" (some (some "bob" ∷ []))
disconnect-offline_example = disconnect-offline 9 (some (some "bob" ∷ [])) "s1" running ann s1_held

revoke_channel_access-channels_example :
    has "c1" (channels_of "s1" (revoke_channel_access "ann" "c1" (some []) running).0)
    ≡ (not (str_eq "ann" "ann" && str_eq "c1" "c1") && has "c1" ("c1" ∷ []))
revoke_channel_access-channels_example =
    revoke_channel_access-channels "ann" "c1" (some []) running "s1" "c1" ann s1_held

subscribe_commit-disconnect_example :
    has "c1" (
      channels_of "s1"
        (subscribe_commit 9 "s1" "ann"
          ("c1" ∷ [])
          ("c1" ∷ [])
          (disconnect 8 none "s1" running).0).0)
    ≡ true
subscribe_commit-disconnect_example =
    subscribe_commit-disconnect 8 9 none "s1" "ann" "c1" ("c1" ∷ []) ("c1" ∷ []) running c1_granted

abbrev web_app : ChannelAccessConfig
web_app = record { web_app_url = "http://web"; secret = "s" }

abbrev members : Fetch
members c user ids = answered (some "c1" ∷ none ∷ [])

c1_of_backend :
    has "c1" (check_channel_access (some web_app) members "ann" ("c1" ∷ "c2" ∷ [])) ≡ true
unfolding check_channel_access has texts
c1_of_backend = refl

abbrev checked : ChannelAccess
checked = backed_access (some web_app) members

checked-empty : Mirror.IsAuthorized checked owner empty
unfolding has channels_of lookup
checked-empty s c h = cc h

abbrev wants_c1 : Value
wants_c1 = obj (property "channelIds" (arr (element (str "c1") no_element)) no_property)

abbrev resumes_c1 : Value
resumes_c1 = obj (property "channels" (obj (property "c1" (str "e7") no_property)) no_property)

ann_owns : (user : String) → valid (some "ann") ≡ valid (some user) → user ≡ owner "s1"
ann_owns user e = sym (session-user (some "ann") (some user) e)
  where
    session-user : (a b : Option String) → valid a ≡ valid b → or_else a "" ≡ or_else b ""
    session-user a b e = cc e

abbrev no_events : Replay
no_events channel last = some []

subscribe-IsAuthorized_example :
    Mirror.IsAuthorized checked owner
      (subscribe checked 3 "s1" (valid (some "ann")) wants_c1 empty).0
subscribe-IsAuthorized_example =
    subscribe-IsAuthorized checked owner 3 "s1" (valid (some "ann")) wants_c1 empty ann_owns
      checked-empty

-- Another handler takes the channel away during every replay.
abbrev leaves_meanwhile : List (String × String) → Gateway → Gateway
leaves_meanwhile es g = (act 3 "s1" (unsubscribes ("c1" ∷ [])) g).0

leaves_meanwhile-IsAuthorized :
    (es : List (String × String)) (g : Gateway)
    → Mirror.IsAuthorized checked owner g
    → Mirror.IsAuthorized checked owner (leaves_meanwhile es g)
unfolding has
leaves_meanwhile-IsAuthorized es g a =
    act-IsAuthorized checked owner
      (record { now = 3; socket = "s1"; piece = unsubscribes ("c1" ∷ []) }) g (λ c h. cc h) a

resume-IsAuthorized_example :
    Mirror.IsAuthorized checked owner
      (resume checked no_events leaves_meanwhile 3 "s1" (valid (some "ann")) resumes_c1 empty).0
resume-IsAuthorized_example =
    resume-IsAuthorized checked owner no_events leaves_meanwhile 3 "s1" (valid (some "ann"))
      resumes_c1 empty leaves_meanwhile-IsAuthorized ann_owns checked-empty
