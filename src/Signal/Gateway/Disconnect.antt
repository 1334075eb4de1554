-- ===== src/Signal/Gateway/Disconnect.antt =====
-- gateway.ts: the disconnect handler, and `revokeChannelAccess`.
use vortex_reloaded.Base.{
  ℕ, String, Bool, false, List, [], ◌∷◌, ◌++◌, Option, none, some, map, any, if◌then◌else◌, str_eq,
}
use vortex_reloaded.Base.Dict.{Dict, lookup, delete}
use vortex_reloaded.Base.Sets.{remove}
use vortex_reloaded.Signal.RateLimiter
use vortex_reloaded.Signal.Gateway.{
  Gateway, GatewaySocketState, offline, Effect, to_rooms, leave_remote, set_offline, presence,
  typing, room, typing_key,
}
use vortex_reloaded.Signal.Gateway.Typing.{stop_typing}

-- The loop over the channels: a running typing entry is dropped, and its end is told.
unfoldable pub stop_all_typing :
    (user : String) (channels : List String) → Gateway → Gateway × List Effect
unfolding stop_typing
stop_all_typing user [] g = (g, [])
stop_all_typing user (c ∷ cs) g =
    let entry = lookup (typing_key user c) g.active_typing in
    let (g', es) =
      stop_all_typing user cs
        (elim entry [ none ↦ g | some e ↦ stop_typing (typing_key user c) g ]) in
    elim entry [
      | none ↦ (g', es)
      | some e ↦ (g', to_rooms (room c ∷ []) (typing c user false) ∷ es)
    ]

-- `hasOtherSocketsForUser`: the owners of all sockets that are left, or `none` if the call threw.
unfoldable pub has_other_sockets : Option (List (Option String)) → (user : String) → Bool
has_other_sockets none user = false
has_other_sockets (some owners) user =
    any (λ o. elim o [ none ↦ false | some u ↦ str_eq u user ]) owners

unfoldable pub offline_effects : (now : ℕ) (user : String) (channels : List String) → List Effect
offline_effects now user [] = set_offline user ∷ []
offline_effects now user (c ∷ cs) =
    to_rooms (map room (c ∷ cs)) (presence user offline now) ∷ set_offline user ∷ []

-- `owners`: the answer of `io.fetchSockets()` once the socket is gone.
unfoldable pub disconnect :
    (now : ℕ) (owners : Option (List (Option String))) (socket : String)
    → Gateway
    → Gateway × List Effect
unfolding stop_all_typing has_other_sockets offline_effects
disconnect now owners socket g = elim (lookup socket g.socket_states) [
  | none ↦ (g, [])
  | some st ↦
      let (g', stopped) = stop_all_typing st.user_id st.subscribed_channels g in
      (
        record g' {
          limiter = RateLimiter.remove socket g'.limiter;
          socket_states = delete socket g'.socket_states;
        },
        if has_other_sockets owners st.user_id
            then stopped
            else stopped ++ offline_effects now st.user_id st.subscribed_channels,
      )
]

-- The sockets of a room as `fetchSockets` lists them, each with `data.userId`.
unfoldable pub revoke_leaves :
    (user channel : String) (sockets : List (String × Option String)) → List Effect
revoke_leaves user channel [] = []
revoke_leaves user channel ((s, owner) ∷ rest) =
    let more = revoke_leaves user channel rest in
    elim owner [
      | none ↦ more
      | some u ↦ if str_eq u user then leave_remote s (room channel) ∷ more else more
    ]

unfoldable pub revoke_states :
    (user channel : String) → Dict GatewaySocketState → Dict GatewaySocketState
revoke_states user channel [] = []
revoke_states user channel ((s, st) ∷ m) =
    (
      s,
      if str_eq st.user_id user
          then record st { subscribed_channels = remove channel st.subscribed_channels }
          else st,
    )
    ∷ revoke_states user channel m

-- `sockets` is `none` where `fetchSockets` threw; the local bookkeeping is done all the same.
unfoldable pub revoke_channel_access :
    (user channel : String) (sockets : Option (List (String × Option String)))
    → Gateway
    → Gateway × List Effect
unfolding revoke_leaves revoke_states
revoke_channel_access user channel sockets g = (
  record g { socket_states = revoke_states user channel g.socket_states },
  elim sockets [ none ↦ [] | some ss ↦ revoke_leaves user channel ss ],
)
