-- ===== src/Signal/Gateway/Leaving.antt =====
-- A socket that disconnects leaves nothing behind, and a revoked channel is gone, until a handler
-- that was under way brings either back.
use vortex_reloaded.Base.{
  ℕ, String, ◌≡◌, refl, sym, Bool, true, false, not, ◌&&◌, ◌||◌, List, [], ◌∷◌, ◌++◌, Option, none,
  some, arith, is_some, if◌then◌else◌, str_eq, eq_iff, eq_refl, Bool-cases, inl, inr, ap, any,
}
use vortex_reloaded.Base.Dict.{Dict, lookup, lookup-delete, lookup-delete_self}
use vortex_reloaded.Base.Sets.{has, remove, has-remove}
use vortex_reloaded.Signal.RateLimiter.{entry_of}
use vortex_reloaded.Signal.RateLimiter.Entries.{entry_of-remove}
use vortex_reloaded.Signal.Gateway.{
  Gateway, GatewaySocketState, Effect, set_offline, typing_key, get_or_create_state,
}
use vortex_reloaded.Signal.Gateway.Subscribe.{subscribe_commit, join_all}
use vortex_reloaded.Signal.Gateway.Typing.{stop_typing}
use vortex_reloaded.Signal.Gateway.Disconnect.{
  stop_all_typing, has_other_sockets, offline_effects, disconnect, revoke_states,
  revoke_channel_access,
}
use vortex_reloaded.Signal.Gateway.Pieces.{channels_of}
use vortex_reloaded.Signal.Gateway.Rooms.{channels_of-put, join_all-has}

stop_all_typing-keeps :
    (user : String) (cs : List String) (g : Gateway)
    → ((stop_all_typing user cs g).0.socket_states ≡ g.socket_states)
      × ((stop_all_typing user cs g).0.limiter ≡ g.limiter)
unfolding stop_all_typing
stop_all_typing-keeps user [] g = (refl, refl)
stop_all_typing-keeps user (c ∷ cs) g = ground (
  arith,
  stop_all_typing-keeps user cs g,
  stop_all_typing-keeps user cs (stop_typing (typing_key user c) g),
)

stop_all_typing-none :
    (user : String) (cs : List String) (g : Gateway) (key : String)
    → lookup key g.active_typing ≡ none
    → lookup key (stop_all_typing user cs g).0.active_typing ≡ none
unfolding stop_all_typing
stop_all_typing-none user [] g key h = h
stop_all_typing-none user (c ∷ cs) g key h = ground (
  arith,
  stop_all_typing-none user cs g key,
  stop_all_typing-none user cs (stop_typing (typing_key user c) g) key,
  lookup-delete (typing_key user c) key g.active_typing,
)

stop_all_typing-stops :
    (user : String) (cs : List String) (g : Gateway) (c : String)
    → has c cs ≡ true
    → lookup (typing_key user c) (stop_all_typing user cs g).0.active_typing ≡ none
unfolding stop_all_typing has
stop_all_typing-stops user [] g c h = cc
stop_all_typing-stops user (d ∷ cs) g c h = elim (Bool-cases (str_eq d c)) [
  | inl e ↦ rw (ap (typing_key user) (sym ((eq_iff d c).0 e))) (
      ground (
        arith,
        stop_all_typing-none user cs g (typing_key user d),
        stop_all_typing-none user cs (stop_typing (typing_key user d) g) (typing_key user d),
        lookup-delete_self (typing_key user d) g.active_typing,
      ))
  | inr e ↦ ground (
    arith,
    stop_all_typing-stops user cs g c,
    stop_all_typing-stops user cs (stop_typing (typing_key user d) g) c,
  )
]

-- After a disconnect of a socket that had a state, with channels or without: the state is gone, in none of
-- its channels is a typing entry of its user left, its rate-limit entries are empty, and any other socket
-- `s'` keeps its state.
pub disconnect-clears :
    (now : ℕ) (owners : Option (List (Option String))) (s s' c action : String) (g : Gateway)
    (st : GatewaySocketState)
    → lookup s g.socket_states ≡ some st
    → str_eq s s' ≡ false
    → let g' = (disconnect now owners s g).0 in
      (lookup s g'.socket_states ≡ none)
      × ((has c st.subscribed_channels
            && is_some (lookup (typing_key st.user_id c) g'.active_typing))
          ≡ false)
      × (entry_of s action g'.limiter ≡ [])
      × (lookup s' g'.socket_states ≡ lookup s' g.socket_states)
unfolding disconnect
disconnect-clears now owners s s' c action g st h other =
    let (states, limits) = stop_all_typing-keeps st.user_id st.subscribed_channels g in
    (
      ground (arith, lookup-delete_self s g.socket_states),
      elim (Bool-cases (has c st.subscribed_channels)) [
        | inl k ↦ ground (arith, k, stop_all_typing-stops st.user_id st.subscribed_channels g c k)
        | inr k ↦ rw k refl
      ],
      ground (arith, entry_of-remove s s action g.limiter, eq_refl s),
      ground (arith, lookup-delete s s' g.socket_states),
    )

abbrev pub is_owned : String → Option String → Bool
is_owned user none = false
is_owned user (some u) = str_eq u user

-- The calls that make a user offline.
abbrev pub is_offline_call : Effect → Bool
is_offline_call (set_offline u) = true
is_offline_call _ = false

any-append {ℓ} :
    {A : Type ℓ} (p : A → Bool) (xs ys : List A) → any p (xs ++ ys) ≡ (any p xs || any p ys)
any-append p [] ys = refl
any-append p (x ∷ xs) ys = ground (arith, any-append p xs ys)

stop_all_typing-online :
    (user : String) (cs : List String) (g : Gateway)
    → any is_offline_call (stop_all_typing user cs g).1 ≡ false
unfolding stop_all_typing
stop_all_typing-online user [] g = refl
stop_all_typing-online user (c ∷ cs) g = ground (
  arith,
  stop_all_typing-online user cs g,
  stop_all_typing-online user cs (stop_typing (typing_key user c) g),
)

offline_effects-offline :
    (now : ℕ) (user : String) (cs : List String)
    → any is_offline_call (offline_effects now user cs) ≡ true
unfolding offline_effects
offline_effects-offline now user [] = refl
offline_effects-offline now user (c ∷ cs) = refl

has_other_sockets-is_owned :
    (user : String) (os : List (Option String))
    → has_other_sockets (some os) user ≡ any (is_owned user) os
unfolding has_other_sockets
has_other_sockets-is_owned user [] = refl
has_other_sockets-is_owned user (none ∷ os) = ground (arith, has_other_sockets-is_owned user os)
has_other_sockets-is_owned user (some u ∷ os) = ground (arith, has_other_sockets-is_owned user os)

-- No socket that the answer lists is the user's; a question that threw lists none.
abbrev pub has_left : String → Option (List (Option String)) → Bool
has_left user none = true
has_left user (some os) = not (any (is_owned user) os)

-- When a socket that had a state disconnects, Redis is cleared of its user and the rooms are told that
-- the user is offline, exactly if no other socket of the user is left. If the question for the other
-- sockets throws, that counts as none left.
pub disconnect-offline :
    (now : ℕ) (owners : Option (List (Option String))) (s : String) (g : Gateway)
    (st : GatewaySocketState)
    → lookup s g.socket_states ≡ some st
    → any is_offline_call (disconnect now owners s g).1 ≡ has_left st.user_id owners
unfolding disconnect
disconnect-offline now none s g st h = ground (
  arith,
  any-append is_offline_call (stop_all_typing st.user_id st.subscribed_channels g).1
      (offline_effects now st.user_id st.subscribed_channels),
  offline_effects-offline now st.user_id st.subscribed_channels,
)
disconnect-offline now (some os) s g st h = ground (
  arith,
  any-append is_offline_call (stop_all_typing st.user_id st.subscribed_channels g).1
      (offline_effects now st.user_id st.subscribed_channels),
  offline_effects-offline now st.user_id st.subscribed_channels,
  stop_all_typing-online st.user_id st.subscribed_channels g,
  has_other_sockets-is_owned st.user_id os,
)

tracks-revoke_states :
    (user channel : String) (s : String) (m : Dict GatewaySocketState)
    → lookup s (revoke_states user channel m) ≡ elim (lookup s m) [
      | none ↦ none
      | some st ↦ some (
          if str_eq st.user_id user
          then record st { subscribed_channels = remove channel st.subscribed_channels }
          else st)
    ]
unfolding revoke_states lookup
tracks-revoke_states user channel s [] = refl
tracks-revoke_states user channel s ((k, st) ∷ m) =
    ground (arith, tracks-revoke_states user channel s m)

-- Right after a revocation no socket of the user is tracked in that channel; all other channels, and
-- all sockets of other users, are tracked as before.
pub revoke_channel_access-channels :
    (user channel : String) (sockets : Option (List (String × Option String))) (g : Gateway)
    (s c : String) (st : GatewaySocketState)
    → lookup s g.socket_states ≡ some st
    → has c (channels_of s (revoke_channel_access user channel sockets g).0)
      ≡ (not (str_eq st.user_id user && str_eq channel c) && has c st.subscribed_channels)
unfolding revoke_channel_access channels_of
revoke_channel_access-channels user channel sockets g s c st h = ground (
  arith,
  tracks-revoke_states user channel s g.socket_states,
  has-remove channel c st.subscribed_channels,
)

-- A subscription that was granted before a revocation, and is carried out after it, brings the
-- revoked channel back: nothing compares the two.
pub subscribe_commit-revoke_channel_access :
    (now : ℕ) (s user channel : String) (requested granted : List String)
    (sockets : Option (List (String × Option String))) (g : Gateway)
    → has channel granted ≡ true
    → has channel (
        channels_of s
          (subscribe_commit now s user requested granted
            (revoke_channel_access user channel sockets g).0).0)
      ≡ true
unfolding subscribe_commit
subscribe_commit-revoke_channel_access now s user channel requested granted sockets g h =
    let g' = (revoke_channel_access user channel sockets g).0 in
    let old = get_or_create_state s user g' in
    ground (
      arith,
      channels_of-put s s
          (record old { subscribed_channels = (join_all old.subscribed_channels granted).0 }) g',
      eq_refl s,
      join_all-has old.subscribed_channels granted channel,
    )

-- A subscription that is carried out after its socket has disconnected leaves a state for the dead
-- socket, tracked in every channel that was granted.
pub subscribe_commit-disconnect :
    (now later : ℕ) (owners : Option (List (Option String))) (s user channel : String)
    (requested granted : List String) (g : Gateway)
    → has channel granted ≡ true
    → has channel (
        channels_of s
          (subscribe_commit later s user requested granted (disconnect now owners s g).0).0)
      ≡ true
unfolding subscribe_commit
subscribe_commit-disconnect now later owners s user channel requested granted g h =
    let g' = (disconnect now owners s g).0 in
    let old = get_or_create_state s user g' in
    ground (
      arith,
      channels_of-put s s
          (record old { subscribed_channels = (join_all old.subscribed_channels granted).0 }) g',
      eq_refl s,
      join_all-has old.subscribed_channels granted channel,
    )
