-- ===== src/Signal/Gateway/Rooms.antt =====
-- `subscribedChannels` mirrors the rooms that Socket.IO holds a socket in, and holds nothing that
-- the membership check did not grant.
use text.Mathlib.TextLemmas.{append_cancel_left}
use vortex_reloaded.Base.{
  ℕ, String, ◌≡◌, refl, ap, true, ◌||◌, List, [], ◌∷◌, ◌++◌, Option, none, some, arith,
  if◌then◌else◌, str_eq, eq_iff, eq_refl, Option-cases, inl, inr, All,
}
use mathlib.Core.List.{append-nil}
use vortex_reloaded.Base.Dict.{lookup, lookup-insert}
use vortex_reloaded.Base.Sets.{has, add, remove, has-add, has-remove}
use vortex_reloaded.Signal.Gateway.{
  Gateway, GatewaySocketState, Effect, emit, join, leave, VortexEvent, Message, room,
  get_or_create_state, put, broadcast_presence,
}
use vortex_reloaded.Signal.Gateway.Subscribe.{
  join_all, subscribe_commit, unsubscribe_commit, remove_all, leaves,
}
use vortex_reloaded.Signal.Gateway.Resume.{resume_rejoin, replayed}
use vortex_reloaded.Signal.Gateway.Pieces.{channels_of, enter}

-- Different channels have different rooms.
pub eq-room : (c d : String) → str_eq (room c) (room d) ≡ str_eq c d
unfolding room
eq-room c d =
    ground (arith, eq_iff (room c) (room d), eq_iff c d, append_cancel_left "gateway:" c d)

-- Calls that neither join nor leave.
abbrev StaysPut : Effect → Type 0
StaysPut (join r) = ⊥
StaysPut (leave r) = ⊥
StaysPut _ = Unit

enter-StaysPut :
    (es fs : List Effect) (rooms : List String)
    → All StaysPut es
    → enter (es ++ fs) rooms ≡ enter fs rooms
unfolding enter
enter-StaysPut [] fs rooms h = refl
enter-StaysPut (join r ∷ es) fs rooms h = absurd h.0
enter-StaysPut (leave r ∷ es) fs rooms h = absurd h.0
enter-StaysPut (_ ∷ es) fs rooms h = enter-StaysPut es fs rooms h.1

broadcast_presence-StaysPut :
    (now : ℕ) (st : GatewaySocketState) (cs : List String)
    → All StaysPut (broadcast_presence now st cs)
unfolding broadcast_presence
broadcast_presence-StaysPut now st [] = ground arith
broadcast_presence-StaysPut now st (c ∷ cs) = ground arith

pub join_all-has :
    (subs granted : List String) (c : String)
    → has c (join_all subs granted).0 ≡ (has c subs || has c granted)
unfolding join_all has
join_all-has subs [] c = ground arith
join_all-has subs (d ∷ ds) c = ground (arith, join_all-has (add d subs) ds c, has-add d c subs)

join_all-enter :
    (subs granted : List String) (fs : List Effect) (rooms : List String) (c : String)
    → ((rooms' : List String) → has (room c) (enter fs rooms') ≡ has (room c) rooms')
    → has (room c) (enter ((join_all subs granted).2 ++ fs) rooms)
      ≡ (has (room c) rooms || has c granted)
unfolding join_all has enter
join_all-enter subs [] fs rooms c h = ground (arith, h rooms)
join_all-enter subs (d ∷ ds) fs rooms c h = ground (
  arith,
  join_all-enter (add d subs) ds fs (add (room d) rooms) c h,
  has-add (room d) (room c) rooms,
  eq-room d c,
)

remove_all-leaves :
    (subs cs : List String) (rooms : List String) (c : String)
    → has (room c) rooms ≡ has c subs
    → has (room c) (enter (leaves cs) rooms) ≡ has c (remove_all subs cs)
unfolding leaves remove_all enter
remove_all-leaves subs [] rooms c h = h
remove_all-leaves subs (d ∷ ds) rooms c h =
    remove_all-leaves (remove d subs) ds (remove (room d) rooms) c
      (ground (arith, has-remove (room d) (room c) rooms, has-remove d c subs, eq-room d c))

pub remove_all-has :
    (subs cs : List String) (c : String) → has c (remove_all subs cs) ≡ true → has c subs ≡ true
unfolding remove_all
remove_all-has subs [] c h = h
remove_all-has subs (d ∷ ds) c h =
    ground (arith, remove_all-has (remove d subs) ds c h, has-remove d c subs)

pub channels_of-put :
    (s s' : String) (st : GatewaySocketState) (g : Gateway)
    → channels_of s' (put s st g)
      ≡ (if str_eq s s' then st.subscribed_channels else channels_of s' g)
unfolding channels_of put
channels_of-put s s' st g = ground (arith, lookup-insert s s' st g.socket_states)

pub get_or_create_state-channels :
    (s user : String) (g : Gateway)
    → (get_or_create_state s user g).subscribed_channels ≡ channels_of s g
unfolding channels_of get_or_create_state
get_or_create_state-channels s user g = ground arith

replayed-StaysPut : (c : String) (o : Option (List VortexEvent)) → All StaysPut (replayed c o)
replayed-StaysPut c none = tt
replayed-StaysPut c (some []) = tt
replayed-StaysPut c (some (e ∷ es)) = (tt, tt)

pub announce-enter :
    (now : ℕ) (st : GatewaySocketState) (cs : List String) (m : Message) (rooms : List String)
    → enter (broadcast_presence now st cs ++ emit m ∷ []) rooms ≡ rooms
unfolding enter
announce-enter now st cs m rooms =
    enter-StaysPut _ (emit m ∷ []) rooms (broadcast_presence-StaysPut now st cs)

pub broadcast_presence-enter :
    (now : ℕ) (st : GatewaySocketState) (cs : List String) (rooms : List String)
    → enter (broadcast_presence now st cs) rooms ≡ rooms
unfolding enter
broadcast_presence-enter now st cs rooms =
    rw (← append-nil (broadcast_presence now st cs))
      (enter-StaysPut _ [] rooms (broadcast_presence-StaysPut now st cs))

-- The rooms of the acting socket and the channels that the gateway holds for it agree.
abbrev pub Agree : (socket : String) → Gateway → List String → Type 0
Agree s g rooms = (c : String) → has (room c) rooms ≡ has c (channels_of s g)

pub subscribe_commit-Agree :
    (now : ℕ) (s user : String) (requested granted : List String) (g : Gateway)
    (rooms : List String)
    → Agree s g rooms
    → Agree s
        (subscribe_commit now s user requested granted g).0
        (enter (subscribe_commit now s user requested granted g).1 rooms)
unfolding subscribe_commit enter
subscribe_commit-Agree now s user requested granted g rooms h c =
    rw
      (join_all-enter subs granted _ rooms c
        (λ rooms'. ap (has (room c)) (announce-enter now st' _ _ rooms')))
      (ground (
        arith,
        channels_of-put s s st' g,
        eq_refl s,
        join_all-has subs granted c,
        get_or_create_state-channels s user g,
        h c,
      ))
  where
    subs : List String
    subs = (get_or_create_state s user g).subscribed_channels

    st' : GatewaySocketState
    st' = record (get_or_create_state s user g) { subscribed_channels = (join_all subs granted).0 }

pub unsubscribe_commit-Agree :
    (s : String) (cs : List String) (g : Gateway) (rooms : List String)
    → Agree s g rooms
    → Agree s (unsubscribe_commit s cs g).0 (enter (unsubscribe_commit s cs g).1 rooms)
unfolding unsubscribe_commit enter channels_of
unsubscribe_commit-Agree s cs g rooms h c = elim (Option-cases (lookup s g.socket_states)) [
  | inl e ↦ ground (arith, h c)
  | inr (st, e) ↦ ground (
    arith,
    remove_all-leaves st.subscribed_channels cs rooms c,
    h c,
    lookup-insert s s (record st { subscribed_channels = remove_all st.subscribed_channels cs })
        g.socket_states,
    eq_refl s,
  )
]

-- A new state with the same channels.
pub put-Agree :
    (s : String) (st : GatewaySocketState) (g : Gateway) (rooms : List String)
    → st.subscribed_channels ≡ channels_of s g
    → Agree s g rooms
    → Agree s (put s st g) rooms
put-Agree s st g rooms same h c = rw (channels_of-put s s st g, eq_refl s, same) (h c)

pub rejoin-Agree :
    (s d : String) (st : GatewaySocketState) (g : Gateway) (rooms : List String)
    → lookup s g.socket_states ≡ some st
    → Agree s g rooms
    → Agree s (resume_rejoin s d g).0 (enter (resume_rejoin s d g).1 rooms)
unfolding resume_rejoin enter channels_of put
rejoin-Agree s d st g rooms e h c = ground (
  arith,
  e,
  h c,
  lookup-insert s s (record st { subscribed_channels = add d st.subscribed_channels })
      g.socket_states,
  eq_refl s,
  has-add (room d) (room c) rooms,
  has-add d c st.subscribed_channels,
  eq-room d c,
)

pub replayed-enter :
    (c : String) (o : Option (List VortexEvent)) (rooms : List String)
    → enter (replayed c o) rooms ≡ rooms
unfolding enter
replayed-enter c o rooms =
    rw (← append-nil (replayed c o)) (enter-StaysPut _ [] rooms (replayed-StaysPut c o))
