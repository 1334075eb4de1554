-- ===== src/Signal/Gateway/Mirror.antt =====
-- The agreement of rooms and channels over any interleaving of the gateway's pieces.
use vortex_reloaded.Base.{
  ℕ, String, ◌≡◌, refl, Bool, true, false, List, [], ◌∷◌, arith, str_eq, eq_iff, eq_refl,
  Bool-cases, Option-cases, inl, inr, All, sym, ◌||◌, subst,
}
use vortex_reloaded.Base.Dict.{lookup, lookup-insert}
use vortex_reloaded.Base.Sets.{has, add, has-add}
use vortex_reloaded.Signal.Gateway.{Gateway, room, put, resume_complete, get_or_create_state}
use vortex_reloaded.Signal.Gateway.Access.{throttle, ChannelAccess}
use vortex_reloaded.Signal.Gateway.Subscribe.{
  join_all, subscribe_commit, unsubscribe_commit, remove_all,
}
use vortex_reloaded.Signal.Gateway.Typing.{typing_commit, typing_expired, call_signal_commit}
use vortex_reloaded.Signal.Gateway.Presence.{
  held_state, announce_held, with_status, presence_set, init_set,
}
use vortex_reloaded.Signal.Gateway.Resume.{resume_open, resume_rejoin, resume_finish}
use vortex_reloaded.Signal.Gateway.Pieces.{
  Piece, charges, subscribes, unsubscribes, types, calls, sets, inits, announces, opens, rejoins,
  replays, finishes, expires, act, channels_of, enter, Rooms, enter_as, Turn, run,
}
use vortex_reloaded.Signal.Gateway.Rooms.{
  Agree, channels_of-put, get_or_create_state-channels, subscribe_commit-Agree, put-Agree,
  rejoin-Agree, replayed-enter, announce-enter, broadcast_presence-enter, unsubscribe_commit-Agree,
  join_all-has, remove_all-has,
}

or-left : {a : Bool} (b : Bool) → a ≡ true → (a || b) ≡ true
or-left b h = rw h refl

act-Agree :
    (now : ℕ) (s : String) (p : Piece) (g : Gateway) (rooms : List String)
    → Agree s g rooms
    → Agree s (act now s p g).0 (enter (act now s p g).1 rooms)
unfolding act enter
act-Agree now s (charges action limit) g rooms h c = unfold throttle channels_of enter in h c
act-Agree now s (subscribes user requested granted) g rooms h c =
    subscribe_commit-Agree now s user requested granted g rooms h c
act-Agree now s (unsubscribes cs) g rooms h c = unsubscribe_commit-Agree s cs g rooms h c
act-Agree now s (types channel b) g rooms h c =
    unfold typing_commit channels_of enter in ground (arith, h c)
act-Agree now s (calls channel kind v) g rooms h c =
    unfold call_signal_commit channels_of enter in ground (arith, h c)
act-Agree now s (sets status) g rooms h c = elim (Option-cases (lookup s g.socket_states)) [
  | inl e ↦ rw (e, act) (h c)
  | inr (st, e) ↦
      unfold presence_set enter in
      rw (e, act)
        (put-Agree s (with_status status st) g rooms (unfold channels_of in rw e refl) h c)
]
act-Agree now s (inits user status) g rooms h c =
    unfold init_set enter in
    put-Agree s (with_status status (get_or_create_state s user g)) g rooms
      (get_or_create_state-channels s user g) h c
act-Agree now s (announces held) g rooms h c =
    unfold announce_held in
    rw
      (broadcast_presence-enter now (held_state s held g) (held_state s held g).subscribed_channels
        rooms)
      (h c)
act-Agree now s (opens user) g rooms h c =
    unfold resume_open enter in
    put-Agree s (get_or_create_state s user g) g rooms (get_or_create_state-channels s user g) h c
act-Agree now s (rejoins granted d) g rooms h c = elim (Option-cases (lookup s g.socket_states)) [
  | inl e ↦ unfold enter in rw (e, act) (h c)
  | inr (st, e) ↦ elim (Bool-cases (has d granted)) [
    | inl f ↦ rw (e, f, act) (rejoin-Agree s d st g rooms e h c)
    | inr f ↦ unfold enter in rw (e, f, act) (h c)
  ]
]
act-Agree now s (replays d found) g rooms h c = rw (replayed-enter d found rooms) (h c)
act-Agree now s (finishes held rejoined success gaps) g rooms h c =
    unfold resume_finish in
    rw (announce-enter now (held_state s held g) rejoined (resume_complete success gaps) rooms)
      (h c)
act-Agree now s (expires t) g rooms h c = unfold typing_expired channels_of enter in h c

pub resume_rejoin-others :
    (s s' d : String) (g : Gateway)
    → str_eq s s' ≡ false
    → channels_of s' (resume_rejoin s d g).0 ≡ channels_of s' g
unfolding resume_rejoin
resume_rejoin-others s s' d g h = elim (Option-cases (lookup s g.socket_states)) [
  | inl e ↦ rw (e, resume_rejoin) refl
  | inr (st, e) ↦
      rw
        (
          e,
          resume_rejoin,
          channels_of-put s s' (record st { subscribed_channels = add d st.subscribed_channels }) g,
          h,
        )
        refl
]

-- What a rejoin leaves subscribed was so before, or is its channel.
pub resume_rejoin-source :
    (s d c : String) (g : Gateway)
    → has c (channels_of s (resume_rejoin s d g).0) ≡ true
    → (has c (channels_of s g) || str_eq d c) ≡ true
unfolding resume_rejoin channels_of put
resume_rejoin-source s d c g h = elim (Option-cases (lookup s g.socket_states)) [
  | inl e ↦ or-left _ (rw (e, resume_rejoin) at h)
  | inr (st, e) ↦ ground (
    arith,
    lookup-insert s s (record st { subscribed_channels = add d st.subscribed_channels })
        g.socket_states,
    eq_refl s,
    has-add d c st.subscribed_channels,
  )
]

act-others :
    (now : ℕ) (s s' : String) (p : Piece) (g : Gateway)
    → str_eq s s' ≡ false
    → channels_of s' (act now s p g).0 ≡ channels_of s' g
unfolding act
act-others now s s' (charges action limit) g h = unfold throttle channels_of in refl
act-others now s s' (subscribes user requested granted) g h =
    unfold subscribe_commit in
    ground (
      arith,
      channels_of-put s s'
          (record (get_or_create_state s user g) {
            subscribed_channels =
                (join_all (get_or_create_state s user g).subscribed_channels granted).0;
          })
          g,
    )
act-others now s s' (unsubscribes cs) g h = elim (Option-cases (lookup s g.socket_states)) [
  | inl e ↦ unfold unsubscribe_commit in ground arith
  | inr (st, e) ↦
      unfold unsubscribe_commit in
      ground (
        arith,
        channels_of-put s s'
            (record st { subscribed_channels = remove_all st.subscribed_channels cs }) g,
      )
]
act-others now s s' (types channel b) g h = unfold typing_commit channels_of in ground arith
act-others now s s' (calls channel kind v) g h = unfold call_signal_commit in ground arith
act-others now s s' (sets status) g h = elim (Option-cases (lookup s g.socket_states)) [
  | inl e ↦ rw (e, act) refl
  | inr (st, e) ↦
      unfold presence_set in rw (e, act, channels_of-put s s' (with_status status st) g, h) refl
]
act-others now s s' (inits user status) g h =
    unfold init_set in
    rw (channels_of-put s s' (with_status status (get_or_create_state s user g)) g, h) refl
act-others now s s' (announces held) g h = refl
act-others now s s' (opens user) g h =
    unfold resume_open in rw (channels_of-put s s' (get_or_create_state s user g) g, h) refl
act-others now s s' (rejoins granted d) g h = elim (Option-cases (lookup s g.socket_states)) [
  | inl e ↦ rw (e, act) refl
  | inr (st, e) ↦ elim (Bool-cases (has d granted)) [
    | inl f ↦ rw (e, f, act) (resume_rejoin-others s s' d g h)
    | inr f ↦ rw (e, f, act) refl
  ]
]
act-others now s s' (replays d found) g h = refl
act-others now s s' (finishes held rejoined success gaps) g h = refl
act-others now s s' (expires t) g h = unfold typing_expired channels_of in refl

-- What the membership check has granted to a piece.
abbrev pub granted_of : Piece → List String
granted_of (subscribes user requested granted) = granted
granted_of (rejoins granted channel) = granted
granted_of _ = []

-- A channel that a piece leaves subscribed was so before, or has just been granted.
act-source :
    (now : ℕ) (s : String) (p : Piece) (g : Gateway) (c : String)
    → has c (channels_of s (act now s p g).0) ≡ true
    → (has c (channels_of s g) || has c (granted_of p)) ≡ true
unfolding act
act-source now s (charges action limit) g c h = unfold throttle channels_of in ground arith
act-source now s (subscribes user requested granted) g c h =
    unfold subscribe_commit in
    ground (
      arith,
      channels_of-put s s
          (record (get_or_create_state s user g) {
            subscribed_channels =
                (join_all (get_or_create_state s user g).subscribed_channels granted).0;
          })
          g,
      eq_refl s,
      get_or_create_state-channels s user g,
      join_all-has (get_or_create_state s user g).subscribed_channels granted c,
    )
act-source now s (unsubscribes cs) g c h = elim (Option-cases (lookup s g.socket_states)) [
  | inl e ↦ unfold unsubscribe_commit channels_of in ground arith
  | inr (st, e) ↦
      unfold unsubscribe_commit channels_of in
      ground (
        arith,
        lookup-insert s s (record st { subscribed_channels = remove_all st.subscribed_channels cs })
            g.socket_states,
        eq_refl s,
        remove_all-has st.subscribed_channels cs c,
      )
]
act-source now s (types channel b) g c h = unfold typing_commit channels_of in ground arith
act-source now s (calls channel kind v) g c h = unfold call_signal_commit in ground arith
act-source now s (sets status) g c h = elim (Option-cases (lookup s g.socket_states)) [
  | inl e ↦ or-left _ (rw (e, act) at h)
  | inr (st, e) ↦
      let kept : has c st.subscribed_channels ≡ true =
        unfold presence_set in
        rw (e, act, channels_of-put s s (with_status status st) g, eq_refl s) at h in
      or-left {a = has c (channels_of s g)} _ (unfold channels_of in rw e kept)
]
act-source now s (inits user status) g c h =
    unfold init_set in
    ground (
      arith,
      channels_of-put s s (with_status status (get_or_create_state s user g)) g,
      eq_refl s,
      get_or_create_state-channels s user g,
    )
act-source now s (announces held) g c h = or-left _ h
act-source now s (opens user) g c h =
    unfold resume_open in
    ground (
      arith,
      channels_of-put s s (get_or_create_state s user g) g,
      eq_refl s,
      get_or_create_state-channels s user g,
    )
act-source now s (rejoins granted d) g c h = elim (Option-cases (lookup s g.socket_states)) [
  | inl e ↦ or-left _ (rw (e, act) at h)
  | inr (st, e) ↦ elim (Bool-cases (has d granted)) [
    | inl f ↦ ground (arith, f, eq_iff d c, resume_rejoin-source s d c g (rw (e, f, act) at h))
    | inr f ↦ or-left _ (rw (e, f, act) at h)
  ]
]
act-source now s (replays d found) g c h = or-left _ h
act-source now s (finishes held rejoined success gaps) g c h = or-left _ h
act-source now s (expires t) g c h = unfold typing_expired channels_of in ground arith

abbrev pub Mirrors : Gateway → Rooms → Type 0
Mirrors g rooms = (s c : String) → has (room c) (rooms s) ≡ has c (channels_of s g)

act-Mirrors :
    (t : Turn) (g : Gateway) (rooms : Rooms)
    → Mirrors g rooms
    → Mirrors
        (act t.now t.socket t.piece g).0
        (enter_as t.socket (act t.now t.socket t.piece g).1 rooms)
act-Mirrors t g rooms m s c = elim (Bool-cases (str_eq t.socket s)) [
  | inl e ↦
      let same = (eq_iff t.socket s).0 e in
      rw e (
        subst
          (λ x.
            has (room c) (enter (act t.now t.socket t.piece g).1 (rooms x))
            ≡ has c (channels_of x (act t.now t.socket t.piece g).0))
          same (act-Agree t.now t.socket t.piece g (rooms t.socket) (m t.socket) c))
  | inr e ↦ rw (e, act-others t.now t.socket s t.piece g e) (m s c)
]

-- Over any interleaving of handlers' pieces on any sockets, with no disconnect and no revocation of a
-- channel among them: the channels that the gateway tracks for a socket are exactly those whose rooms the
-- socket is in, if that was so at the start.
pub run-Mirrors :
    (ts : List Turn) (g : Gateway) (rooms : Rooms)
    → Mirrors g rooms
    → Mirrors (run ts (g, rooms)).0 (run ts (g, rooms)).1
unfolding run
run-Mirrors [] g rooms m = m
run-Mirrors (t ∷ ts) g rooms m = run-Mirrors ts _ _ (act-Mirrors t g rooms m)

module _ (access : ChannelAccess) (owner : String → String) where
  open access use {MayJoin}

  -- What a piece was granted stems from a check for the socket's user.
  abbrev pub IsChecked : Turn → Type 0
  IsChecked t = (c : String) → has c (granted_of t.piece) ≡ true → MayJoin (owner t.socket) c

  abbrev pub IsAuthorized : Gateway → Type 0
  IsAuthorized g = (s c : String) → has c (channels_of s g) ≡ true → MayJoin (owner s) c

  pub act-IsAuthorized :
      (t : Turn) (g : Gateway)
      → IsChecked t
      → IsAuthorized g
      → IsAuthorized (act t.now t.socket t.piece g).0
  act-IsAuthorized t g k a s c h = elim (Bool-cases (str_eq t.socket s)) [
    | inl e ↦
        let same = (eq_iff t.socket s).0 e in
        subst (λ x. MayJoin (owner x) c) same
          (mine (
            act-source t.now t.socket t.piece g c (
              subst (λ x. has c (channels_of x (act t.now t.socket t.piece g).0) ≡ true) (sym same)
                h)))
    | inr e ↦ a s c (rw (act-others t.now t.socket s t.piece g e) at h)
  ]
    where
      mine :
          (has c (channels_of t.socket g) || has c (granted_of t.piece)) ≡ true
          → MayJoin (owner t.socket) c
      mine q = elim (Bool-cases (has c (channels_of t.socket g))) [
        | inl old ↦ a t.socket c old
        | inr new ↦ k c (rw new at q)
      ]

  pub run-IsAuthorized :
      (ts : List Turn) (g : Gateway) (rooms : Rooms)
      → All IsChecked ts
      → IsAuthorized g
      → IsAuthorized (run ts (g, rooms)).0
  unfolding run
  run-IsAuthorized [] g rooms k a = a
  run-IsAuthorized (t ∷ ts) g rooms k a = run-IsAuthorized ts _ _ k.1 (act-IsAuthorized t g k.0 a)

  -- Over any interleaving of handlers' pieces on any sockets: a socket is only ever in the rooms of
  -- channels that its user may join, if every list of granted channels comes from a membership check
  -- for that user, and if at the start rooms and tracked channels agree and are authorized.
  pub run-rooms_authorized :
      (ts : List Turn) (g : Gateway) (rooms : Rooms) (s c : String)
      → All IsChecked ts
      → Mirrors g rooms
      → IsAuthorized g
      → has (room c) ((run ts (g, rooms)).1 s) ≡ true
      → MayJoin (owner s) c
  run-rooms_authorized ts g rooms s c k m a h =
      run-IsAuthorized ts g rooms k a s c (rw (run-Mirrors ts g rooms m s c) at h)
