-- ===== src/Signal/Gateway/Handlers.antt =====
-- The whole handlers of `gateway:subscribe` and `gateway:resume`, with their checks.
use vortex_reloaded.Base.{
  ℕ, String, ◌≡◌, refl, sym, ap, subst, List, Option, none, some, map, arith, str_eq, Bool-cases,
  inl, inr, true, [], ◌∷◌, ◌||◌, eq_iff, if-holds,
}
use vortex_reloaded.Base.Sets.{has}
use vortex_reloaded.Signal.Value.{Value, as_array, get}
use vortex_reloaded.Signal.Gateway.{Gateway, GatewaySocketState, put, get_or_create_state}
use vortex_reloaded.Signal.Gateway.Access.{
  ChannelAccess, Replay, Session, threw, invalid, valid, Verdict, stop, go, throttle,
}
use vortex_reloaded.Signal.Gateway.Subscribe.{
  subscribe_admit, request_channels, subscribe_request, subscribe_joined, subscribe_admitted,
  subscribe,
}
use vortex_reloaded.Signal.Gateway.Resume.{
  resume_admit, resume_entries, resume_request, resume_joined, resume_admitted, resume, Resumed,
  resume_all, resume_commit, resume_open, resume_rejoin,
}
use vortex_reloaded.Signal.Gateway.Pieces.{subscribes, act, channels_of}
use vortex_reloaded.Signal.Gateway.Mirror.{
  IsAuthorized, act-IsAuthorized, resume_rejoin-source, resume_rejoin-others,
}
use vortex_reloaded.Signal.Gateway.Rooms.{channels_of-put, get_or_create_state-channels}

subscribe_admit-states :
    (now : ℕ) (s : String) (data' : Value) (g : Gateway)
    → (subscribe_admit now s data' g).0.socket_states ≡ g.socket_states
unfolding subscribe_admit throttle
subscribe_admit-states now s data' g = ground arith

resume_admit-states :
    (now : ℕ) (s : String) (data' : Value) (g : Gateway)
    → (resume_admit now s data' g).0.socket_states ≡ g.socket_states
unfolding resume_admit throttle
resume_admit-states now s data' g = ground arith

-- A request that goes on does so with the user of the session.
request_channels-user :
    (user : String) (vs : Option (List Value)) (who : String × List String)
    → request_channels user vs ≡ go who
    → who.0 ≡ user
unfolding request_channels
request_channels-user user vs who h = ground arith

subscribe_request-session :
    (session : Session) (data' : Value) (who : String × List String)
    → subscribe_request session data' ≡ go who
    → session ≡ valid (some who.0)
unfolding subscribe_request
subscribe_request-session threw data' who h = cc
subscribe_request-session invalid data' who h = cc
subscribe_request-session (valid none) data' who h = cc
subscribe_request-session (valid (some user)) data' who h = elim (Bool-cases (str_eq user "")) [
  | inl e ↦ cc (rw (e, subscribe_request) at h)
  | inr e ↦
      ap (λ u. valid (some u))
        (sym (
          request_channels-user user (as_array (get "channelIds" data')) who
            (rw (e, subscribe_request) at h)))
]

resume_entries-user :
    (user : String) (v : Value) (who : String × List (String × String))
    → resume_entries user v ≡ go who
    → who.0 ≡ user
unfolding resume_entries
resume_entries-user user v who h = ground arith

resume_request-session :
    (session : Session) (data' : Value) (who : String × List (String × String))
    → resume_request session data' ≡ go who
    → session ≡ valid (some who.0)
unfolding resume_request
resume_request-session threw data' who h = cc
resume_request-session invalid data' who h = cc
resume_request-session (valid none) data' who h = cc
resume_request-session (valid (some user)) data' who h = elim (Bool-cases (str_eq user "")) [
  | inl e ↦ cc (rw (e, resume_request) at h)
  | inr e ↦
      ap (λ u. valid (some u))
        (sym (resume_entries-user user (get "channels" data') who (rw (e, resume_request) at h)))
]

module _ (access : ChannelAccess) (owner : String → String) where
  open access use {check_access, check_access_sound}

  states-IsAuthorized :
      (g g' : Gateway)
      → g'.socket_states ≡ g.socket_states
      → IsAuthorized access owner g
      → IsAuthorized access owner g'
  unfolding channels_of
  states-IsAuthorized g g' e a s c h = a s c (rw e at h)

  subscribe_joined-IsAuthorized :
      (now : ℕ) (s : String) (v : Verdict (String × List String)) (g : Gateway)
      → ((who : String × List String) → v ≡ go who → who.0 ≡ owner s)
      → IsAuthorized access owner g
      → IsAuthorized access owner (subscribe_joined access now s v g).0
  unfolding subscribe_joined act
  subscribe_joined-IsAuthorized now s (stop es) g k a = a
  subscribe_joined-IsAuthorized now s (go who) g k a =
      act-IsAuthorized access owner
        (record {
          now = now;
          socket = s;
          piece = subscribes who.0 who.1 (check_access who.0 who.1);
        })
        g
        (λ c h. subst (λ u. access.MayJoin u c) (k who refl) (check_access_sound who.0 who.1 c h).1)
        a

  subscribe_admitted-IsAuthorized :
      (now : ℕ) (s : String) (session : Session) (v : Verdict Value) (g : Gateway)
      → ((user : String) → session ≡ valid (some user) → user ≡ owner s)
      → IsAuthorized access owner g
      → IsAuthorized access owner (subscribe_admitted access now s session v g).0
  unfolding subscribe_admitted
  subscribe_admitted-IsAuthorized now s session (stop es) g k a = a
  subscribe_admitted-IsAuthorized now s session (go d) g k a =
      subscribe_joined-IsAuthorized now s (subscribe_request session d) g
        (λ who e. k who.0 (subscribe_request-session session d who e)) a

  -- The whole handler of `gateway:subscribe`, with a payload of any shape and whatever the session check
  -- answers: sockets stay subscribed only to channels that their users may join, if the session of the
  -- socket is that of its user.
  pub subscribe-IsAuthorized :
      (now : ℕ) (s : String) (session : Session) (data' : Value) (g : Gateway)
      → ((user : String) → session ≡ valid (some user) → user ≡ owner s)
      → IsAuthorized access owner g
      → IsAuthorized access owner (subscribe access now s session data' g).0
  unfolding subscribe
  subscribe-IsAuthorized now s session data' g k a =
      subscribe_admitted-IsAuthorized now s session (subscribe_admit now s data' g).1
        (subscribe_admit now s data' g).0 k
        (states-IsAuthorized g (subscribe_admit now s data' g).0
          (subscribe_admit-states now s data' g) a)

  put-IsAuthorized :
      (s : String) (st : GatewaySocketState) (g : Gateway)
      → st.subscribed_channels ≡ channels_of s g
      → IsAuthorized access owner g
      → IsAuthorized access owner (put s st g)
  put-IsAuthorized s st g same a s' c h = elim (Bool-cases (str_eq s s')) [
    | inl e ↦
        let x = (eq_iff s s').0 e in
        subst (λ x. access.MayJoin (owner x) c) x
          (a s c (rw (channels_of-put s s' st g, e, same) at h))
    | inr e ↦ a s' c (rw (channels_of-put s s' st g, e) at h)
  ]

  resume_rejoin-IsAuthorized :
      (s d : String) (g : Gateway)
      → access.MayJoin (owner s) d
      → IsAuthorized access owner g
      → IsAuthorized access owner (resume_rejoin s d g).0
  resume_rejoin-IsAuthorized s d g k a s' c h = elim (Bool-cases (str_eq s s')) [
    | inl e ↦
        let x = (eq_iff s s').0 e in
        subst (λ x. access.MayJoin (owner x) c) x
          (mine (
            resume_rejoin-source s d c g
              (subst (λ x. has c (channels_of x (resume_rejoin s d g).0) ≡ true) (sym x) h)))
    | inr e ↦ a s' c (rw (resume_rejoin-others s s' d g e) at h)
  ]
    where
      mine : (has c (channels_of s g) || str_eq d c) ≡ true → access.MayJoin (owner s) c
      mine q = elim (Bool-cases (has c (channels_of s g))) [
        | inl old ↦ a s c old
        | inr new ↦ subst (λ x. access.MayJoin (owner s) x) ((eq_iff d c).0 (rw new at q)) k
      ]

  module _ (events : Replay) (between : List (String × String) → Gateway → Gateway)
      (kept : (es : List (String × String)) (g : Gateway)
        → IsAuthorized access owner g
        → IsAuthorized access owner (between es g)) where
    resume_all-IsAuthorized :
        (s : String) (granted : List String) (es : List (String × String)) (g : Gateway)
        → ((c : String) → has c granted ≡ true → access.MayJoin (owner s) c)
        → IsAuthorized access owner g
        → IsAuthorized access owner (resume_all events between s granted es g).gateway
    unfolding resume_all
    resume_all-IsAuthorized s granted [] g k a = a
    resume_all-IsAuthorized s granted ((c, last) ∷ es) g k a =
        if-holds {A = Resumed} (λ r. IsAuthorized access owner r.gateway) (has c granted)
          (λ h.
            resume_all-IsAuthorized s granted es (between es (resume_rejoin s c g).0) k
              (kept es (resume_rejoin s c g).0 (resume_rejoin-IsAuthorized s c g (k c h) a)))
          (λ _. resume_all-IsAuthorized s granted es g k a)

    resume_joined-IsAuthorized :
        (now : ℕ) (s : String) (v : Verdict (String × List (String × String))) (g : Gateway)
        → ((who : String × List (String × String)) → v ≡ go who → who.0 ≡ owner s)
        → IsAuthorized access owner g
        → IsAuthorized access owner (resume_joined access events between now s v g).0
    unfolding resume_joined resume_commit resume_open
    resume_joined-IsAuthorized now s (stop es) g k a = a
    resume_joined-IsAuthorized now s (go who) g k a =
        let wanted = map (λ e. e.0) who.1 in
        let st = get_or_create_state s who.0 g in
        resume_all-IsAuthorized s (check_access who.0 wanted) who.1 (put s st g)
          (λ c h.
            subst (λ u. access.MayJoin u c) (k who refl) (check_access_sound who.0 wanted c h).1)
          (put-IsAuthorized s st g (get_or_create_state-channels s who.0 g) a)

    resume_admitted-IsAuthorized :
        (now : ℕ) (s : String) (session : Session) (v : Verdict Value) (g : Gateway)
        → ((user : String) → session ≡ valid (some user) → user ≡ owner s)
        → IsAuthorized access owner g
        → IsAuthorized access owner (resume_admitted access events between now s session v g).0
    unfolding resume_admitted
    resume_admitted-IsAuthorized now s session (stop es) g k a = a
    resume_admitted-IsAuthorized now s session (go d) g k a =
        resume_joined-IsAuthorized now s (resume_request session d) g
          (λ who e. k who.0 (resume_request-session session d who e)) a

  -- The whole handler of `gateway:resume`, with a payload of any shape, whatever the session check
  -- answers, and whatever other handlers do while it waits for a replay: sockets stay subscribed only to
  -- channels that their users may join, if the session of the socket is that of its user and the other
  -- handlers keep this.
  pub resume-IsAuthorized :
      (events : Replay) (between : List (String × String) → Gateway → Gateway) (now : ℕ)
      (s : String) (session : Session) (data' : Value) (g : Gateway)
      → ((es : List (String × String)) (g : Gateway)
          → IsAuthorized access owner g
          → IsAuthorized access owner (between es g))
      → ((user : String) → session ≡ valid (some user) → user ≡ owner s)
      → IsAuthorized access owner g
      → IsAuthorized access owner (resume access events between now s session data' g).0
  unfolding resume
  resume-IsAuthorized events between now s session data' g kept k a =
      resume_admitted-IsAuthorized events between kept now s session (resume_admit now s data' g).1
        (resume_admit now s data' g).0 k
        (states-IsAuthorized g (resume_admit now s data' g).0 (resume_admit-states now s data' g) a)
