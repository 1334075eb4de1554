-- ===== src/Signal/ChannelAccess/Laws.antt =====
-- Exactly which channels are granted.
use text.Mathlib.Text.{starts_with}
use text.Mathlib.TextEquality.{starts_with_iff}
use text.Mathlib.TextPositions.{slice-append_right, starts_with-append, len-append}
use Prim.Native.String
use mathlib.Core.List.{append-nil}
use Prim.Native.String.{len, slice}
use vortex_reloaded.Base.{
  String, ◌≡◌, refl, ◌↔◌, ap, sym, ◌∙◌, true, false, not, Bool-cases, inl, inr, ◌⊎◌, ◌≢◌, List, [],
  ◌∷◌, ◌++◌, Option, none, some, filter, str_eq, eq_iff, arith, eq_refl,
}
use vortex_reloaded.Base.Sets.{has, has-append, has-filter}
use vortex_reloaded.Signal.ChannelAccess.{
  ChannelAccessConfig, Response, failed, not_ok, malformed, answered, Fetch, is_user_channel,
  is_own_channel, texts, granted_dm, check_channel_access, user_channel_prefix,
}

-- The channel that belongs to a user.
abbrev pub own_channel : String → String
own_channel user = String.◌++◌ user_channel_prefix user

-- What `slice` leaves of an own channel is the user.
slice-own_channel :
    (user : String)
    → slice (own_channel user) (len user_channel_prefix) (len (own_channel user)) ≡ user
slice-own_channel user =
    rw (len-append user_channel_prefix user) (slice-append_right user_channel_prefix user)

starts-own_channel : (user : String) → starts_with (own_channel user) user_channel_prefix ≡ true
starts-own_channel user = starts_with-append user_channel_prefix user

own_of_prefix :
    (user id rest : String)
    → own_channel rest ≡ id
    → str_eq (slice id (len user_channel_prefix) (len id)) user ≡ true
    → id ≡ own_channel user
own_of_prefix user id rest e h =
    sym e ∙ ap own_channel (sym (slice-own_channel rest) ∙ (eq_iff _ user).0 (rw e h))

-- The test by prefix and slice is the test for the one channel of that user.
pub is_own_channel_iff :
    (user id : String) → (is_own_channel user id ≡ true) ↔ (id ≡ own_channel user)
unfolding is_own_channel
is_own_channel_iff user id = (to, from)
  where
    to : is_own_channel user id ≡ true → id ≡ own_channel user
    to h = elim (Bool-cases (starts_with id user_channel_prefix)) [
      | inl p ↦
          let (rest, e) = (starts_with_iff id user_channel_prefix).0 p in
          own_of_prefix user id rest e (rw (p, is_own_channel) at h)
      | inr p ↦ ground arith
    ]

    from : id ≡ own_channel user → is_own_channel user id ≡ true
    from e = rw (e, starts-own_channel user, slice-own_channel user) (eq_refl user)

pub is_own_channel-is_user_channel :
    (user id : String) → is_own_channel user id ≡ true → is_user_channel id ≡ true
unfolding is_own_channel
is_own_channel-is_user_channel user id h = ground arith

abbrev pub dm_of : List String → List String
dm_of = filter (λ id. not (is_user_channel id))

-- The outcome as one list of two parts, whether or not there is a DM channel to ask about.
granted_dm-nil : (r : Response) → granted_dm r [] ≡ []
unfolding granted_dm
granted_dm-nil failed = refl
granted_dm-nil not_ok = refl
granted_dm-nil malformed = refl
granted_dm-nil (answered xs) = refl

check-configured :
    (c : ChannelAccessConfig) (fetch : Fetch) (user : String) (ids : List String)
    → check_channel_access (some c) fetch user ids
      ≡ filter (is_own_channel user) ids ++ granted_dm (fetch c user (dm_of ids)) (dm_of ids)
unfolding check_channel_access
check-configured c fetch user ids = go (dm_of ids) refl
  where
    go :
        (ds : List String)
        → dm_of ids ≡ ds
        → check_channel_access (some c) fetch user ids
          ≡ filter (is_own_channel user) ids ++ granted_dm (fetch c user (dm_of ids)) (dm_of ids)
    go [] e = rw (e, check_channel_access, granted_dm-nil) (sym (append-nil _))
    go (d ∷ ds) e = rw (e, check_channel_access) refl

check-unconfigured :
    (fetch : Fetch) (user : String) (ids : List String)
    → check_channel_access none fetch user ids ≡ filter (is_own_channel user) ids
unfolding check_channel_access
check-unconfigured fetch user ids = go (dm_of ids) refl
  where
    go :
        (ds : List String)
        → dm_of ids ≡ ds
        → check_channel_access none fetch user ids ≡ filter (is_own_channel user) ids
    go [] e = rw (e, check_channel_access)
    go (d ∷ ds) e = rw (e, check_channel_access)

-- Where no membership backend is configured, and where the backend cannot be reached, refuses or
-- answers nonsense, a channel is granted exactly if it was requested and is the user's own.
pub check_channel_access_closed :
    (config : Option ChannelAccessConfig) (fetch : Fetch) (user : String) (ids : List String)
    (id : String)
    → ((c : ChannelAccessConfig) (xs : List (Option String))
        → config ≡ some c
        → fetch c user (dm_of ids) ≢ answered xs)
    → (has id (check_channel_access config fetch user ids) ≡ true)
      ↔ ((id ≡ own_channel user) × (has id ids ≡ true))
check_channel_access_closed none fetch user ids id h =
    rw (check-unconfigured fetch user ids)
      (ground (arith, has-filter (is_own_channel user) id ids, is_own_channel_iff user id))
check_channel_access_closed (some c) fetch user ids id h =
    rw
      (
        check-configured c fetch user ids,
        none_granted (fetch c user (dm_of ids)) (λ xs. h c xs refl),
        append-nil,
      )
      (ground (arith, has-filter (is_own_channel user) id ids, is_own_channel_iff user id))
  where
    none_granted :
        (r : Response)
        → ((xs : List (Option String)) → r ≢ answered xs)
        → granted_dm r (dm_of ids) ≡ []
    none_granted failed k = unfold granted_dm in refl
    none_granted not_ok k = unfold granted_dm in refl
    none_granted malformed k = unfold granted_dm in refl
    none_granted (answered xs) k = absurd (k xs refl)

-- Where the backend answers with a list, a channel is granted exactly if it was requested and
-- either is the user's own, or is no `user:` channel and stands in that list.
pub check_channel_access_answered :
    (c : ChannelAccessConfig) (fetch : Fetch) (user : String) (ids : List String) (id : String)
    (xs : List (Option String))
    → fetch c user (dm_of ids) ≡ answered xs
    → (has id (check_channel_access (some c) fetch user ids) ≡ true) ↔ (
        (has id ids ≡ true)
        × ((id ≡ own_channel user) ⊎ ((is_user_channel id ≡ false) × (has id (texts xs) ≡ true))))
unfolding granted_dm
check_channel_access_answered c fetch user ids id xs h =
    rw (check-configured c fetch user ids, h)
      (ground (
        arith,
        has-append id (filter (is_own_channel user) ids)
            (filter (λ x. has x (texts xs)) (dm_of ids)),
        has-filter (is_own_channel user) id ids,
        has-filter (λ x. has x (texts xs)) id (dm_of ids),
        has-filter (λ x. not (is_user_channel x)) id ids,
        is_own_channel_iff user id,
        is_own_channel-is_user_channel user id,
      ))
