-- ===== src/Signal/ChannelAccess/Backed.antt =====
-- The gateway's interface of the membership authorizer, filled by apps/signal/src/channel-access.ts.
use vortex_reloaded.Base.{
  String, ◌≡◌, ◌≢◌, refl, sym, ap, ◌∙◌, ◌⊎◌, inl, inr, true, List, Option, none, some,
}
use vortex_reloaded.Base.Sets.{has}
use vortex_reloaded.Signal.Gateway.Access.{ChannelAccess}
use vortex_reloaded.Signal.ChannelAccess.{
  ChannelAccessConfig, Response, failed, not_ok, malformed, answered, Fetch, texts,
  check_channel_access,
}
use vortex_reloaded.Signal.ChannelAccess.Laws.{
  own_channel, dm_of, check_channel_access_closed, check_channel_access_answered,
}

-- A channel is the user's own, or the backend has listed it in an answer about that user.
abbrev pub IsMember : Option ChannelAccessConfig → Fetch → String → String → Type 0
IsMember config fetch user channel =
    (channel ≡ own_channel user)
    ⊎ ((c : ChannelAccessConfig) × (ids : List String) × (xs : List (Option String)) × (config
          ≡ some c)
        × (fetch c user ids ≡ answered xs)
        × (has channel (texts xs) ≡ true))

or_fails : (ChannelAccessConfig → Response) → Option ChannelAccessConfig → Response
or_fails f none = failed
or_fails f (some c) = f c

module _ (config : Option ChannelAccessConfig) (fetch : Fetch) (user : String) (ids : List String)
    (id : String) where
  closed :
      ((c : ChannelAccessConfig) (xs : List (Option String))
        → config ≡ some c
        → fetch c user (dm_of ids) ≢ answered xs)
      → has id (check_channel_access config fetch user ids) ≡ true
      → (has id ids ≡ true) × IsMember config fetch user id
  closed k h =
      let (own, asked) = (check_channel_access_closed config fetch user ids id k).0 h in
      (asked, inl own)

-- The checker grants only what was asked for, and only to members.
pub check_access-IsMember :
    (config : Option ChannelAccessConfig) (fetch : Fetch) (user : String) (ids : List String)
    (id : String)
    → has id (check_channel_access config fetch user ids) ≡ true
    → (has id ids ≡ true) × IsMember config fetch user id
unfolding or_fails
check_access-IsMember none fetch user ids id h = closed none fetch user ids id (λ c xs e. cc e) h
check_access-IsMember (some c) fetch user ids id h = go (fetch c user (dm_of ids)) refl
  where
    silent :
        (r : Response)
        → fetch c user (dm_of ids) ≡ r
        → ((xs : List (Option String)) → r ≢ answered xs)
        → (has id ids ≡ true) × IsMember (some c) fetch user id
    silent r e k =
        closed (some c) fetch user ids id
          (λ c' xs same a. k xs (sym e ∙ ap (or_fails (λ d. fetch d user (dm_of ids))) same ∙ a)) h

    go :
        (r : Response)
        → fetch c user (dm_of ids) ≡ r
        → (has id ids ≡ true) × IsMember (some c) fetch user id
    go failed e = silent failed e (λ xs a. cc a)
    go not_ok e = silent not_ok e (λ xs a. cc a)
    go malformed e = silent malformed e (λ xs a. cc a)
    go (answered xs) e =
        let (asked, why) = (check_channel_access_answered c fetch user ids id xs e).0 h in
        (
          asked,
          elim why [ inl own ↦ inl own | inr listed ↦ inr (c, dm_of ids, xs, refl, e, listed.1) ],
        )

abbrev pub backed_access : Option ChannelAccessConfig → Fetch → ChannelAccess
backed_access config fetch = record {
  MayJoin = IsMember config fetch;
  check_access = check_channel_access config fetch;
  check_access_sound = check_access-IsMember config fetch;
}
