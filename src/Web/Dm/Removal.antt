-- ===== src/Web/Dm/Removal.antt =====
-- apps/web/app/api/dm/channels/[channelId]/members/route.ts and the gateway: who was removed stays out.
use Prim.Native.String
use vortex_reloaded.Base.{
  String, refl, ap, subst, ◌∙◌, ◌≡◌, ◌⊎◌, Bool, true, false, not, List, [], ◌∷◌, ◌++◌, Option, none,
  some, any, Bool-cases, inl, inr, if-holds, arith, filter, length, map, ltb, str_eq, or_else,
}
use vortex_reloaded.Base.Sets.{has}
use vortex_reloaded.Signal.ChannelAccess.{
  ChannelAccessConfig, Response, not_ok, answered, check_channel_access, is_own_channel,
  is_user_channel,
}
use vortex_reloaded.Signal.ChannelAccess.Laws.{
  dm_of, own_channel, check_channel_access_answered, check_channel_access_closed,
  is_own_channel-is_user_channel, is_own_channel_iff,
}
use vortex_reloaded.Web.Dm.{Database, DmChannelMember, done, channels_of, is_member, is_row}
use vortex_reloaded.Web.Dm.Rooms.{
  verify_bearer_token, requested, joinable, post_channel_access, asks,
}
use vortex_reloaded.Web.Dm.Members.{RemoveRequest, remove_member}
use vortex_reloaded.Web.Dm.Cases.{remove_member-cases}
use vortex_reloaded.Web.Dm.Access.{joinable-answered, has-asked}

-- The list that the route answers with, if it does.
abbrev Allowed : Database → String → List String → Response
Allowed db user ids = answered (
    map some (
      filter (is_own_channel user) (requested ids)
      ++ filter (λ id. has id (channels_of user db)) (dm_of (requested ids))))

module _ (secret : Option String) (throws : Bool) (db : Database) (c : ChannelAccessConfig)
    (user : String) where
  joinable-Answer :
      (ids : List String) (b : Bool)
      → b ≡ throws
      → (joinable b user ids db ≡ not_ok) ⊎ (joinable b user ids db ≡ joinable false user ids db)
  unfolding joinable
  joinable-Answer ids false e = inr refl
  joinable-Answer ids true e = go (dm_of ids) refl
    where
      go :
          (ds : List String)
          → dm_of ids ≡ ds
          → (joinable true user ids db ≡ not_ok)
            ⊎ (joinable true user ids db ≡ joinable false user ids db)
      go [] e = inr (rw (e, joinable) refl)
      go (d ∷ ds) e = inl (rw (e, joinable) refl)

  abbrev IsAnswer : List String → Response → Type 0
  IsAnswer ids r = (r ≡ not_ok) ⊎ (r ≡ Allowed db user ids)

  asks-IsAnswer : (ids : List String) → IsAnswer ids (asks secret throws db c user ids)
  unfolding post_channel_access
  asks-IsAnswer ids = by_secret secret
    where
      last : IsAnswer ids (joinable throws user (requested ids) db)
      last = elim (joinable-Answer (requested ids) throws refl) [
        | inl e ↦ inl e
        | inr e ↦ inr (e ∙ joinable-answered user (requested ids) db)
      ]

      by_secret :
          (o : Option String)
          → IsAnswer ids
              (post_channel_access o (some (String.◌++◌ "Bearer " c.secret)) throws user ids db)
      by_secret none = inl refl
      by_secret (some s) =
          if-holds (IsAnswer ids) (str_eq s "") (λ _. inl refl)
            (λ _.
              if-holds (IsAnswer ids)
                (not (verify_bearer_token (some (String.◌++◌ "Bearer " c.secret)) s))
                (λ _. inl refl)
                (λ _.
                  if-holds (IsAnswer ids) (str_eq user "") (λ _. inl refl)
                    (λ _.
                      if-holds (IsAnswer ids) (ltb 100 (length ids)) (λ _. inl refl) (λ _. last))))

  own-user : (id : String) → id ≡ own_channel user → is_user_channel id ≡ true
  own-user id e = is_own_channel-is_user_channel user id ((is_own_channel_iff user id).1 e)

  -- Whatever the web app answers, no room is granted to one who is no member.
  granted-is_member :
      (ids : List String) (id : String)
      → is_user_channel id ≡ false
      → is_member id user db ≡ false
      → has id (check_channel_access (some c) (asks secret throws db) user ids) ≡ false
  granted-is_member ids id n m =
      elim (Bool-cases (has id (check_channel_access (some c) (asks secret throws db) user ids))) [
        | inr h ↦ h
        | inl h ↦ elim (asks-IsAnswer (dm_of ids)) [
          | inl e ↦
              let closed =
                check_channel_access_closed (some c) (asks secret throws db) user ids id
                  (λ d xs s a. cc (a, e, ap (λ x. x) s)) in
              cc (own-user id (closed.0 h).0, n)
          | inr e ↦
              let granted =
                check_channel_access_answered c (asks secret throws db) user ids id _ e in
              elim (granted.0 h).1 [
                | inl own ↦ cc (own-user id own, n)
                | inr (dm, given) ↦ ground (arith, (has-asked db user ids id).0 given, m)
              ]
        ]
      ]

removed-is_member :
    (c t : String) (ms : List DmChannelMember)
    → any (is_row c t) (filter (λ m. not (is_row c t m)) ms) ≡ false
removed-is_member c t [] = refl
removed-is_member c t (m ∷ ms) = ground (arith, removed-is_member c t ms)

-- Once a request to remove a member, or to leave, is answered with success, the gateway never grants that
-- user the channel's room, whatever the database does and whichever secrets the two servers have, while
-- the members stay as the request left them. The channel's id is not one of the `user:` channels.
pub remove_member-denied :
    (q : RemoveRequest) (db : Database) (user : String) (secret : Option String) (throws : Bool)
    (c : ChannelAccessConfig) (ids : List String)
    → q.caller.user ≡ some user
    → (remove_member q db).reply ≡ done
    → is_user_channel q.channel_id ≡ false
    → has q.channel_id (
        check_channel_access
          (some c)
          (asks secret throws (remove_member q db).database)
          (or_else q.user_id user)
          ids)
      ≡ false
remove_member-denied q db user secret throws c ids u r n =
    granted-is_member secret throws (remove_member q db).database c (or_else q.user_id user) ids
      q.channel_id n
      (remove_member-cases
        (λ o. o.reply ≡ done → is_member q.channel_id (or_else q.user_id user) o.database ≡ false) q
        db (λ s h. cc h)
        (λ w e o h.
          let same : w ≡ user = cc (u, e) in
          subst
            (λ x.
              any (is_row q.channel_id (or_else q.user_id x))
                (filter (λ m. not (is_row q.channel_id (or_else q.user_id w) m)) db.members)
              ≡ false)
            same (removed-is_member q.channel_id (or_else q.user_id w) db.members))
        r)
