-- ===== src/Web/Dm/Access.antt =====
-- The rooms that the gateway lets a user join, by the member rows of the web app.
use text.Mathlib.TextPositions.{slice-append_right, starts_with-append, len-append}
use mathlib.Core.List.{append-nil}
use Prim.Native.String
use Prim.Native.String.{len, slice}
use vortex_reloaded.Base.{
  ◌≤◌, String, refl, sym, ap, ◌≡◌, ◌≢◌, ◌↔◌, ◌⊎◌, true, false, not, ◌&&◌, List, [], ◌∷◌, ◌++◌, some,
  any, inl, inr, arith, filter, length, map, ltb, str_eq, eq_iff, eq_refl,
}
use vortex_reloaded.Base.Sets.{has, has-append, has-filter}
use vortex_reloaded.Signal.ChannelAccess.{
  ChannelAccessConfig, answered, check_channel_access, is_own_channel, is_user_channel, texts,
}
use vortex_reloaded.Signal.ChannelAccess.Laws.{
  dm_of, own_channel, check_channel_access_answered, is_own_channel-is_user_channel,
}
use vortex_reloaded.Web.Dm.{Database, DmChannelMember, channels_of, is_member, is_row}
use vortex_reloaded.Web.Dm.Rooms.{
  verify_bearer_token, requested, joinable, post_channel_access, asks,
}

texts-map : (xs : List String) → texts (map some xs) ≡ xs
unfolding texts
texts-map [] = refl
texts-map (x ∷ xs) = ap (λ l. x ∷ l) (texts-map xs)

pub rows-has :
    (c u : String) (ms : List DmChannelMember)
    → has c (map (λ m. m.dm_channel_id) (filter (λ m. str_eq m.user_id u) ms)) ≡ any (is_row c u) ms
unfolding has
rows-has c u [] = refl
rows-has c u (m ∷ ms) = ground (arith, rows-has c u ms)

verify_bearer_token-lem :
    (secret : String)
    → str_eq secret "" ≡ false
    → verify_bearer_token (some (String.◌++◌ "Bearer " secret)) secret ≡ true
verify_bearer_token-lem secret h =
    rw
      (
        h,
        starts_with-append "Bearer " secret,
        len-append "Bearer " secret,
        slice-append_right "Bearer " secret,
      )
      (eq_refl secret)

pub joinable-answered :
    (user : String) (ids : List String) (db : Database)
    → joinable false user ids db
      ≡ answered (
          map some (
            filter (is_own_channel user) ids
            ++ filter (λ id. has id (channels_of user db)) (dm_of ids)))
unfolding joinable
joinable-answered user ids db = go (dm_of ids) refl
  where
    go :
        (ds : List String)
        → dm_of ids ≡ ds
        → joinable false user ids db
          ≡ answered (
              map some (
                filter (is_own_channel user) ids
                ++ filter (λ id. has id (channels_of user db)) (dm_of ids)))
    go [] e = rw (e, joinable) (ap (λ l. answered (map some l)) (sym (append-nil _)))
    go (d ∷ ds) e = rw (e, joinable) refl

asks-answered :
    (c : ChannelAccessConfig) (db : Database) (user : String) (ids : List String)
    → c.secret ≢ ""
    → user ≢ ""
    → length ids ≤ 100
    → asks (some c.secret) false db c user ids
      ≡ answered (
          map some (
            filter (is_own_channel user) (requested ids)
            ++ filter (λ id. has id (channels_of user db)) (dm_of (requested ids))))
unfolding post_channel_access
asks-answered c db user ids s u l =
    let no_secret : str_eq c.secret "" ≡ false = ground (arith, eq_iff c.secret "", s) in
    let no_user : str_eq user "" ≡ false = ground (arith, eq_iff user "", u) in
    let few : ltb 100 (length ids) ≡ false = ground arith in
    rw (verify_bearer_token-lem c.secret no_secret, no_secret, no_user, few)
      (joinable-answered user (requested ids) db)

pub has-asked :
    (db : Database) (user : String) (ids : List String) (id : String)
    → (has id (
          texts (
            map some (
              filter (is_own_channel user) (requested (dm_of ids))
              ++ filter (λ id. has id (channels_of user db)) (dm_of (requested (dm_of ids))))))
        ≡ true)
      ↔ ((has id ids && (not (is_user_channel id) && (not (str_eq id "") && is_member id user db)))
          ≡ true)
has-asked db user ids id =
    let asked = requested (dm_of ids) in
    rw
      (texts-map (
        filter (is_own_channel user) asked
        ++ filter (λ id. has id (channels_of user db)) (dm_of asked)))
      (ground (
        arith,
        has-append id (filter (is_own_channel user) asked)
            (filter (λ id. has id (channels_of user db)) (dm_of asked)),
        has-filter (is_own_channel user) id asked,
        has-filter (λ id. has id (channels_of user db)) id (dm_of asked),
        has-filter (λ id. not (is_user_channel id)) id asked,
        has-filter (λ id. not (str_eq id "")) id (dm_of ids),
        has-filter (λ id. not (is_user_channel id)) id ids,
        is_own_channel-is_user_channel user id,
        rows-has id user db.members,
      ))

-- The gateway, asking the web app with its secret, lets a user join a channel exactly if that was
-- requested and it is the user's own, or has a name that is neither empty nor one of the `user:` channels
-- and the user is a member of it. At most a hundred such channels are asked for at once, and the query
-- returns.
pub check_channel_access-is_member :
    (c : ChannelAccessConfig) (db : Database) (user : String) (ids : List String) (id : String)
    → c.secret ≢ ""
    → user ≢ ""
    → length (dm_of ids) ≤ 100
    → (has id (check_channel_access (some c) (asks (some c.secret) false db) user ids) ≡ true) ↔ (
        (has id ids ≡ true)
        × ((id ≡ own_channel user)
            ⊎ ((is_user_channel id ≡ false) × (id ≢ "") × (is_member id user db ≡ true))))
check_channel_access-is_member c db user ids id s u l =
    let name = eq_iff id "" in
    let answer = asks-answered c db user (dm_of ids) s u l in
    let granted =
      check_channel_access_answered c (asks (some c.secret) false db) user ids id _ answer in
    let listed = has-asked db user ids id in
    (
      (λ h.
          let (asked, why) = granted.0 h in
          (
            asked,
            elim why [
              | inl own ↦ inl own
              | inr (dm, given) ↦ inr (
                dm,
                (λ e. ground (arith, listed.0 given, name, e)),
                ground (arith, listed.0 given, dm),
              )
            ],
          )),
      (λ h. granted.1 (
        h.0,
        elim h.1 [
          | inl own ↦ inl own
          | inr (dm, named, member) ↦
              inr (dm, listed.1 (ground (arith, h.0, dm, name, named, member)))
        ],
      )),
    )
