-- ===== src/Web/Dm/Opening.antt =====
-- apps/web/app/api/dm/channels/route.ts: which channel an opening gives back.
use vortex_reloaded.Base.{String, refl, ◌≡◌, Bool, true, false, List, ◌∷◌, some, find-holds, arith}
use vortex_reloaded.Base.Sets.{has, has-filter}
use vortex_reloaded.Web.Dm.{DmChannel, Database, opened, channels_of, is_member}
use vortex_reloaded.Web.Dm.Channels.{CreateRequest, create_channel, existing_channel}
use vortex_reloaded.Web.Dm.Cases.{create_channel-cases}
use vortex_reloaded.Web.Dm.Access.{rows-has}

-- What an existing channel has to be: one of both users, no group, and encrypted as wanted.
abbrev pub IsShared : (encrypted : Bool) (user partner : String) → DmChannel → Database → Type 0
IsShared encrypted user partner ch db =
    (is_member ch.id user db ≡ true)
    × (is_member ch.id partner db ≡ true)
    × (ch.is_group ≡ false)
    × (ch.is_encrypted ≡ encrypted)

existing-IsShared :
    (encrypted : Bool) (user partner : String) (db : Database) (ch : DmChannel)
    → existing_channel encrypted user partner db ≡ some ch
    → IsShared encrypted user partner ch db
existing-IsShared encrypted user partner db ch e =
    let h = find-holds _ db.channels ch e in
    let both = has-filter (λ id. has id (channels_of user db)) ch.id (channels_of partner db) in
    (
      ground (arith, h, both, rows-has ch.id user db.members),
      ground (arith, h, both, rows-has ch.id partner db.members),
      ground (arith, h),
      ground (arith, h),
    )

-- A channel that is given back as one that exists has the caller and the first of the wanted users as
-- members, is no group and is encrypted exactly if that was wanted; and the database stays as it was.
pub create_channel-existing :
    (q : CreateRequest) (db : Database) (user partner id : String) (ids : List String)
    → q.caller.user ≡ some user
    → q.user_ids ≡ partner ∷ ids
    → (create_channel q db).reply ≡ opened id true
    → ((create_channel q db).database ≡ db)
      × ((ch : DmChannel) × (ch.id ≡ id) × IsShared q.encrypted user partner ch db)
create_channel-existing q db user partner id ids u i r =
    create_channel-cases
      (λ o.
        o.reply ≡ opened id true
        → (o.database ≡ db)
          × ((ch : DmChannel) × (ch.id ≡ id) × IsShared q.encrypted user partner ch db))
      q db (λ s h. cc h)
      (λ w p more ch e l x h.
        let who : w ≡ user = cc (u, e) in
        let whom : p ≡ partner = cc (i, l) in
        (refl, (ch, cc h, existing-IsShared q.encrypted user partner db ch (rw (who, whom) at x))))
      (λ w e n h. cc h) r
