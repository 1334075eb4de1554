-- ===== src/Web/Dm/Cases.antt =====
-- What the handlers of apps/web/app/api/dm can come to.
use vortex_reloaded.Base.{
  not-eq-false, refl, ℕ, String, ◌≡◌, true, false, not, ◌||◌, List, [], ◌∷◌, Option, none, some,
  if-holds, Option-cases, inl, inr, arith, str_eq, is_some, or_else,
}
use vortex_reloaded.Web.Dm.{
  members_query, DmChannel, Database, Outcome, refuse, opened, write_query, channel_query,
  channel_row, is_member,
}
use vortex_reloaded.Web.Dm.Channels.{
  CreateRequest, create_channel, open_channel, insert_channel, channel_inserted, existing_channel,
  is_group_of,
}
use vortex_reloaded.Web.Dm.Members.{
  AddRequest, RemoveRequest, add_member, remove_member, insert_member, member_inserted,
  delete_member, member_deleted, is_group_row, is_owner,
}

not-some {ℓ} : {A : Type ℓ} (o : Option A) → is_some o ≡ false → o ≡ none
not-some none h = refl
not-some (some a) h = cc

module _ {ℓ} (P : Outcome → Type ℓ) where
  pub create_channel-cases :
      (q : CreateRequest) (db : Database)
      → ((s : ℕ) → P (refuse s db))
      → ((user partner : String) (ids : List String) (ch : DmChannel)
          → q.caller.user ≡ some user
          → q.user_ids ≡ partner ∷ ids
          → existing_channel q.encrypted user partner db ≡ some ch
          → P (record { database = db; reply = opened ch.id true; effects = [] }))
      → ((user : String)
          → q.caller.user ≡ some user
          → channel_row q.fresh db ≡ none
          → P (channel_inserted q user db))
      → P (create_channel q db)
  unfolding create_channel
  create_channel-cases q db fail old new = elim (Option-cases q.caller.user) [
    | inl n ↦ simp (n, create_channel) (fail 401)
    | inr (user, e) ↦
        simp (e, create_channel)
          (if-holds P q.caller.limited (λ _. fail 429)
            (λ _. if-holds P q.is_json (λ _. body user e q.user_ids refl) (λ _. fail 400)))
  ]
    where
      insert : (user : String) → q.caller.user ≡ some user → P (insert_channel q user db)
      insert user e =
          unfold insert_channel in
          if-holds P (q.caller.fails write_query || is_some (channel_row q.fresh db))
            (λ _. fail 500) (λ n. new user e (not-some (channel_row q.fresh db) (ground arith)))

      found :
          (user partner : String) (ids : List String)
          → q.caller.user ≡ some user
          → q.user_ids ≡ partner ∷ ids
          → (o : Option DmChannel) → existing_channel q.encrypted user partner db ≡ o
          → P (elim o [
            | some ch ↦ record { database = db; reply = opened ch.id true; effects = [] }
            | none ↦ insert_channel q user db
          ])
      found user partner ids e i none x = insert user e
      found user partner ids e i (some ch) x = old user partner ids ch e i x

      body :
          (user : String)
          → q.caller.user ≡ some user
          → (ids : List String) → q.user_ids ≡ ids
          → P (elim ids [ [] ↦ refuse 400 db | partner ∷ ids ↦ open_channel q user partner db ])
      body user e [] i = fail 400
      body user e (partner ∷ ids) i =
          unfold open_channel in
          if-holds P (is_group_of user q.user_ids) (λ _. insert user e)
            (λ _.
              if-holds P (q.caller.fails members_query) (λ _. fail 500)
                (λ _.
                  if-holds P (q.caller.fails channel_query) (λ _. fail 500)
                    (λ _.
                      found user partner ids e i (existing_channel q.encrypted user partner db)
                        refl)))

  pub add_member-cases :
      (q : AddRequest) (db : Database)
      → ((s : ℕ) → P (refuse s db))
      → ((user : String)
          → q.caller.user ≡ some user
          → is_member q.channel_id user db ≡ true
          → is_group_row (channel_row q.channel_id db) ≡ true
          → is_member q.channel_id q.user_id db ≡ false
          → P (member_inserted q user db))
      → P (add_member q db)
  unfolding add_member
  add_member-cases q db fail new = elim (Option-cases q.caller.user) [
    | inl n ↦ simp (n, add_member) (fail 401)
    | inr (user, e) ↦
        simp (e, add_member)
          (if-holds P (q.caller.fails members_query || q.caller.fails channel_query) (λ _. fail 500)
            (λ _.
              if-holds P (not (is_member q.channel_id user db)) (λ _. fail 403)
                (λ m.
                  if-holds P (not (is_group_row (channel_row q.channel_id db))) (λ _. fail 400)
                    (λ g.
                      if-holds P (not q.is_json) (λ _. fail 500)
                        (λ _.
                          if-holds P (str_eq q.user_id "") (λ _. fail 400)
                            (λ _. insert user e (not-eq-false _ m) (not-eq-false _ g)))))))
  ]
    where
      insert :
          (user : String)
          → q.caller.user ≡ some user
          → is_member q.channel_id user db ≡ true
          → is_group_row (channel_row q.channel_id db) ≡ true
          → P (insert_member q user db)
      insert user e m g =
          unfold insert_member in
          if-holds P (is_member q.channel_id q.user_id db) (λ _. fail 409)
            (λ n. if-holds P (q.caller.fails write_query) (λ _. fail 500) (λ _. new user e m g n))

  pub remove_member-cases :
      (q : RemoveRequest) (db : Database)
      → ((s : ℕ) → P (refuse s db))
      → ((user : String)
          → q.caller.user ≡ some user
          → (str_eq (or_else q.user_id user) user || is_owner user (channel_row q.channel_id db))
            ≡ true
          → P (member_deleted q user (or_else q.user_id user) db))
      → P (remove_member q db)
  unfolding remove_member
  remove_member-cases q db fail gone = elim (Option-cases q.caller.user) [
    | inl n ↦ simp (n, remove_member) (fail 401)
    | inr (user, e) ↦
        simp (e, remove_member)
          (if-holds P (str_eq (or_else q.user_id user) user)
            (λ s. delete user e (ground (arith, s)))
            (λ _.
              if-holds P (q.caller.fails channel_query) (λ _. fail 500)
                (λ _.
                  if-holds P (is_owner user (channel_row q.channel_id db))
                    (λ o. delete user e (ground (arith, o))) (λ _. fail 403))))
  ]
    where
      delete :
          (user : String)
          → q.caller.user ≡ some user
          → (str_eq (or_else q.user_id user) user || is_owner user (channel_row q.channel_id db))
            ≡ true
          → P (delete_member q user (or_else q.user_id user) db)
      delete user e o =
          unfold delete_member in
          if-holds P (q.caller.fails write_query) (λ _. fail 500) (λ _. gone user e o)
