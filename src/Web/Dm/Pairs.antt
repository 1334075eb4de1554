-- ===== src/Web/Dm/Pairs.antt =====
-- How many members a channel has, under all requests.
use vortex_reloaded.Base.{
  ℕ, ◌+◌, ◌≤◌, String, refl, sym, ap, ◌∙◌, ◌≡◌, Bool, true, false, ◌||◌, if-holds, List, [], ◌∷◌,
  ◌++◌, Option, none, some, any, Bool-cases, Option-cases, inl, inr, if◌then◌else◌, arith, filter,
  filter-append, length, length-append, find-append, str_eq, eq_iff, map, find, leb, ◌==◌,
}
use vortex_reloaded.Signal.Value.{Value}
use vortex_reloaded.Web.Dm.{
  DmChannel, DmChannelMember, Database, Outcome, channel_row, rows_of, rotate, write_query,
  profile_query,
}
use vortex_reloaded.Web.Dm.Channels.{
  CreateRequest, all_members, new_channel, new_members, channel_inserted,
}
use vortex_reloaded.Web.Dm.Members.{AddRequest, is_group_row, member_inserted}
use vortex_reloaded.Web.Dm.Messages.{insert_message}
use vortex_reloaded.Web.Dm.Cases.{create_channel-cases, add_member-cases, remove_member-cases}
use vortex_reloaded.Web.Dm.Changes.{
  edit_message-cases, delete_message-cases, add_reaction-cases, remove_reaction-cases,
}
use vortex_reloaded.Web.Dm.Send.{send_message-cases}
use vortex_reloaded.Web.Dm.Service.{
  Call, creates, adds, removes, sends, edits, deletes, reacts, unreacts, serve, serve_all,
  serve_all-keeps,
}

-- What a channel's row says of the number of its member rows: no row, no members; no group, at most two.
abbrev pub fits : Option DmChannel → ℕ → Bool
fits none n = n == 0
fits (some ch) n = ch.is_group || leb n 2

abbrev pub IsPaired : Database → Type 0
IsPaired db = (c : String) → fits (channel_row c db) (length (rows_of c db.members)) ≡ true

rows_of-new_members :
    (c fresh : String) (ms : List String)
    → length (rows_of c (map (λ m. record { dm_channel_id = fresh; user_id = m }) ms))
      ≡ (if str_eq fresh c then length ms else 0)
rows_of-new_members c fresh [] = ground arith
rows_of-new_members c fresh (m ∷ ms) = ground (arith, rows_of-new_members c fresh ms)

length-rows_of-append :
    (c : String) (xs ys : List DmChannelMember)
    → length (rows_of c (xs ++ ys)) ≡ length (rows_of c xs) + length (rows_of c ys)
length-rows_of-append c xs ys =
    ap length (filter-append (λ m. str_eq m.dm_channel_id c) xs ys)
    ∙ length-append (rows_of c xs) (rows_of c ys)

rows_of-filter-le :
    (c : String) (p : DmChannelMember → Bool) (ms : List DmChannelMember)
    → length (rows_of c (filter p ms)) ≤ length (rows_of c ms)
rows_of-filter-le c p [] = omega arith
rows_of-filter-le c p (m ∷ ms) = ground (arith, rows_of-filter-le c p ms)

fits-le : (o : Option DmChannel) (n k : ℕ) → k ≤ n → fits o n ≡ true → fits o k ≡ true
fits-le none n k l h = ground arith
fits-le (some ch) n k l h = ground arith

-- The version of a key is no matter.
fits-rotate :
    (c d : String) (n k : ℕ) (chs : List DmChannel)
    → fits (find (λ ch. str_eq ch.id c) (map (rotate d n) chs)) k
      ≡ fits (find (λ ch. str_eq ch.id c) chs) k
fits-rotate c d n k [] = refl
fits-rotate c d n k (ch ∷ chs) = ground (arith, fits-rotate c d n k chs)

row-kept :
    (q : CreateRequest) (user c : String) (db : Database)
    → str_eq q.fresh c ≡ false
    → channel_row c (channel_inserted q user db).database ≡ channel_row c db
row-kept q user c db e = elim (Option-cases (channel_row c db)) [
  | inl n ↦ rw (find-append (λ ch. str_eq ch.id c) db.channels (new_channel q user ∷ []), n, e) refl
  | inr (ch, x) ↦
      rw (find-append (λ ch. str_eq ch.id c) db.channels (new_channel q user ∷ []), x) refl
]

create-fits :
    (q : CreateRequest) (user : String) (db : Database)
    → channel_row q.fresh db ≡ none
    → IsPaired db
    → IsPaired (channel_inserted q user db).database
create-fits q user db n h c = elim (Bool-cases (str_eq q.fresh c)) [
  | inl e ↦
      let same = (eq_iff q.fresh c).0 e in
      let none_yet : channel_row c db ≡ none = ap (λ x. channel_row x db) (sym same) ∙ n in
      rw
        (
          find-append (λ ch. str_eq ch.id c) db.channels (new_channel q user ∷ []),
          none_yet,
          e,
          length-rows_of-append c db.members (new_members q user),
          rows_of-new_members c q.fresh (all_members user q.user_ids),
        )
        (ground (arith, rw none_yet at (h c)))
  | inr e ↦
      rw
        (
          row-kept q user c db e,
          length-rows_of-append c db.members (new_members q user),
          rows_of-new_members c q.fresh (all_members user q.user_ids),
          e,
        )
        (ground (arith, h c))
]

add-fits :
    (q : AddRequest) (user : String) (db : Database)
    → is_group_row (channel_row q.channel_id db) ≡ true
    → IsPaired db
    → IsPaired (member_inserted q user db).database
add-fits q user db g h c =
    rw (fits-rotate c q.channel_id 1 _ db.channels) (elim (Bool-cases (str_eq q.channel_id c)) [
      | inl e ↦
          let same = (eq_iff q.channel_id c).0 e in
          group-fits (channel_row c db) _ (ap (λ x. is_group_row (channel_row x db)) (sym same) ∙ g)
      | inr e ↦
          rw
            (
              length-rows_of-append c db.members
                  (record { dm_channel_id = q.channel_id; user_id = q.user_id } ∷ []),
              e,
            )
            (ground (arith, h c))
    ])
  where
    group-fits : (o : Option DmChannel) (n : ℕ) → is_group_row o ≡ true → fits o n ≡ true
    group-fits none n e = cc
    group-fits (some ch) n e = ground arith

module _ (trim prefix : String → String) (json_parse : String → Option Value) where
  abbrev Kept : Outcome → Type 0
  Kept o = IsPaired o.database

  serve-IsPaired :
      (c : Call) (db : Database)
      → IsPaired db
      → IsPaired (serve trim prefix json_parse c db).database
  unfolding serve insert_message
  serve-IsPaired (creates q) db h =
      create_channel-cases Kept q db (λ s. h) (λ user partner ids ch e i x. h)
        (λ user e n. create-fits q user db n h)
  serve-IsPaired (adds q) db h =
      add_member-cases Kept q db (λ s. h) (λ user e m g n. add-fits q user db g h)
  serve-IsPaired (removes q) db h =
      remove_member-cases Kept q db (λ s. h)
        (λ user e o c. rw (fits-rotate c q.channel_id _ _ db.channels) (
          fits-le (channel_row c db) (length (rows_of c db.members)) _
            (rows_of-filter-le c _ db.members) (h c)))
  serve-IsPaired (sends q) db h =
      send_message-cases trim json_parse Kept q db (λ s. h)
        (λ user body ch text m.
          if-holds Kept (q.caller.fails write_query || any (λ m. str_eq m.id q.fresh) db.messages)
            (λ _. h) (λ _. if-holds Kept (q.caller.fails profile_query) (λ _. h) (λ _. h)))
  serve-IsPaired (edits q) db h = edit_message-cases Kept trim q db (λ s. h) (λ user text e. h)
  serve-IsPaired (deletes q) db h = delete_message-cases Kept q db (λ s. h) (λ user e. h)
  serve-IsPaired (reacts q) db h =
      add_reaction-cases Kept trim prefix q db (λ s. h) (λ user emoji m e v b. h)
  serve-IsPaired (unreacts q) db h =
      remove_reaction-cases Kept trim prefix q db (λ s. h) (λ user emoji. h)

  -- Whatever the clients ask for, a channel that is no group never has more than two members, and there
  -- is no member of a channel that does not exist, if that is so at the start.
  pub serve_all-IsPaired :
      (cs : List Call) (db : Database)
      → IsPaired db
      → IsPaired (serve_all trim prefix json_parse cs db)
  serve_all-IsPaired = serve_all-keeps trim prefix json_parse IsPaired serve-IsPaired
