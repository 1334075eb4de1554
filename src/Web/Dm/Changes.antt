-- ===== src/Web/Dm/Changes.antt =====
-- What the handlers of edits, deletions and reactions in apps/web/app/api/dm can come to.
use vortex_reloaded.Base.{
  not, ◌&&◌, str_eq, refl, ℕ, String, ◌≡◌, false, not, Option, none, some, any, filter, if-holds,
  Option-cases, inl, inr,
}
use vortex_reloaded.Signal.Value.{Value}
use vortex_reloaded.Web.Dm.{DirectMessage, Database, Outcome, refuse, write_query, blocks_query}
use vortex_reloaded.Web.Blocking.{is_blocked_between_users}
use vortex_reloaded.Web.Dm.Messages.{text_of}
use vortex_reloaded.Web.Dm.Edits.{
  EditRequest, edit_message, edit_by, edit_to, edited_to, delete_message, rewritten, is_own_row,
  as_deleted,
}
use vortex_reloaded.Web.Dm.Reactions.{
  ReactionRequest, Verified, unverified, verified, add_reaction, remove_reaction, react_to,
  unreact_to, with_message, reacted, insert_reaction, is_reaction, normalize_emoji,
  verify_membership_and_message,
}

module _ {ℓ} (P : Outcome → Type ℓ) where
  pub edit_message-cases :
      (trim : String → String) (q : EditRequest) (db : Database)
      → ((s : ℕ) → P (refuse s db))
      → ((user text : String)
          → q.caller.user ≡ some user
          → P (rewritten (is_own_row q.channel_id q.message_id user) (edited_to text) db))
      → P (edit_message trim q db)
  unfolding edit_message
  edit_message-cases trim q db fail new = elim (Option-cases q.caller.user) [
    | inl n ↦ simp (n, edit_message) (fail 401)
    | inr (user, e) ↦
        simp (e, edit_message)
          (if-holds P q.caller.limited (λ _. fail 429) (λ _. body user e q.body))
  ]
    where
      text :
          (user : String)
          → q.caller.user ≡ some user
          → (o : Option String) → P (edit_to q user o db)
      text user e none = unfold edit_to in fail 400
      text user e (some t) =
          unfold edit_to in
          if-holds P (q.caller.fails write_query) (λ _. fail 500)
            (λ _.
              if-holds P (any (is_own_row q.channel_id q.message_id user) db.messages)
                (λ _. new user t e) (λ _. fail 404))

      body :
          (user : String)
          → q.caller.user ≡ some user
          → (o : Option Value) → P (edit_by trim q user o db)
      body user e none = unfold edit_by in fail 500
      body user e (some b) = unfold edit_by in text user e (text_of trim b)

  pub delete_message-cases :
      (q : EditRequest) (db : Database)
      → ((s : ℕ) → P (refuse s db))
      → ((user : String)
          → q.caller.user ≡ some user
          → P (rewritten (is_own_row q.channel_id q.message_id user) as_deleted db))
      → P (delete_message q db)
  unfolding delete_message
  delete_message-cases q db fail new = elim (Option-cases q.caller.user) [
    | inl n ↦ simp (n, delete_message) (fail 401)
    | inr (user, e) ↦
        simp (e, delete_message)
          (if-holds P q.caller.limited (λ _. fail 429)
            (λ _.
              if-holds P (q.caller.fails write_query) (λ _. fail 500)
                (λ _.
                  if-holds P (any (is_own_row q.channel_id q.message_id user) db.messages)
                    (λ _. new user e) (λ _. fail 404))))
  ]

  with_message-cases :
      (trim prefix : String → String) (step : (user emoji : String) → Verified → Database → Outcome)
      (q : ReactionRequest) (db : Database)
      → ((s : ℕ) → P (refuse s db))
      → ((user emoji : String)
          → q.caller.user ≡ some user
          → P (step user emoji (verify_membership_and_message q user db) db))
      → P (with_message trim prefix step q db)
  unfolding with_message
  with_message-cases trim prefix step q db fail new = elim (Option-cases q.caller.user) [
    | inl n ↦ simp (n, with_message) (fail 401)
    | inr (user, e) ↦ elim (Option-cases (normalize_emoji trim prefix q.emoji)) [
      | inl n ↦
          simp (e, n, with_message) (if-holds P q.caller.limited (λ _. fail 429) (λ _. fail 400))
      | inr (emoji, n) ↦
          simp (e, n, with_message)
            (if-holds P q.caller.limited (λ _. fail 429) (λ _. new user emoji e))
    ]
  ]

  pub add_reaction-cases :
      (trim prefix : String → String) (q : ReactionRequest) (db : Database)
      → ((s : ℕ) → P (refuse s db))
      → ((user emoji : String) (m : DirectMessage)
          → q.caller.user ≡ some user
          → verify_membership_and_message q user db ≡ verified m
          → is_blocked_between_users user m.sender_id q.friendships ≡ false
          → P (
              reacted "reaction.added" q.channel_id
                (insert_reaction q.message_id user emoji db.reactions)
                db))
      → P (add_reaction trim prefix q db)
  unfolding add_reaction
  add_reaction-cases trim prefix q db fail new =
      with_message-cases trim prefix (react_to q) q db fail
        (λ user emoji e. last user emoji e (verify_membership_and_message q user db) refl)
    where
      last :
          (user emoji : String)
          → q.caller.user ≡ some user
          → (v : Verified) → verify_membership_and_message q user db ≡ v
          → P (react_to q user emoji v db)
      last user emoji e (unverified s) v = unfold react_to in fail s
      last user emoji e (verified m) v =
          unfold react_to in
          if-holds P (q.caller.fails blocks_query && not (str_eq user m.sender_id)) (λ _. fail 500)
            (λ _.
              if-holds P (is_blocked_between_users user m.sender_id q.friendships) (λ _. fail 403)
                (λ b.
                  if-holds P (q.caller.fails write_query) (λ _. fail 500)
                    (λ _. new user emoji m e v b)))

  pub remove_reaction-cases :
      (trim prefix : String → String) (q : ReactionRequest) (db : Database)
      → ((s : ℕ) → P (refuse s db))
      → ((user emoji : String)
          → P (
              reacted "reaction.removed" q.channel_id
                (filter (λ r. not (is_reaction q.message_id user emoji r)) db.reactions)
                db))
      → P (remove_reaction trim prefix q db)
  unfolding remove_reaction
  remove_reaction-cases trim prefix q db fail new =
      with_message-cases trim prefix (unreact_to q) q db fail
        (λ user emoji e. last user emoji (verify_membership_and_message q user db))
    where
      last : (user emoji : String) → (v : Verified) → P (unreact_to q user emoji v db)
      last user emoji (unverified s) = unfold unreact_to in fail s
      last user emoji (verified m) =
          unfold unreact_to in
          if-holds P (q.caller.fails write_query) (λ _. fail 500) (λ _. new user emoji)
