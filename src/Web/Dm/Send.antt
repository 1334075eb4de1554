-- ===== src/Web/Dm/Send.antt =====
-- What must hold for a message to be sent.
use vortex_reloaded.Base.{
  not-eq-false, ℕ, String, refl, ◌≡◌, true, false, not, Option, none, some, if-holds, Bool-cases,
  Option-cases, inl, inr,
}
use vortex_reloaded.Base.Sets.{has}
use vortex_reloaded.Signal.Value.{Value, get}
use vortex_reloaded.Web.Dm.{
  DmChannel, members_query, channel_query, Database, Outcome, refuse, members_of, channel_row,
}
use vortex_reloaded.Web.Dm.Envelope.{is_acceptable}
use vortex_reloaded.Web.Dm.Messages.{
  SendRequest, send_message, send_body, send_text, found_channel, insert_message, is_blocked_by_any,
  blocks_throw, is_replyable, reply_to_of, text_of, is_falsy, reply_throws, odd_reply_status,
  send_reply,
}

found-row :
    (q : SendRequest) (db : Database) (ch : DmChannel)
    → found_channel q db ≡ some ch
    → channel_row q.channel_id db ≡ some ch
found-row q db ch h = elim (Bool-cases (q.caller.fails channel_query)) [
  | inl e ↦ cc (rw e at h)
  | inr e ↦ rw e at h
]

module _ (trim : String → String) (json_parse : String → Option Value) where
  -- What a request must fulfil for its text to be stored as a message.
  pub record Sendable (q : SendRequest) (db : Database) (user : String) (body : Value)
      (ch : DmChannel) (text : String) : Type 0 where
    pub is_user : q.caller.user ≡ some user
    pub is_unlimited : q.caller.limited ≡ false
    pub is_in : has user (members_of q.channel_id db) ≡ true
    pub is_unblocked : is_blocked_by_any user (members_of q.channel_id db) q.friendships ≡ false
    pub is_body : q.body ≡ some body
    pub is_channel : channel_row q.channel_id db ≡ some ch
    pub is_text : text_of trim body ≡ some text
    pub is_sealed : is_acceptable ch (json_parse text) ≡ true
    pub is_usual : odd_reply_status (get "reply_to_id" body) ≡ none
    pub is_reply : is_replyable q.channel_id (reply_to_of body) db ≡ true

  module _ {ℓ} (P : Outcome → Type ℓ) (q : SendRequest) (db : Database)
      (bad : (s : ℕ) → P (refuse s db)) where
    send_body-cases :
        (user : String) (body : Value)
        → ((ch : DmChannel) (text : String)
            → channel_row q.channel_id db ≡ some ch
            → text_of trim body ≡ some text
            → is_acceptable ch (json_parse text) ≡ true
            → odd_reply_status (get "reply_to_id" body) ≡ none
            → is_replyable q.channel_id (reply_to_of body) db ≡ true
            → P (insert_message q user text (reply_to_of body) db))
        → P (send_body trim json_parse q user body db)
    unfolding send_body
    send_body-cases user body new = channel (found_channel q db) refl
      where
        reply :
            (ch : DmChannel) (s : String)
            → found_channel q db ≡ some ch
            → text_of trim body ≡ some s
            → is_acceptable ch (json_parse s) ≡ true
            → (o : Option ℕ) → odd_reply_status (get "reply_to_id" body) ≡ o
            → P (elim o [
              | some status ↦ refuse status db
              | none ↦ send_reply trim json_parse q user s (reply_to_of body) db
            ])
        reply ch s c t a (some status) e = bad status
        reply ch s c t a none e =
            unfold send_reply in
            if-holds P (reply_throws q.caller (reply_to_of body)) (λ _. bad 500)
              (λ _.
                if-holds P (not (is_replyable q.channel_id (reply_to_of body) db)) (λ _. bad 400)
                  (λ r. new ch s (found-row q db ch c) t a e (not-eq-false _ r)))

        text :
            (ch : DmChannel)
            → found_channel q db ≡ some ch
            → (o : Option String) → text_of trim body ≡ o
            → P (elim o [
              | none ↦ refuse 400 db
              | some text ↦ send_text trim json_parse q user text body ch db
            ])
        text ch c none t = bad 400
        text ch c (some s) t =
            unfold send_text in
            if-holds P (not (is_acceptable ch (json_parse s))) (λ _. bad 400)
              (λ a.
                reply ch s c t (not-eq-false _ a) (odd_reply_status (get "reply_to_id" body)) refl)

        channel :
            (o : Option DmChannel)
            → found_channel q db ≡ o
            → P (elim o [
              | none ↦ refuse 500 db
              | some ch ↦ elim (text_of trim body) [
                | none ↦ refuse 400 db
                | some text ↦ send_text trim json_parse q user text body ch db
              ]
            ])
        channel none c = bad 500
        channel (some ch) c = text ch c (text_of trim body) refl

    pub send_message-cases :
        ((user : String) (body : Value) (ch : DmChannel) (text : String)
          → Sendable q db user body ch text
          → P (insert_message q user text (reply_to_of body) db))
        → P (send_message trim json_parse q db)
    unfolding send_message
    send_message-cases new = elim (Option-cases q.caller.user) [
      | inl n ↦ simp (n, send_message) (bad 401)
      | inr (user, e) ↦ elim (Option-cases q.body) [
        | inl n ↦
            simp (e, n, send_message)
              (if-holds P q.caller.limited (λ _. bad 429)
                (λ _.
                  if-holds P (q.caller.fails members_query) (λ _. bad 500)
                    (λ _.
                      if-holds P (not (has user (members_of q.channel_id db))) (λ _. bad 403)
                        (λ _.
                          if-holds P (blocks_throw q.caller user (members_of q.channel_id db))
                            (λ _. bad 500)
                            (λ _.
                              if-holds P
                                (is_blocked_by_any user (members_of q.channel_id db) q.friendships)
                                (λ _. bad 403) (λ _. bad 400))))))
        | inr (body, b) ↦
            simp (e, b, send_message)
              (if-holds P q.caller.limited (λ _. bad 429)
                (λ l.
                  if-holds P (q.caller.fails members_query) (λ _. bad 500)
                    (λ _.
                      if-holds P (not (has user (members_of q.channel_id db))) (λ _. bad 403)
                        (λ m.
                          if-holds P (blocks_throw q.caller user (members_of q.channel_id db))
                            (λ _. bad 500)
                            (λ _.
                              if-holds P
                                (is_blocked_by_any user (members_of q.channel_id db) q.friendships)
                                (λ _. bad 403)
                                (λ u.
                                  if-holds P (is_falsy body) (λ _. bad 400)
                                    (λ _. send_body-cases user body (λ ch text c t a o r.
                                      new user body ch text (record {
                                        is_user = e;
                                        is_unlimited = l;
                                        is_in = not-eq-false _ m;
                                        is_unblocked = u;
                                        is_body = b;
                                        is_channel = c;
                                        is_text = t;
                                        is_sealed = a;
                                        is_usual = o;
                                        is_reply = r;
                                      })))))))))
      ]
    ]
