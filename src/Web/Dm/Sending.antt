-- ===== src/Web/Dm/Sending.antt =====
-- What a request to send comes to.
use vortex_reloaded.Base.{ℕ, String, refl, ◌≡◌, false, ◌||◌, [], Option, any, if-holds, str_eq}
use vortex_reloaded.Signal.Value.{Value}
use vortex_reloaded.Web.Dm.{
  DmChannel, profile_query, Database, Outcome, refused, created, write_query,
}
use vortex_reloaded.Web.Dm.Messages.{
  SendRequest, send_message, insert_message, sent_row, with_row, reply_to_of,
}
use vortex_reloaded.Web.Dm.Send.{Sendable, send_message-cases}

module _ (trim : String → String) (json_parse : String → Option Value) (q : SendRequest)
    (db : Database) where
  -- The database of an outcome has one message more, which was sendable.
  abbrev pub Stores : Outcome → Type 0
  Stores o =
      (user : String) × (body : Value) × (ch : DmChannel) × (text : String) × Sendable trim
        json_parse q db user body ch text
      × (o.database ≡ with_row (sent_row q user text (reply_to_of body)) db)

  abbrev IfCreated : (id : String) → Outcome → Type 0
  IfCreated id o = o.reply ≡ created id → Stores o

  abbrev IfRefused : (status : ℕ) → Outcome → Type 0
  IfRefused status o = o.reply ≡ refused status → (o.database ≡ db) × (o.effects ≡ [])

  -- A request that is refused leaves no message and tells nobody, unless it was the query for the
  -- sender's name that threw.
  pub send_message-refused :
      (status : ℕ)
      → q.caller.fails profile_query ≡ false
      → (send_message trim json_parse q db).reply ≡ refused status
      → ((send_message trim json_parse q db).database ≡ db)
        × ((send_message trim json_parse q db).effects ≡ [])
  send_message-refused status f =
      send_message-cases trim json_parse (IfRefused status) q db (λ s h. (refl, refl))
        (λ user body ch text m.
          unfold insert_message in
          if-holds (IfRefused status)
            (q.caller.fails write_query || any (λ m. str_eq m.id q.fresh) db.messages)
            (λ _ h. (refl, refl))
            (λ _.
              if-holds (IfRefused status) (q.caller.fails profile_query) (λ e h. cc (e, f))
                (λ _ h. cc h)))
