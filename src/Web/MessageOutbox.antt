-- ===== src/Web/MessageOutbox.antt =====
-- apps/web/stores/message-outbox.ts: the store of messages that have not been sent yet. The text of the
-- present date and the trimming of a text are arguments. Loading and saving are not modelled.
pub mod Laws
use vortex_reloaded.Base.{
  ℕ, ◌+◌, ◌%◌, String, Bool, true, false, List, [], ◌∷◌, ◌++◌, Option, none, some, filter, find,
  any, map, if◌then◌else◌, str_eq,
}
use Prim.Native.String

pub data OutboxStatus : Type 0 where
  pending sending failed : OutboxStatus

pub record OutboxMessage : Type 0 where
  pub client_id : String
  pub channel_id : String
  pub content : String
  pub queued_at : String
  pub status : OutboxStatus
  pub retries : ℕ
  pub error : Option String

-- The module's counter with the store's messages.
pub record Outbox : Type 0 where
  pub counter : ℕ
  pub messages : List OutboxMessage

abbrev pub max_safe_integer : ℕ
max_safe_integer = 9007199254740991

-- A client id: `outbox-<now>-<counter>`, where `decimal` is the text of a number.
abbrev pub client_id_of : (decimal : ℕ → String) → (now counter : ℕ) → String
client_id_of decimal now counter =
    String.◌++◌ "outbox-" (String.◌++◌ (decimal now) (String.◌++◌ "-" (decimal counter)))

-- `none`: a missing channel or a blank content throws.
unfoldable pub enqueue :
    (decimal : ℕ → String) (trim : String → String) (now : ℕ) (date channel content : String)
    → Outbox
    → Option (Outbox × String)
enqueue decimal trim now date channel content s =
    let counter = (s.counter + 1) % max_safe_integer in
    let id = client_id_of decimal now counter in
    if str_eq channel ""
    then none
    else if str_eq (trim content) ""
    then none
    else some (
      record {
        counter = counter;
        messages =
            s.messages
            ++ record {
              client_id = id;
              channel_id = channel;
              content = content;
              queued_at = date;
              status = pending;
              retries = 0;
              error = none;
            }
              ∷ [];
      },
      id,
    )

abbrev as_sending : String → OutboxMessage → OutboxMessage
as_sending id m = if str_eq m.client_id id then record m { status = sending } else m

abbrev as_failed : String → String → OutboxMessage → OutboxMessage
as_failed id why m =
    if str_eq m.client_id id
    then record m { status = failed; error = some why; retries = m.retries + 1 }
    else m

unfoldable pub mark_sending : String → Outbox → Outbox
mark_sending id s = record s { messages = map (as_sending id) s.messages }

unfoldable pub mark_failed : (id error : String) → Outbox → Outbox
mark_failed id why s = record s { messages = map (as_failed id why) s.messages }

abbrev without : String → List OutboxMessage → List OutboxMessage
without id = filter (λ m. if str_eq m.client_id id then false else true)

unfoldable pub mark_sent : String → Outbox → Outbox
mark_sent id s = record s { messages = without id s.messages }

unfoldable pub cancel : String → Outbox → Outbox
cancel id s = record s { messages = without id s.messages }

unfoldable pub for_channel : String → Outbox → List OutboxMessage
for_channel channel s = filter (λ m. str_eq m.channel_id channel) s.messages

abbrev pub is_sending : OutboxStatus → Bool
is_sending sending = true
is_sending _ = false

abbrev as_pending : OutboxMessage → OutboxMessage
as_pending m = if is_sending m.status then record m { status = pending } else m

-- The listener for `vortex:outbox-reset-sending`.
unfoldable pub reset_sending : Outbox → Outbox
reset_sending s =
    if any (λ m. is_sending m.status) s.messages
    then record s { messages = map as_pending s.messages }
    else s
