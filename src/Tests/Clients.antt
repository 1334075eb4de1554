-- ===== src/Tests/Clients.antt =====
-- Invites, the outbox, the pages of friends, the status of a user and the HTTP limiter at concrete inputs.
use vortex_reloaded.Base.{
  ◌+◌, ◌≤◌, String, ◌≡◌, ◌≢◌, refl, List, [], ◌∷◌, Option, none, some, arith,
}
use vortex_reloaded.Web.Invites.{Invite, find_code}
use vortex_reloaded.Web.Invites.Laws.{consume_all, consume_all-le}
use vortex_reloaded.Web.MessageOutbox.{OutboxMessage, Outbox, pending}
use vortex_reloaded.Web.MessageOutbox.Laws.{
  fails, sends, resets, sents, run, IsHeld, failures, run-IsHeld,
}
use vortex_reloaded.Web.MessageOutbox.Laws as Outboxes
use vortex_reloaded.Web.Notifications.{NotificationSetting, muted}
use vortex_reloaded.Web.Friends.{Rows, blocked}

abbrev twice : Invite
twice = record {
  code = "ABCD2345";
  revoked_at = none;
  expires_at = some "2026-01-01";
  max_uses = 2;
  use_count = 1;
}

twice_found : find_code "ABCD2345" (twice ∷ []) ≡ some twice
unfolding find_code
twice_found = refl

expiry_dated : ◌≢◌ {A = Option String} (some "2026-01-01") (some "")
expiry_dated e = cc e

consume_all-le_example :
    1 + (consume_all "ABCD2345" ("2025-06-01" ∷ "2025-06-02" ∷ []) (twice ∷ [])).1 ≤ 2
consume_all-le_example =
    consume_all-le "ABCD2345" ("2025-06-01" ∷ "2025-06-02" ∷ []) twice (twice ∷ []) (refl, tt)
      twice_found (omega arith)

abbrev hello : OutboxMessage
hello = record {
  client_id = "m1";
  channel_id = "c1";
  content = "hello";
  queued_at = "2025-06-01";
  status = pending;
  retries = 0;
  error = none;
}

abbrev queue : Outbox
queue = record { counter = 1; messages = hello ∷ [] }

abbrev attempts : List Outboxes.Op
attempts = sends "m1" ∷ fails "m1" "offline" ∷ sends "m1" ∷ resets ∷ sents "m2" ∷ []

run-IsHeld_example :
    IsHeld "m1" "c1" "hello" (0 + failures "m1" attempts) (run (λ n. "0") (λ s. s) attempts queue)
run-IsHeld_example =
    run-IsHeld (λ n. "0") (λ s. s) attempts "m1" "c1" "hello" 0 queue
      (tt, (tt, (tt, (tt, (refl, tt))))) (hello, refl, refl, refl, refl)

abbrev rows : Rows
rows =
    record { id = "f2"; requester_id = "bob"; addressee_id = "ann"; status = blocked }
    ∷ record { id = "f1"; requester_id = "ann"; addressee_id = "cid"; status = blocked }
    ∷ []

abbrev setting : (user channel : String) → NotificationSetting
setting user channel = record {
  user_id = user;
  mode = muted;
  server_id = none;
  channel_id = some channel;
  thread_id = none;
}
