-- ===== src/Lib.antt =====
-- VortexChat is a chat application of two servers. The signal server (apps/signal) is a Socket.IO
-- gateway: sockets subscribe to channels, send typing, presence and call signals to the rooms of their
-- channels, resume after a lost connection, and leave; it limits the rate of each socket, asks the web
-- application which channels a user may join, and refuses tokens from before a revocation. The web
-- application (apps/web) keeps users, friendships and messages in SQLite behind HTTP routes.
--
-- Base: native numbers and strings, lists, sets as lists, dictionaries as association lists.
-- Signal.RateLimiter: apps/signal/src/rate-limiter.ts. `check`, `remove`, `cleanup` with the time as an
--   argument; Window follows histories of calls with a log of the checks that passed.
-- Signal.Revocation: apps/signal/src/revocation.ts, `SessionRevocationStore`. The Redis client is a
--   record of its two calls with what the code relies on: a key is read back until it expires.
-- Signal.ChannelAccess: apps/signal/src/channel-access.ts. The HTTP call is a function of its arguments.
--   Backed fills the interface that the gateway takes.
-- Signal.Value: the JavaScript values of payloads. Signal.Gateway: apps/signal/src/gateway.ts. Every
--   handler is a function from the state of the module to the new state and the list of its calls of
--   Socket.IO and the presence manager. Between two awaits a handler runs undisturbed; those pieces are
--   `Piece`, and `run` is any interleaving of them (Pieces). Access has what the handlers ask for, Rooms
--   and Mirror compare the tracked channels with the rooms, Handlers is about
--   whole handlers, Leaving about disconnects and revocations.
-- Web.Friends: apps/web/app/api/friends/route.ts over the table of packages/db/src/schema/social.ts. A
--   request is a function of the table, and POST, which selects and then writes, of what others do in between. Post and Change are the handlers, Table, Laws, Rights and
--   Removal the proofs. Web.Blocking: apps/web/lib/social-block-policy.ts and apps/web/lib/blocking.ts.
--   Listing is the paged GET.
-- Web.Invites: apps/web/lib/auth/invites.ts, the check and the redemption. Web.RateLimit:
--   apps/web/lib/rate-limit.ts, the list in memory and the Lua script over a sorted set. Web.MessageOutbox:
--   apps/web/stores/message-outbox.ts. Web.Presence: packages/shared/src/presence.ts.
--   Web.Notifications: apps/web/lib/notification-resolver.ts.
-- Web.StepUp: apps/web/lib/auth/step-up.ts, the signed cookie; Split is `split(":")`.
-- Signal.EventBus: apps/signal/src/event-bus.ts over streams whose commands are a record with what Redis
--   documents of them; Search is the cursor by batches, Laws what a replay gives back. A stream is searched
--   for at most five batches of two hundred entries, as the source does.
-- Web.Dm: packages/db/src/schema/dm.ts and the routes of apps/web/app/api/dm/channels that write. Channels
--   opens a channel, Members adds and removes, Envelope checks encrypted content, Messages sends, Edits
--   edits and deletes, Reactions reacts; Rooms is apps/web/app/api/internal/gateway/channel-access/route.ts,
--   which the checker of the signal server asks. A handler is a function from the tables to the new tables,
--   the answer and the effects after it; a query that throws is a Boolean of the request. Service serves
--   the requests of all clients in turn, Cases, Changes and Send have what a handler can come to, and
--   Sending, Pairs, Access, Removal and Opening are the proofs. String.prototype.trim and JSON.parse are parameters.
-- Web.OlmKeys: apps/web/lib/olm-key-validation.ts and the routes apps/web/app/api/dm/olm/keys: Publish is
--   device/route.ts, Claim is claim/route.ts; Once serves all requests in turn, Admission, Spent, Tombstones
--   and Pinned are the proofs.
-- Web.AttachmentDecay: packages/shared/src/attachment-decay.ts, the renewal of an expiry.
-- Signal.Sessions: the session checks of apps/signal/src/index.ts. A check is validate_begin and, after the
--   verification of the token, validate_finish; Run interleaves the checks of all sockets with revocations,
--   Cutoff says how long a revocation lasts in memory and in Redis, and Laws, Steps, Fine and Revoked are the proofs.
-- Signal.Endpoints: the HTTP endpoints of the same file, over the gateway, the event bus and the session checks.
-- Web.SearchIndex: apps/web/lib/local-search-index.ts. Postings and Size are about its sets, Coherent and Steps
--   about the agreement of its maps, Bounds about its caps, and Matching, Search and Found about what is found.
-- Web.OlmProtocol, Web.OlmStore: apps/web/lib/olm-protocol.ts and olm-protocol-store.ts. A call is a function
--   on the browser's state that answers or throws; Calls has the exported ones, Rules and Steady what every call
--   keeps, and Pins, Outbound, Owners and Plaintexts are the proofs.
-- Tests: runs at concrete inputs.
--
-- No loop needs fuel but the decimal text of an array index (Signal.Value), whose fuel is the index: it
-- has fewer digits than that. Loops over lists are structural recursion. Strings are compared as code
-- points. A callback of a typing timer is a piece of its own; where a handler waits, for the
-- presence manager or for a replay, what the others do meanwhile is an argument of it. Disconnects and
-- the revocation of a channel are no pieces of the interleavings. The session check is an argument of a
-- handler, taken at the time of the call. A failure of the presence manager
-- is not modelled, since its methods catch it. Logging, HTTP and JSON encoding, the database engine, the
-- text of notifications and the user interface are not modelled, nor are the routes that only read, the
-- client signatures of the membership log, and the attributes of cookies.
pub mod Base
pub mod Signal
pub mod Web
pub mod Tests
