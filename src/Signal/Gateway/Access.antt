-- ===== src/Signal/Gateway/Access.antt =====
-- What a handler of the gateway asks of its surroundings.
use vortex_reloaded.Base.{ℕ, String, ◌≡◌, Bool, true, List, Option}
use vortex_reloaded.Base.Sets.{has}
use vortex_reloaded.Signal.RateLimiter.{check}
use vortex_reloaded.Signal.Gateway.{Gateway, Effect, VortexEvent}

-- The membership authorizer: what it grants was requested, and the user is allowed to join it.
pub record ChannelAccess : Type 1 where
  pub MayJoin : String → String → Type 0
  pub check_access : (user : String) → (channels : List String) → List String
  pub check_access_sound :
      (user : String) (channels : List String) (channel : String)
      → has channel (check_access user channels) ≡ true
      → (has channel channels ≡ true) × MayJoin user channel

-- `validateSession` and `getSessionUserId`, at the time of the call.
pub data Session : Type 0 where
  threw : Session
  invalid : Session
  valid : (user : Option String) → Session

-- `eventBus.replay` of a channel after an event; `none` where it throws.
abbrev pub Replay : Type 0
Replay = (channel after_event : String) → Option (List VortexEvent)

-- A handler goes on with `A`, or stops with its last calls.
pub data Verdict {ℓ} (A : Type ℓ) : Type ℓ where
  stop : List Effect → Verdict A
  go : A → Verdict A

abbrev pub minute_ms : ℕ
minute_ms = 60000

-- `gatewayLimiter!.check(socket.id, action, limit, 60_000)`
unfoldable pub throttle : (now : ℕ) (socket action : String) (limit : ℕ) → Gateway → Gateway × Bool
throttle now socket action limit g =
    let (ws, passed) = check now socket action limit minute_ms g.limiter in
    (record g { limiter = ws }, passed)
