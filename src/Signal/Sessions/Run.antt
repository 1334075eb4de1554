-- ===== src/Signal/Sessions/Run.antt =====
-- The session checks of all sockets with the calls between them, in any order. A check that waits for
-- its verification is kept in a list until it goes on.
use vortex_reloaded.Base.{ℕ, zero, suc, ◌≤◌, String, Bool, List, [], ◌∷◌, Option, none, some}
use vortex_reloaded.Signal.Revocation.{RevocationRedis, revoke, prune_expired}
use vortex_reloaded.Signal.Sessions.{
  Jwt, Validated, Verdict, Begun, decided, verifying, Server, forget, validate_begin,
  validate_finish,
}

pub record Waiting : Type 0 where
  pub socket : String
  pub token : String
  pub cached : Option Validated

-- `finishes n`: the n-th of the waiting checks goes on.
pub data Op : Type 0 where
  revokes : (user : String) → Op
  prunes : Op
  disconnects begins : (socket : String) → Op
  finishes : ℕ → Op

abbrev pub nth : ℕ → List Waiting → Option Waiting
nth n [] = none
nth zero (w ∷ ws) = some w
nth (suc n) (w ∷ ws) = nth n ws

abbrev pub without_nth : ℕ → List Waiting → List Waiting
without_nth n [] = []
without_nth zero (w ∷ ws) = ws
without_nth (suc n) (w ∷ ws) = w ∷ without_nth n ws

-- The times of the operations do not go back.
abbrev pub IsTimed : (from until : ℕ) → List (ℕ × Op) → Type 0
IsTimed from until [] = from ≤ until
IsTimed from until ((now, op) ∷ ops) = (from ≤ now) × IsTimed now until ops

module _ (c : RevocationRedis) where
  pub record World : Type 0 where
    pub server : Server c
    pub waiting : List Waiting

  -- The world after an operation, with the answer that a check of a socket gives.
  abbrev pub Answered : Type 0
  Answered = World × Option (String × Verdict)

  unfoldable pub begun : (socket : String) → World → Server c × Begun → Answered
  begun socket w (s, decided verdict) = (record w { server = s }, some (socket, verdict))
  begun socket w (s, verifying token cached) = (
    record {
      server = s;
      waiting = record { socket = socket; token = token; cached = cached } ∷ w.waiting;
    },
    none,
  )

module _ (c : RevocationRedis) (j : Jwt) (has_jwks : Bool) (token_of : String → Option String) where
  unfoldable pub finished : (now n : ℕ) → Option Waiting → World c → Answered c
  finished now n none w = (w, none)
  finished now n (some p) w =
      let (s, verdict) =
        validate_finish c j has_jwks token_of now p.socket p.token p.cached w.server in
      (record { server = s; waiting = without_nth n w.waiting }, some (p.socket, verdict))

  unfoldable pub step : (now : ℕ) → Op → World c → Answered c
  unfolding begun finished
  step now (revokes user) w =
      (record w { server = record w.server { store = (revoke c now user w.server.store).0 } }, none)
  step now prunes w =
      (record w { server = record w.server { store = prune_expired c now w.server.store } }, none)
  step now (disconnects socket) w = (record w { server = forget c socket w.server }, none)
  step now (begins socket) w =
      begun c socket w (validate_begin c j has_jwks token_of now socket w.server)
  step now (finishes n) w = finished now n (nth n w.waiting) w

  unfoldable pub run : List (ℕ × Op) → World c → World c
  run [] w = w
  run ((now, op) ∷ ops) w = run ops (step now op w).0
