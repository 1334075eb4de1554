-- ===== src/Web/Dm/Rooms.antt =====
-- apps/web/app/api/internal/gateway/channel-access/route.ts: which rooms of the gateway a user may join,
-- as the signal server asks it.
use text.Mathlib.Text.{starts_with}
use Prim.Native.String
use Prim.Native.String.{len, slice}
use vortex_reloaded.Base.{
  String, Bool, false, not, List, [], ◌∷◌, ◌++◌, Option, none, some, filter, map, length, ltb,
  if◌then◌else◌, str_eq,
}
use vortex_reloaded.Base.Sets.{has}
use vortex_reloaded.Signal.ChannelAccess.{
  Response, not_ok, answered, Fetch, is_own_channel, is_user_channel,
}
use vortex_reloaded.Web.Dm.{Database, channels_of}

-- The header is a well-formed one with the secret.
abbrev pub verify_bearer_token : (header : Option String) → (secret : String) → Bool
verify_bearer_token none secret = false
verify_bearer_token (some h) secret =
    if str_eq secret ""
    then false
    else if starts_with h "Bearer "
    then str_eq (slice h (len "Bearer ") (len h)) secret
    else false

-- The texts of the body that are not empty.
abbrev pub requested : List String → List String
requested = filter (λ id. not (str_eq id ""))

-- The query that throws is answered with an error. An empty list asks nothing.
unfoldable pub joinable :
    (throws : Bool) → (user : String) → (ids : List String) → Database → Response
unfolding is_own_channel is_user_channel
joinable throws user ids db =
    let own = filter (is_own_channel user) ids in
    elim (filter (λ id. not (is_user_channel id)) ids) [
      | [] ↦ answered (map some own)
      | d ∷ ds ↦
          if throws
          then not_ok
          else answered (map some (own ++ filter (λ id. has id (channels_of user db)) (d ∷ ds)))
    ]

-- The route, with its own `secret`; the body is the signal server's, so it has a user and an array of
-- texts.
unfoldable pub post_channel_access :
    (secret header : Option String)
    → (throws : Bool) → (user : String) → (ids : List String) → Database
    → Response
unfolding joinable
post_channel_access secret header throws user ids db = elim secret [
  | none ↦ not_ok
  | some s ↦
      if str_eq s ""
      then not_ok
      else if not (verify_bearer_token header s)
      then not_ok
      else if str_eq user ""
      then not_ok
      else if ltb 100 (length ids)
      then not_ok
      else joinable throws user (requested ids) db
]

-- The call as `checkChannelAccess` makes it, where the request arrives.
abbrev pub asks : (secret : Option String) → (throws : Bool) → Database → Fetch
asks secret throws db c user ids =
    post_channel_access secret (some (String.◌++◌ "Bearer " c.secret)) throws user ids db
