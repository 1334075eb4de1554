-- ===== src/Signal/ChannelAccess.antt =====
-- apps/signal/src/channel-access.ts: which of the requested channels a user may join. The call of
-- the web app is a parameter; its time limit shows as the answer `failed`.
pub mod Laws
pub mod Backed
use text.Mathlib.Text.{starts_with}
use Prim.Native.String.{len, slice}
use vortex_reloaded.Base.{
  String, Bool, true, false, not, List, [], ◌∷◌, ◌++◌, Option, none, some, filter, if◌then◌else◌,
  str_eq,
}
use vortex_reloaded.Base.Sets.{has}

abbrev pub user_channel_prefix : String
user_channel_prefix = "user:"

pub record ChannelAccessConfig : Type 0 where
  pub web_app_url : String
  pub secret : String

-- What became of the request: it threw or timed out, its status was not ok, its body had no array
-- `allowed`, or it had one, in which an element that is no text is `none`.
pub data Response : Type 0 where
  failed : Response
  not_ok : Response
  malformed : Response
  answered : List (Option String) → Response

abbrev pub Fetch : Type 0
Fetch = ChannelAccessConfig → (user : String) → (channels : List String) → Response

unfoldable pub is_user_channel : String → Bool
is_user_channel id = starts_with id user_channel_prefix

unfoldable pub is_own_channel : (user id : String) → Bool
unfolding is_user_channel
is_own_channel user id =
    if is_user_channel id then str_eq (slice id (len user_channel_prefix) (len id)) user else false

-- The elements that are texts.
unfoldable pub texts : List (Option String) → List String
texts [] = []
texts (none ∷ xs) = texts xs
texts (some x ∷ xs) = x ∷ texts xs

unfoldable pub granted_dm : Response → (dm_channels : List String) → List String
granted_dm failed ids = []
granted_dm not_ok ids = []
granted_dm malformed ids = []
granted_dm (answered xs) ids = filter (λ id. has id (texts xs)) ids

unfoldable pub check_channel_access :
    Option ChannelAccessConfig → Fetch → (user : String) → (channels : List String) → List String
unfolding granted_dm is_own_channel
check_channel_access config fetch user ids =
    let allowed = filter (is_own_channel user) ids in
    let dm_channels = filter (λ id. not (is_user_channel id)) ids in
    elim dm_channels [
      | [] ↦ allowed
      | d ∷ ds ↦ elim config [
        | none ↦ allowed
        | some c ↦ allowed ++ granted_dm (fetch c user (d ∷ ds)) (d ∷ ds)
      ]
    ]
