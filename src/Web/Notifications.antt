-- ===== src/Web/Notifications.antt =====
-- apps/web/lib/notification-resolver.ts: which setting decides on a notification.
use vortex_reloaded.Base.{
  String, ◌≡◌, refl, Bool, true, false, ◌&&◌, List, [], ◌∷◌, ◌++◌, Option, none, some, arith, find,
  filter, if◌then◌else◌, str_eq, All, filter-append,
}

pub data NotificationMode : Type 0 where
  all mentions muted : NotificationMode

pub data NotificationEventType : Type 0 where
  message mention : NotificationEventType

pub record NotificationSetting : Type 0 where
  pub user_id : String
  pub mode : NotificationMode
  pub server_id : Option String
  pub channel_id : Option String
  pub thread_id : Option String

pub record ResolvedNotification : Type 0 where
  pub mode : NotificationMode
  pub should_push : Bool
  pub should_badge : Bool

-- An id that is null or empty counts as none.
abbrev is_unset : Option String → Bool
is_unset none = true
is_unset (some s) = str_eq s ""

abbrev is_id : Option String → Option String → Bool
is_id (some a) (some b) = str_eq a b
is_id _ _ = false

abbrev own_rows : String → List NotificationSetting → List NotificationSetting
own_rows user = filter (λ r. str_eq r.user_id user)

-- The override of one level, which is asked for only if its id is set.
unfoldable pub override :
    Option String
    → (NotificationSetting → Bool)
    → List NotificationSetting
    → Option NotificationSetting
override id matches rows = if is_unset id then none else find matches rows

abbrev mode_or : Option NotificationSetting → NotificationMode → NotificationMode
mode_or none m = m
mode_or (some r) m = r.mode

abbrev pub notifies : NotificationMode → NotificationEventType → Bool
notifies all e = true
notifies mentions mention = true
notifies mentions message = false
notifies muted e = false

unfoldable pub resolve_notification :
    (user : String) (server channel thread : Option String)
    → NotificationEventType
    → List NotificationSetting
    → (global_default : NotificationMode) → ResolvedNotification
unfolding override
resolve_notification user server channel thread event settings global_default =
    let rows = own_rows user settings in
    let of_thread = override thread (λ r. is_id r.thread_id thread) rows in
    let of_channel =
      override channel (λ r. is_id r.channel_id channel && is_unset r.thread_id) rows in
    let of_server =
      override server
        (λ r. is_id r.server_id server && (is_unset r.channel_id && is_unset r.thread_id)) rows in
    let of_all =
      find (λ r. is_unset r.server_id && (is_unset r.channel_id && is_unset r.thread_id)) rows in
    let mode =
      mode_or of_thread (mode_or of_channel (mode_or of_server (mode_or of_all global_default))) in
    record { mode = mode; should_push = notifies mode event; should_badge = notifies mode event }

foreign-filter :
    (user : String) (rows : List NotificationSetting)
    → All (λ r. str_eq r.user_id user ≡ false) rows
    → own_rows user rows ≡ []
foreign-filter user [] h = refl
foreign-filter user (r ∷ rows) h = ground (arith, foreign-filter user rows h.1)

-- The settings of other users, wherever they stand among the rows, change no decision.
pub resolve_notification-foreign :
    (user : String) (server channel thread : Option String) (event : NotificationEventType)
    (before foreign after : List NotificationSetting) (global_default : NotificationMode)
    → All (λ r. str_eq r.user_id user ≡ false) foreign
    → resolve_notification user server channel thread event
        (before ++ (foreign ++ after))
        global_default
      ≡ resolve_notification user server channel thread event (before ++ after) global_default
unfolding resolve_notification
resolve_notification-foreign user server channel thread event before foreign after global_default
      h =
    rw (
      filter-append (λ r. str_eq r.user_id user) before (foreign ++ after),
      filter-append (λ r. str_eq r.user_id user) before after,
      filter-append (λ r. str_eq r.user_id user) foreign after,
      foreign-filter user foreign h,
    )
