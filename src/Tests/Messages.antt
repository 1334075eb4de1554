-- ===== src/Tests/Messages.antt =====
-- Direct messages at concrete inputs: two channels, one of them an encrypted group.
use vortex_reloaded.Base.{
  String, ◌≡◌, ◌≢◌, refl, ◌↔◌, ◌⊎◌, true, false, List, [], ◌∷◌, Option, none, some, arith, str_eq,
  if◌then◌else◌,
}
use vortex_reloaded.Base.Sets.{has, add, add_all}
use vortex_reloaded.Web.Blocking.{derive_blocked_user_ids}
use vortex_reloaded.Signal.Value.{Value, obj, str, num, property, no_property}
use vortex_reloaded.Signal.ChannelAccess.{
  ChannelAccessConfig, check_channel_access, is_user_channel,
}
use vortex_reloaded.Signal.ChannelAccess.Laws.{own_channel}
use vortex_reloaded.Web.Dm.{
  DmChannel, DmChannelMember, Database, Caller, legacy_ecdh, opened, is_member,
}
use vortex_reloaded.Web.Dm.Channels.{CreateRequest, create_channel}
use vortex_reloaded.Web.Dm.Members.{RemoveRequest, remove_member}
use vortex_reloaded.Web.Dm.Messages.{SendRequest, send_message, text_of, reply_to_of}
use vortex_reloaded.Web.Dm.Rooms.{asks}
use vortex_reloaded.Web.Dm.Service.{Call, creates, adds, removes, sends, edits, serve_all}
use vortex_reloaded.Web.Dm.Sending.{send_message-refused}
use vortex_reloaded.Web.Dm.Pairs.{IsPaired, serve_all-IsPaired}
use vortex_reloaded.Web.Dm.Access.{check_channel_access-is_member}
use vortex_reloaded.Web.Dm.Removal.{remove_member-denied}
use vortex_reloaded.Web.Dm.Opening.{IsShared, create_channel-existing}

abbrev plain : DmChannel
plain = record {
  id = "c1";
  is_group = false;
  owner_id = some "ann";
  is_encrypted = false;
  encryption_scheme = legacy_ecdh;
  encryption_key_version = 1;
}

abbrev sealed_group : DmChannel
sealed_group = record {
  id = "g1";
  is_group = true;
  owner_id = some "ann";
  is_encrypted = true;
  encryption_scheme = legacy_ecdh;
  encryption_key_version = 1;
}

abbrev row : String → String → DmChannelMember
row c u = record { dm_channel_id = c; user_id = u }

abbrev two_channels : Database
two_channels = record {
  channels = plain ∷ sealed_group ∷ [];
  members = row "c1" "ann" ∷ row "c1" "bob" ∷ row "g1" "ann" ∷ row "g1" "bob" ∷ row "g1" "eve" ∷ [];
  messages = [];
  reactions = [];
}

abbrev caller : String → Caller
caller u = record { user = some u; limited = false; fails = λ q. false }

abbrev as_is : String → String
as_is s = s

abbrev envelope : Value
envelope = obj (
    property "kind" (str "dm-e2ee") (
      property "version" (num 1) (
        property "algorithm" (str "AES-GCM") (
          property "iv" (str "aa")
            (property "ciphertext" (str "bb") (property "keyVersion" (num 1) no_property))))))

abbrev parse : String → Option Value
parse s = if str_eq s "E" then some envelope else none

abbrev body_of : String → Value
body_of s = obj (property "content" (str s) no_property)

abbrev sealed_message : SendRequest
sealed_message = record {
  caller = caller "ann";
  channel_id = "g1";
  body = some (body_of "E");
  fresh = "m1";
  friendships = [];
}

abbrev open_message : SendRequest
open_message = record {
  caller = caller "ann";
  channel_id = "g1";
  body = some (body_of "hello");
  fresh = "m2";
  friendships = [];
}

send_message-refused_example :
    ((send_message as_is parse open_message two_channels).database ≡ two_channels)
    × ((send_message as_is parse open_message two_channels).effects ≡ [])
send_message-refused_example =
    send_message-refused as_is parse open_message two_channels 400 refl
      (unfold send_message text_of reply_to_of has derive_blocked_user_ids in refl)

abbrev day : List Call
day =
    creates (record {
      caller = caller "eve";
      is_json = true;
      user_ids = "bob" ∷ [];
      encrypted = true;
      fresh = "c2";
    })
    ∷ adds (record { caller = caller "bob"; channel_id = "g1"; is_json = true; user_id = "zoe" })
    ∷ sends sealed_message
    ∷ sends open_message
    ∷ edits (record {
      caller = caller "ann";
      channel_id = "g1";
      message_id = "m1";
      body = some (body_of "hi");
    })
    ∷ removes (record { caller = caller "ann"; channel_id = "g1"; user_id = some "eve" })
    ∷ []

abbrev no_rows : Database
no_rows = record { channels = []; members = []; messages = []; reactions = [] }

serve_all-IsPaired_example : IsPaired (serve_all as_is as_is parse day no_rows)
serve_all-IsPaired_example = serve_all-IsPaired as_is as_is parse day no_rows (λ c. refl)

abbrev web : ChannelAccessConfig
web = record { web_app_url = "http://web"; secret = "s" }

check_channel_access-is_member_example :
    (has "g1" (
        check_channel_access
          (some web)
          (asks (some "s") false two_channels)
          "eve"
          ("g1" ∷ "c1" ∷ []))
      ≡ true)
    ↔ ((has "g1" ("g1" ∷ "c1" ∷ []) ≡ true)
        × (("g1" ≡ own_channel "eve")
            ⊎ ((is_user_channel "g1" ≡ false)
                × (◌≢◌ {A = String} "g1" "")
                × (is_member "g1" "eve" two_channels ≡ true))))
check_channel_access-is_member_example =
    check_channel_access-is_member web two_channels "eve" ("g1" ∷ "c1" ∷ []) "g1" (λ e. cc e)
      (λ e. cc e) (unfold is_user_channel in omega arith)

abbrev removal : RemoveRequest
removal = record { caller = caller "ann"; channel_id = "g1"; user_id = some "eve" }

remove_member-denied_example :
    has "g1" (
      check_channel_access
        (some web)
        (asks (some "s") false (remove_member removal two_channels).database)
        "eve"
        ("g1" ∷ []))
    ≡ false
remove_member-denied_example =
    remove_member-denied removal two_channels "ann" (some "s") false web ("g1" ∷ []) refl
      (unfold remove_member in refl) (unfold is_user_channel in refl)

abbrev opening : CreateRequest
opening = record {
  caller = caller "bob";
  is_json = true;
  user_ids = "ann" ∷ [];
  encrypted = false;
  fresh = "c9";
}

create_channel-existing_example :
    ((create_channel opening two_channels).database ≡ two_channels)
    × ((ch : DmChannel) × (ch.id ≡ "c1") × IsShared false "bob" "ann" ch two_channels)
create_channel-existing_example =
    create_channel-existing opening two_channels "bob" "ann" "c1" [] refl refl
      (unfold create_channel has add add_all in refl)

-- One who names himself first is given back a channel with somebody else.
own_name_first :
    (create_channel (record opening { user_ids = "bob" ∷ "eve" ∷ [] }) two_channels).reply
    ≡ opened "c1" true
unfolding create_channel has add_all add
own_name_first = refl
