-- ===== src/Analytics/Message.antt =====
-- The environment that every message carries, buildMessageContext of analytics/client.go, with
-- MessageContext of provider/provider.go. A nil map of fields is `none`.
pub mod Extra
use event_spec.Prelude.{
  Bool, true, false, ◌||◌, Option, none, some, List, [], ◌∷◌, String, Map, insert, any,
  if◌then◌else◌, ◌==◌,
}
use event_spec.Prelude.Values.{Value, Fields, string, object}
use event_spec.Hooks.{AnalyticsContext}

-- type MessageContext
pub record MessageContext : Type 0 where
  pub library : Option Fields
  pub app : Option Fields
  pub device : Option Fields
  pub os : Option Fields
  pub network : Option Fields
  pub screen : Option Fields
  pub locale : String
  pub timezone : String
  pub user_agent : String
  pub ip_address : String
  pub extra : Map Value

abbrev pub empty_message_context : MessageContext
empty_message_context = record {
  library = none;
  app = none;
  device = none;
  os = none;
  network = none;
  screen = none;
  locale = "";
  timezone = "";
  user_agent = "";
  ip_address = "";
  extra = [];
}

-- `extra[k] = v`
abbrev pub add_extra : String → Value → MessageContext → MessageContext
add_extra k v mc = record mc { extra = insert k v mc.extra }

-- the cases of the switch, for a value that is a string
unfoldable pub place_string : String → String → MessageContext → MessageContext
place_string k s mc =
    if (k == "ip_address") || (k == "ip")
    then record mc { ip_address = s }
    else if k == "user_agent"
    then record mc { user_agent = s }
    else if k == "locale"
    then record mc { locale = s }
    else if k == "timezone"
    then record mc { timezone = s }
    else add_extra k (string s) mc

-- the cases of the switch, for a value that is a map
unfoldable pub place_map : String → Fields → MessageContext → MessageContext
place_map k m mc =
    if k == "library"
    then record mc { library = some m }
    else if k == "app"
    then record mc { app = some m }
    else if k == "device"
    then record mc { device = some m }
    else if k == "os"
    then record mc { os = some m }
    else if k == "network"
    then record mc { network = some m }
    else if k == "screen"
    then record mc { screen = some m }
    else add_extra k (object m) mc

unfoldable pub place : String → Value → MessageContext → MessageContext
place k (string s) mc = place_string k s mc
place k (object m) mc = place_map k m mc
place k v mc = add_extra k v mc

unfoldable pub place_all : Map Value → MessageContext → MessageContext
place_all [] mc = mc
place_all ((k, v) ∷ attributes) mc = place_all attributes (place k v mc)

-- func buildMessageContext
unfoldable pub build_message_context : AnalyticsContext → MessageContext
build_message_context ctx = place_all ctx.attributes empty_message_context
