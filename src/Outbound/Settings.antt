-- ===== src/Outbound/Settings.antt =====
-- core/outbound/build.go: `buildOutboundSettings`, the protocol and the settings of an outbound of
-- api/panel/server.go. JSON objects are lists of their fields.
use ppanel_node.Base.{
  Option, none, some, List, [], ◌∷◌, ◌++◌, String, Bool, true, false, ◌||◌, ◌&&◌, not,
  if◌then◌else◌, ◌≡◌, refl,
}
use ppanel_node.Base.Eq.{◌==◌, string_eq}
use ppanel_node.Base.Int.{ℤ, pos, int_eq, int_lt}
use ppanel_node.Base.Map.{Map, lookup}
use ppanel_node.Base.Text.{trim_space, to_lower}

pub record Outbound : Type 0 where
  pub name : String
  pub protocol : String
  pub address : String
  pub port : ℤ
  pub user : String
  pub password : String
  pub uuid : String
  pub cipher : String
  pub security : String
  pub sni : String
  pub allow_insecure : Bool
  pub fingerprint : String
  pub transport : String
  pub host : String
  pub path : String
  pub service_name : String
  pub flow : String
  pub uot : Bool
  pub uot_version : ℤ
  pub congestion_controller : String
  pub udp_stream : Bool
  pub reduce_rtt : Bool
  pub heartbeat : ℤ
  pub reality_public_key : String
  pub reality_short_id : String
  pub spider_x : String
  pub settings : String
  pub stream_settings : String
  pub rules : List String

pub data Value : Type 0 where
  text : String → Value
  number : ℤ → Value
  flag : Bool → Value

-- Settings that the panel gives as JSON, or that the code builds.
pub data Settings : Type 0 where
  raw : String → Settings
  object : Map String Value → Settings

-- `invalid` is the error; without settings the outbound is skipped.
pub data BuiltSettings : Type 0 where
  invalid : BuiltSettings
  skipped : BuiltSettings
  with_settings : String → Settings → BuiltSettings

unfoldable pub normalize_outbound_protocol : String → String
unfolding to_lower trim_space
normalize_outbound_protocol protocol =
    let p = to_lower (trim_space protocol) in
    if p == "direct"
    then "freedom"
    else if p == "reject" || p == "block"
    then "blackhole"
    else if p == "hysteria2"
    then "hysteria"
    else p

-- `firstNonEmpty` of two values
unfoldable pub first_non_empty : String → String → String
unfolding trim_space
first_non_empty v w = if trim_space v == "" then trim_space w else trim_space v

abbrev server : Outbound → Map String Value
server o = ("address", text (trim_space o.address)) ∷ ("port", number o.port) ∷ []

abbrev when : Bool → Map String Value → Map String Value
when b m = if b then m else []

abbrev credentials : Outbound → Map String Value
credentials o =
    when (not (trim_space o.user == ""))
      (("user", text (trim_space o.user)) ∷ ("pass", text o.password) ∷ [])

abbrev uot_version_of : ℤ → ℤ
uot_version_of v = if v == pos 0 then pos 2 else v

-- `settings["uot"] = true` stands before the test of `item.UoT`.
abbrev shadowsocks_settings : Outbound → Map String Value
shadowsocks_settings o =
    ("method", text (first_non_empty o.cipher "chacha20-ietf-poly1305"))
    ∷ ("password", text o.password)
    ∷ ("uot", flag (if o.uot then o.uot else true))
    ∷ ("uotVersion", number (uot_version_of o.uot_version))
    ∷ []

abbrev flow_settings : String → Map String Value
flow_settings flow = when (not (flow == "") && not (flow == "none")) (("flow", text flow) ∷ [])

abbrev tuic_settings : Outbound → Map String Value
tuic_settings o =
    (("id", text (first_non_empty o.uuid o.password)) ∷ ("password", text o.password) ∷ [])
    ++ (when (not (trim_space o.congestion_controller == ""))
          (("congestionControl", text (trim_space o.congestion_controller)) ∷ [])
        ++ ((("udpStream", flag o.udp_stream) ∷ ("zeroRttHandshake", flag o.reduce_rtt) ∷ [])
            ++ when (int_lt (pos 0) o.heartbeat) (("heartbeat", number o.heartbeat) ∷ [])))

-- The settings by protocol, none for those that the default case skips.
unfoldable pub protocol_settings : String → Outbound → Option (Map String Value)
unfolding first_non_empty trim_space
protocol_settings protocol o =
    if protocol == "freedom" || protocol == "blackhole"
    then some []
    else if protocol == "http" || protocol == "socks"
    then some (server o ++ credentials o)
    else if protocol == "shadowsocks"
    then some (server o ++ shadowsocks_settings o)
    else if protocol == "trojan" || protocol == "anytls"
    then some (server o ++ (("password", text o.password) ∷ []))
    else if protocol == "vmess"
    then some (
        server o
        ++ (("id", text (first_non_empty o.uuid o.password))
            ∷ ("security", text (first_non_empty o.cipher "auto"))
            ∷ []))
    else if protocol == "vless"
    then some (
        server o
        ++ ((("id", text (first_non_empty o.uuid o.password)) ∷ ("encryption", text "none") ∷ [])
            ++ flow_settings (trim_space o.flow)))
    else if protocol == "tuic"
    then some (server o ++ tuic_settings o)
    else if protocol == "hysteria"
    then some (("version", number (pos 2)) ∷ server o)
    else none

abbrev of_object : String → Option (Map String Value) → BuiltSettings
of_object protocol none = skipped
of_object protocol (some fields) = with_settings protocol (object fields)

-- `valid_json` is `json.Valid`. An outbound without a protocol is skipped by the caller.
unfoldable pub build_outbound_settings : (String → Bool) → Outbound → BuiltSettings
unfolding normalize_outbound_protocol protocol_settings
build_outbound_settings valid_json o =
    let protocol = normalize_outbound_protocol o.protocol in
    if trim_space o.settings == ""
    then of_object protocol (protocol_settings protocol o)
    else if valid_json (trim_space o.settings)
    then (if protocol == "" then skipped else with_settings protocol (raw (trim_space o.settings)))
    else invalid

-- UDP over TCP of a shadowsocks outbound is on, whatever the panel says.
pub shadowsocks_uot : (o : Outbound) → lookup "uot" (shadowsocks_settings o) ≡ some (flag true)
unfolding lookup
shadowsocks_uot o = uot_on o.uot
  where
    uot_on : (b : Bool) → some (flag (if b then b else true)) ≡ some (flag true)
    uot_on true = refl
    uot_on false = refl
